-- ===== src/Worker.antt =====
-- The two worker threads (`run` of src/worker.c): what one round of the loop does with the two
-- queues of the log, of which src/log.c keeps the order. No other thread takes a step during a
-- round. The two handlers are the function pointers that `start_worker_threads` stores, and so
-- parameters.
pub mod Laws
pub mod TakeOver
use to_do_list_public.Common.{
  ℕ, zero, suc, ◌+◌, Bool, true, false, not, ◌&&◌, ◌||◌, List, [], ◌∷◌, ◌++◌, if◌then◌else◌,
}
use to_do_list_public.State.{
  Server, Outcome, done, aborts, hangs, ◌>>=◌, set_state, is_mode, is_state, passive_rep,
  passive_backup, passive_preprimary, passive_primary, quiesce,
}
use to_do_list_public.Storage.{ClientCtx, is_msg, msg_chk_pt}

-- The run state, `is_prune`, the requests in the two queues, those that were given to a handler and
-- those that were freed unhandled, the earliest first.
pub record Pool : Type 0 where
  pub server : Server
  pub is_prune : Bool
  pub nrl : List ClientCtx
  pub ctrl : List ClientCtx
  pub handled : List ClientCtx
  pub freed : List ClientCtx

abbrev pub Handler : Type 0
Handler = ClientCtx → Server → Outcome Server

unfoldable pub should_nrl_thrd_sleep : Server → Bool
should_nrl_thrd_sleep s = is_mode s.rep_mode passive_rep && is_state s.state passive_backup

-- a request that is handed to a handler
unfoldable pub handle : Handler → ClientCtx → Pool → Outcome Pool
handle hdl ctx p = do
  s ← hdl ctx p.server
  done (record p { server = s; handled = p.handled ++ (ctx ∷ []) })

unfoldable pub free_msg : ClientCtx → Pool → Pool
free_msg ctx p = record p { freed = p.freed ++ (ctx ∷ []) }

-- The loop that prunes: it dequeues until the queue is empty.
unfoldable pub prune : Handler → List ClientCtx → Pool → Outcome Pool
prune hdl [] p = done (record p { nrl = [] })
prune hdl (ctx ∷ rest) p = elim (not (is_msg ctx.req.msg_type msg_chk_pt)) [
  | true ↦ prune hdl rest (free_msg ctx p)
  | false ↦ handle hdl ctx (record p { is_prune = false }) >>= prune hdl rest
]

-- a server that is to become the primary does when its queue is empty
unfoldable pub take_over : Pool → Outcome Pool
take_over p =
    if is_mode p.server.rep_mode passive_rep
      && is_state p.server.state passive_preprimary
      && elim p.nrl [ [] ↦ true | _ ∷ _ ↦ false ]
    then (do s ← set_state passive_primary p.server; done (record p { server = s }))
    else done p

-- the first request of the queue, if the server is not quiescent
unfoldable pub handle_normal : Handler → Pool → Outcome Pool
handle_normal hdl p = elim p.nrl [
  | [] ↦ done p
  | ctx ∷ rest ↦
      if is_state p.server.state quiesce then done p else handle hdl ctx (record p { nrl = rest })
]

-- a round of the thread for normal messages
unfoldable pub run_normal : Handler → Pool → Outcome Pool
run_normal hdl p = do
  p1 ← (if p.is_prune then prune hdl p.nrl p else done p)
  if not p1.is_prune && should_nrl_thrd_sleep p1.server
      then done p1
      else take_over p1 >>= handle_normal hdl

-- the thread for normal messages, for a number of rounds
unfoldable pub rounds : Handler → ℕ → Pool → Outcome Pool
rounds hdl zero p = done p
rounds hdl (suc n) p = run_normal hdl p >>= rounds hdl n

-- a round of the thread for control messages
unfoldable pub run_control : Handler → Pool → Outcome Pool
run_control hdl p = elim p.ctrl [
  | [] ↦ done p
  | ctx ∷ rest ↦ handle hdl ctx (record p { ctrl = rest })
]
