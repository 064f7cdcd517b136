-- ===== src/Server/Enqueue.antt =====
-- A request that `handle_connection` offers to the log (src/server.c, src/log.c), in terms of the
-- bounded queues that the log holds.
use to_do_list_public.Common.{
  arith, ◌≡◌, ◌≢◌, ◌∙◌, ap, Bool, true, false, refl, ◌&&◌, some, if◌then◌else◌, pos, minus_one,
  Bool-cases, inl, inr,
}
use to_do_list_public.Text.{Bytes}
use to_do_list_public.State.{
  Server, is_mode, is_state, passive_rep, passive_backup, active_rep, active_recover,
}
use to_do_list_public.Log.{LogMsgType, enqueue}
use to_do_list_public.Log.Store.{null, LogState, ok, store_node}
use to_do_list_public.Log.Links.{val_of}
use to_do_list_public.Log.Chain.{has}
use to_do_list_public.Log.Refines.{Contents, Models, abs_enqueue, enqueue_refines}
use to_do_list_public.Log.Full.{
  is_full, abs_enqueue_code, store_node-next, store_node-val, store_node-Models,
}
use to_do_list_public.Server.{World, is_backlog_now, enqueue_client_req}
use to_do_list_public.Server.Parse.{Incoming}
use to_do_list_public.Server.Connection.{Connected, enqueued, dropped, marked, after_enqueue}

-- The log holds the contents, and the new node is none of theirs.
pub record IsReady (w : World) (c : Contents) : Type 0 where
  pub models : Models w.log c
  pub real : w.new.node ≢ null
  pub out_nrl : has w.new.node c.nrl.items ≡ false
  pub out_ctrl : has w.new.node c.ctrl.items ≡ false

abbrev pub is_passive_backup : Server → Bool
is_passive_backup s = is_mode s.rep_mode passive_rep && is_state s.state passive_backup

abbrev pub is_recovering : Server → Bool
is_recovering s = is_mode s.rep_mode active_rep && is_state s.state active_recover

-- A connection that ends with the request `m` offered to a queue: it is behind the other requests of
-- the queue, marked as one of the backlog if the server is a passive backup, or dropped where the
-- queue is full. The log holds the queues after that, with the request's address in the new node.
pub record Offered (c : Contents) (queue : LogMsgType) (m : Incoming) (payload : Bytes)
    (prune closes : Bool) (w : World) (o : Connected) : Type 0 where
  pub log : LogState
  pub contents : Models log (abs_enqueue c w.new.node queue).1
  pub request : val_of log.heap w.new.node ≡ some w.new.client
  pub run : o ≡ (
      if is_full c queue
      then dropped prune (record w { log = log })
      else enqueued
          (record m { ctx = record m.ctx { is_backlog = is_passive_backup w.server } })
          payload
          prune
          closes
          (record w { log = log }))

-- what `handle_connection` does with a request for a queue
abbrev pub to_log : Incoming → Bytes → LogMsgType → (prune closes : Bool) → World → Connected
to_log m payload queue prune closes w =
    after_enqueue (marked w m) payload prune closes w
      (enqueue w.new.node queue (store_node w.new w.log))

pub and_true : (b : Bool) → b && true ≡ b
and_true b = ground arith

marked_lem :
    (w : World) (m : Incoming)
    → marked w m ≡ record m { ctx = record m.ctx { is_backlog = is_passive_backup w.server } }
unfolding enqueue_client_req is_backlog_now
marked_lem w m = refl

pub to_log-Offered :
    (m : Incoming) (payload : Bytes) (queue : LogMsgType) (prune closes : Bool) (w : World)
    (c : Contents)
    → IsReady w c
    → Offered c queue m payload prune closes w (to_log m payload queue prune closes w)
to_log-Offered m payload queue prune closes w c ready =
    let s = store_node w.new w.log in
    let (r, log, ran, (code, models, kept)) =
      enqueue_refines s c
        (store_node-Models w.new w.log c ready.models ready.out_nrl ready.out_ctrl) w.new.node
        (store_node-next w.new w.log ready.real) ready.out_nrl ready.out_ctrl queue in
    record {
      log = log;
      contents = models;
      request = kept w.new.node ∙ store_node-val w.new w.log ready.real;
      run =
          ap (after_enqueue (marked w m) payload prune closes w) ran
          ∙ ap (λ k. after_enqueue (marked w m) payload prune closes w (ok k log))
              (code ∙ abs_enqueue_code c w.new.node queue)
          ∙ ended log;
    }
  where
    ended :
        (log : LogState)
        → after_enqueue
            (marked w m)
            payload
            prune
            closes
            w
            (ok (if is_full c queue then minus_one else pos 0) log)
          ≡ (if is_full c queue
              then dropped prune (record w { log = log })
              else enqueued
                  (record m { ctx = record m.ctx { is_backlog = is_passive_backup w.server } })
                  payload
                  prune
                  closes
                  (record w { log = log }))
    ended log = elim (Bool-cases (is_full c queue)) [
      | inl full ↦ rw full refl
      | inr room ↦
          rw room
            (ap (λ k. enqueued k payload prune closes (record w { log = log })) (marked_lem w m))
    ]
