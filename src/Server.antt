-- ===== src/Server.antt =====
-- A server's handling of the requests in its log (src/server.c): the queue that a request goes to,
-- the execution of normal and control messages, and the responses. The connections are the list
-- of what is written to them.
pub mod Enqueue
pub mod Start
pub mod Parse
pub mod Connection
pub mod Fields
pub mod Keys
pub mod Received
pub mod Relay
pub mod Payload
mod Tests
use to_do_list_public.Common.{
  ℕ, ◌+◌, Bool, true, false, not, ◌&&◌, ◌||◌, ℤ, pos, Option, none, some, List, [], ◌∷◌, ◌++◌, leb,
  if◌then◌else◌, int_eq, is_negative, length, ◌==◌, take,
}
use to_do_list_public.Text.{Bytes, codes, crlf, line, dec, dec_int}
use to_do_list_public.Db.{HashTable, Call, returns, overflow, out_of_fuel}
use to_do_list_public.State.{
  Server, Outcome, done, aborts, hangs, RepMgrMsg, handle_rep_msg, put_in_quiesence,
  remove_from_quiesence, set_state, is_mode, is_state, state_code, passive_rep, passive_backup,
  passive_preprimary, passive_primary, active_recover, ServerState,
}
use to_do_list_public.Storage.{
  ClientCtx, Outside, MsgType, msg_add, msg_heartbeat, msg_rep_mgr, msg_send_chkpt, msg_chk_pt,
  msg_quiesce_start, msg_quiesce_stop, is_msg, handle_storage,
}
use to_do_list_public.Log.{LogMsgType, normal, control, enqueue}
use to_do_list_public.Log.Store.{LogState, Run, Allocated, store_node}
use Prim.Native.String.{String}

-- A write to a connection
pub record Response : Type 0 where
  pub fd : ℤ
  pub text : Bytes

-- The globals that a handler changes, the writes so far, the last one first, and what the next call
-- of `malloc` for a node of the log returns.
pub record World : Type 0 where
  pub server : Server
  pub table : HashTable
  pub msg_count : ℕ
  pub sent : List Response
  pub log : LogState
  pub new : Allocated

-- What a handler does: it ends, fails an assertion, waits for ever or longer than its fuel, or
-- writes outside of an array.
pub data Handled : Type 0 where
  handled : World → Handled
  aborted : Handled
  stuck : Handled
  corrupted : Handled

-- the response's text
unfoldable pub response_text : ClientCtx → String → String → ServerState → Bytes
response_text ctx status msg state =
    line "Status" (codes status)
    ++ (line "Client ID" (dec_int ctx.client_id)
        ++ (line "Request No" (dec ctx.req.req_no)
            ++ (line "Msg" (codes msg)
                ++ (if is_msg ctx.req.msg_type msg_add
                    then line "Key" (dec ctx.req.hash_key) ++ crlf
                    else (if is_msg ctx.req.msg_type msg_heartbeat
                        then codes "State: " ++ (dec (state_code state) ++ crlf)
                        else crlf)))))

abbrev pub max_length : ℕ
max_length = 8192

-- `snprintf` ends a text that fills the buffer with a 0 in its last byte. The write itself is taken
-- to succeed; a failed one is only reported.
unfoldable pub write_client_responce : ClientCtx → String → String → World → World
write_client_responce ctx status msg w =
    let text = response_text ctx status msg w.server.state in
    if length text == max_length
    then record w { sent = record { fd = ctx.fd; text = take 8191 text ++ (0 ∷ []) } ∷ w.sent }
    else (if leb (length text) max_length
        then record w { sent = record { fd = ctx.fd; text = text } ∷ w.sent }
        else w)

unfoldable pub is_backlog_now : Server → Bool
is_backlog_now s = is_mode s.rep_mode passive_rep && is_state s.state passive_backup

unfoldable pub queue_of : MsgType → LogMsgType
queue_of m =
    if is_msg m msg_heartbeat || is_msg m msg_rep_mgr || is_msg m msg_send_chkpt
    then control
    else normal

-- The request with its mark, whether the workers are told to prune the queue of normal messages, and
-- what `enqueue` does with the new node
unfoldable pub enqueue_client_req : World → ClientCtx → ClientCtx × (Bool × Run ℤ)
enqueue_client_req w ctx = (
  record ctx { is_backlog = is_backlog_now w.server },
  (
    is_msg ctx.req.msg_type msg_chk_pt && is_backlog_now w.server,
    enqueue w.new.node (queue_of ctx.req.msg_type) (store_node w.new w.log),
  ),
)

unfoldable pub handle_quiesce_command : MsgType → Server → Outcome (Option Server)
handle_quiesce_command type s =
    if is_msg type msg_quiesce_start
    then some_of (put_in_quiesence s)
    else (if is_msg type msg_quiesce_stop then some_of (remove_from_quiesence s) else done none)
  where
    some_of : Outcome Server → Outcome (Option Server)
    some_of (done s') = done (some s')
    some_of aborts = aborts
    some_of hangs = hangs

-- the run state after a call on it, in the world
abbrev pub with_server : Outcome Server → World → (World → Handled) → Handled
with_server (done s) w k = k (record w { server = s })
with_server aborts w k = aborted
with_server hangs w k = stuck

-- the first statement of `execute_msg`: a new primary has caught up when a request arrives that
-- was not in its backlog
unfoldable pub promote : ClientCtx → Server → Outcome Server
promote ctx s =
    if is_mode s.rep_mode passive_rep && is_state s.state passive_preprimary && not ctx.is_backlog
    then set_state passive_primary s
    else done s

-- the rest of `execute_msg` after `handle_storage`
unfoldable pub respond : Call (ℤ × ClientCtx) → World → Handled
respond (returns (r, ctx) t) w =
    let w1 = record w { table = t } in
    let w2 = if int_eq r (pos 0) then w1 else write_client_responce ctx "FAIL" "Check inputs" w1 in
    let w3 =
      if is_msg ctx.req.msg_type msg_heartbeat
      then w2
      else record w2 { msg_count = w2.msg_count + 1 } in
    handled (write_client_responce ctx "OK" "Success" w3)
respond overflow w = corrupted
respond out_of_fuel w = stuck

unfoldable pub execute_msg : Outside → ℕ → ClientCtx → World → Handled
execute_msg out fuel ctx w =
    with_server (promote ctx w.server) w (λ w'. respond (handle_storage out fuel ctx w'.table) w')

-- `send_checkpoint_ondemand` connects to the backups and writes to them: a parameter.
unfoldable pub execute_msg_ctrl : (World → World) → RepMgrMsg → ClientCtx → World → Handled
execute_msg_ctrl send_checkpoint_ondemand msg ctx w =
    let answer : World → Handled = λ w'. handled (write_client_responce ctx "OK" "Success" w') in
    if is_msg ctx.req.msg_type msg_rep_mgr
    then with_server (handle_rep_msg msg w.server) w answer
    else (if is_msg ctx.req.msg_type msg_send_chkpt
          && not (is_state w.server.prev_state active_recover)
        then answer (send_checkpoint_ondemand w)
        else answer w)
