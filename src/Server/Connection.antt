-- ===== src/Server/Connection.antt =====
-- A connection to a server: `handle_connection` of src/server.c, from the first line of a message to
-- the queue of the log or to the quiescence. The file that a payload is stored in is its contents;
-- the log is the one of Log.
use to_do_list_public.Common.{
  ℕ, zero, suc, ◌-◌, ◌^◌, Bool, not, ◌&&◌, ◌||◌, ℤ, pos, int_eq, Option, none, some, [], ◌++◌, ltb,
  leb, ◌==◌, if◌then◌else◌, length, take,
}
use to_do_list_public.Text.{Bytes}
use to_do_list_public.Socket.{SockBufRead, sock_readline}
use to_do_list_public.Protocol.{
  Strtol, Scan, max_req_fields, max_msg_size, Received, read_outside, ended, too_many, malformed,
  refused, complete, read_fields,
}
use to_do_list_public.State.{
  Server, Outcome, done, aborts, hangs, is_mode, is_state, active_rep, active_recover,
}
use to_do_list_public.Storage.{
  ClientCtx, msg_heartbeat, msg_rep_mgr, msg_quiesce_start, msg_quiesce_stop, is_msg,
}
use to_do_list_public.Log.Store.{Run, ok, fault, blocked}
use to_do_list_public.Server.{
  World, write_client_responce, enqueue_client_req, handle_quiesce_command,
}
use to_do_list_public.Server.Parse.{Incoming, parse_kv}
use Prim.Native.String.{String}

-- What the loop over the lines of a payload gives: the payload and the reader behind it, a read or a
-- copy outside of a buffer, or more rounds than the fuel.
pub data Collected : Type 0 where
  collected : Bytes → SockBufRead → Collected
  collected_outside : Collected
  unfinished : Collected

abbrev pub with_line : Bytes → Collected → Collected
with_line line (collected rest r) = collected (line ++ rest) r
with_line line collected_outside = collected_outside
with_line line unfinished = unfinished

-- The loop with `toread` bytes to go: a line that is longer is cut, and the loop ends.
unfoldable pub collect : ℕ → ℕ → SockBufRead → Collected
collect zero toread r = unfinished
collect (suc fuel) toread r = elim (sock_readline max_msg_size r) [
  | none ↦ collected_outside
  | some (line, r') ↦
      let rest = with_line line (collect fuel (toread - length line) r') in
      if leb toread (length line) then collected (take toread line) r' else rest
]

-- `toread` is an `int`: a size that is none makes a copy of a negative length.
unfoldable pub read_payload : ℕ → ℕ → SockBufRead → Collected
read_payload fuel size r =
    if size == 0
    then collected [] r
    else (if ltb size (2 ^ 31) then collect fuel size r else collected_outside)

-- How the handling of a connection ends.
pub data Connected : Type 0 where
  -- the return of -1, after the connection is closed
  fails : World → Connected
  -- the request and its payload are in the log, with whether the workers are to prune, and whether
  -- the connection is closed at once
  enqueued : Incoming → Bytes → (prune closes : Bool) → World → Connected
  -- the return of -1 after `enqueue` has failed: the connection is closed and the request freed; the
  -- workers may have been told to prune before
  dropped : (prune : Bool) → World → Connected
  -- a command that starts or ends the quiescence was obeyed, and the connection closed
  obeyed : World → Connected
  -- an assertion fails
  aborted : Connected
  -- a wait, or the loop over the payload, that lasts for ever or longer than the fuel
  stuck : Connected
  -- memory outside of an array is used
  outside : Connected

abbrev pub closes_at_once : Server → ClientCtx → Bool
closes_at_once s ctx =
    (is_mode s.rep_mode active_rep && is_state s.state active_recover)
    && (not (is_msg ctx.req.msg_type msg_heartbeat) && not (is_msg ctx.req.msg_type msg_rep_mgr))

abbrev pub after_quiesce : World → Outcome (Option Server) → Connected
after_quiesce w (done none) = fails w
after_quiesce w (done (some s)) = obeyed (record w { server = s })
after_quiesce w aborts = aborted
after_quiesce w hangs = stuck

-- the request as it stands in the log
abbrev pub marked : World → Incoming → Incoming
marked w m = record m { ctx = (enqueue_client_req w m.ctx).0 }

abbrev pub after_enqueue : Incoming → Bytes → (prune closes : Bool) → World → Run ℤ → Connected
after_enqueue m payload prune closes w (ok r log) =
    if int_eq r (pos 0)
    then enqueued m payload prune closes (record w { log = log })
    else dropped prune (record w { log = log })
after_enqueue m payload prune closes w fault = outside
after_enqueue m payload prune closes w blocked = stuck

-- a request that is read whole
unfoldable pub dispatch : Incoming → Bytes → World → Connected
dispatch m payload w =
    let ctx = m.ctx in
    if is_msg ctx.req.msg_type msg_quiesce_stop || is_msg ctx.req.msg_type msg_quiesce_start
    then after_quiesce w (handle_quiesce_command ctx.req.msg_type w.server)
    else (let (prune, run) = (enqueue_client_req w ctx).1 in
        after_enqueue (marked w m) payload prune (closes_at_once w.server ctx) w run)

abbrev pub after_payload : Incoming → World → Collected → Connected
after_payload m w (collected payload r) = dispatch m payload w
after_payload m w collected_outside = outside
after_payload m w unfinished = stuck

abbrev pub answer_fail : Incoming → String → World → Connected
answer_fail m why w = fails (write_client_responce m.ctx "FAIL" why w)

-- What follows the fields; a task that is too long has made `strlen` leave its array before.
abbrev pub respond_to : ℕ → World → Received Incoming → Connected
respond_to fuel w read_outside = outside
respond_to fuel w (ended m) = if m.overread then outside else fails w
respond_to fuel w (too_many m) =
    if m.overread then outside else answer_fail m "req had more than req num of fields" w
respond_to fuel w (malformed m) =
    if m.overread then outside else answer_fail m "Malformed Key-Value received in input" w
respond_to fuel w (refused why m) = if m.overread then outside else answer_fail m why w
respond_to fuel w (complete m r) =
    if m.overread then outside else after_payload m w (read_payload fuel m.payload_size r)

unfoldable pub handle_connection :
    Scan → Strtol → (Bytes → ℕ) → ℕ → Incoming → SockBufRead → World → Connected
handle_connection scan strtol strtoul fuel m r w =
    respond_to fuel w (read_fields scan (parse_kv strtol strtoul) max_req_fields r m)
