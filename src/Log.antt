-- ===== src/Log.antt =====
-- The distributed log of src/log.c and include/log.h: two bounded queues of requests in one
-- structure, each a ring of linked nodes with a count and a limit, under one mutex.
-- The two halves of `enqueue` and of `dequeue` differ only in the names of the fields, so each is
-- one function on a `Queue`. The heap and the threads' commands on it are in Log/Store.antt.
pub mod Store
pub mod Links
pub mod Chain
pub mod Ring
pub mod Bounded
pub mod Refines
pub mod Full
mod Tests
use to_do_list_public.Common.{
  ℕ, ◌+◌, ◌-◌, Bool, true, false, ℤ, pos, minus_one, ltb, leb, ◌==◌, if◌then◌else◌,
}
use Store.{
  Ptr, null, LogNode, Queue, ServerLog, LogState, Cmd, pure, ◌>>=◌, ◌>>◌, load, set_next, set_prev,
  get_svr, put_svr, take_lq_lock, release_lq_lock,
}

pub data LogMsgType : Type 0 where
  invalid_log : LogMsgType
  normal : LogMsgType
  control : LogMsgType

-- `memset` to zero, the two limits, and a fresh mutex
unfoldable pub init_log_queue : ℕ → ℕ → ServerLog
init_log_queue nrl_limit ctrl_limit = record {
  nrl = record { head = null; tail = null; count = 0; limit = nrl_limit };
  ctrl = record { head = null; tail = null; count = 0; limit = ctrl_limit };
  q_mutex = false;
}

-- `exit(0)` on an invalid type is a fault
unfoldable pub get_count : LogMsgType → Cmd ℕ
unfolding take_lq_lock release_lq_lock
get_count normal = do take_lq_lock; svr ← get_svr; release_lq_lock; pure svr.nrl.count
get_count control = do take_lq_lock; svr ← get_svr; release_lq_lock; pure svr.ctrl.count
get_count invalid_log = λ s. Store.fault

unfoldable pub dequeue_from : Queue → Cmd (Ptr × Queue)
dequeue_from q =
    if ltb 0 q.count
    then (if q.count == 1
        then pure (q.head, record q { head = null; tail = null; count = q.count - 1 })
        else do
          first ← load q.head
          set_prev first.next q.tail
          first ← load q.head
          pure (q.head, record q { head = first.next; count = q.count - 1 }))
    else pure (null, q)

unfoldable pub dequeue : LogMsgType → Cmd Ptr
dequeue invalid_log = pure null
dequeue normal = do
  take_lq_lock
  svr ← get_svr
  (ret_val, q) ← dequeue_from svr.nrl
  put_svr (record svr { nrl = q })
  release_lq_lock
  pure ret_val
dequeue control = do
  take_lq_lock
  svr ← get_svr
  (ret_val, q) ← dequeue_from svr.ctrl
  put_svr (record svr { ctrl = q })
  release_lq_lock
  pure ret_val

-- the four pointer writes of `enqueue`
unfoldable pub link_in : (node first tail : Ptr) → Cmd (Unit {0})
link_in node first tail = do
  set_next node first
  set_prev node tail
  set_next tail node
  set_prev first node

unfoldable pub enqueue_to : Queue → Ptr → Cmd (ℤ × Queue)
enqueue_to q node =
    if leb q.limit q.count
    then pure (minus_one, q)
    else let q' = if q.count == 0 then record q { head = node; tail = node } else q in
      do link_in node q'.head q'.tail; pure (pos 0, record q' { tail = node; count = q'.count + 1 })

unfoldable pub enqueue : Ptr → LogMsgType → Cmd ℤ
enqueue node invalid_log = pure minus_one
enqueue node normal = do
  take_lq_lock
  svr ← get_svr
  (ret_val, q) ← enqueue_to svr.nrl node
  put_svr (record svr { nrl = q })
  release_lq_lock
  pure ret_val
enqueue node control = do
  take_lq_lock
  svr ← get_svr
  (ret_val, q) ← enqueue_to svr.ctrl node
  put_svr (record svr { ctrl = q })
  release_lq_lock
  pure ret_val
