-- ===== src/Manager/Lock.antt =====
-- The early `return` of `handle_state`, which leaves the mutex locked, and what then waits.
use to_do_list_public.Common.{
  ℕ, ◌+◌, ◌<◌, ◌≡◌, ◌≢◌, refl, true, false, ℤ, pos, minus_one, List, arith, ◌==◌, sym, subst, ◌∙◌,
}
use to_do_list_public.Manager.Data.{
  max_replicas, running, faulted, is_replica, ManagerMessage, Manager, Sent, Attempt, delivered, ok,
  blocked, take_lock,
}
use to_do_list_public.Manager.Send.{
  instruct_primary_to_send_chkpt, write_to_factory, status_of, sent_by, request_text, send_chkpt,
}
use to_do_list_public.Manager.Local.{after, index_lem}
use to_do_list_public.Manager.Branches.{is_primary_id, passive_status, Owed}
use to_do_list_public.Manager.Handle.{handle_state-at}
use to_do_list_public.Manager.{
  return_early, handle_running, passive_up, handle_state_at, handle_state, heard, gfd_hbt,
}

-- no attempt on the network succeeds
abbrev pub IsCutOff : Manager → Type 0
IsCutOff m = (n : ℕ) → m.network n ≢ delivered

status-cut : (x : Attempt) → x ≢ delivered → status_of x ≡ minus_one
unfolding status_of
status-cut x h = ground arith

instruct-cut :
    (k : ℕ) (m : Manager)
    → k < max_replicas
    → IsCutOff m
    → (a : ℕ) × (s : List Sent) × (instruct_primary_to_send_chkpt (pos k) m
        ≡ ok minus_one (after m a s))
unfolding instruct_primary_to_send_chkpt write_to_factory
instruct-cut k m lt cut = (
  m.attempts + 1,
  sent_by (m.network m.attempts) (record { target = k; text = request_text k send_chkpt }) m.sent,
  simp (index_lem k m lt, status-cut (m.network m.attempts) (cut m.attempts)),
)

instruct_primary-cut :
    (k : ℕ) (p : ℤ) (m : Manager)
    → k < max_replicas
    → p ≡ pos k
    → IsCutOff m
    → (a : ℕ) × (s : List Sent) × (instruct_primary_to_send_chkpt p m ≡ ok minus_one (after m a s))
instruct_primary-cut k p m lt e cut =
    subst
      (λ q.
        (a : ℕ) × (s : List Sent) × (instruct_primary_to_send_chkpt q m
          ≡ ok minus_one (after m a s)))
      (sym e) (instruct-cut k m lt cut)

passive_up-cut :
    (i k : ℕ) (m : Manager)
    → i < max_replicas
    → k < max_replicas
    → m.primary_replica_id ≡ pos k
    → m.needs_checkpoint i ≡ 1
    → IsCutOff m
    → (a : ℕ) × (s : List Sent) × (passive_up i m ≡ ok (return_early minus_one) (after m a s))
unfolding passive_up
passive_up-cut i k m lt ltk e debt cut =
    let valid : is_primary_id m.primary_replica_id ≡ true = ground arith in
    let owed : Owed m = λ j h. ground arith in
    let (r, a, s, run) = passive_status i m lt valid owed in
    let (a', s', run') = instruct_primary-cut k m.primary_replica_id (after m a s) ltk e cut in
    let debt' : (m.needs_checkpoint i == 1) ≡ true = ground arith in
    (a', s', simp (run, debt', run'))

-- In the passive mode, with the lock free and a replica as the primary, let a faulted replica that
-- is owed a checkpoint report that it is running while no factory can be reached. Then
-- `handle_state` returns -1 with the mutex still locked: every later message, of any replica, and
-- the next round of the heartbeat thread wait for ever.
pub handle_state-deadlock :
    (i k : ℕ) (msg : ManagerMessage) (m : Manager)
    → i < max_replicas
    → k < max_replicas
    → msg.replica_id ≡ pos i
    → msg.state ≡ running
    → m.lock ≡ false
    → m.mode ≡ 0
    → (m.node i).state ≡ faulted
    → m.needs_checkpoint i ≡ 1
    → m.primary_replica_id ≡ pos k
    → IsCutOff m
    → (m' : Manager) × (handle_state msg m ≡ ok minus_one m')
      × ((later : ManagerMessage) → handle_state later m' ≡ blocked)
      × (gfd_hbt m' ≡ blocked)
unfolding handle_state_at handle_running handle_state gfd_hbt take_lock
handle_state-deadlock i k msg m lt ltk id up free passive down debt primary cut =
    let s = heard i msg.server_state (record m { lock = true }) in
    let (a, s', run) = passive_up-cut i k s lt ltk primary debt cut in
    let down' : is_replica (s.node i).state faulted ≡ true = ground arith in
    let passive' : (m.mode == 0) ≡ true = ground arith in
    (
      after s a s',
      handle_state-at i msg m lt id free ∙ simp (up, down', passive', run),
      λ later. refl,
      refl,
    )
