-- ===== src/Manager/Handle.antt =====
-- `handle_state` returns on every message that names a replica, and keeps the manager's invariant.
use to_do_list_public.Common.{
  ℕ, ◌<◌, ◌≡◌, refl, true, false, ℤ, pos, minus_one, arith, ◌==◌, if◌then◌else◌, Bool-cases, inl,
  inr, ◌∙◌,
}
use to_do_list_public.State.{ServerState}
use to_do_list_public.Manager.Data.{
  max_replicas, running, faulted, is_replica, ManagerMessage, Manager, Cmd, pure, modify, ◌>>◌,
  take_lock, release_lock,
}
use to_do_list_public.Manager.Local.{index_lem}
use to_do_list_public.Manager.Branches.{Handled, EarlyOnly, Returns, bind}
use to_do_list_public.Manager.{
  Flow, go_on, return_early, handle_running, handle_faulted, print_current_state_info,
  handle_state_at, handle_state, heard,
}
use to_do_list_public.Manager.Invariant.{
  not_started, Inv, Settled, Handled-refl, handle_running_lem, handle_faulted_lem, print-counted,
  print-Printed,
}

-- the conditions under which `handle_state` returns with the lock held
pub record LeftLocked (i : ℕ) (msg : ManagerMessage) (m : Manager) (r : ℤ) : Type 0 where
  pub failed : r ≡ minus_one
  pub passive : m.mode ≡ 0
  pub came_up : is_replica msg.state running ≡ true
  pub was_down : (m.node i).state ≡ faulted
  pub owed : m.needs_checkpoint i ≡ 1

-- what holds when `handle_state` has returned `r`
pub record Done (i : ℕ) (msg : ManagerMessage) (m : Manager) (r : ℤ) (m' : Manager) : Type 0 where
  pub inv : Inv m'
  pub mode : m'.mode ≡ m.mode
  pub lock : m'.lock ≡ true → LeftLocked i msg m r

-- a branch keeps the invariant, whatever was stored about the replica at first
Handled-no_startup :
    (i : ℕ) (m m' : Manager)
    → ((j : ℕ) → not_started m j ≡ false)
    → Handled i m m'
    → Settled i m'
    → (j : ℕ) → not_started m' j ≡ false
Handled-no_startup i m m' quiet h settled j = elim (Bool-cases (j == i)) [
  | inl e ↦ let e' : j ≡ i = ground arith in rw e' settled
  | inr e ↦ rw (h.node j e) (quiet j)
]

heard-no_startup :
    (i : ℕ) (s : ServerState) (m : Manager)
    → ((j : ℕ) → not_started m j ≡ false)
    → (j : ℕ) → not_started (heard i s m) j ≡ false
heard-no_startup i s m quiet j = ground (arith, quiet j, quiet i)

module _ (i : ℕ) (msg : ManagerMessage) (m : Manager) (lt : i < max_replicas) (inv : Inv m) where
  start : Manager
  start = heard i msg.server_state (record m { lock = true })

  start-no_startup : (j : ℕ) → not_started start j ≡ false
  unfolding start
  start-no_startup = heard-no_startup i msg.server_state (record m { lock = true }) inv.no_startup

  -- an early return happens only on a message that the replica is running
  abbrev OnlyUp : Flow → Type 0
  OnlyUp flow = (r : ℤ) → flow ≡ return_early r → is_replica msg.state running ≡ true

  branch :
      Returns
        ((if is_replica msg.state running
            then handle_running i msg.state
            else (if is_replica msg.state faulted then handle_faulted i else pure (go_on (pos 0))))
          start)
        (λ flow m'. EarlyOnly i start flow m' × OnlyUp flow × Handled i start m' × Settled i m')
  unfolding start
  branch = elim (Bool-cases (is_replica msg.state running)) [
    | inl up ↦
        let (f, m', run, (e, h, q)) =
          handle_running_lem i start lt inv.primary inv.owed msg.state up in
        (f, m', rw up run, (e, λ r x. up, h, q))
    | inr not_up ↦ elim (Bool-cases (is_replica msg.state faulted)) [
      | inl down ↦
          let (r, m', run, h, q) =
            handle_faulted_lem i start lt inv.primary inv.owed (start-no_startup i) in
          (go_on r, m', rw (not_up, down) run, (tt, λ r' x. cc, h, q))
      | inr neither ↦ (
        go_on (pos 0),
        start,
        rw (not_up, neither),
        (tt, λ r x. cc, Handled-refl i start inv.primary inv.owed, start-no_startup i),
      )
    ]
  ]

  -- the end of `handle_state`
  finish :
      (flow : Flow) (m' : Manager)
      → EarlyOnly i start flow m'
      → OnlyUp flow
      → Handled i start m'
      → Settled i m'
      → Returns
          (let c : Cmd ℤ = elim flow [
            | return_early r ↦ pure r
            | go_on r ↦ (do modify (print_current_state_info i msg.state); release_lock; pure r)
          ] in
            c m')
          (Done i msg m)
  unfolding start release_lock
  finish (go_on r) m' early up h settled =
      let p = print-Printed i msg.state m' in
      let (counted, bounded) =
        print-counted i msg.state m' lt (rw (h.server_status, h.num_servers) inv.counted)
          (rw h.num_servers inv.bounded) in
      (
        r,
        _,
        refl,
        record {
          inv = record {
            primary = rw p.primary h.primary;
            owed = rw (p.needs, p.primary) h.owed;
            no_startup = rw p.node (Handled-no_startup i start m' start-no_startup h settled);
            counted = counted;
            bounded = bounded;
            small = rw (p.num_replicas, h.num_replicas) inv.small;
          };
          mode = p.mode ∙ h.mode;
          lock = λ x. cc;
        },
      )
  finish (return_early r) m' early up h settled = (
    r,
    m',
    refl,
    record {
      inv = record {
        primary = h.primary;
        owed = h.owed;
        no_startup = Handled-no_startup i start m' start-no_startup h settled;
        counted = rw (h.server_status, h.num_servers) inv.counted;
        bounded = rw h.num_servers inv.bounded;
        small = rw h.num_replicas inv.small;
      };
      mode = h.mode;
      lock = λ _. record {
        failed = early.0;
        passive = early.1;
        came_up = up r refl;
        was_down = ground (arith, early.3);
        owed = early.2;
      };
    },
  )

handle_state_at-Done :
    (i : ℕ) (msg : ManagerMessage) (m : Manager)
    → i < max_replicas
    → Inv m
    → Returns (handle_state_at i msg (record m { lock = true })) (Done i msg m)
unfolding handle_state_at start
handle_state_at-Done i msg m lt inv =
    bind (branch i msg m lt inv)
      λ flow m' (early, up, h, settled). finish i msg m lt inv flow m' early up h settled

-- the lock is taken and the index is found
pub handle_state-at :
    (i : ℕ) (msg : ManagerMessage) (m : Manager)
    → i < max_replicas
    → msg.replica_id ≡ pos i
    → m.lock ≡ false
    → handle_state msg m ≡ handle_state_at i msg (record m { lock = true })
unfolding handle_state take_lock
handle_state-at i msg m lt id free = simp (free, id, index_lem i (record m { lock = true }) lt)

-- On every message that names one of the replicas, with the lock free, `handle_state` returns
-- without a fault, and it keeps the mode and the invariant: the primary is -1 or a replica, it is a
-- replica if a checkpoint is owed, no replica is left in the state of a sent start-up request, and
-- the count of servers is at least that of the marks and at most the number of replicas. It returns
-- with the lock held only if it fails, in the passive mode, for a faulted replica that came up and
-- is owed a checkpoint.
pub handle_state-Done :
    (i : ℕ) (msg : ManagerMessage) (m : Manager)
    → i < max_replicas
    → msg.replica_id ≡ pos i
    → m.lock ≡ false
    → Inv m
    → Returns (handle_state msg m) (Done i msg m)
handle_state-Done i msg m lt id free inv =
    let (r, m', run, d) = handle_state_at-Done i msg m lt inv in
    (r, m', handle_state-at i msg m lt id free ∙ run, d)
