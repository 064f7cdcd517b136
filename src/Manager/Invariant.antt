-- ===== src/Manager/Invariant.antt =====
-- The invariant of the replication manager between messages, and what the assignments and the
-- membership at the end of `handle_state` do to it.
use to_do_list_public.Common.{
  ℕ, zero, suc, ◌+◌, ◌≤◌, ◌<◌, ◌≡◌, refl, Bool, true, false, ℤ, pos, arith, ◌==◌, if◌then◌else◌,
  Bool-cases, inl, inr,
}
use to_do_list_public.Manager.Data.{
  max_replicas, ReplicaState, running, faulted, sent_startup_req, is_replica, Manager, ok, Cmd,
  pure, modify, ◌>>◌, set_state_of,
}
use to_do_list_public.Manager.Branches.{
  is_primary_id, Owed, Handled, EarlyOnly, Returns, bind, running_branch,
}
use to_do_list_public.Manager.Down.{passive_down_lem, active_down_lem}
use to_do_list_public.Manager.{
  Flow, go_on, return_early, handle_running, passive_down, active_down, handle_faulted,
  print_current_state_info,
}

abbrev pub one : ℕ → ℕ
one n = if n == 1 then 1 else 0

-- the replicas that the membership counts as up
abbrev pub members : (ℕ → ℕ) → ℕ
members status = one (status 0) + one (status 1) + one (status 2)

abbrev pub not_started : Manager → ℕ → Bool
not_started m j = is_replica (m.node j).state sent_startup_req

-- The invariant of the manager between messages. The count of servers is at least the number of
-- those marked as up, since the heartbeat thread clears marks and leaves the count.
pub record Inv (m : Manager) : Type 0 where
  pub primary : is_primary_id m.primary_replica_id ≡ true
  pub owed : Owed m
  pub no_startup : (j : ℕ) → not_started m j ≡ false
  pub counted : members m.server_status ≤ m.num_servers
  pub bounded : m.num_servers ≤ max_replicas
  pub small : m.num_replicas ≤ max_replicas

-- the state of the replica that the branch was about
abbrev pub Settled : ℕ → Manager → Type 0
Settled i m = not_started m i ≡ false

pub Handled-refl :
    (i : ℕ) (m : Manager) → is_primary_id m.primary_replica_id ≡ true → Owed m → Handled i m m
Handled-refl i m valid owed = record {
  mode = refl;
  lock = refl;
  num_replicas = refl;
  server_status = refl;
  num_servers = refl;
  node = λ j h. refl;
  primary = valid;
  owed = owed;
}

set_state-Handled :
    (i : ℕ) (t : ReplicaState) (m m' : Manager) → Handled i m m' → Handled i m (set_state_of i t m')
set_state-Handled i t m m' h = record {
  mode = h.mode;
  lock = h.lock;
  num_replicas = h.num_replicas;
  server_status = h.server_status;
  num_servers = h.num_servers;
  node = λ j e. rw e (h.node j e);
  primary = h.primary;
  owed = h.owed;
}

-- the end of `handle_running`
finish_running :
    (i : ℕ) (m : Manager) (t : ReplicaState) (flow : Flow) (m' : Manager)
    → is_replica t running ≡ true
    → EarlyOnly i m flow m'
    → Handled i m m'
    → Returns
        (let c : Cmd Flow = elim flow [
          | return_early r ↦ pure (return_early r)
          | go_on r ↦ (do modify (set_state_of i t); pure (go_on r))
        ] in
          c m')
        (λ flow m''. EarlyOnly i m flow m'' × Handled i m m'' × Settled i m'')
finish_running i m t (go_on r) m' up early h =
    (go_on r, set_state_of i t m', refl, (tt, set_state-Handled i t m m' h, ground arith))
finish_running i m t (return_early r) m' up early h =
    (return_early r, m', refl, (early, h, ground arith))

module _ (i : ℕ) (m : Manager) (lt : i < max_replicas)
    (valid : is_primary_id m.primary_replica_id ≡ true) (owed : Owed m) where
  pub handle_running_lem :
      (t : ReplicaState)
      → is_replica t running ≡ true
      → Returns
          (handle_running i t m)
          (λ flow m'. EarlyOnly i m flow m' × Handled i m m' × Settled i m')
  unfolding handle_running
  handle_running_lem t up =
      bind (running_branch i m lt valid owed t)
        λ flow m' (early, h). finish_running i m t flow m' up early h

  faulted_branch :
      Returns
        ((if m.mode == 0
            then passive_down i
            else (if m.mode == 1 then active_down i else pure (pos 0)))
          m)
        (λ _ m'. Handled i m m')
  faulted_branch = elim (Bool-cases (m.mode == 0)) [
    | inl passive ↦
        let (r, m', run, h) = passive_down_lem i m lt valid owed in (r, m', rw passive run, h)
    | inr other ↦ elim (Bool-cases (m.mode == 1)) [
      | inl active ↦
          let (r, m', run, h) = active_down_lem i m lt valid owed in
          (r, m', rw (other, active) run, h)
      | inr neither ↦ (pos 0, m, rw (other, neither), Handled-refl i m valid owed)
    ]
  ]

  pub handle_faulted_lem :
      not_started m i ≡ false
      → (r : ℤ) × (m' : Manager) × (handle_faulted i m ≡ ok (go_on r) m')
        × Handled i m m'
        × Settled i m'
  unfolding handle_faulted
  handle_faulted_lem idle =
      let (r, m', run, h) = faulted_branch in
      (
        r,
        set_state_of i faulted m',
        rw (idle, run),
        set_state-Handled i faulted m m' h,
        ground arith,
      )

-- the marks and the count after `print_current_state_info`
pub print-counted :
    (i : ℕ) (t : ReplicaState) (m : Manager)
    → i < max_replicas
    → members m.server_status ≤ m.num_servers
    → m.num_servers ≤ max_replicas
    → (members (print_current_state_info i t m).server_status
        ≤ (print_current_state_info i t m).num_servers)
      × ((print_current_state_info i t m).num_servers ≤ max_replicas)
unfolding print_current_state_info
print-counted zero t m lt c b = ground arith
print-counted (suc zero) t m lt c b = ground arith
print-counted (suc (suc zero)) t m lt c b = ground arith
print-counted (suc (suc (suc i))) t m lt c b = absurd (omega arith)

-- what else it leaves alone
pub record Printed (m m' : Manager) : Type 0 where
  pub mode : m'.mode ≡ m.mode
  pub node : m'.node ≡ m.node
  pub primary : m'.primary_replica_id ≡ m.primary_replica_id
  pub needs : m'.needs_checkpoint ≡ m.needs_checkpoint
  pub sent : m'.sent ≡ m.sent
  pub num_replicas : m'.num_replicas ≡ m.num_replicas

pub print-Printed :
    (i : ℕ) (t : ReplicaState) (m : Manager) → Printed m (print_current_state_info i t m)
unfolding print_current_state_info
print-Printed i t m = ground arith
