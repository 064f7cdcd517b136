-- ===== src/Manager/Branches.antt =====
-- What the branches of `handle_state` on a replica that came up may change, and what they all keep.
use to_do_list_public.Common.{
  ℕ, ◌<◌, ◌≡◌, refl, Bool, true, false, ℤ, pos, negsuc, minus_one, int_eq, is_negative, List, arith,
  ltb, ◌==◌, if◌then◌else◌, Bool-cases, inl, inr,
}
use to_do_list_public.State.{
  active_rep, passive_rep, passive_backup, active_running, active_recover,
}
use to_do_list_public.Manager.Data.{
  max_replicas, ReplicaState, faulted, is_replica, Manager, Sent, Run, ok, Cmd, continue, pure,
  set_state_of, set_primary,
}
use to_do_list_public.Manager.Send.{elect_new_primary, send_change_status_to_server}
use to_do_list_public.Manager.Local.{
  after, Sends, send_change_lem, instruct_own, elect_own, quiesce_all_lem, stop_quiesce_all_lem,
}
use to_do_list_public.Manager.{Flow, go_on, return_early, failed, passive_up, active_up}

-- -1 or the index of a replica
abbrev pub is_primary_id : ℤ → Bool
is_primary_id (pos i) = ltb i max_replicas
is_primary_id (negsuc n) = n == 0

abbrev pub is_unset : ℤ → Bool
is_unset p = int_eq p minus_one

-- the primary is a replica whenever a checkpoint is owed to one
abbrev pub Owed : Manager → Type 0
Owed m = (j : ℕ) → m.needs_checkpoint j ≡ 1 → is_unset m.primary_replica_id ≡ false

-- what the branches of `handle_state` may change about replica `i`
pub record Handled (i : ℕ) (m m' : Manager) : Type 0 where
  pub mode : m'.mode ≡ m.mode
  pub lock : m'.lock ≡ m.lock
  pub num_replicas : m'.num_replicas ≡ m.num_replicas
  pub server_status : m'.server_status ≡ m.server_status
  pub num_servers : m'.num_servers ≡ m.num_servers
  pub node : (j : ℕ) → (j == i) ≡ false → m'.node j ≡ m.node j
  pub primary : is_primary_id m'.primary_replica_id ≡ true
  pub owed : Owed m'

-- the branch ends early only where a checkpoint is owed in the passive mode
abbrev pub EarlyOnly : ℕ → Manager → Flow → Manager → Type 0
EarlyOnly i m (go_on r) m' = Unit {0}
EarlyOnly i m (return_early r) m' =
    (r ≡ minus_one)
    × (m.mode ≡ 0)
    × (m.needs_checkpoint i ≡ 1)
    × ((m.node i).state ≡ faulted)
    × ((m'.node i).state ≡ faulted)

abbrev pub Returns : {A : Type 0} → Run A → (A → Manager → Type 0) → Type 0
Returns {A} r P = (a : A) × (m : Manager) × (r ≡ ok a m) × P a m

pub bind :
    {A B : Type 0} {P : A → Manager → Type 0} {Q : B → Manager → Type 0} {r : Run A} {k : A → Cmd B}
    → Returns r P
    → ((a : A) (m : Manager) → P a m → Returns (k a m) Q)
    → Returns (continue r k) Q
bind (a, m, run, p) next = let (b, t, run', q) = next a m p in (b, t, rw run run', q)

int_eq_eq : (i : ℕ) (p : ℤ) → int_eq (pos i) p ≡ true → p ≡ pos i
int_eq_eq i (pos k) h = ground arith
int_eq_eq i (negsuc k) h = cc

set-is_unset :
    (p : ℤ)
    → is_primary_id p ≡ true
    → is_unset p ≡ false
    → (k : ℕ) × (p ≡ pos k) × (k < max_replicas)
set-is_unset (pos k) v u = (k, refl, ground arith)
set-is_unset (negsuc n) v u = absurd (ground arith)

module _ (i : ℕ) (m : Manager) (lt : i < max_replicas)
    (valid : is_primary_id m.primary_replica_id ≡ true) (owed : Owed m) where
  -- the message to a replica that came up; only what was sent changes
  pub passive_status :
      Sends
        (if int_eq (pos i) m.primary_replica_id
          then elect_new_primary m.primary_replica_id
          else send_change_status_to_server i passive_rep passive_backup)
        m
  passive_status = elim (Bool-cases (int_eq (pos i) m.primary_replica_id)) [
    | inl own ↦
        let (r, a, s, run) =
          elect_own i m m.primary_replica_id lt (int_eq_eq i m.primary_replica_id own) refl in
        (r, a, s, rw own run)
    | inr backup ↦
        let (r, a, s, run) = send_change_lem i passive_rep passive_backup m lt in
        (r, a, s, rw backup run)
  ]

  same : (a : ℕ) (s : List Sent) → Handled i m (after m a s)
  same a s = record {
    mode = refl;
    lock = refl;
    num_replicas = refl;
    server_status = refl;
    num_servers = refl;
    node = λ j h. refl;
    primary = valid;
    owed = owed;
  }

  passive_up_lem :
      m.mode ≡ 0
      → (m.node i).state ≡ faulted
      → Returns (passive_up i m) (λ flow m'. EarlyOnly i m flow m' × Handled i m m')
  unfolding passive_up
  passive_up_lem hm hf =
      let (r, a, s, run) = passive_status in
      elim (Bool-cases (m.needs_checkpoint i == 1)) [
        | inr no_debt ↦ (go_on (failed r (pos 0)), after m a s, rw (run, no_debt), (tt, same a s))
        | inl debt ↦
            let (k, e, ltk) = set-is_unset m.primary_replica_id valid (owed i (ground arith)) in
            let (r', a', s', run') = instruct_own k (after m a s) m.primary_replica_id ltk e in
            elim (Bool-cases (is_negative r')) [
              | inl bad ↦ (
                return_early minus_one,
                after m a' s',
                rw (run, debt, run', bad),
                ((refl, hm, ground arith, hf, hf), same a' s'),
              )
              | inr good ↦ (
                go_on (failed r (pos 0)),
                after m a' s',
                rw (run, debt, run', good),
                (tt, same a' s'),
              )
            ]
      ]

  active_up_lem :
      (t : ReplicaState)
      → Returns (active_up i t m) (λ flow m'. EarlyOnly i m flow m' × Handled i m m')
  unfolding active_up
  active_up_lem t = elim (Bool-cases (is_unset m.primary_replica_id)) [
    | inl unset ↦
        let (r, a, s, run) =
          send_change_lem i active_rep active_running (set_primary (pos i) m) lt in
        (
          go_on (failed r (pos 0)),
          after (set_primary (pos i) m) a s,
          rw (unset, run),
          (
            tt,
            record {
              mode = refl;
              lock = refl;
              num_replicas = refl;
              server_status = refl;
              num_servers = refl;
              node = λ j h. refl;
              primary = ground arith;
              owed = λ j h. refl;
            },
          ),
        )
    | inr set ↦
        let m₁ = set_state_of i t m in
        let (k, e, ltk) = set-is_unset m.primary_replica_id valid set in
        let (r₁, a₁, s₁, run₁) = send_change_lem i active_rep active_recover m₁ lt in
        let (_, a₂, s₂, run₂) = quiesce_all_lem (after m₁ a₁ s₁) in
        let (r₃, a₃, s₃, run₃) = instruct_own k (after m₁ a₂ s₂) m.primary_replica_id ltk e in
        let (_, a₄, s₄, run₄) = stop_quiesce_all_lem (after m₁ a₃ s₃) in
        let (r₅, a₅, s₅, run₅) = send_change_lem i active_rep active_running (after m₁ a₄ s₄) lt in
        (
          go_on (failed r₅ (failed r₃ (failed r₁ (pos 0)))),
          after m₁ a₅ s₅,
          rw (set, run₁, run₂, run₃, run₄, run₅),
          (
            tt,
            record {
              mode = refl;
              lock = refl;
              num_replicas = refl;
              server_status = refl;
              num_servers = refl;
              node = λ j h. rw h;
              primary = valid;
              owed = owed;
            },
          ),
        )
  ]

  pub running_branch :
      (t : ReplicaState)
      → Returns
          ((if is_replica (m.node i).state faulted
              then (if m.mode == 0
                  then passive_up i
                  else (if m.mode == 1 then active_up i t else pure (go_on (pos 0))))
              else pure (go_on (pos 0)))
            m)
          (λ flow m'. EarlyOnly i m flow m' × Handled i m m')
  running_branch t = elim (Bool-cases (is_replica (m.node i).state faulted)) [
    | inr up ↦ (go_on (pos 0), m, rw up, (tt, same m.attempts m.sent))
    | inl down ↦ elim (Bool-cases (m.mode == 0)) [
      | inl passive ↦
          let (f, m', run, p) = passive_up_lem (ground arith) (ground arith) in
          (f, m', rw (down, passive) run, p)
      | inr other ↦ elim (Bool-cases (m.mode == 1)) [
        | inl active ↦
            let (f, m', run, p) = active_up_lem t in (f, m', rw (down, other, active) run, p)
        | inr neither ↦ (go_on (pos 0), m, rw (down, other, neither), (tt, same m.attempts m.sent))
      ]
    ]
  ]
