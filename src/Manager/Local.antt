-- ===== src/Manager/Local.antt =====
-- What each function that sends changes: what was sent and the attempts, and beyond these the
-- primary (`elect_new_primary`) or one replica's state (`restart_server`).
use to_do_list_public.Common.{
  ℕ, zero, suc, ◌+◌, ◌<◌, ◌≡◌, refl, false, ℤ, pos, minus_one, is_negative, List, arith, ◌==◌,
  Bool-cases, inl, inr, ◌&&◌, ◌⊎◌, ap, sym, subst, ◌∙◌,
}
use to_do_list_public.Text.{Bytes}
use to_do_list_public.State.{RepMode, ServerState, active_rep, active_running, is_mode, is_state}
use to_do_list_public.Manager.Data.{
  max_replicas, Manager, Sent, ok, Cmd, index, update, set_primary, ReplicaNode, sent_startup_req,
  running, is_replica,
}
use to_do_list_public.Manager.Send.{
  others, election_text, fill_message_for_primary_election, write_to_factory, elect_new_primary,
  send_change_status_to_server, change_status_text, instruct_primary_to_send_chkpt, restart_server,
  startup_text, request_text, quiesce_message, quiesce_stop_message, for_running, quiesce_all,
  stop_quiesce_all, send_chkpt, quiesce_begin, quiesce_stop,
}

abbrev pub after : Manager → ℕ → List Sent → Manager
after m a s = record m { attempts = a; sent = s }

-- the command returns, and changes only what was sent and the attempts
abbrev pub Sends : {A : Type 0} → Cmd A → Manager → Type 0
Sends {A} c m = (r : A) × (a : ℕ) × (s : List Sent) × (c m ≡ ok r (after m a s))

-- The two replicas named as backups are the two others, in order.
pub others_lem :
    (i : ℕ)
    → i < max_replicas
    → (a : ℕ) × (b : ℕ) × (others (pos i) ≡ (pos a, pos b))
      × (a < b)
      × (b < max_replicas)
      × ((a == i) ≡ false)
      × ((b == i) ≡ false)
unfolding others
others_lem zero h = (1, 2, refl, omega arith, omega arith, refl, refl)
others_lem (suc zero) h = (0, 2, refl, omega arith, omega arith, refl, refl)
others_lem (suc (suc zero)) h = (0, 1, refl, omega arith, omega arith, refl, refl)
others_lem (suc (suc (suc i))) h = absurd (omega arith)

pub index_lem : (i : ℕ) (m : Manager) → i < max_replicas → index (pos i) m ≡ ok i m
unfolding index
index_lem i m h = ground arith

pub fill_lem :
    (i : ℕ) (m : Manager)
    → i < max_replicas
    → (text : Bytes) × (fill_message_for_primary_election i m ≡ ok text m)
unfolding fill_message_for_primary_election
fill_lem i m h =
    let (a, b, e, lt, lt', ne, ne') = others_lem i h in
    (election_text i a b m, rw (e, index_lem a m (omega arith), index_lem b m lt'))

pub write_lem : (i : ℕ) (text : Bytes) (m : Manager) → Sends (write_to_factory i text) m
unfolding write_to_factory
write_lem i text m = (_, _, _, refl)

pub send_change_lem :
    (i : ℕ) (mode : RepMode) (state : ServerState) (m : Manager)
    → i < max_replicas
    → Sends (send_change_status_to_server i mode state) m
unfolding send_change_status_to_server
send_change_lem i mode state m h =
    elim (Bool-cases (is_mode mode active_rep && is_state state active_running)) [
      | inl long ↦
          let (text, run) = fill_lem i m h in
          let (r, a, s, sends) = write_lem i text m in (r, a, s, rw (long, run) sends)
      | inr short ↦
          let (r, a, s, sends) = write_lem i (change_status_text i mode state) m in
          (r, a, s, rw short sends)
    ]

pub instruct_lem :
    (i : ℕ) (m : Manager) → i < max_replicas → Sends (instruct_primary_to_send_chkpt (pos i)) m
unfolding instruct_primary_to_send_chkpt
instruct_lem i m h =
    let (r, a, s, sends) = write_lem i (request_text i send_chkpt) m in
    (r, a, s, rw (index_lem i m h) sends)

pub instruct_own :
    (i : ℕ) (m : Manager) (p : ℤ)
    → i < max_replicas
    → p ≡ pos i
    → Sends (instruct_primary_to_send_chkpt p) m
instruct_own i m p lt e =
    subst (λ k. Sends (instruct_primary_to_send_chkpt k) m) (sym e) (instruct_lem i m lt)

-- an election changes the primary only if the message is delivered
pub elect_lem :
    (i : ℕ) (m : Manager)
    → i < max_replicas
    → (r : ℤ) × (a : ℕ) × (s : List Sent) × (p : ℤ) × (elect_new_primary (pos i) m
        ≡ ok r (set_primary p (after m a s)))
      × ((p ≡ m.primary_replica_id) ⊎ (p ≡ pos i))
unfolding elect_new_primary
elect_lem i m h =
    let (text, run) = fill_lem i m h in
    let (r, a, s, sends) = write_lem i text m in
    elim (Bool-cases (is_negative r)) [
      | inl bad ↦
          (minus_one, a, s, m.primary_replica_id, rw (index_lem i m h, run, sends, bad), inl refl)
      | inr good ↦ (pos 0, a, s, pos i, rw (index_lem i m h, run, sends, good), inr refl)
    ]

-- electing the primary again changes only what was sent
pub elect_own :
    (i : ℕ) (m : Manager) (p : ℤ)
    → i < max_replicas
    → p ≡ pos i
    → m.primary_replica_id ≡ p
    → Sends (elect_new_primary p) m
elect_own i m p lt e own =
    let (r, a, s, q, run, which) = elect_lem i m lt in
    let back : q ≡ m.primary_replica_id = ground arith in
    subst (λ k. Sends (elect_new_primary k) m) (sym e)
      (r, a, s, run ∙ ap (λ k. ok r (set_primary k (after m a s))) back)

-- a restart request marks the replica only if it is delivered
pub restart_lem :
    (i : ℕ) (m : Manager)
    → (r : ℤ) × (a : ℕ) × (s : List Sent) × (node : ℕ → ReplicaNode) × (restart_server i m
        ≡ ok r (record (after m a s) { node = node }))
      × ((j : ℕ) → (j == i) ≡ false → node j ≡ m.node j)
unfolding restart_server
restart_lem i m =
    let (r, a, s, sends) = write_lem i (startup_text i m) m in
    elim (Bool-cases (is_negative r)) [
      | inl bad ↦ (minus_one, a, s, m.node, rw (sends, bad), λ j h. refl)
      | inr good ↦ (
        pos 0,
        a,
        s,
        update m.node i (record (m.node i) { state = sent_startup_req }),
        rw (sends, good),
        λ j h. rw h,
      )
    ]

for_running_lem :
    (rounds i : ℕ) (message : ℕ → Cmd ℤ) (m : Manager)
    → ((j : ℕ) (k : Manager) → Sends (message j) k)
    → Sends (for_running rounds i message) m
unfolding for_running
for_running_lem zero i message m h = (tt, m.attempts, m.sent, refl)
for_running_lem (suc rounds) i message m h =
    elim (Bool-cases (is_replica (m.node i).state running)) [
      | inl up ↦
          let (_, a, s, run) = h i m in
          let (_, a', s', run') = for_running_lem rounds (i + 1) message (after m a s) h in
          (tt, a', s', rw (up, run) run')
      | inr down ↦
          let (_, a', s', run') = for_running_lem rounds (i + 1) message m h in
          (tt, a', s', rw down run')
    ]

pub quiesce_all_lem : (m : Manager) → Sends quiesce_all m
unfolding quiesce_all quiesce_message
quiesce_all_lem m =
    for_running_lem max_replicas 0 quiesce_message m
      (λ j k. write_lem j (request_text j quiesce_begin) k)

pub stop_quiesce_all_lem : (m : Manager) → Sends stop_quiesce_all m
unfolding stop_quiesce_all quiesce_stop_message
stop_quiesce_all_lem m =
    for_running_lem max_replicas 0 quiesce_stop_message m
      (λ j k. write_lem j (request_text j quiesce_stop) k)
