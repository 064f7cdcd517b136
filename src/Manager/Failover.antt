-- ===== src/Manager/Failover.antt =====
-- What the manager does when the primary goes down, message by message, on a network that delivers.
use to_do_list_public.Common.{
  ℕ, ◌+◌, ◌%◌, ◌<◌, ◌≡◌, refl, true, false, ◌||◌, ℤ, pos, negsuc, minus_one, int_eq, ◌∷◌, arith,
  ◌==◌, if◌then◌else◌, Bool-cases, inl, inr, ap, ◌∙◌,
}
use to_do_list_public.Text.{Bytes}
use to_do_list_public.State.{ServerState}
use to_do_list_public.Manager.Data.{
  max_replicas, ReplicaState, faulted, sent_startup_req, is_replica, ManagerMessage, Manager,
  delivered, ok, set_state_of, set_primary, release_lock,
}
use to_do_list_public.Manager.Send.{
  election_text, startup_text, elect_new_primary, restart_server, fill_message_for_primary_election,
  write_to_factory, status_of, sent_by,
}
use to_do_list_public.Manager.Local.{index_lem, others_lem}
use to_do_list_public.Manager.Handle.{handle_state-at}
use to_do_list_public.Manager.Invariant.{print-Printed}
use to_do_list_public.Manager.{
  go_on, passive_down, active_down, move_primary, handle_faulted, print_current_state_info,
  handle_state_at, handle_state, needs_one, heard,
}

-- a message was delivered
abbrev deliver : ℕ → Bytes → Manager → Manager
deliver i text m = record m {
  attempts = m.attempts + 1;
  sent = record { target = i; text = text } ∷ m.sent;
}

write-delivered :
    (i : ℕ) (text : Bytes) (m : Manager)
    → m.network m.attempts ≡ delivered
    → write_to_factory i text m ≡ ok (pos 0) (deliver i text m)
unfolding write_to_factory status_of sent_by
write-delivered i text m h = ground arith

restart-delivered :
    (i : ℕ) (m : Manager)
    → m.network m.attempts ≡ delivered
    → restart_server i m
      ≡ ok (pos 0) (set_state_of i sent_startup_req (deliver i (startup_text i m) m))
unfolding restart_server
restart-delivered i m h = simp (write-delivered i (startup_text i m) m h)

-- `a` and `b` are the two replicas other than `i`
abbrev pub Others : ℕ → ℕ → ℕ → Type 0
Others i a b = (a < b) × (b < max_replicas) × ((a == i) ≡ false) × ((b == i) ≡ false)

elect-delivered :
    (i : ℕ) (m : Manager)
    → i < max_replicas
    → m.network m.attempts ≡ delivered
    → (a : ℕ) × (b : ℕ) × Others i a b
      × (elect_new_primary (pos i) m
          ≡ ok (pos 0) (set_primary (pos i) (deliver i (election_text i a b m) m)))
unfolding elect_new_primary fill_message_for_primary_election
elect-delivered i m lt h =
    let (a, b, e, ab, lt', ne, ne') = others_lem i lt in
    (
      a,
      b,
      (ab, lt', ne, ne'),
      simp (
        index_lem i m lt,
        e,
        index_lem a m (omega arith),
        index_lem b m lt',
        write-delivered i (election_text i a b m) m h,
      ),
    )

-- The text of an election does not depend on the replicas' states, the primary or what was sent.
election_text-set :
    (i a b j : ℕ) (p : ℤ) (t : ReplicaState) (x : Bytes) (m : Manager)
    → election_text i a b (set_primary p (set_state_of j t (deliver j x m))) ≡ election_text i a b m
unfolding election_text
election_text-set i a b j p t x m = ground arith

-- the state after the two messages of a failover
moved : ℕ → ℕ → ℕ → Manager → Manager
moved i a b m =
    let next = (i + 1) % max_replicas in
    let m₁ =
      set_primary (pos next) (set_state_of i sent_startup_req (deliver i (startup_text i m) m)) in
    set_primary (pos next) (deliver next (election_text next a b m) m₁)

primary_set : (i : ℕ) (p : ℤ) → int_eq (pos i) p ≡ true → int_eq p minus_one ≡ false
primary_set i (pos k) h = refl
primary_set i (negsuc k) h = cc

module _ (i : ℕ) (m : Manager) (lt : i < max_replicas) (first : m.network m.attempts ≡ delivered)
    (second : m.network (m.attempts + 1) ≡ delivered)
    (own : int_eq (pos i) m.primary_replica_id ≡ true) where
  abbrev next : ℕ
  next = (i + 1) % max_replicas

  move_lem :
      (a : ℕ) × (b : ℕ) × Others next a b
      × (move_primary i (set_state_of i sent_startup_req (deliver i (startup_text i m) m))
          ≡ ok (pos 0) (moved i a b m))
  unfolding move_primary moved
  move_lem =
      let m₁ = set_state_of i sent_startup_req (deliver i (startup_text i m) m) in
      let (a, b, o, run) = elect-delivered next (set_primary (pos next) m₁) (omega arith) second in
      (
        a,
        b,
        o,
        run
            ∙ ap
                (λ t.
                  ok (pos 0) (set_primary (pos next) (deliver next t (set_primary (pos next) m₁))))
                (election_text-set next a b i (pos next) sent_startup_req (startup_text i m) m),
      )

  faulted_lem :
      is_replica (m.node i).state sent_startup_req ≡ false
      → (m.mode == 0) || (m.mode == 1) ≡ true
      → (a : ℕ) × (b : ℕ) × Others next a b
        × (handle_faulted i m
            ≡ ok (go_on (pos 0)) (
                set_state_of i faulted
                  (if m.mode == 0 then needs_one i (moved i a b m) else moved i a b m)))
  unfolding handle_faulted passive_down active_down
  faulted_lem idle known =
      let (a, b, o, run) = move_lem in
      let set : int_eq m.primary_replica_id minus_one ≡ false =
        primary_set i m.primary_replica_id own in
      elim (Bool-cases (m.mode == 0)) [
        | inl passive ↦ (a, b, o, simp (idle, passive, set, own, restart-delivered i m first, run))
        | inr other ↦
            let active : (m.mode == 1) ≡ true = ground arith in
            (a, b, o, simp (idle, other, active, own, restart-delivered i m first, run))
      ]

-- what a failover from the primary `i` leaves
pub record FailedOver (i : ℕ) (m m' : Manager) : Type 0 where
  pub primary : m'.primary_replica_id ≡ pos ((i + 1) % max_replicas)
  pub one : ℕ
  pub two : ℕ
  pub others : Others ((i + 1) % max_replicas) one two
  pub sent :
      m'.sent
      ≡ record {
        target = (i + 1) % max_replicas;
        text = election_text ((i + 1) % max_replicas) one two m;
      }
        ∷ record { target = i; text = startup_text i m }
        ∷ m.sent
  pub state : (m'.node i).state ≡ faulted
  pub owed : m'.needs_checkpoint i ≡ (if m.mode == 0 then 1 else m.needs_checkpoint i)
  pub free : m'.lock ≡ false

election_text-heard :
    (i a b j : ℕ) (s : ServerState) (m : Manager)
    → election_text i a b (heard j s (record m { lock = true })) ≡ election_text i a b m
unfolding election_text
election_text-heard i a b j s m = ground arith

startup_text-heard :
    (i j : ℕ) (s : ServerState) (m : Manager)
    → startup_text i (heard j s (record m { lock = true })) ≡ startup_text i m
unfolding startup_text
startup_text-heard i j s m = ground arith

-- the state behind the branch of a faulted primary
abbrev settle : ℕ → ℕ → ℕ → Manager → Manager
settle i a b m =
    set_state_of i faulted (if m.mode == 0 then needs_one i (moved i a b m) else moved i a b m)

record Left (i a b : ℕ) (m : Manager) : Type 0 where
  primary : (settle i a b m).primary_replica_id ≡ pos ((i + 1) % max_replicas)
  sent :
      (settle i a b m).sent
      ≡ record {
        target = (i + 1) % max_replicas;
        text = election_text ((i + 1) % max_replicas) a b m;
      }
        ∷ record { target = i; text = startup_text i m }
        ∷ m.sent
  state : ((settle i a b m).node i).state ≡ faulted
  owed : (settle i a b m).needs_checkpoint i ≡ (if m.mode == 0 then 1 else m.needs_checkpoint i)

settle-Left : (i a b : ℕ) (m : Manager) → Left i a b m
unfolding moved
settle-Left i a b m = ground arith

-- When the primary is reported as faulted and the network delivers, `handle_state` returns 0 with
-- the lock free after exactly two messages: the start-up request to the faulted replica, then the
-- election to the next replica, which names the other two as its backups. The next replica is the
-- primary, the reported one is marked as faulted, and in the passive mode it is owed a checkpoint.
pub failover :
    (i : ℕ) (msg : ManagerMessage) (m : Manager)
    → i < max_replicas
    → msg.replica_id ≡ pos i
    → msg.state ≡ faulted
    → m.lock ≡ false
    → m.primary_replica_id ≡ pos i
    → is_replica (m.node i).state sent_startup_req ≡ false
    → (m.mode == 0) || (m.mode == 1) ≡ true
    → m.network m.attempts ≡ delivered
    → m.network (m.attempts + 1) ≡ delivered
    → (m' : Manager) × (handle_state msg m ≡ ok (pos 0) m') × FailedOver i m m'
unfolding handle_state_at release_lock
failover i msg m lt id down free own idle known first second =
    let s = heard i msg.server_state (record m { lock = true }) in
    let (a, b, o, run) = faulted_lem i s lt first second (ground arith) (ground arith) known in
    let m₁ = settle i a b s in
    let p = print-Printed i msg.state m₁ in
    let f = settle-Left i a b s in
    (
      record (print_current_state_info i msg.state m₁) { lock = false },
      handle_state-at i msg m lt id free ∙ simp (down, run),
      record {
        primary = p.primary ∙ f.primary;
        one = a;
        two = b;
        others = o;
        sent =
            p.sent
            ∙ f.sent
            ∙ cc (
              election_text-heard ((i + 1) % max_replicas) a b i msg.server_state m,
              startup_text-heard i i msg.server_state m,
            );
        state = ap (λ n. (n i).state) p.node ∙ f.state;
        owed = ap (λ n. n i) p.needs ∙ f.owed;
        free = refl;
      },
    )
