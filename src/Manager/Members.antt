-- ===== src/Manager/Members.antt =====
-- The heartbeat thread of the replication manager and the membership.
use to_do_list_public.Common.{
  ℕ, zero, suc, ◌+◌, ◌≤◌, ◌<◌, ◌≡◌, refl, Bool, true, false, ◌&&◌, arith, ltb, leb, ◌==◌,
  if◌then◌else◌,
}
use to_do_list_public.Manager.Data.{max_replicas, Manager, ok, take_lock, release_lock}
use to_do_list_public.Manager.Invariant.{Inv, one, members}
use to_do_list_public.Manager.{gfd_one, gfd_pass, gfd_hbt}

abbrev in_range : ℕ → ℕ → ℕ → Bool
in_range rounds i j = leb i j && ltb j (i + rounds)

-- what a pass over the replicas from `i` on does to replica `j`
record Passed (rounds i : ℕ) (m m' : Manager) (j : ℕ) : Type 0 where
  status :
      m'.server_status j
      ≡ (if in_range rounds i j && (m.node j).last_heartbeat == 0 then 0 else m.server_status j)
  heartbeat :
      (m'.node j).last_heartbeat ≡ (if in_range rounds i j then 0 else (m.node j).last_heartbeat)
  state : (m'.node j).state ≡ (m.node j).state

gfd_pass-Passed : (rounds i : ℕ) (m : Manager) (j : ℕ) → Passed rounds i m (gfd_pass rounds i m) j
unfolding gfd_pass
gfd_pass-Passed zero i m j = record {
  status = ground arith;
  heartbeat = ground arith;
  state = refl;
}
gfd_pass-Passed (suc rounds) i m j =
    let p = gfd_pass-Passed rounds (i + 1) (gfd_one i m) j in
    record {
      status = ground (arith, p.status);
      heartbeat = ground (arith, p.heartbeat);
      state = ground (arith, p.state);
    }

-- what a pass leaves alone
record Unpassed (m m' : Manager) : Type 0 where
  primary : m'.primary_replica_id ≡ m.primary_replica_id
  needs : m'.needs_checkpoint ≡ m.needs_checkpoint
  num_servers : m'.num_servers ≡ m.num_servers
  num_replicas : m'.num_replicas ≡ m.num_replicas

gfd_pass-Unpassed : (rounds i : ℕ) (m : Manager) → Unpassed m (gfd_pass rounds i m)
unfolding gfd_pass
gfd_pass-Unpassed zero i m = record {
  primary = refl;
  needs = refl;
  num_servers = refl;
  num_replicas = refl;
}
gfd_pass-Unpassed (suc rounds) i m =
    let u = gfd_pass-Unpassed rounds (i + 1) (gfd_one i m) in
    record {
      primary = u.primary;
      needs = u.needs;
      num_servers = u.num_servers;
      num_replicas = u.num_replicas;
    }

one-le : (a b : ℕ) (c : Bool) → a ≡ (if c then 0 else b) → one a ≤ one b
one-le a b true e = ground arith
one-le a b false e = ground arith

members-le :
    (rounds i : ℕ) (m m' : Manager)
    → ((j : ℕ) → Passed rounds i m m' j)
    → members m'.server_status ≤ members m.server_status
members-le rounds i m m' p =
    let le = λ (j : ℕ).
      one-le (m'.server_status j) (m.server_status j)
        (in_range rounds i j && (m.node j).last_heartbeat == 0) ((p j).status) in
    omega (arith, le 0, le 1, le 2)

-- what a round of the heartbeat thread leaves
pub record Checked (m m' : Manager) : Type 0 where
  pub inv : Inv m'
  pub free : m'.lock ≡ false
  pub status :
      (j : ℕ)
      → j < m.num_replicas
      → m'.server_status j ≡ (if (m.node j).last_heartbeat == 0 then 0 else m.server_status j)
  pub heartbeat : (j : ℕ) → j < m.num_replicas → (m'.node j).last_heartbeat ≡ 0
  pub num_servers : m'.num_servers ≡ m.num_servers

-- With the lock free, a round of the heartbeat thread returns with the lock free and keeps the
-- manager's invariant. It unmarks exactly the replicas that sent no heartbeat since the last round,
-- forgets every heartbeat, and leaves the count of servers as it was.
pub gfd_hbt-Checked :
    (m : Manager) → m.lock ≡ false → Inv m → (m' : Manager) × (gfd_hbt m ≡ ok tt m') × Checked m m'
unfolding gfd_hbt take_lock release_lock
gfd_hbt-Checked m free inv =
    let s = record m { lock = true } in
    let s' = gfd_pass m.num_replicas 0 s in
    let p = λ (j : ℕ). gfd_pass-Passed m.num_replicas 0 s j in
    let u = gfd_pass-Unpassed m.num_replicas 0 s in
    let fits : ltb max_replicas m.num_replicas ≡ false = ground (arith, inv.small) in
    (
      record s' { lock = false },
      simp (free, fits),
      record {
        inv = record {
          primary = rw u.primary inv.primary;
          owed = rw (u.needs, u.primary) inv.owed;
          no_startup = λ j. rw ((p j).state) (inv.no_startup j);
          counted = omega (arith, members-le m.num_replicas 0 s s' p, u.num_servers, inv.counted);
          bounded = rw u.num_servers inv.bounded;
          small = rw u.num_replicas inv.small;
        };
        free = refl;
        status = λ j h. ground (arith, (p j).status);
        heartbeat = λ j h. ground (arith, (p j).heartbeat);
        num_servers = u.num_servers;
      },
    )
