-- ===== src/Manager/Data.antt =====
-- The data of the replication manager (src/replication_manager.c, include/replication_util.h): its
-- globals as one record, the messages that it gets and sends, and the commands on it.
-- What the network does is an argument: the outcome of each attempt to connect and to write.
use to_do_list_public.Common.{
  ℕ, ◌+◌, Bool, true, false, ℤ, pos, negsuc, List, ltb, ◌==◌, if◌then◌else◌,
}
use to_do_list_public.Text.{Bytes}
use to_do_list_public.State.{ServerState}

abbrev pub max_replicas : ℕ
max_replicas = 3

-- `enum replica_state`; a heartbeat message may hold any integer
pub data ReplicaState : Type 0 where
  running : ReplicaState
  faulted : ReplicaState
  sent_startup_req : ReplicaState
  other_replica_state : ℕ → ReplicaState

abbrev pub replica_code : ReplicaState → ℕ
replica_code running = 0
replica_code faulted = 1
replica_code sent_startup_req = 2
replica_code (other_replica_state n) = 3 + n

abbrev pub is_replica : ReplicaState → ReplicaState → Bool
is_replica a b = replica_code a == replica_code b

-- `struct server_info`
pub record ServerInfo : Type 0 where
  pub server_ip : Bytes
  pub port : ℤ

-- `replica_node`, less the strings of the configuration file, which `server` and `factory` repeat
pub record ReplicaNode : Type 0 where
  pub state : ReplicaState
  pub server_state : ServerState
  pub factory : ServerInfo
  pub server : ServerInfo
  pub last_heartbeat : ℕ

-- `replication_manager_message`
pub record ManagerMessage : Type 0 where
  pub replica_id : ℤ
  pub state : ReplicaState
  pub server_state : ServerState

-- a text written to the factory of a replica
pub record Sent : Type 0 where
  pub target : ℕ
  pub text : Bytes

-- `connect_to_server` and `write`
pub data Attempt : Type 0 where
  delivered : Attempt
  connect_failed : Attempt
  write_failed : Attempt

-- The globals `data`, `mode`, `primary_replica_id`, `membership` and `lock`; what was sent, the
-- newest first; and the attempts made so far on the network, with the outcome of each.
pub record Manager : Type 0 where
  pub mode : ℕ
  pub num_replicas : ℕ
  pub checkpoint_freq : ℤ
  pub node : ℕ → ReplicaNode
  pub primary_replica_id : ℤ
  pub server_status : ℕ → ℕ
  pub num_servers : ℕ
  pub needs_checkpoint : ℕ → ℕ
  pub lock : Bool
  pub sent : List Sent
  pub attempts : ℕ
  pub network : ℕ → Attempt

abbrev pub update {ℓ} : {A : Type ℓ} → (ℕ → A) → ℕ → A → ℕ → A
update f i v j = if j == i then v else f j

-- An access outside an array is a fault; a mutex that is held blocks.
pub data Run (A : Type 0) : Type 0 where
  ok : A → Manager → Run A
  fault : Run A
  blocked : Run A

abbrev pub Cmd : Type 0 → Type 0
Cmd A = Manager → Run A

abbrev pub pure : {A : Type 0} → A → Cmd A
pure = ok

module _ {A B : Type 0} where
  abbrev pub continue : Run A → (A → Cmd B) → Run B
  continue (ok a m) k = k a m
  continue fault k = fault
  continue blocked k = blocked

  infixl 5 ◌>>=◌ ◌>>◌
  abbrev pub ◌>>=◌ : Cmd A → (A → Cmd B) → Cmd B
  ◌>>=◌ c k m = continue (c m) k

  abbrev pub ◌>>◌ : Cmd A → Cmd B → Cmd B
  ◌>>◌ c k m = continue (c m) (λ _. k)

abbrev pub get : Cmd Manager
get m = ok m m

abbrev pub modify : (Manager → Manager) → Cmd (Unit {0})
modify f m = ok tt (f m)

-- the index of a replica, where the code indexes an array of `MAX_REPLICAS` by an `int`
unfoldable pub index : ℤ → Cmd ℕ
index (pos i) m = if ltb i max_replicas then ok i m else fault
index (negsuc i) m = fault

abbrev pub set_state_of : ℕ → ReplicaState → Manager → Manager
set_state_of i t m = record m { node = update m.node i (record (m.node i) { state = t }) }

abbrev pub set_primary : ℤ → Manager → Manager
set_primary i m = record m { primary_replica_id = i }

-- `pthread_mutex_lock` and `pthread_mutex_unlock`
unfoldable pub take_lock : Cmd (Unit {0})
take_lock m = if m.lock then blocked else ok tt (record m { lock = true })

unfoldable pub release_lock : Cmd (Unit {0})
release_lock m = ok tt (record m { lock = false })
