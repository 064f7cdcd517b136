-- ===== src/Manager.antt =====
-- The replication manager of src/replication_manager.c: what it does on a heartbeat message of a
-- local fault detector, and the round of its own heartbeat thread. The calls of `sleep` in
-- `handle_state` let time pass and change nothing that is modelled.
pub mod Receive
pub mod Data
pub mod Send
pub mod Local
pub mod Branches
pub mod Down
pub mod Invariant
pub mod Handle
pub mod Failover
pub mod Lock
pub mod Members
mod Tests
use to_do_list_public.Common.{
  ℕ, zero, suc, ◌+◌, ◌-◌, ◌%◌, Bool, true, false, ◌&&◌, not, ℤ, pos, minus_one, int_eq, is_negative,
  ltb, ◌==◌, if◌then◌else◌,
}
use to_do_list_public.State.{
  active_rep, passive_rep, ServerState, passive_backup, active_running, active_recover,
}
use Data.{
  max_replicas, ReplicaState, running, faulted, sent_startup_req, is_replica, ReplicaNode,
  ManagerMessage, Manager, update, Run, ok, fault, Cmd, pure, ◌>>=◌, ◌>>◌, get, modify, index,
  set_state_of, set_primary, take_lock, release_lock,
}
use Send.{
  elect_new_primary, send_change_status_to_server, instruct_primary_to_send_chkpt, restart_server,
  quiesce_all, stop_quiesce_all,
}

-- `if (status < 0) ret = -1;`
abbrev pub failed : ℤ → ℤ → ℤ
failed status ret = if is_negative status then minus_one else ret

-- How a part of `handle_state` ends: with the value of `ret`, or by a `return` of its own.
pub data Flow : Type 0 where
  go_on : ℤ → Flow
  return_early : ℤ → Flow

-- a replica that was faulted is running, in the passive mode
unfoldable pub passive_up : ℕ → Cmd Flow
passive_up i = do
  m ← get
  status ←
      (if int_eq (pos i) m.primary_replica_id
        then elect_new_primary m.primary_replica_id
        else send_change_status_to_server i passive_rep passive_backup)
  m ← get
  if m.needs_checkpoint i == 1
      then (do
        sending ← instruct_primary_to_send_chkpt m.primary_replica_id
        pure
            (if is_negative sending then return_early minus_one else go_on (failed status (pos 0))))
      else pure (go_on (failed status (pos 0)))

-- the same in the active mode
unfoldable pub active_up : ℕ → ReplicaState → Cmd Flow
active_up i state = do
  m ← get
  if int_eq m.primary_replica_id minus_one
      then (do
        modify (set_primary (pos i))
        status ← send_change_status_to_server i active_rep active_running
        pure (go_on (failed status (pos 0))))
      else (do
        modify (set_state_of i state)
        recovering ← send_change_status_to_server i active_rep active_recover
        quiesce_all
        m ← get
        sending ← instruct_primary_to_send_chkpt m.primary_replica_id
        stop_quiesce_all
        status ← send_change_status_to_server i active_rep active_running
        pure (go_on (failed status (failed sending (failed recovering (pos 0))))))

-- the branch of a message that a replica is running
unfoldable pub handle_running : ℕ → ReplicaState → Cmd Flow
handle_running i state = do
  m ← get
  flow ←
      (if is_replica (m.node i).state faulted
        then (if m.mode == 0
            then passive_up i
            else (if m.mode == 1 then active_up i state else pure (go_on (pos 0))))
        else pure (go_on (pos 0)))
  elim flow [
    | return_early r ↦ pure (return_early r)
    | go_on r ↦ (do modify (set_state_of i state); pure (go_on r))
  ]

abbrev needs_one : ℕ → Manager → Manager
needs_one i m = record m { needs_checkpoint = update m.needs_checkpoint i 1 }

-- the next replica becomes the primary
unfoldable pub move_primary : ℕ → Cmd ℤ
move_primary i = do
  modify (set_primary (pos ((i + 1) % max_replicas)))
  elect_new_primary (pos ((i + 1) % max_replicas))

unfoldable pub passive_down : ℕ → Cmd ℤ
passive_down i = do
  m ← get
  if int_eq m.primary_replica_id minus_one
      then (do restart_server i; modify (set_primary (pos i)); pure (pos 0))
      else (if int_eq (pos i) m.primary_replica_id
          then (do
            restart_server i
            status ← move_primary i
            modify (needs_one i)
            pure (failed status (pos 0)))
          else (do restart_server i; modify (needs_one i); pure (pos 0)))

unfoldable pub active_down : ℕ → Cmd ℤ
active_down i = do
  restart_server i
  m ← get
  if int_eq (pos i) m.primary_replica_id
      then (do status ← move_primary i; pure (failed status (pos 0)))
      else pure (pos 0)

-- the branch of a message that a replica is faulted
unfoldable pub handle_faulted : ℕ → Cmd Flow
handle_faulted i = do
  m ← get
  if is_replica (m.node i).state sent_startup_req then pure (go_on (pos 0)) else (do
    ret ←
        (if m.mode == 0
          then passive_down i
          else (if m.mode == 1 then active_down i else pure (pos 0)))
    modify (set_state_of i faulted)
    pure (go_on ret))

-- `print_current_state_info`: the membership; the lines that it prints are not modelled
unfoldable pub print_current_state_info : ℕ → ReplicaState → Manager → Manager
print_current_state_info i state m =
    if m.server_status i == 0 && is_replica state running
    then record m {
      server_status = update m.server_status i 1;
      num_servers =
          if ltb max_replicas (m.num_servers + 1) then max_replicas else m.num_servers + 1;
    }
    else (if m.server_status i == 1 && is_replica state faulted
        then record m {
          server_status = update m.server_status i 0;
          num_servers = m.num_servers - 1;
        }
        else m)

-- the first assignments of `handle_state`
abbrev heard : ℕ → ServerState → Manager → Manager
heard i server_state m = record m {
  node = update m.node i (record (m.node i) { last_heartbeat = 1; server_state = server_state });
}

-- `handle_state` once the index is known; `handle_current_state` only counts into local variables
unfoldable pub handle_state_at : ℕ → ManagerMessage → Cmd ℤ
handle_state_at i msg = do
  modify (heard i msg.server_state)
  flow ←
      (if is_replica msg.state running
        then handle_running i msg.state
        else (if is_replica msg.state faulted then handle_faulted i else pure (go_on (pos 0))))
  elim flow [
    | return_early r ↦ pure r
    | go_on r ↦ (do modify (print_current_state_info i msg.state); release_lock; pure r)
  ]

unfoldable pub handle_state : ManagerMessage → Cmd ℤ
handle_state msg = do take_lock; i ← index msg.replica_id; handle_state_at i msg

-- the body of the loop of `gfd_hbt`
abbrev pub gfd_one : ℕ → Manager → Manager
gfd_one i m = record m {
  server_status =
      if (m.node i).last_heartbeat == 0 then update m.server_status i 0 else m.server_status;
  node = update m.node i (record (m.node i) { last_heartbeat = 0 });
}

-- its rounds from the replica `i` on
unfoldable pub gfd_pass : ℕ → ℕ → Manager → Manager
gfd_pass zero i m = m
gfd_pass (suc rounds) i m = gfd_pass rounds (i + 1) (gfd_one i m)

-- One round of the heartbeat thread. More replicas than the arrays hold are a fault.
unfoldable pub gfd_hbt : Cmd (Unit {0})
gfd_hbt = do
  take_lock
  m ← get
  (if ltb max_replicas m.num_replicas then (λ _. fault) else modify (gfd_pass m.num_replicas 0))
  release_lock
