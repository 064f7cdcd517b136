-- ===== src/Manager/Tests.antt =====
-- Runs of the replication manager with three replicas.
use to_do_list_public.Common.{◌≡◌, refl, false, pos, minus_one, [], ◌==◌, if◌then◌else◌, arith}
use to_do_list_public.State.{passive_backup}
use to_do_list_public.Manager.Data.{
  running, faulted, ReplicaState, ReplicaNode, ManagerMessage, Manager, ok, delivered,
  connect_failed, blocked,
}
use to_do_list_public.Manager.Branches.{Returns}
use to_do_list_public.Manager.Handle.{Done, handle_state-Done}
use to_do_list_public.Manager.Invariant.{Inv}
use to_do_list_public.Manager.Failover.{FailedOver, failover}
use to_do_list_public.Manager.Lock.{handle_state-deadlock}
use to_do_list_public.Manager.Members.{Checked, gfd_hbt-Checked}
use to_do_list_public.Manager.{handle_state, gfd_hbt}

abbrev replica : ReplicaState → ReplicaNode
replica state = record {
  state = state;
  server_state = passive_backup;
  factory = record { server_ip = []; port = pos 7001 };
  server = record { server_ip = []; port = pos 8001 };
  last_heartbeat = 1;
}

-- three running replicas in the passive mode, the first one the primary
abbrev three_running : Manager
three_running = record {
  mode = 0;
  num_replicas = 3;
  checkpoint_freq = pos 10;
  node = λ _. replica running;
  primary_replica_id = pos 0;
  server_status = λ _. 1;
  num_servers = 3;
  needs_checkpoint = λ _. 0;
  lock = false;
  sent = [];
  attempts = 0;
  network = λ _. delivered;
}

-- the second replica is down and is owed a checkpoint, and no factory can be reached
abbrev one_cut_off : Manager
one_cut_off = record three_running {
  node = λ i. replica (if i == 1 then faulted else running);
  needs_checkpoint = λ i. if i == 1 then 1 else 0;
  network = λ _. connect_failed;
}

abbrev primary_down : ManagerMessage
primary_down = record { replica_id = pos 0; state = faulted; server_state = passive_backup }

abbrev second_up : ManagerMessage
second_up = record { replica_id = pos 1; state = running; server_state = passive_backup }

three_running-Inv : Inv three_running
three_running-Inv = record {
  primary = refl;
  owed = ground arith;
  no_startup = λ j. refl;
  counted = omega arith;
  bounded = omega arith;
  small = omega arith;
}

handle_state-Done_example :
    Returns (handle_state primary_down three_running) (Done 0 primary_down three_running)
handle_state-Done_example =
    handle_state-Done 0 primary_down three_running (omega arith) refl refl three_running-Inv

failover_example :
    (m' : Manager) × (handle_state primary_down three_running ≡ ok (pos 0) m')
    × FailedOver 0 three_running m'
failover_example =
    failover 0 primary_down three_running (omega arith) refl refl refl refl refl refl refl refl

handle_state-deadlock_example :
    (m' : Manager) × (handle_state second_up one_cut_off ≡ ok minus_one m')
    × ((later : ManagerMessage) → handle_state later m' ≡ blocked)
    × (gfd_hbt m' ≡ blocked)
handle_state-deadlock_example =
    handle_state-deadlock 1 0 second_up one_cut_off (omega arith) (omega arith) refl refl refl refl
      refl refl refl (λ n. ground arith)

gfd_hbt-Checked_example :
    (m' : Manager) × (gfd_hbt three_running ≡ ok tt m') × Checked three_running m'
gfd_hbt-Checked_example = gfd_hbt-Checked three_running refl three_running-Inv
