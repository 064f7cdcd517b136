-- ===== src/State/Tests.antt =====
-- Runs of the server state and the checkpoint thread on concrete values.
use to_do_list_public.Common.{◌≡◌, refl, true, false, pos, none, some}
use to_do_list_public.State.Thread.{
  Chkpt, StoppedFrom, kill_chkpt_thrd_if_running, kill-StoppedFrom, wait, wait-forever,
  start_ckhpt_thread,
}
use to_do_list_public.State.{
  active_rep, passive_rep, unknown_rep, unknown_state, quiesce, active_running, passive_primary,
  passive_backup, done, ◌>>=◌, Server, set_mode, set_state, put_in_quiesence, remove_from_quiesence,
  RepMgrMsg, handle_rep_msg, is_allowed, update_thread,
}
use to_do_list_public.State.Laws.{
  remove-put, quiesce_twice, remove_times, Configured, handle_rep_msg-Configured,
}
use to_do_list_public.State.Reachable.{Reach-Inv}
use to_do_list_public.State.Steps.{start, here, next, rep_msg, wait_for_thread, Inv}

abbrev idle_thread : Chkpt
idle_thread = record {
  signal_exit = false;
  is_running = false;
  freq = pos 10;
  chk_point_num = 0;
  thread = none;
}

abbrev busy_thread : Chkpt
busy_thread = record idle_thread { is_running = true; thread = some 4 }

abbrev endless_thread : Chkpt
endless_thread = record busy_thread { freq = pos 0 }

abbrev fresh_server : Server
fresh_server = record {
  rep_mode = unknown_rep;
  state = unknown_state;
  prev_state = unknown_state;
  chkpt = idle_thread;
}

abbrev active_server : Server
active_server = record fresh_server { rep_mode = active_rep; state = active_running }

abbrev primary_server : Server
primary_server = record {
  rep_mode = passive_rep;
  state = passive_primary;
  prev_state = unknown_state;
  chkpt = busy_thread;
}

abbrev to_backup : RepMgrMsg
to_backup = record {
  rep_mode = passive_rep;
  server_state = passive_backup;
  checkpoint_freq = pos 5;
}

abbrev to_active : RepMgrMsg
to_active = record {
  rep_mode = active_rep;
  server_state = active_running;
  checkpoint_freq = pos 10;
}

remove-put_example :
    put_in_quiesence active_server >>= remove_from_quiesence
    ≡ done (record active_server { prev_state = active_running })
unfolding is_allowed
remove-put_example = remove-put active_server refl refl

quiesce_twice_example :
    put_in_quiesence active_server >>= put_in_quiesence >>= remove_times 2
    ≡ done (record active_server { state = quiesce; prev_state = quiesce })
quiesce_twice_example = quiesce_twice active_server refl 2

kill-StoppedFrom_example :
    (c' : Chkpt) × (kill_chkpt_thrd_if_running busy_thread ≡ some c') × StoppedFrom busy_thread c'
kill-StoppedFrom_example =
    kill-StoppedFrom busy_thread (record { quiet = refl; flagged = refl }) refl

wait-forever_example : wait 100 (record endless_thread { signal_exit = true }) ≡ none
wait-forever_example =
    wait-forever endless_thread (record { quiet = refl; flagged = refl }) refl refl 100

handle_rep_msg-Configured_example :
    (s' : Server) × (handle_rep_msg to_backup primary_server ≡ done s')
    × Configured to_backup primary_server s'
unfolding is_allowed
handle_rep_msg-Configured_example =
    handle_rep_msg-Configured to_backup primary_server (record { quiet = refl; flagged = refl })
      refl refl refl

configured_start : handle_rep_msg to_active start ≡ done active_server
unfolding handle_rep_msg set_mode set_state is_allowed update_thread kill_chkpt_thrd_if_running
configured_start = refl

-- a primary whose checkpoint thread never tests its signal, and a message that waits for the thread
abbrev to_primary : RepMgrMsg
to_primary = record {
  rep_mode = passive_rep;
  server_state = passive_primary;
  checkpoint_freq = pos 0;
}

abbrev endless_primary : Server
endless_primary = record primary_server { chkpt = record endless_thread { thread = some 0 } }

endless_start : handle_rep_msg to_primary start ≡ done endless_primary
unfolding handle_rep_msg set_mode set_state is_allowed update_thread kill_chkpt_thrd_if_running
    start_ckhpt_thread
endless_start = refl

Reach-Inv_example :
    Inv (record endless_primary { chkpt = record endless_primary.chkpt { signal_exit = true } })
Reach-Inv_example = Reach-Inv (
    next (next here (rep_msg to_primary endless_start)) (
      wait_for_thread to_backup refl refl
        (wait-forever endless_primary.chkpt (record { quiet = refl; flagged = refl }) refl refl)))
