-- ===== src/Factory/Tests.antt =====
-- Runs of a factory on a command of the replication manager.
use to_do_list_public.Common.{◌≡◌, refl, false, true, pos, none, [], ◌∷◌, ◌++◌, ◌∙◌, inl, arith}
use to_do_list_public.Text.{Bytes, codes, line}
use to_do_list_public.Text.Digits.{read_int, read-dec_int}
use to_do_list_public.Socket.{Connection, interrupted, chunk, init_buf_fd}
use to_do_list_public.Socket.Stream.{is_sound, all_bytes}
use to_do_list_public.Socket.Reader.{
  init_buf_fd-IsGood, init_buf_fd-view, arrived, arrived-IsGood, arrived-view,
}
use to_do_list_public.Protocol.Scan.{scan_line, scan_line-Scans}
use to_do_list_public.State.{unknown_state, unknown_rep}
use to_do_list_public.Db.{hash_table_init}
use to_do_list_public.Log.{control}
use to_do_list_public.Server.{World}
use to_do_list_public.Server.Start.{start_log, new_node, no_requests, start-IsReady}
use to_do_list_public.Server.Enqueue.{Offered}
use to_do_list_public.Server.Parse.{init_client_ctx}
use to_do_list_public.Server.Connection.{handle_connection}
use to_do_list_public.Server.Fields.{configured}
use to_do_list_public.Server.Relay.{relay_to_server}
use to_do_list_public.Manager.Data.{running, Manager, delivered}
use to_do_list_public.Manager.Send.{election_text}
use to_do_list_public.Factory.{
  fill_change_state_buf, FactoryMessage, handle_replication_manager_message, acts, send,
}
use to_do_list_public.Factory.Relay.{relay_election}
use to_do_list_public.Factory.Fields.{server_text, elected}

abbrev manager : Manager
manager = record {
  mode = 0;
  num_replicas = 3;
  checkpoint_freq = pos 10;
  node = λ i. record {
    state = running;
    server_state = unknown_state;
    factory = record { server_ip = []; port = pos 7001 };
    server = record { server_ip = codes "10.0.0.1"; port = pos 8001 };
    last_heartbeat = 1;
  };
  primary_replica_id = pos 0;
  server_status = λ _. 1;
  num_servers = 3;
  needs_checkpoint = λ _. 0;
  lock = false;
  sent = [];
  attempts = 0;
  network = λ _. delivered;
}

abbrev empty_message : FactoryMessage
empty_message = record {
  replica_id = pos 0;
  bkp_replica_id_1 = pos 0;
  bkp_replica_id_2 = pos 0;
  req = pos 0;
  mode_rep = pos 0;
  checkpoint_freq = pos 0;
  server_state = pos 0;
  server_1 = record { server_ip = []; port = pos 0 };
  server_2 = record { server_ip = []; port = pos 0 };
}

abbrev arrivals : Connection
arrivals = interrupted ∷ chunk (election_text 0 1 2 manager) ∷ chunk (0 ∷ 0 ∷ []) ∷ []

sound_lem : is_sound arrivals ≡ true
unfolding election_text is_sound line
sound_lem = refl

text_lem : all_bytes arrivals ≡ election_text 0 1 2 manager ++ (0 ∷ 0 ∷ [])
unfolding election_text all_bytes line
text_lem = refl

relay_election_example :
    handle_replication_manager_message scan_line read_int
      (pos 0)
      empty_message
      (init_buf_fd arrivals)
    ≡ acts (send (server_text 1 2 manager))
relay_election_example =
    relay_election read_int (λ z h. read-dec_int z) 0 1 2 manager empty_message refl refl refl refl
      refl refl (omega arith) (omega arith) scan_line scan_line-Scans (init_buf_fd arrivals)
      (0 ∷ 0 ∷ []) refl refl (inl refl) (init_buf_fd-IsGood arrivals sound_lem)
      (init_buf_fd-view arrivals ∙ text_lem)

abbrev world : World
world = record {
  server = record {
    rep_mode = unknown_rep;
    state = unknown_state;
    prev_state = unknown_state;
    chkpt = record {
      signal_exit = false;
      is_running = false;
      freq = pos 10;
      chk_point_num = 0;
      thread = none;
    };
  };
  table = hash_table_init;
  msg_count = 0;
  sent = [];
  log = start_log;
  new = new_node;
}

abbrev bytes : Bytes
bytes = fill_change_state_buf (elected 0 1 2 manager) ++ []

relay_to_server_example :
    Offered no_requests control (configured (pos 4) 1 2 manager) [] false false world (
      handle_connection scan_line read_int
        (λ text. 0)
        0
        (init_client_ctx (pos 4))
        (init_buf_fd (arrived bytes))
        world)
relay_to_server_example =
    relay_to_server read_int (λ text. 0) (λ z h. read-dec_int z) (pos 4) 1 2 manager refl refl refl
      refl refl refl refl (omega arith) (omega arith) scan_line scan_line-Scans 0 world 0
      (init_buf_fd (arrived bytes)) [] no_requests (inl refl) (arrived-IsGood bytes)
      (arrived-view bytes) (start-IsReady world refl refl)
