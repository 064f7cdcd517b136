-- ===== src/Checkpoint/Tests.antt =====
-- A checkpoint of two bytes, sent whole and cut.
use to_do_list_public.Common.{◌≡◌, refl, true, false, pos, some, none, [], ◌∷◌, ◌++◌, arith}
use to_do_list_public.Text.{Bytes}
use to_do_list_public.Text.Digits.{read_int, read-dec_int}
use to_do_list_public.State.{passive_rep, passive_backup, unknown_state}
use to_do_list_public.Db.{hash_table_init}
use to_do_list_public.Log.{normal}
use to_do_list_public.Socket.{init_buf_fd}
use to_do_list_public.Socket.Reader.{arrived, arrived-IsGood, arrived-view}
use to_do_list_public.Protocol.Scan.{scan_line, scan_line-Scans}
use to_do_list_public.Server.{World}
use to_do_list_public.Server.Start.{start_log, new_node, no_requests, start-IsReady}
use to_do_list_public.Server.Enqueue.{Offered}
use to_do_list_public.Server.Parse.{init_client_ctx}
use to_do_list_public.Server.Connection.{handle_connection, stuck}
use to_do_list_public.Checkpoint.{whole, write_check_point, header}
use to_do_list_public.Checkpoint.Transfer.{checkpoint}
use to_do_list_public.Checkpoint.Laws.{checkpoint_transfer, checkpoint_cut}

abbrev world : World
world = record {
  server = record {
    rep_mode = passive_rep;
    state = passive_backup;
    prev_state = unknown_state;
    chkpt = record {
      signal_exit = false;
      is_running = false;
      freq = pos 10;
      chk_point_num = 0;
      thread = none;
    };
  };
  table = hash_table_init;
  msg_count = 0;
  sent = [];
  log = start_log;
  new = new_node;
}

abbrev file : Bytes
file = 97 ∷ 10 ∷ []

abbrev bytes : Bytes
bytes = write_check_point (λ k. whole) (pos 1) 3 (some file) ++ []

checkpoint_transfer_example :
    Offered no_requests normal (checkpoint (pos 4) (pos 1) 3 2) file true false world (
      handle_connection scan_line read_int
        (λ text. 0)
        2
        (init_client_ctx (pos 4))
        (init_buf_fd (arrived bytes))
        world)
checkpoint_transfer_example =
    checkpoint_transfer scan_line read_int (λ text. 0) scan_line-Scans (λ z h. read-dec_int z) 2
      (pos 4) (pos 1) 3 world (init_buf_fd (arrived bytes)) [] (arrived-IsGood bytes) refl refl
      (λ k. whole) file (λ k. refl) (omega arith) refl (omega arith) (arrived-view bytes)
      no_requests (start-IsReady world refl refl)

abbrev part : Bytes
part = header (pos 1) 3 2 ++ (97 ∷ [])

checkpoint_cut_example :
    handle_connection scan_line read_int
      (λ text. 0)
      5
      (init_client_ctx (pos 4))
      (init_buf_fd (arrived part))
      world
    ≡ stuck
checkpoint_cut_example =
    checkpoint_cut scan_line read_int (λ text. 0) scan_line-Scans (λ z h. read-dec_int z) 5 (pos 4)
      (pos 1) 3 world (init_buf_fd (arrived part)) (97 ∷ []) (arrived-IsGood part) refl refl 2 refl
      (omega arith) (arrived-view part)
