-- ===== src/Client/Tests.antt =====
-- Requests of a client, and exchanges with its servers.
use to_do_list_public.Common.{
  ◌+◌, ◌≡◌, refl, true, false, pos, none, [], ◌∷◌, ◌++◌, arith, int_eq, is_negative,
}
use to_do_list_public.Text.{Bytes, codes}
use to_do_list_public.Text.Digits.{read_int, read-dec_int}
use to_do_list_public.State.{passive_rep, passive_primary, unknown_state}
use to_do_list_public.Db.{hash_table_init, task_not_done, task_done}
use to_do_list_public.Log.{normal}
use to_do_list_public.Socket.{SockBufRead, init_buf_fd}
use to_do_list_public.Socket.Reader.{arrived, arrived-IsGood, arrived-view}
use to_do_list_public.Protocol.Scan.{scan_line, scan_line-Scans}
use to_do_list_public.Storage.{ClientCtx, msg_remove}
use to_do_list_public.Server.{World, response_text}
use to_do_list_public.Server.Start.{start_log, new_node, no_requests, start-IsReady}
use to_do_list_public.Server.Enqueue.{Offered}
use to_do_list_public.Server.Parse.{init_client_ctx}
use to_do_list_public.Server.Connection.{handle_connection}
use to_do_list_public.Response.{
  MessageResponse, get_response_from_server, got_response, parse_response_from_server,
}
use to_do_list_public.Response.Concrete.{conversions, conversions-Converts}
use to_do_list_public.Response.Laws.{told, get_response-write}
use to_do_list_public.Client.{
  MessageAdd, MessageModify, create_add_message_to_server, create_modify_message_to_server,
  not_connected, reached, send_and_get_response, waiting, returned, result, Polling,
}
use to_do_list_public.Client.Fields.{added, modified}
use to_do_list_public.Client.Events.{send-waits, unpolled}
use to_do_list_public.Client.Answers.{send-first, send-closes-stdin, only}
use to_do_list_public.Client.Laws.{add-received, modify-received}

abbrev world : World
world = record {
  server = record {
    rep_mode = passive_rep;
    state = passive_primary;
    prev_state = unknown_state;
    chkpt = record {
      signal_exit = false;
      is_running = false;
      freq = pos 10;
      chk_point_num = 0;
      thread = none;
    };
  };
  table = hash_table_init;
  msg_count = 0;
  sent = [];
  log = start_log;
  new = new_node;
}

abbrev addition : MessageAdd
addition = record {
  task = codes "buy milk";
  task_date = codes "today";
  task_status = task_not_done;
}

abbrev add_bytes : Bytes
add_bytes = create_add_message_to_server 1 addition (pos 2) ++ []

add-received_example :
    Offered no_requests normal (added (pos 4) 1 addition (pos 2)) [] false false world (
      handle_connection scan_line read_int
        (λ text. 0)
        0
        (init_client_ctx (pos 4))
        (init_buf_fd (arrived add_bytes))
        world)
add-received_example =
    add-received scan_line read_int (λ text. 0) scan_line-Scans (λ z h. read-dec_int z) 0 (pos 4)
      (pos 2) 1 world (init_buf_fd (arrived add_bytes)) [] (arrived-IsGood add_bytes) refl refl
      addition refl refl refl (omega arith) (omega arith) (arrived-view add_bytes) no_requests
      (start-IsReady world refl refl)

abbrev modification : MessageModify
modification = record {
  task = codes "7";
  new_task = codes "NA";
  new_date = codes "NA";
  new_task_status = task_done;
  task_string_modified = false;
  date_modified = false;
  status_modified = true;
}

abbrev modify_bytes : Bytes
modify_bytes = create_modify_message_to_server 1 modification (pos 2) ++ []

modify-received_example :
    Offered no_requests normal (modified (pos 4) 1 7 modification (pos 2)) [] false false world (
      handle_connection scan_line read_int
        (λ text. 7)
        0
        (init_client_ctx (pos 4))
        (init_buf_fd (arrived modify_bytes))
        world)
modify-received_example =
    modify-received scan_line read_int (λ text. 7) scan_line-Scans (λ z h. read-dec_int z) 0 (pos 4)
      (pos 2) 1 world (init_buf_fd (arrived modify_bytes)) [] (arrived-IsGood modify_bytes) refl
      refl modification refl refl refl refl refl (omega arith) (omega arith) (omega arith)
      (arrived-view modify_bytes) no_requests (start-IsReady world refl refl)

-- the server's response to the removal of a task, and what the client makes of it
abbrev removal : ClientCtx
removal = record {
  fd = pos 4;
  client_id = pos 2;
  req = record {
    msg_type = msg_remove;
    task = λ i. 0;
    task_status = task_not_done;
    task_len = 0;
    hash_key = 7;
    req_no = 1;
  };
  is_backlog = false;
}

abbrev old : MessageResponse
old = record { hash_key = 0; client_id = pos 0; status = []; req_no = pos 0; state = unknown_state }

abbrev response_bytes : Bytes
response_bytes = response_text removal "OK" "Success" passive_primary ++ []

abbrev answer : SockBufRead
answer = init_buf_fd (arrived response_bytes)

get_response-write_example :
    get_response_from_server conversions 6 answer old
    ≡ got_response (told removal "OK" passive_primary old)
get_response-write_example =
    get_response-write conversions conversions-Converts removal "OK" "Success" passive_primary old
      refl (omega arith) refl (omega arith) refl refl refl (omega arith) 6 answer [] refl
      (omega arith) (arrived-IsGood response_bytes) (arrived-view response_bytes)

abbrev silent : SockBufRead
silent = init_buf_fd []

send-waits_example :
    send_and_get_response conversions 6
      (pos 2)
      (not_connected ∷ not_connected ∷ reached (pos 3) answer ∷ [])
      ((λ j. false) ∷ [])
      old
      0
    ≡ waiting (unpolled (not_connected ∷ not_connected ∷ reached (pos 3) answer ∷ []) old 0)
send-waits_example =
    send-waits conversions 6 (pos 2) (pos 3) answer ((λ j. false) ∷ []) old 0 (refl, tt)

answer_lem :
    get_response_from_server conversions 6 answer old
    ≡ got_response (told removal "OK" passive_primary old)
answer_lem =
    get_response-write conversions conversions-Converts removal "OK" "Success" passive_primary old
      refl (omega arith) refl (omega arith) refl refl refl (omega arith) 6 answer [] refl
      (omega arith) (arrived-IsGood response_bytes) (arrived-view response_bytes)

fresh : int_eq (told removal "OK" passive_primary old).req_no (pos 0) ≡ false
unfolding told
fresh = refl

success :
    is_negative (parse_response_from_server (told removal "OK" passive_primary old) (pos 2)) ≡ false
unfolding told parse_response_from_server
success = refl

send-first_example :
    (p : Polling) × ((send_and_get_response conversions 6
          (pos 2)
          (reached (pos 3) answer ∷ reached (pos 4) silent ∷ reached (pos 5) silent ∷ [])
          (only 0 ∷ [])
          old
          0
        ≡ returned p)
      × ((result p ≡ pos 0)
          × ((p.response ≡ told removal "OK" passive_primary old)
              × ((p.response_no_g ≡ 0 + 1) × (p.closed ≡ pos 5 ∷ pos 4 ∷ pos 3 ∷ [])))))
send-first_example =
    send-first conversions 6 (pos 2) (pos 3) (pos 4) (pos 5) answer silent silent old
      (told removal "OK" passive_primary old) 0 [] fresh success refl refl answer_lem

send-closes-stdin_example :
    (p : Polling) × ((send_and_get_response conversions 6
          (pos 2)
          (not_connected ∷ reached (pos 3) answer ∷ reached (pos 4) silent ∷ [])
          (only 1 ∷ [])
          old
          0
        ≡ returned p)
      × (p.closed ≡ pos 0 ∷ pos 3 ∷ []))
send-closes-stdin_example =
    send-closes-stdin conversions 6 (pos 2) (pos 3) (pos 4) answer silent old
      (told removal "OK" passive_primary old) 0 [] fresh success answer_lem
