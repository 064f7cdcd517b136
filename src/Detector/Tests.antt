-- ===== src/Detector/Tests.antt =====
-- Rounds of a local fault detector, and a report of it.
use to_do_list_public.Common.{◌≡◌, refl, false, pos, [], ◌∷◌, ◌++◌, arith}
use to_do_list_public.Text.{Bytes, codes}
use to_do_list_public.Text.Digits.{read_int, read-dec_int}
use to_do_list_public.State.{active_running, unknown_state}
use to_do_list_public.Db.{task_not_done}
use to_do_list_public.Socket.{SockBufRead, init_buf_fd}
use to_do_list_public.Socket.Reader.{arrived, arrived-IsGood, arrived-view}
use to_do_list_public.Protocol.Scan.{scan_line, scan_line-Scans}
use to_do_list_public.Storage.{ClientCtx, msg_heartbeat}
use to_do_list_public.Server.{response_text}
use to_do_list_public.Response.{MessageResponse, parse_response_from_server}
use to_do_list_public.Response.Concrete.{conversions, conversions-Converts}
use to_do_list_public.Response.Laws.{told}
use to_do_list_public.Manager.{handle_state}
use to_do_list_public.Manager.Data.{running, ManagerMessage}
use to_do_list_public.Manager.Receive.{handle_fault_detector_message}
use to_do_list_public.Detector.{
  Detector, inform_rep_manager, connected, round, greet, heartbeat_round,
}
use to_do_list_public.Detector.Laws.{
  after_beat, counted, heartbeat-silent, heartbeat-answered, report-handled,
}

abbrev last_response : MessageResponse
last_response = record {
  hash_key = 0;
  client_id = pos 0;
  status = codes "OK";
  req_no = pos 3;
  state = active_running;
}

abbrev detector : Detector
detector = record {
  client_id = pos 0;
  replica_id = pos 1;
  heartbeat_count_g = 3;
  heartbeat_received_g = 3;
  connection = false;
  first_time = false;
  response = last_response;
  server_state = active_running;
}

abbrev beat : ClientCtx
beat = record {
  fd = pos 4;
  client_id = pos 0;
  req = record {
    msg_type = msg_heartbeat;
    task = λ i. 0;
    task_status = task_not_done;
    task_len = 0;
    hash_key = 0;
    req_no = 4;
  };
  is_backlog = false;
}

abbrev silence : SockBufRead
silence = init_buf_fd (arrived [])

heartbeat-silent_example :
    heartbeat_round conversions 1 detector (connected silence)
    ≡ round (after_beat detector last_response active_running) (
        greet (counted detector)
        ++ (inform_rep_manager (counted detector) running active_running ∷ []))
unfolding parse_response_from_server
heartbeat-silent_example =
    heartbeat-silent conversions 1 detector silence (omega arith) (arrived-IsGood [])
      (arrived-view []) refl

abbrev bytes : Bytes
bytes = response_text beat "OK" "Success" active_running

heartbeat-answered_example :
    heartbeat_round conversions 6 detector (connected (init_buf_fd (arrived bytes)))
    ≡ round (after_beat detector (told beat "OK" active_running last_response) active_running) (
        greet (counted detector)
        ++ (inform_rep_manager (counted detector) running active_running ∷ []))
heartbeat-answered_example =
    heartbeat-answered conversions 6 detector (init_buf_fd (arrived bytes)) conversions-Converts
      beat "Success" active_running refl refl refl (omega arith) refl refl refl (omega arith)
      (omega arith) (arrived-IsGood bytes) (arrived-view bytes)

abbrev old : ManagerMessage
old = record { replica_id = pos 0; state = running; server_state = unknown_state }

abbrev report : Bytes
report = inform_rep_manager detector running active_running ++ (0 ∷ [])

report-handled_example :
    handle_fault_detector_message scan_line read_int old (init_buf_fd (arrived report))
    ≡ handle_state (record { replica_id = pos 1; state = running; server_state = active_running })
report-handled_example =
    report-handled scan_line read_int scan_line-Scans (λ z h. read-dec_int z) detector running
      active_running old (init_buf_fd (arrived report)) (0 ∷ []) refl refl refl
      (arrived-IsGood report) (arrived-view report)
