-- ===== src/Detector/Laws.antt =====
-- What a local fault detector (src/local_f_detector.c) reports of its server, and what the replication
-- manager (src/replication_manager.c) makes of a report.
use to_do_list_public.Common.{
  ℕ, ◌+◌, ◌^◌, ◌≤◌, ◌<◌, ◌≡◌, refl, ap, ◌∙◌, true, false, ℤ, pos, [], ◌∷◌, ◌++◌, length,
  is_negative, int_eq, arith,
}
use to_do_list_public.Text.{Bytes, codes, line}
use to_do_list_public.Socket.{SockBufRead}
use to_do_list_public.Socket.Reader.{view, IsGood}
use to_do_list_public.State.{ServerState, state_code}
use to_do_list_public.Storage.{ClientCtx, is_msg, msg_heartbeat}
use to_do_list_public.Protocol.{Strtol, Scan, Scans, is_int, is_value_text, text_of, field_text}
use to_do_list_public.Protocol.Int32.{Reads}
use to_do_list_public.Manager.{handle_state}
use to_do_list_public.Manager.Data.{ReplicaState, running, replica_code, ManagerMessage}
use to_do_list_public.Manager.Receive.{handle_fault_detector_message, report_fields, handle_report}
use to_do_list_public.Server.{response_text}
use to_do_list_public.Response.{
  MessageResponse, Conversions, no_response, get_response_from_server, parse_response_from_server,
}
use to_do_list_public.Response.Words.{Converts}
use to_do_list_public.Response.Reading.{get_response-ended, all_read, lines_of}
use to_do_list_public.Response.Laws.{told, get_response-heartbeat}
use to_do_list_public.Detector.{
  Detector, inform_rep_manager, connected, round, greet, judge, answered_round, heartbeat_round,
}
use Prim.Native.String.{String}

int_same : (z : ℤ) → int_eq z z ≡ true
int_same z = ground arith

parse_told :
    (ctx : ClientCtx) (state : ServerState) (r : MessageResponse) (id : ℤ)
    → ctx.client_id ≡ id
    → parse_response_from_server (told ctx "OK" state r) id ≡ pos 0
unfolding parse_response_from_server told
parse_told ctx state r id e = rw e (rw (int_same id) refl)

told-state :
    (ctx : ClientCtx) (state : ServerState) (r : MessageResponse)
    → is_msg ctx.req.msg_type msg_heartbeat ≡ true
    → (told ctx "OK" state r).state ≡ state
unfolding told
told-state ctx state r beat = rw beat refl

judge_lem :
    (d : Detector) (r : MessageResponse)
    → is_negative (parse_response_from_server r d.client_id) ≡ false
    → judge d r ≡ (
      record d {
        first_time = false;
        connection = false;
        response = r;
        heartbeat_received_g = d.heartbeat_received_g + 1;
        server_state = r.state;
      },
      inform_rep_manager d running r.state ∷ [],
    )
unfolding judge
judge_lem d r h = rw h refl

-- the detector after a round in which it takes its server for running
abbrev pub after_beat : Detector → MessageResponse → ServerState → Detector
after_beat d r state = record d {
  heartbeat_count_g = d.heartbeat_count_g + 1;
  first_time = false;
  connection = false;
  response = r;
  heartbeat_received_g = d.heartbeat_received_g + 1;
  server_state = state;
}

abbrev pub counted : Detector → Detector
counted d = record d { heartbeat_count_g = d.heartbeat_count_g + 1 }

module _ (c : Conversions) (fuel : ℕ) (d : Detector) (q : SockBufRead) where
  round_no_response :
      (r : MessageResponse)
      → get_response_from_server c fuel q d.response ≡ no_response r
      → is_negative (parse_response_from_server r d.client_id) ≡ false
      → heartbeat_round c fuel d (connected q)
        ≡ round
            (after_beat d r r.state)
            (greet (counted d) ++ (inform_rep_manager (counted d) running r.state ∷ []))
  unfolding heartbeat_round
  round_no_response r e h =
      ap (answered_round (counted d)) e
      ∙ ap (λ p. round p.0 (greet (counted d) ++ p.1)) (judge_lem (counted d) r h)

  -- A detector that is connected to its server, but gets no byte of a response before the end of the file,
  -- takes the last response for the answer: if that was for it and was no failure, it reports the
  -- server as running, in the state of then. One round of the loop is enough.
  pub heartbeat-silent :
      0 < fuel
      → IsGood q
      → view q ≡ []
      → is_negative (parse_response_from_server d.response d.client_id) ≡ false
      → heartbeat_round c fuel d (connected q)
        ≡ round
            (after_beat d d.response d.response.state)
            (greet (counted d) ++ (inform_rep_manager (counted d) running d.response.state ∷ []))
  unfolding lines_of
  heartbeat-silent some_ g e h =
      round_no_response d.response
        (get_response-ended c fuel q d.response d.response [] g e (all_read d.response)
          (omega (arith, some_)))
        h

  -- A server that answers the heartbeat with "OK" and its state is reported as running in that state,
  -- behind the reports of a new connection, although the response has no empty line and the call
  -- that reads it returns -1. The response is for this detector, its numbers are ones of an `int`
  -- and its key one of 64 bits, its message is a text of at most 2000 bytes that `sscanf` can read,
  -- and `sscanf`, `atoi` and `strtoul` read what is printed. Six rounds of the loop are enough.
  pub heartbeat-answered :
      (converts : Converts c) (ctx : ClientCtx) (msg : String) (state : ServerState)
      → is_msg ctx.req.msg_type msg_heartbeat ≡ true
      → ctx.client_id ≡ d.client_id
      → is_value_text (codes msg) ≡ true
      → length (codes msg) ≤ 2000
      → is_int ctx.client_id ≡ true
      → is_int (pos ctx.req.req_no) ≡ true
      → is_int (pos (state_code state)) ≡ true
      → ctx.req.hash_key < 2 ^ 64
      → 5 < fuel
      → IsGood q
      → view q ≡ response_text ctx "OK" msg state
      → heartbeat_round c fuel d (connected q)
        ≡ round
            (after_beat d (told ctx "OK" state d.response) state)
            (greet (counted d) ++ (inform_rep_manager (counted d) running state ∷ []))
  heartbeat-answered converts ctx msg state beat mine value short_msg int_id int_no int_state
        long_key enough g e =
      let r = told ctx "OK" state d.response in
      round_no_response r
        (get_response-heartbeat c converts ctx "OK" msg state d.response refl (omega arith) value
          short_msg int_id int_no int_state long_key fuel q beat enough g e)
        (ap is_negative (parse_told ctx state d.response d.client_id mine))
      ∙ ap
          (λ s.
            round (after_beat d r s)
              (greet (counted d) ++ (inform_rep_manager (counted d) running s ∷ [])))
          (told-state ctx state d.response beat)

report_lem :
    (d : Detector) (state : ReplicaState) (server_state : ServerState)
    → inform_rep_manager d state server_state
      ≡ text_of (
          report_fields
            (record { replica_id = d.replica_id; state = state; server_state = server_state }))
unfolding inform_rep_manager text_of report_fields field_text line
report_lem d state server_state = refl

-- A report that a detector writes makes the replication manager that reads it, on a connection without
-- failures, however it arrives and whatever follows it, handle the reported states as the ones of the
-- detector's replica. The three numbers are ones of an `int`, `strtol` reads what `%d` prints, and
-- `sscanf` takes the lines apart.
pub report-handled :
    (scan : Scan) (strtol : Strtol) (scans : Scans scan) (reads : Reads strtol) (d : Detector)
    (state : ReplicaState) (server_state : ServerState) (old : ManagerMessage) (r : SockBufRead)
    (rest : Bytes)
    → is_int d.replica_id ≡ true
    → is_int (pos (replica_code state)) ≡ true
    → is_int (pos (state_code server_state)) ≡ true
    → IsGood r
    → view r ≡ inform_rep_manager d state server_state ++ rest
    → handle_fault_detector_message scan strtol old r
      ≡ handle_state
          (record { replica_id = d.replica_id; state = state; server_state = server_state })
report-handled scan strtol scans reads d state server_state old r rest int_id int_state int_server
      good e =
    handle_report scan strtol scans reads
      (record { replica_id = d.replica_id; state = state; server_state = server_state }) old int_id
      int_state int_server r rest good (e ∙ ap (λ us. us ++ rest) (report_lem d state server_state))
