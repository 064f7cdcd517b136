-- ===== src/Detector.antt =====
-- The local fault detector of a replica (src/local_f_detector.c): the rounds of `heartbeat_signal`,
-- which sends heartbeats to the server, and its reports to the replication manager. What the server
-- does in a round is an argument; whether a report arrives does not change the detector.
pub mod Laws
mod Tests
use to_do_list_public.Common.{
  ℕ, ◌+◌, Bool, true, false, ℤ, pos, List, [], ◌∷◌, ◌++◌, if◌then◌else◌, is_negative,
}
use to_do_list_public.Text.{Bytes, codes, crlf, line, dec, dec_int}
use to_do_list_public.Socket.{SockBufRead}
use to_do_list_public.State.{ServerState, unknown_state, state_code}
use to_do_list_public.Storage.{msg_code, msg_heartbeat}
use to_do_list_public.Manager.Data.{ReplicaState, running, faulted, replica_code}
use to_do_list_public.Response.{
  MessageResponse, Conversions, Gotten, got_response, no_response, got_outside, got_unfinished,
  get_response_from_server, parse_response_from_server,
}

-- The globals and the locals of `heartbeat_signal` that live from round to round; the counts are taken
-- to stay in the range of an `int`.
pub record Detector : Type 0 where
  pub client_id : ℤ
  pub replica_id : ℤ
  pub heartbeat_count_g : ℕ
  pub heartbeat_received_g : ℕ
  pub connection : Bool
  pub first_time : Bool
  pub response : MessageResponse
  pub server_state : ServerState

-- the text of `create_heartbeat_message_to_server`
unfoldable pub create_heartbeat_message_to_server : Detector → Bytes
create_heartbeat_message_to_server d =
    line "Client ID" (dec_int d.client_id)
    ++ (line "Request No" (dec d.heartbeat_count_g)
        ++ (line "Message Type" (dec (msg_code msg_heartbeat)) ++ crlf))

-- the text that `inform_rep_manager` has `send_rep_manager` write
unfoldable pub inform_rep_manager : Detector → ReplicaState → ServerState → Bytes
inform_rep_manager d state server_state =
    line "Replica ID" (dec_int d.replica_id)
    ++ (line "Message Type" (dec (replica_code state))
        ++ (line "Server state" (dec (state_code server_state)) ++ crlf))

-- What a heartbeat meets: no connection, or one on which bytes arrive. A failed write is only
-- printed.
pub data Beat : Type 0 where
  unreachable : Beat
  connected : SockBufRead → Beat

-- A round: the detector and its reports, the oldest first, or a response that does not fit its
-- arrays, or that has more lines than the fuel.
pub data Round : Type 0 where
  round : Detector → List Bytes → Round
  round_outside : Round
  round_unfinished : Round

-- the two tests behind a new connection
unfoldable pub greet : Detector → List Bytes
greet d =
    (if d.first_time then inform_rep_manager d running d.server_state ∷ [] else [])
    ++ (if d.connection then inform_rep_manager d running d.server_state ∷ [] else [])

-- what follows the response, whatever the call that read it returned
unfoldable pub judge : Detector → MessageResponse → Detector × List Bytes
judge d response =
    let d' = record d {
      first_time = false;
      connection = false;
      response = response;
      heartbeat_received_g = d.heartbeat_received_g + 1;
    } in
    if is_negative (parse_response_from_server response d.client_id)
    then (
      record d' { connection = true; server_state = unknown_state },
      inform_rep_manager d faulted unknown_state ∷ [],
    )
    else (
      record d' { server_state = response.state },
      inform_rep_manager d running response.state ∷ [],
    )

abbrev pub judged : Detector → MessageResponse → Round
judged d response = let (d', reports) = judge d response in round d' (greet d ++ reports)

abbrev pub answered_round : Detector → Gotten → Round
answered_round d (got_response response) = judged d response
answered_round d (no_response response) = judged d response
answered_round d got_outside = round_outside
answered_round d got_unfinished = round_unfinished

-- a round of the loop of `heartbeat_signal`
unfoldable pub heartbeat_round : Conversions → ℕ → Detector → Beat → Round
heartbeat_round c fuel d beat =
    let d' = record d { heartbeat_count_g = d.heartbeat_count_g + 1 } in
    elim beat [
      | unreachable ↦
          round (record d' { connection = true; server_state = unknown_state })
            (inform_rep_manager d' faulted unknown_state ∷ [])
      | connected q ↦ answered_round d' (get_response_from_server c fuel q d'.response)
    ]
