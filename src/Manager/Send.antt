-- ===== src/Manager/Send.antt =====
-- The texts that the replication manager writes to the factories, and the functions that send them.
use to_do_list_public.Common.{
  ℕ, zero, suc, ◌+◌, ◌&&◌, ℤ, pos, minus_one, int_eq, is_negative, List, ◌∷◌, ◌++◌, ◌==◌,
  if◌then◌else◌,
}
use to_do_list_public.Text.{Bytes, dec, dec_int, line, crlf}
use to_do_list_public.State.{
  RepMode, unknown_rep, active_rep, passive_rep, ServerState, unknown_state, active_running,
  passive_preprimary, mode_code, state_code, is_mode, is_state,
}
use to_do_list_public.Manager.Data.{
  max_replicas, running, sent_startup_req, is_replica, Manager, Sent, Attempt, delivered,
  connect_failed, write_failed, ok, Cmd, pure, ◌>>=◌, ◌>>◌, get, modify, index, set_state_of,
  set_primary,
}

-- `enum factory_req`
pub data FactoryReq : Type 0 where
  startup : FactoryReq
  change_state : FactoryReq
  send_chkpt : FactoryReq
  quiesce_begin : FactoryReq
  quiesce_stop : FactoryReq
  no_action : FactoryReq

abbrev pub req_code : FactoryReq → ℕ
req_code startup = 0
req_code change_state = 1
req_code send_chkpt = 2
req_code quiesce_begin = 3
req_code quiesce_stop = 4
req_code no_action = 5

-- The loop of `fill_message_for_primary_election` over the rounds left, from `i` on.
other_replicas : ℕ → ℕ → ℤ → ℤ × ℤ → ℤ × ℤ
other_replicas zero i replica_id (a, b) = (a, b)
other_replicas (suc rounds) i replica_id (a, b) = other_replicas rounds (i + 1) replica_id (
    if int_eq (pos i) replica_id
    then (a, b)
    else (if int_eq a minus_one
        then (pos i, b)
        else (if int_eq b minus_one then (a, pos i) else (a, b))))

unfoldable pub others : ℤ → ℤ × ℤ
unfolding other_replicas
others replica_id = other_replicas max_replicas 0 replica_id (minus_one, minus_one)

abbrev pub election_mode : ℕ → RepMode
election_mode mode =
    if mode == 0 then passive_rep else (if mode == 1 then active_rep else unknown_rep)

abbrev pub election_state : ℕ → ServerState
election_state mode =
    if mode == 0 then passive_preprimary else (if mode == 1 then active_running else unknown_state)

-- the lines that begin every text to a factory
abbrev head_lines : ℕ → FactoryReq → Bytes
head_lines replica_id req =
    line "Replica ID" (dec replica_id) ++ line "Factory Req" (dec (req_code req))

unfoldable pub election_text : (replica_id one two : ℕ) → Manager → Bytes
election_text replica_id one two m =
    head_lines replica_id change_state
    ++ (line "REP MODE" (dec (mode_code (election_mode m.mode)))
        ++ (line "Server State" (dec (state_code (election_state m.mode)))
            ++ (line "Checkpoint freq" (dec_int m.checkpoint_freq)
                ++ (line "Replica 1 ID" (dec one)
                    ++ (line "Replica 1 IP" (m.node one).server.server_ip
                        ++ (line "Replica 1 Port" (dec_int (m.node one).server.port)
                            ++ (line "Replica 2 ID" (dec two)
                                ++ (line "Replica 2 IP" (m.node two).server.server_ip
                                    ++ (line "Replica 2 Port" (dec_int (m.node two).server.port)
                                        ++ crlf)))))))))

unfoldable pub fill_message_for_primary_election : ℕ → Cmd Bytes
fill_message_for_primary_election replica_id = do
  m ← get
  let ids = others (pos replica_id)
  one ← index ids.0
  two ← index ids.1
  pure (election_text replica_id one two m)

-- `connect_to_server` to the factory of a replica, `write` and `close`, the same lines in each of
-- the functions below. The bytes of the buffer behind the text are not modelled.
unfoldable pub status_of : Attempt → ℤ
status_of delivered = pos 0
status_of connect_failed = minus_one
status_of write_failed = minus_one

unfoldable pub sent_by : Attempt → Sent → List Sent → List Sent
sent_by delivered x sent = x ∷ sent
sent_by connect_failed x sent = sent
sent_by write_failed x sent = sent

unfoldable pub write_to_factory : ℕ → Bytes → Cmd ℤ
write_to_factory i text m = ok (status_of (m.network m.attempts)) (record m {
  attempts = m.attempts + 1;
  sent = sent_by (m.network m.attempts) (record { target = i; text = text }) m.sent;
})

unfoldable pub elect_new_primary : ℤ → Cmd ℤ
elect_new_primary replica_id = do
  i ← index replica_id
  text ← fill_message_for_primary_election i
  status ← write_to_factory i text
  if is_negative status then pure minus_one else (do modify (set_primary replica_id); pure (pos 0))

unfoldable pub change_status_text : ℕ → RepMode → ServerState → Bytes
change_status_text replica_id mode_rep server_state =
    head_lines replica_id change_state
    ++ (line "REP MODE" (dec (mode_code mode_rep))
        ++ (line "Server State" (dec (state_code server_state)) ++ crlf))

unfoldable pub send_change_status_to_server : ℕ → RepMode → ServerState → Cmd ℤ
send_change_status_to_server replica_id mode_rep server_state =
    if is_mode mode_rep active_rep && is_state server_state active_running
    then (do text ← fill_message_for_primary_election replica_id; write_to_factory replica_id text)
    else write_to_factory replica_id (change_status_text replica_id mode_rep server_state)

unfoldable pub request_text : ℕ → FactoryReq → Bytes
request_text replica_id req = head_lines replica_id req ++ crlf

unfoldable pub instruct_primary_to_send_chkpt : ℤ → Cmd ℤ
instruct_primary_to_send_chkpt replica_id = do
  i ← index replica_id
  write_to_factory i (request_text i send_chkpt)

unfoldable pub startup_text : ℕ → Manager → Bytes
startup_text i m =
    head_lines i startup
    ++ (line "Server IP" (m.node i).server.server_ip
        ++ (line "Server Port" (dec_int (m.node i).server.port) ++ crlf))

unfoldable pub restart_server : ℕ → Cmd ℤ
restart_server i = do
  m ← get
  status ← write_to_factory i (startup_text i m)
  if is_negative status
      then pure minus_one
      else (do modify (set_state_of i sent_startup_req); pure (pos 0))

unfoldable pub quiesce_message : ℕ → Cmd ℤ
quiesce_message i = write_to_factory i (request_text i quiesce_begin)

unfoldable pub quiesce_stop_message : ℕ → Cmd ℤ
quiesce_stop_message i = write_to_factory i (request_text i quiesce_stop)

-- The loop of `quiesce_all` and of `stop_quiesce_all`; the sum that it returns is not looked at.
unfoldable pub for_running : ℕ → ℕ → (ℕ → Cmd ℤ) → Cmd (Unit {0})
for_running zero i message = pure tt
for_running (suc rounds) i message = do
  m ← get
  (if is_replica (m.node i).state running then (message i >>= λ _. pure tt) else pure tt)
  for_running rounds (i + 1) message

unfoldable pub quiesce_all : Cmd (Unit {0})
quiesce_all = for_running max_replicas 0 quiesce_message

unfoldable pub stop_quiesce_all : Cmd (Unit {0})
stop_quiesce_all = for_running max_replicas 0 quiesce_stop_message
