-- ===== src/Factory.antt =====
-- The factory of a replica (src/factory.c): the fields of a command of the replication manager,
-- and the text that it sends to its server. An enumeration that a command fills is its integer.
-- `sscanf`, which splits a line into key and value, and `strtol` are parameters.
pub mod Fields
pub mod Relay
mod Tests
use to_do_list_public.Common.{
  ℕ, zero, suc, ◌+◌, ◌==◌, Bool, true, false, ◌&&◌, ◌||◌, ℤ, pos, minus_one, int_eq, Option, none,
  some, List, [], ◌∷◌, ◌++◌, if◌then◌else◌, leb, length, take,
}
use to_do_list_public.Text.{Bytes, codes, dec, dec_int, line, crlf}
use to_do_list_public.Manager.Data.{ServerInfo}
use to_do_list_public.Manager.Send.{
  req_code, startup, change_state, send_chkpt, quiesce_begin, quiesce_stop,
}
use to_do_list_public.State.{state_code, passive_preprimary, active_running}
use to_do_list_public.Storage.{
  msg_code, msg_rep_mgr, msg_send_chkpt, msg_quiesce_start, msg_quiesce_stop,
}
use to_do_list_public.Socket.{SockBufRead}
use to_do_list_public.Protocol.{
  Strtol, str_to_int, is_key, Parsed, accepts, int_field, Scan, max_req_fields, Received,
  read_outside, ended, too_many, malformed, refused, complete, read_fields,
}
use Prim.Native.String.{String}

-- `factory_message`; of `server_arr` only the first two entries are used
pub record FactoryMessage : Type 0 where
  pub replica_id : ℤ
  pub bkp_replica_id_1 : ℤ
  pub bkp_replica_id_2 : ℤ
  pub req : ℤ
  pub mode_rep : ℤ
  pub checkpoint_freq : ℤ
  pub server_state : ℤ
  pub server_1 : ServerInfo
  pub server_2 : ServerInfo

-- A refusal is the return of -1, with what is printed. `memcpy` fills the array of an address, and so
-- leaves no final 0 in it if the value is as long.
unfoldable pub parse_rep_manager_kv :
    Strtol → FactoryMessage → Bytes × Bytes → Parsed FactoryMessage
parse_rep_manager_kv strtol m (key, value) =
    let int : String → (ℤ → FactoryMessage) → Parsed FactoryMessage =
      λ why f. int_field why m (str_to_int strtol value) f in
    if is_key key "Replica ID"
    then int "replica_id conversion failed; Malformed req!!!" (λ v. record m { replica_id = v })
    else (if is_key key "Factory Req"
        then int "Msg type Conversion failed!!!" (λ v. record m { req = v })
        else (if is_key key "REP MODE"
            then int "Mode Conversion failed!!!" (λ v. record m { mode_rep = v })
            else (if is_key key "Server State"
                then int "State Conversion failed!!!" (λ v. record m { server_state = v })
                else (if is_key key "Replica 1 ID"
                    then int "Mode Conversion failed!!!" (λ v. record m { bkp_replica_id_1 = v })
                    else (if is_key key "Replica 1 IP"
                        then accepts (record m {
                          server_1 = record m.server_1 { server_ip = take 1024 value };
                        })
                        else (if is_key key "Replica 1 Port"
                            then int "Port 1 failed!!!"
                                (λ v. record m { server_1 = record m.server_1 { port = v } })
                            else (if is_key key "Replica 2 ID"
                                then int "Mode Conversion failed!!!"
                                    (λ v. record m { bkp_replica_id_2 = v })
                                else (if is_key key "Replica 2 IP"
                                    then accepts (record m {
                                      server_2 = record m.server_2 { server_ip = take 1024 value };
                                    })
                                    else (if is_key key "Replica 2 Port"
                                        then int "Port 2 failed!!!" (λ v. record m {
                                          server_2 = record m.server_2 { port = v };
                                        })
                                        else (if is_key key "Checkpoint freq"
                                            then int "Checkpoint read failed!!!"
                                                (λ v. record m { checkpoint_freq = v })
                                            else accepts m))))))))))

-- the lines that begin each text to the server
abbrev pub request_lines : ℕ → Bytes
request_lines msg_type =
    line "Client ID" (dec 0) ++ (line "Request No" (dec 0) ++ line "Message Type" (dec msg_type))

-- `%d`, `%s` and the like of the long form
abbrev pub backup_lines : FactoryMessage → Bytes
backup_lines m =
    line "Checkpoint freq" (dec_int m.checkpoint_freq)
    ++ (line "Replica 1 ID" (dec_int m.bkp_replica_id_1)
        ++ (line "Replica 1 IP" m.server_1.server_ip
            ++ (line "Replica 1 Port" (dec_int m.server_1.port)
                ++ (line "Replica 2 ID" (dec_int m.bkp_replica_id_2)
                    ++ (line "Replica 2 IP" m.server_2.server_ip
                        ++ line "Replica 2 Port" (dec_int m.server_2.port))))))

-- the states whose message has the long form
abbrev pub names_backups : FactoryMessage → Bool
names_backups m =
    int_eq m.server_state (pos (state_code passive_preprimary))
    || int_eq m.server_state (pos (state_code active_running))

-- The text of addresses that end within their arrays.
unfoldable pub fill_change_state_buf : FactoryMessage → Bytes
fill_change_state_buf m =
    request_lines (msg_code msg_rep_mgr)
    ++ (line "REP MODE" (dec_int m.mode_rep)
        ++ (line "Server State" (dec_int m.server_state)
            ++ (if int_eq m.server_state (pos (state_code passive_preprimary))
                  || int_eq m.server_state (pos (state_code active_running))
                then backup_lines m ++ crlf
                else crlf)))

-- What a command makes the factory do: spawn its server, connect to it and write a text, read beyond
-- the end of an address while it prints one, or nothing.
pub data Action : Type 0 where
  spawn_server : Action
  send : Bytes → Action
  reads_beyond : Action
  nothing : Action

-- Each of these connects to the server, writes its text and closes; a failure is only reported.
abbrev pub send_change_state_message : FactoryMessage → Action
send_change_state_message m =
    if names_backups m
      && (leb 1024 (length m.server_1.server_ip) || leb 1024 (length m.server_2.server_ip))
    then reads_beyond
    else send (fill_change_state_buf m)

abbrev pub send_checkpoint_to_bkps : Action
send_checkpoint_to_bkps = send (request_lines (msg_code msg_send_chkpt) ++ crlf)

abbrev pub send_start_quiesce : Action
send_start_quiesce = send (request_lines (msg_code msg_quiesce_start) ++ crlf)

abbrev pub send_stop_quiesce : Action
send_stop_quiesce = send (request_lines (msg_code msg_quiesce_stop) ++ crlf)

-- `handle_rep_man_command` for the factory of `own_id`
unfoldable pub handle_rep_man_command : ℤ → FactoryMessage → Action
handle_rep_man_command own_id m =
    if int_eq m.replica_id own_id
    then (if int_eq m.req (pos (req_code startup))
        then spawn_server
        else (if int_eq m.req (pos (req_code change_state))
            then send_change_state_message m
            else (if int_eq m.req (pos (req_code send_chkpt))
                then send_checkpoint_to_bkps
                else (if int_eq m.req (pos (req_code quiesce_begin))
                    then send_start_quiesce
                    else (if int_eq m.req (pos (req_code quiesce_stop))
                        then send_stop_quiesce
                        else nothing)))))
    else nothing

-- What handling a connection comes to: a read outside of the buffer, the return of -1, or what the
-- command makes the factory do.
pub data Handling : Type 0 where
  reads_outside : Handling
  fails : Handling
  acts : Action → Handling

abbrev pub obey : ℤ → Received FactoryMessage → Handling
obey own_id read_outside = reads_outside
obey own_id (ended m) = fails
obey own_id (too_many m) = fails
obey own_id (malformed m) = fails
obey own_id (refused why m) = fails
obey own_id (complete m r) = acts (handle_rep_man_command own_id m)

-- `m` is what stands in the memory of `message`, which is not initialised.
unfoldable pub handle_replication_manager_message :
    Scan → Strtol → ℤ → FactoryMessage → SockBufRead → Handling
handle_replication_manager_message scan strtol own_id m r =
    obey own_id (read_fields scan (parse_rep_manager_kv strtol) max_req_fields r m)
