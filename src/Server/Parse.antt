-- ===== src/Server/Parse.antt =====
-- The fields of a message that a server receives: `parse_kv` of src/server.c, with the conversions
-- that its casts make. An `int` that is written into an `unsigned int` or an enumeration keeps its
-- bits; one written into a field of 64 bits changes the low half of it (the machine is little
-- endian). `strtol` and `strtoul` are parameters.
use to_do_list_public.Common.{
  ℕ, ◌+◌, ◌-◌, ◌*◌, ◌/◌, ◌%◌, ◌^◌, Bool, false, ◌||◌, ℤ, pos, negsuc, Option, none, some, [], ◌∷◌,
  leb, if◌then◌else◌, length, take, get_or,
}
use to_do_list_public.Text.{Bytes}
use to_do_list_public.Db.{Array, TaskStatus, task_not_done, task_done, other_status, max_data_len}
use to_do_list_public.State.{
  RepMode, unknown_rep, active_rep, passive_rep, other_rep, ServerState, unknown_state, quiesce,
  active_running, active_recover, passive_primary, passive_backup, passive_preprimary, other_state,
  RepMgrMsg,
}
use to_do_list_public.Storage.{
  MsgType, invalid, msg_add, msg_modify, msg_get_all, msg_remove, msg_heartbeat, msg_chk_pt,
  msg_rep_mgr, msg_send_chkpt, msg_quiesce_start, msg_quiesce_stop, other_msg, ClientRequest,
  ClientCtx,
}
use to_do_list_public.Manager.Data.{ServerInfo}
use to_do_list_public.Protocol.{Strtol, str_to_int, is_key, Parsed, accepts, int_field}
use Prim.Native.String.{String}

-- the bits of an `int`
abbrev pub bits : ℤ → ℕ
bits (pos n) = n % 2 ^ 32
bits (negsuc n) = 2 ^ 32 - 1 - n % 2 ^ 32

-- `*(int *)&field = v`, for a field of 64 bits
abbrev pub low_half : ℕ → ℤ → ℕ
low_half old v = old / 2 ^ 32 * 2 ^ 32 + bits v

-- the enumerator of some bits
unfoldable pub msg_of : ℕ → MsgType
msg_of n =
    get_or
      (invalid ∷ msg_add ∷ msg_modify ∷ msg_get_all ∷ msg_remove ∷ msg_heartbeat ∷ msg_chk_pt
        ∷ msg_rep_mgr ∷ msg_send_chkpt ∷ msg_quiesce_start ∷ msg_quiesce_stop ∷ [])
      n (other_msg (n - 11))

unfoldable pub status_of : ℕ → TaskStatus
status_of n = get_or (task_not_done ∷ task_done ∷ []) n (other_status (n - 2))

unfoldable pub mode_of : ℕ → RepMode
mode_of n = get_or (unknown_rep ∷ active_rep ∷ passive_rep ∷ []) n (other_rep (n - 3))

unfoldable pub state_of : ℕ → ServerState
state_of n =
    get_or
      (unknown_state ∷ quiesce ∷ active_running ∷ active_recover ∷ passive_primary ∷ passive_backup
        ∷ passive_preprimary ∷ [])
      n (other_state (n - 7))

-- `strncpy(array, value, n)`, of which the first `n` elements are the array
abbrev pub strncpy : ℕ → Bytes → Array
strncpy n value = λ i. get_or (take n value) i 0

-- `bsvr_ctx`, less the descriptor
pub record BsvrCtx : Type 0 where
  pub server_id : ℕ
  pub info : ServerInfo

-- What `parse_kv` fills: the `client_ctx_t`, its date, payload size and `rep_mgr_msg`. Nothing
-- reads the global `config_done` that it sets. `overread` tells that `strlen` has read past the end of `task`; what is found there is
-- not modelled.
pub record Incoming : Type 0 where
  pub ctx : ClientCtx
  pub date : Array
  pub payload_size : ℕ
  pub rep_mgr_msg : RepMgrMsg
  pub bckup_svr_0 : BsvrCtx
  pub bckup_svr_1 : BsvrCtx
  pub overread : Bool

-- `init_client_ctx`, with `CLIENT_CTX_INITIALISER`, and the descriptor that `main` stores then
unfoldable pub init_client_ctx : ℤ → Incoming
init_client_ctx fd = record {
  ctx = record {
    fd = fd;
    client_id = pos 0;
    req = record {
      msg_type = invalid;
      task = λ i. 0;
      task_status = task_not_done;
      task_len = 0;
      hash_key = 0;
      req_no = 0;
    };
    is_backlog = false;
  };
  date = λ i. 0;
  payload_size = 0;
  rep_mgr_msg = record {
    rep_mode = unknown_rep;
    server_state = unknown_state;
    checkpoint_freq = pos 10;
  };
  bckup_svr_0 = record { server_id = 2 ^ 32 - 1; info = record { server_ip = []; port = pos 0 } };
  bckup_svr_1 = record { server_id = 0; info = record { server_ip = []; port = pos 0 } };
  overread = false;
}

abbrev pub with_req : Incoming → ClientRequest → Incoming
with_req m req = record m { ctx = record m.ctx { req = req } }

abbrev pub with_task : Incoming → Bytes → Incoming
with_task m value =
    record (with_req m (record m.ctx.req {
      task = strncpy max_data_len value;
      task_len = length (take max_data_len value);
    })) { overread = m.overread || leb max_data_len (length value) }

module _ (strtol : Strtol) (strtoul : Bytes → ℕ) where
  -- the keys of a client's request
  unfoldable pub parse_request_kv : Incoming → Bytes → Bytes → Option (Parsed Incoming)
  parse_request_kv m key value =
      let int : String → (ℤ → Incoming) → Option (Parsed Incoming) =
        λ why f. some (int_field why m (str_to_int strtol value) f) in
      let req = m.ctx.req in
      if is_key key "Client ID"
      then int "Malformed Client ID received"
          (λ v. record m { ctx = record m.ctx { client_id = v } })
      else (if is_key key "Message Type"
          then int "Malformed Msg Type received"
              (λ v. with_req m (record req { msg_type = msg_of (bits v) }))
          else (if is_key key "Task"
              then some (accepts (with_task m value))
              else (if is_key key "Task status"
                  then int "Malformed Task Status"
                      (λ v. with_req m (record req { task_status = status_of (bits v) }))
                  else (if is_key key "Due date"
                      then some (accepts (record m { date = strncpy 32 value }))
                      else (if is_key key "Key"
                          then some (accepts (with_req m (record req { hash_key = strtoul value })))
                          else (if is_key key "New Task"
                              then some (accepts (with_task m value))
                              else (if is_key key "New Date"
                                  then some (accepts (record m { date = strncpy 32 value }))
                                  else (if is_key key "New status"
                                      then int "Malformed Task Status" (λ v.
                                        with_req m
                                          (record req { task_status = status_of (bits v) }))
                                      else (if is_key key "Request No"
                                          then int "Malformed Req No." (λ v.
                                            with_req m
                                              (record req { req_no = low_half req.req_no v }))
                                          else (if is_key key "Data Length"
                                              then int "Malformed Data Length." (λ v. record m {
                                                payload_size = low_half m.payload_size v;
                                              })
                                              else none))))))))))

  -- the keys of the replication manager's message
  unfoldable pub parse_rep_mgr_kv : Incoming → Bytes → Bytes → Parsed Incoming
  parse_rep_mgr_kv m key value =
      let int : (ℤ → Incoming) → Parsed Incoming =
        λ f. int_field "Malformed Data Length." m (str_to_int strtol value) f in
      let one = m.bckup_svr_0 in
      let two = m.bckup_svr_1 in
      if is_key key "REP MODE"
      then int
          (λ v. record m { rep_mgr_msg = record m.rep_mgr_msg { rep_mode = mode_of (bits v) } })
      else (if is_key key "Server State"
          then int (λ v. record m {
            rep_mgr_msg = record m.rep_mgr_msg { server_state = state_of (bits v) };
          })
          else (if is_key key "Replica 1 ID"
              then int (λ v. record m { bckup_svr_0 = record one { server_id = bits v } })
              else (if is_key key "Replica 1 IP"
                  then accepts (record m {
                    bckup_svr_0 = record one {
                      info = record one.info { server_ip = take 1024 value };
                    };
                  })
                  else (if is_key key "Replica 1 Port"
                      then int (λ v. record m {
                        bckup_svr_0 = record one { info = record one.info { port = v } };
                      })
                      else (if is_key key "Replica 2 ID"
                          then int
                              (λ v. record m { bckup_svr_1 = record two { server_id = bits v } })
                          else (if is_key key "Replica 2 IP"
                              then accepts (record m {
                                bckup_svr_1 = record two {
                                  info = record two.info { server_ip = take 1024 value };
                                };
                              })
                              else (if is_key key "Replica 2 Port"
                                  then int (λ v. record m {
                                    bckup_svr_1 = record two {
                                      info = record two.info { port = v };
                                    };
                                  })
                                  else (if is_key key "Checkpoint freq"
                                      then int (λ v. record m {
                                        rep_mgr_msg = record m.rep_mgr_msg { checkpoint_freq = v };
                                      })
                                      else accepts m))))))))

  abbrev or_else : Option (Parsed Incoming) → Parsed Incoming → Parsed Incoming
  or_else none p = p
  or_else (some p) q = p

  unfoldable pub parse_kv : Incoming → Bytes × Bytes → Parsed Incoming
  parse_kv m (key, value) = or_else (parse_request_kv m key value) (parse_rep_mgr_kv m key value)
