-- ===== src/Server/Keys.antt =====
-- What `parse_kv` of src/server.c does with each key and a value that `%d` or `%s` has printed.
use to_do_list_public.Common.{ℕ, ◌≡◌, refl, ℤ, true, take}
use to_do_list_public.Common.{pos, ℕ, arith}
use to_do_list_public.Text.{Bytes, codes, dec_int}
use to_do_list_public.Protocol.{Strtol, is_int, accepts}
use to_do_list_public.Protocol.Int32.{Reads, str_to_int_dec}
use to_do_list_public.Server.Parse.{
  bits, low_half, msg_of, mode_of, state_of, Incoming, with_req, with_task, strncpy, status_of,
  parse_kv, parse_request_kv, parse_rep_mgr_kv,
}

pub bits_lem : (n : ℕ) → is_int (pos n) ≡ true → bits (pos n) ≡ n
bits_lem n h = ground (arith, h)

pub low_half_lem : (n : ℕ) → is_int (pos n) ≡ true → low_half 0 (pos n) ≡ n
low_half_lem n h = ground (arith, h)

module _ (strtol : Strtol) (strtoul : Bytes → ℕ) (reads : Reads strtol) where
  module _ (m : Incoming) (z : ℤ) (h : is_int z ≡ true) where
    pub client_id_lem :
        parse_kv strtol strtoul m (codes "Client ID", dec_int z)
        ≡ accepts (record m { ctx = record m.ctx { client_id = z } })
    unfolding parse_kv parse_request_kv
    client_id_lem = rw (str_to_int_dec strtol reads z h) refl

    pub req_no_lem :
        parse_kv strtol strtoul m (codes "Request No", dec_int z)
        ≡ accepts (with_req m (record m.ctx.req { req_no = low_half m.ctx.req.req_no z }))
    unfolding parse_kv parse_request_kv
    req_no_lem = rw (str_to_int_dec strtol reads z h) refl

    pub mode_lem :
        parse_kv strtol strtoul m (codes "REP MODE", dec_int z)
        ≡ accepts (record m { rep_mgr_msg = record m.rep_mgr_msg { rep_mode = mode_of (bits z) } })
    unfolding parse_kv parse_request_kv parse_rep_mgr_kv
    mode_lem = rw (str_to_int_dec strtol reads z h) refl

    pub type_lem :
        parse_kv strtol strtoul m (codes "Message Type", dec_int z)
        ≡ accepts (with_req m (record m.ctx.req { msg_type = msg_of (bits z) }))
    unfolding parse_kv parse_request_kv
    type_lem = rw (str_to_int_dec strtol reads z h) refl

    pub state_lem :
        parse_kv strtol strtoul m (codes "Server State", dec_int z)
        ≡ accepts
            (record m { rep_mgr_msg = record m.rep_mgr_msg { server_state = state_of (bits z) } })
    unfolding parse_kv parse_request_kv parse_rep_mgr_kv
    state_lem = rw (str_to_int_dec strtol reads z h) refl

    pub freq_lem :
        parse_kv strtol strtoul m (codes "Checkpoint freq", dec_int z)
        ≡ accepts (record m { rep_mgr_msg = record m.rep_mgr_msg { checkpoint_freq = z } })
    unfolding parse_kv parse_request_kv parse_rep_mgr_kv
    freq_lem = rw (str_to_int_dec strtol reads z h) refl

    pub id_1_lem :
        parse_kv strtol strtoul m (codes "Replica 1 ID", dec_int z)
        ≡ accepts (record m { bckup_svr_0 = record m.bckup_svr_0 { server_id = bits z } })
    unfolding parse_kv parse_request_kv parse_rep_mgr_kv
    id_1_lem = rw (str_to_int_dec strtol reads z h) refl

    pub port_1_lem :
        parse_kv strtol strtoul m (codes "Replica 1 Port", dec_int z)
        ≡ accepts (record m {
          bckup_svr_0 = record m.bckup_svr_0 { info = record m.bckup_svr_0.info { port = z } };
        })
    unfolding parse_kv parse_request_kv parse_rep_mgr_kv
    port_1_lem = rw (str_to_int_dec strtol reads z h) refl

    pub id_2_lem :
        parse_kv strtol strtoul m (codes "Replica 2 ID", dec_int z)
        ≡ accepts (record m { bckup_svr_1 = record m.bckup_svr_1 { server_id = bits z } })
    unfolding parse_kv parse_request_kv parse_rep_mgr_kv
    id_2_lem = rw (str_to_int_dec strtol reads z h) refl

    pub port_2_lem :
        parse_kv strtol strtoul m (codes "Replica 2 Port", dec_int z)
        ≡ accepts (record m {
          bckup_svr_1 = record m.bckup_svr_1 { info = record m.bckup_svr_1.info { port = z } };
        })
    unfolding parse_kv parse_request_kv parse_rep_mgr_kv
    port_2_lem = rw (str_to_int_dec strtol reads z h) refl

  module _ (m : Incoming) (ip : Bytes) where
    pub ip_1_lem :
        parse_kv strtol strtoul m (codes "Replica 1 IP", ip)
        ≡ accepts (record m {
          bckup_svr_0 = record m.bckup_svr_0 {
            info = record m.bckup_svr_0.info { server_ip = take 1024 ip };
          };
        })
    unfolding parse_kv parse_request_kv parse_rep_mgr_kv
    ip_1_lem = refl

    pub ip_2_lem :
        parse_kv strtol strtoul m (codes "Replica 2 IP", ip)
        ≡ accepts (record m {
          bckup_svr_1 = record m.bckup_svr_1 {
            info = record m.bckup_svr_1.info { server_ip = take 1024 ip };
          };
        })
    unfolding parse_kv parse_request_kv parse_rep_mgr_kv
    ip_2_lem = refl

  module _ (m : Incoming) (z : ℤ) (h : is_int z ≡ true) where
    pub data_length_lem :
        parse_kv strtol strtoul m (codes "Data Length", dec_int z)
        ≡ accepts (record m { payload_size = low_half m.payload_size z })
    unfolding parse_kv parse_request_kv
    data_length_lem = rw (str_to_int_dec strtol reads z h) refl

    pub task_status_lem :
        parse_kv strtol strtoul m (codes "Task status", dec_int z)
        ≡ accepts (with_req m (record m.ctx.req { task_status = status_of (bits z) }))
    unfolding parse_kv parse_request_kv
    task_status_lem = rw (str_to_int_dec strtol reads z h) refl

    pub new_status_lem :
        parse_kv strtol strtoul m (codes "New status", dec_int z)
        ≡ accepts (with_req m (record m.ctx.req { task_status = status_of (bits z) }))
    unfolding parse_kv parse_request_kv
    new_status_lem = rw (str_to_int_dec strtol reads z h) refl

  module _ (m : Incoming) (value : Bytes) where
    pub task_lem : parse_kv strtol strtoul m (codes "Task", value) ≡ accepts (with_task m value)
    unfolding parse_kv parse_request_kv
    task_lem = refl

    pub new_task_lem :
        parse_kv strtol strtoul m (codes "New Task", value) ≡ accepts (with_task m value)
    unfolding parse_kv parse_request_kv
    new_task_lem = refl

    pub due_date_lem :
        parse_kv strtol strtoul m (codes "Due date", value)
        ≡ accepts (record m { date = strncpy 32 value })
    unfolding parse_kv parse_request_kv
    due_date_lem = refl

    pub new_date_lem :
        parse_kv strtol strtoul m (codes "New Date", value)
        ≡ accepts (record m { date = strncpy 32 value })
    unfolding parse_kv parse_request_kv
    new_date_lem = refl

    pub key_lem :
        parse_kv strtol strtoul m (codes "Key", value)
        ≡ accepts (with_req m (record m.ctx.req { hash_key = strtoul value }))
    unfolding parse_kv parse_request_kv
    key_lem = refl

    -- a key that is none of the protocol's
    pub flags_lem : parse_kv strtol strtoul m (codes "Flags", value) ≡ accepts m
    unfolding parse_kv parse_request_kv parse_rep_mgr_kv
    flags_lem = refl
