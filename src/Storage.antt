-- ===== src/Storage.antt =====
-- The dispatch of a client's request to the table (src/storage.c) and the request itself
-- (include/c_s_iface.h, include/server.h). The hash of openssl and the file
-- that `import_db` reads are parameters, with the memory that `malloc` returns.
pub mod Laws
use to_do_list_public.Common.{
  ℕ, zero, suc, ◌+◌, ◌-◌, ◌%◌, ◌^◌, Bool, true, false, ℤ, pos, negsuc, minus_one, Option, none,
  some, List, [], ◌∷◌, ltb, leb, ◌==◌, if◌then◌else◌, length,
}
use to_do_list_public.Text.{dec_int}
use to_do_list_public.Db.{
  Array, DataPoint, HashTable, Call, returns, overflow, out_of_fuel, TaskStatus, hash_table_insert,
  hash_table_modify, hash_table_delete, hash_table_get_all, hash_table_get_dat_size, max_data_len,
}

-- `msg_type_t`, with the integers that are no enumerator
pub data MsgType : Type 0 where
  invalid : MsgType
  msg_add : MsgType
  msg_modify : MsgType
  msg_get_all : MsgType
  msg_remove : MsgType
  msg_heartbeat : MsgType
  msg_chk_pt : MsgType
  msg_rep_mgr : MsgType
  msg_send_chkpt : MsgType
  msg_quiesce_start : MsgType
  msg_quiesce_stop : MsgType
  other_msg : ℕ → MsgType

abbrev pub msg_code : MsgType → ℕ
msg_code invalid = 0
msg_code msg_add = 1
msg_code msg_modify = 2
msg_code msg_get_all = 3
msg_code msg_remove = 4
msg_code msg_heartbeat = 5
msg_code msg_chk_pt = 6
msg_code msg_rep_mgr = 7
msg_code msg_send_chkpt = 8
msg_code msg_quiesce_start = 9
msg_code msg_quiesce_stop = 10
msg_code (other_msg n) = 11 + n

abbrev pub is_msg : MsgType → MsgType → Bool
is_msg a b = msg_code a == msg_code b

-- `client_request_t`: the fields that the server reads after parsing, less the replication
-- manager's, which `RepMgrMsg` has
pub record ClientRequest : Type 0 where
  pub msg_type : MsgType
  pub task : Array
  pub task_status : TaskStatus
  pub task_len : ℕ
  pub hash_key : ℕ
  pub req_no : ℕ

-- `client_ctx_t`, less the address; `fd` is the connection's descriptor, or -1
pub record ClientCtx : Type 0 where
  pub fd : ℤ
  pub client_id : ℤ
  pub req : ClientRequest
  pub is_backlog : Bool

-- what the storage calls from outside of the sources: the first 8 bytes of the hash of the first bytes
-- of an array, or 2 ^ 64 - 1 where the hash fails, and the memory and the table
pub record Outside : Type 0 where
  pub sha1 : Array → ℕ → ℕ
  pub malloc : Option DataPoint
  pub import_db : HashTable

-- `raw_data` is copied behind 5 bytes of a buffer of 1024, and then hashed where it stands, with the 5
-- bytes behind it: the buffer and the client's identifier have no influence. The hash has 20
-- bytes, and the union for it 8; what the others overwrite is left out.
unfoldable pub generate_key : Outside → Array → ℤ → ℕ → Option ℕ
generate_key out raw_data client_id data_len =
    if leb (data_len + 5) 1024 then some (out.sha1 raw_data (data_len + 5)) else none

-- `calloc` fails for a negative size, which it takes for a huge one
abbrev pub room_of : ℤ → ℕ
room_of (pos n) = n
room_of (negsuc n) = 0

-- the length of the text in an array; one that fills the array is cut at its end
text_len : ℕ → Array → ℕ → ℕ
text_len zero bytes i = i
text_len (suc fuel) bytes i =
    let rest = text_len fuel bytes (i + 1) in if bytes i == 0 then i else rest

-- a `uint64_t` printed by `%ld`
abbrev signed : ℕ → ℤ
signed key = if ltb key (2 ^ 63) then pos key else negsuc (2 ^ 64 - key - 1)

-- the length of `"hash_key: %ld task: %s \r\n"`
unfoldable pub entry_len : DataPoint → ℕ
unfolding text_len
entry_len d = 10 + length (dec_int (signed d.key)) + 7 + text_len max_data_len d.raw_data 0 + 3

-- Whether the `snprintf` calls of `hash_table_get_all` stay within a buffer of `room` bytes: each
-- writes its text, cut to 1023 bytes, and a final 0, and the pointer moves on by the whole length.
unfoldable pub fits : ℕ → List DataPoint → Bool
fits room [] = true
fits room (d ∷ ds) =
    let rest = fits (room - entry_len d) ds in
    if leb (if leb max_data_len (entry_len d) then max_data_len else entry_len d + 1) room
    then rest
    else false

-- the result of a call on the table, with the request
abbrev pub with_ctx : ClientCtx → Call ℤ → Call (ℤ × ClientCtx)
with_ctx ctx (returns r t) = returns (r, ctx) t
with_ctx ctx overflow = overflow
with_ctx ctx out_of_fuel = out_of_fuel

abbrev pub ignore : Call ℤ → Call ℤ
ignore (returns r t) = returns (pos 0) t
ignore overflow = overflow
ignore out_of_fuel = out_of_fuel

abbrev pub with_key_of : ClientCtx → ℕ → ClientCtx
with_key_of ctx key = record ctx { req = record ctx.req { hash_key = key } }

unfoldable pub handle_storage : Outside → ℕ → ClientCtx → HashTable → Call (ℤ × ClientCtx)
handle_storage out fuel ctx t =
    let req = ctx.req in
    elim req.msg_type [
      | msg_add ↦ elim (generate_key out req.task ctx.client_id req.task_len) [
        | none ↦ overflow
        | some key ↦
            with_ctx (with_key_of ctx key)
              (hash_table_insert out.malloc key req.task req.task_len t)
      ]
      | msg_modify ↦ with_ctx ctx (ignore (hash_table_modify fuel req.hash_key req.task_status t))
      | msg_remove ↦ with_ctx ctx (hash_table_delete req.hash_key t)
      | msg_get_all ↦
          if fits (room_of (hash_table_get_dat_size t)) (hash_table_get_all t)
          then returns (pos 0, ctx) t
          else overflow
      | invalid ↦ returns (pos 0, ctx) t
      | msg_heartbeat ↦ returns (pos 0, ctx) t
      | msg_chk_pt ↦ returns (pos 0, ctx) out.import_db
      | _ ↦ returns (minus_one, ctx) t
    ]
