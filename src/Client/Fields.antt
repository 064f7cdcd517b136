-- ===== src/Client/Fields.antt =====
-- The lines of a client's requests (src/client.c), and the messages that a server makes of them
-- (src/server.c).
use to_do_list_public.Common.{ℕ, ◌≡◌, refl, ℤ, [], ◌∷◌, length, take, leb, arith}
use to_do_list_public.Text.{codes, line, dec, dec_int}
use to_do_list_public.Db.{TaskStatus, max_data_len}
use to_do_list_public.Storage.{msg_code, msg_add, msg_modify}
use to_do_list_public.Protocol.{Fields, field_text, text_of}
use to_do_list_public.Server.Parse.{status_of, strncpy, Incoming, init_client_ctx}
use to_do_list_public.Client.{
  MessageAdd, MessageModify, status_code, mod_flags, create_add_message_to_server,
  create_modify_message_to_server,
}

unfoldable pub add_fields : ℕ → MessageAdd → ℤ → Fields
add_fields request_no m client_id =
    (codes "Request No", dec request_no)
    ∷ (codes "Client ID", dec_int client_id)
    ∷ (codes "Message Type", dec (msg_code msg_add))
    ∷ (codes "Task", m.task)
    ∷ (codes "Task status", dec (status_code m.task_status))
    ∷ (codes "Due date", m.task_date)
    ∷ []

pub add_text :
    (n : ℕ) (m : MessageAdd) (id : ℤ)
    → create_add_message_to_server n m id ≡ text_of (add_fields n m id)
unfolding create_add_message_to_server add_fields text_of field_text line
add_text n m id = refl

unfoldable pub modify_fields : ℕ → MessageModify → ℤ → Fields
modify_fields request_no m client_id =
    (codes "Request No", dec request_no)
    ∷ (codes "Client ID", dec_int client_id)
    ∷ (codes "Message Type", dec (msg_code msg_modify))
    ∷ (codes "Flags", dec (mod_flags m))
    ∷ (codes "Key", m.task)
    ∷ (codes "New Task", m.new_task)
    ∷ (codes "New Date", m.new_date)
    ∷ (codes "New status", dec (status_code m.new_task_status))
    ∷ []

pub modify_text :
    (n : ℕ) (m : MessageModify) (id : ℤ)
    → create_modify_message_to_server n m id ≡ text_of (modify_fields n m id)
unfolding create_modify_message_to_server modify_fields text_of field_text line
modify_text n m id = refl

pub status_of-code : (s : TaskStatus) → status_of (status_code s) ≡ s
unfolding status_of
status_of-code s = ground arith

-- the request that a server makes of an addition, by what it reads
abbrev pub filled_add : ℤ → ℕ → TaskStatus → MessageAdd → ℤ → Incoming
filled_add fd request_no status m client_id =
    let new = init_client_ctx fd in
    record new {
      ctx = record new.ctx {
        client_id = client_id;
        req = record new.ctx.req {
          msg_type = msg_add;
          task = strncpy max_data_len m.task;
          task_len = length (take max_data_len m.task);
          task_status = status;
          req_no = request_no;
        };
      };
      date = strncpy 32 m.task_date;
      overread = leb max_data_len (length m.task);
    }

abbrev pub filled_modify : ℤ → ℕ → TaskStatus → ℕ → MessageModify → ℤ → Incoming
filled_modify fd request_no status key m client_id =
    let new = init_client_ctx fd in
    record new {
      ctx = record new.ctx {
        client_id = client_id;
        req = record new.ctx.req {
          msg_type = msg_modify;
          task = strncpy max_data_len m.new_task;
          task_len = length (take max_data_len m.new_task);
          task_status = status;
          hash_key = key;
          req_no = request_no;
        };
      };
      date = strncpy 32 m.new_date;
      overread = leb max_data_len (length m.new_task);
    }

unfoldable pub modified : ℤ → ℕ → ℕ → MessageModify → ℤ → Incoming
modified fd request_no key m client_id =
    filled_modify fd request_no m.new_task_status key m client_id

unfoldable pub added : ℤ → ℕ → MessageAdd → ℤ → Incoming
added fd request_no m client_id = filled_add fd request_no m.task_status m client_id
