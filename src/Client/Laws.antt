-- ===== src/Client/Laws.antt =====
-- What becomes of a client's request (src/client.c) at a server (src/server.c).
use to_do_list_public.Common.{
  ℕ, ◌≤◌, ◌<◌, ◌≡◌, ap, sym, subst, ◌∙◌, true, false, ℤ, pos, [], ◌++◌, length, arith,
}
use to_do_list_public.Text.{Bytes}
use to_do_list_public.Db.{max_data_len}
use to_do_list_public.Log.{normal}
use to_do_list_public.Socket.{SockBufRead}
use to_do_list_public.Socket.Reader.{view, IsGood}
use to_do_list_public.Protocol.{Strtol, is_int, is_value_text, Scan, Scans, max_req_fields}
use to_do_list_public.Protocol.Int32.{Reads}
use to_do_list_public.Server.{World}
use to_do_list_public.Server.Parse.{init_client_ctx}
use to_do_list_public.Server.Connection.{handle_connection}
use to_do_list_public.Server.Enqueue.{IsReady, Offered, to_log-Offered, is_recovering}
use to_do_list_public.Log.Refines.{Contents}
use to_do_list_public.Server.Received.{handle-Whole}
use to_do_list_public.Client.{
  MessageAdd, MessageModify, status_code, mod_flags, create_add_message_to_server,
  create_modify_message_to_server,
}
use to_do_list_public.Client.Fields.{
  add_fields, add_text, modify_fields, modify_text, added, modified,
}
use to_do_list_public.Client.Requests.{
  parse-add, add_fields-Readable, parse-modify, modify_fields-Readable, respond_add, respond_modify,
}

six : (n : ℕ) (m : MessageAdd) (id : ℤ) → length (add_fields n m id) ≤ max_req_fields
unfolding add_fields
six n m id = omega arith

eight : (n : ℕ) (m : MessageModify) (id : ℤ) → length (modify_fields n m id) ≤ max_req_fields
unfolding modify_fields
eight n m id = omega arith

module _ (scan : Scan) (strtol : Strtol) (strtoul : Bytes → ℕ) (scans : Scans scan)
    (reads : Reads strtol) (fuel : ℕ) (fd client_id : ℤ) (n : ℕ) (w : World) (r : SockBufRead)
    (rest : Bytes) (good : IsGood r) (int_id : is_int client_id ≡ true)
    (int_no : is_int (pos n) ≡ true) where
  -- A server that reads, on a new connection without failures, the text of a client's addition, however it
  -- arrives and whatever follows it, offers a request of type 1 to the queue of normal messages that
  -- has the client's identifier and request number, the task with its length, its status, and the
  -- first 32 bytes of its date, without a final 0 if the date is that long. Where the queue is full
  -- the request is dropped and the connection closed; otherwise it stands behind the others,
  -- marked as one of the backlog if and only if the server is a passive backup. The task is a text
  -- of less than 1024 bytes, and the date one of at most 2000, that `sscanf` can read, the numbers
  -- are ones of an `int`, `strtol` reads what `%d` prints, `sscanf` takes the lines apart, and the
  -- node that `malloc` returns is a new one.
  pub add-received :
      (m : MessageAdd)
      → is_int (pos (status_code m.task_status)) ≡ true
      → is_value_text m.task ≡ true
      → is_value_text m.task_date ≡ true
      → length m.task < max_data_len
      → length m.task_date ≤ 2000
      → view r ≡ create_add_message_to_server n m client_id ++ rest
      → (c : Contents) → IsReady w c
      → Offered c normal
          (added fd n m client_id)
          []
          false
          (is_recovering w.server)
          w
          (handle_connection scan strtol strtoul fuel (init_client_ctx fd) r w)
  add-received m int_status task date short_task short_date e c ready =
      let h =
        handle-Whole scan strtol strtoul scans fuel w (init_client_ctx fd) (added fd n m client_id)
          r (add_fields n m client_id) rest good
          (e ∙ ap (λ us. us ++ rest) (add_text n m client_id))
          (add_fields-Readable strtol strtoul reads fd client_id n int_id int_no m int_status task
            date short_task short_date)
          (six n m client_id)
          (parse-add strtol strtoul reads fd client_id n int_id int_no m int_status) in
      subst (Offered c normal (added fd n m client_id) [] false (is_recovering w.server) w)
        (sym (h.run ∙ respond_add fuel w h.reader fd n client_id m short_task))
        (to_log-Offered (added fd n m client_id) [] normal false (is_recovering w.server) w c ready)

  -- A server that reads, on a new connection without failures, the text of a client's modification
  -- offers a request of type 2 to the queue of normal messages that has the key, the new task, the
  -- first 32 bytes of the new date, without a final 0 if it is that long, and the new status,
  -- whatever the flags are: they are not kept. Where the queue is full the request is dropped and
  -- the connection closed; otherwise it stands behind the others, marked as one of the backlog if
  -- and only if the server is a passive backup. The new task of less than 1024 bytes, and the key
  -- and the new date of at most 2000, are texts that `sscanf` can read, the numbers are ones of an
  -- `int`, `strtol` reads what `%d` prints, `sscanf` takes the lines apart, and the node that
  -- `malloc` returns is a new one.
  pub modify-received :
      (m : MessageModify)
      → is_int (pos (status_code m.new_task_status)) ≡ true
      → is_int (pos (mod_flags m)) ≡ true
      → is_value_text m.task ≡ true
      → is_value_text m.new_task ≡ true
      → is_value_text m.new_date ≡ true
      → length m.task ≤ 2000
      → length m.new_task < max_data_len
      → length m.new_date ≤ 2000
      → view r ≡ create_modify_message_to_server n m client_id ++ rest
      → (c : Contents) → IsReady w c
      → Offered c normal
          (modified fd n (strtoul m.task) m client_id)
          []
          false
          (is_recovering w.server)
          w
          (handle_connection scan strtol strtoul fuel (init_client_ctx fd) r w)
  modify-received m int_status int_flags key task date short_key short_task short_date e c ready =
      let h =
        handle-Whole scan strtol strtoul scans fuel w (init_client_ctx fd)
          (modified fd n (strtoul m.task) m client_id) r (modify_fields n m client_id) rest good
          (e ∙ ap (λ us. us ++ rest) (modify_text n m client_id))
          (modify_fields-Readable strtol strtoul reads fd client_id n int_id int_no m int_status
            int_flags key task date short_key short_task short_date)
          (eight n m client_id)
          (parse-modify strtol strtoul reads fd client_id n int_id int_no m int_status int_flags) in
      subst
        (Offered c normal (modified fd n (strtoul m.task) m client_id) [] false
          (is_recovering w.server) w)
        (sym (h.run ∙ respond_modify fuel w h.reader fd n client_id m (strtoul m.task) short_task))
        (to_log-Offered (modified fd n (strtoul m.task) m client_id) [] normal false
          (is_recovering w.server) w c ready)
