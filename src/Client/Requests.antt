-- ===== src/Client/Requests.antt =====
-- A client's requests (src/client.c) as the server takes them from its connection (src/server.c).
use to_do_list_public.Common.{
  ℕ, ◌≤◌, ◌<◌, ◌≡◌, refl, ap, ◌∙◌, true, false, ℤ, pos, [], length, leb, arith,
}
use to_do_list_public.Text.{Bytes, dec_int}
use to_do_list_public.Db.{max_data_len}
use to_do_list_public.Log.{normal}
use to_do_list_public.Socket.{SockBufRead}
use to_do_list_public.Protocol.{Strtol, is_int, is_value_text, accepts, parse_fields, complete}
use to_do_list_public.Protocol.Int32.{Reads}
use to_do_list_public.Protocol.Numbers.{Readable, last, int_before, text_before}
use to_do_list_public.Protocol.Receive.{parse_fields-step, parse_fields-nil}
use to_do_list_public.Server.{World, enqueue_client_req, queue_of}
use to_do_list_public.Server.Parse.{bits, msg_of, status_of, init_client_ctx, parse_kv}
use to_do_list_public.Server.Keys.{
  bits_lem, low_half_lem, client_id_lem, req_no_lem, type_lem, task_lem, task_status_lem,
  due_date_lem, flags_lem, key_lem, new_task_lem, new_date_lem, new_status_lem,
}
use to_do_list_public.Server.Enqueue.{to_log, and_true, is_recovering}
use to_do_list_public.Server.Connection.{respond_to, read_payload, dispatch}
use to_do_list_public.Client.{MessageAdd, MessageModify, status_code, mod_flags}
use to_do_list_public.Client.Fields.{
  add_fields, modify_fields, status_of-code, filled_add, filled_modify, modified, added,
}

module _ (strtol : Strtol) (strtoul : Bytes → ℕ) (reads : Reads strtol) (fd client_id : ℤ) (n : ℕ)
    (int_id : is_int client_id ≡ true) (int_no : is_int (pos n) ≡ true) where
  module _ (m : MessageAdd) (int_status : is_int (pos (status_code m.task_status)) ≡ true) where
    pub parse-add :
        parse_fields (parse_kv strtol strtoul) (init_client_ctx fd) (add_fields n m client_id)
        ≡ accepts (added fd n m client_id)
    unfolding add_fields dec_int init_client_ctx msg_of added
    parse-add =
        parse_fields-step (parse_kv strtol strtoul) _ _ _ _ _
          (req_no_lem strtol strtoul reads _ (pos n) int_no)
          (parse_fields-step (parse_kv strtol strtoul) _ _ _ _ _
            (client_id_lem strtol strtoul reads _ client_id int_id)
            (parse_fields-step (parse_kv strtol strtoul) _ _ _ _ _
              (type_lem strtol strtoul reads _ (pos 1) refl)
              (parse_fields-step (parse_kv strtol strtoul) _ _ _ _ _
                (task_lem strtol strtoul reads _ m.task)
                (parse_fields-step (parse_kv strtol strtoul) _ _ _ _ _
                  (task_status_lem strtol strtoul reads _ (pos (status_code m.task_status))
                    int_status)
                  (parse_fields-step (parse_kv strtol strtoul) _ _ _ _ _
                    (due_date_lem strtol strtoul reads _ m.task_date)
                    (parse_fields-nil (parse_kv strtol strtoul) _
                      ∙ ap
                          (λ k. accepts (
                            filled_add fd k (status_of (bits (pos (status_code m.task_status)))) m
                              client_id))
                          (low_half_lem n int_no)
                      ∙ ap (λ s. accepts (filled_add fd n s m client_id))
                          (ap status_of (bits_lem (status_code m.task_status) int_status)
                            ∙ status_of-code m.task_status)))))))

    pub add_fields-Readable :
        is_value_text m.task ≡ true
        → is_value_text m.task_date ≡ true
        → length m.task < max_data_len
        → length m.task_date ≤ 2000
        → Readable (add_fields n m client_id)
    unfolding add_fields dec_int
    add_fields-Readable task date short_task short_date =
        int_before _ _ refl (pos n) (omega arith) int_no (
          int_before _ _ refl client_id (omega arith) int_id (
            int_before _ _ refl (pos 1) (omega arith) refl (
              text_before _ _ refl m.task (omega (arith, short_task)) task (
                int_before _ _ refl (pos (status_code m.task_status)) (omega arith) int_status
                  (text_before _ _ refl m.task_date (omega (arith, short_date)) date last)))))

  module _ (m : MessageModify) (int_status : is_int (pos (status_code m.new_task_status)) ≡ true)
      (int_flags : is_int (pos (mod_flags m)) ≡ true) where
    pub parse-modify :
        parse_fields (parse_kv strtol strtoul) (init_client_ctx fd) (modify_fields n m client_id)
        ≡ accepts (modified fd n (strtoul m.task) m client_id)
    unfolding modify_fields dec_int init_client_ctx msg_of modified
    parse-modify =
        parse_fields-step (parse_kv strtol strtoul) _ _ _ _ _
          (req_no_lem strtol strtoul reads _ (pos n) int_no)
          (parse_fields-step (parse_kv strtol strtoul) _ _ _ _ _
            (client_id_lem strtol strtoul reads _ client_id int_id)
            (parse_fields-step (parse_kv strtol strtoul) _ _ _ _ _
              (type_lem strtol strtoul reads _ (pos 2) refl)
              (parse_fields-step (parse_kv strtol strtoul) _ _ _ _ _
                (flags_lem strtol strtoul reads _ (dec_int (pos (mod_flags m))))
                (parse_fields-step (parse_kv strtol strtoul) _ _ _ _ _
                  (key_lem strtol strtoul reads _ m.task)
                  (parse_fields-step (parse_kv strtol strtoul) _ _ _ _ _
                    (new_task_lem strtol strtoul reads _ m.new_task)
                    (parse_fields-step (parse_kv strtol strtoul) _ _ _ _ _
                      (new_date_lem strtol strtoul reads _ m.new_date)
                      (parse_fields-step (parse_kv strtol strtoul) _ _ _ _ _
                        (new_status_lem strtol strtoul reads _ (pos (status_code m.new_task_status))
                          int_status)
                        (parse_fields-nil (parse_kv strtol strtoul) _
                          ∙ ap
                              (λ k. accepts (
                                filled_modify fd k
                                  (status_of (bits (pos (status_code m.new_task_status))))
                                  (strtoul m.task) m client_id))
                              (low_half_lem n int_no)
                          ∙ ap (λ s. accepts (filled_modify fd n s (strtoul m.task) m client_id))
                              (ap status_of (bits_lem (status_code m.new_task_status) int_status)
                                ∙ status_of-code m.new_task_status)))))))))

    pub modify_fields-Readable :
        is_value_text m.task ≡ true
        → is_value_text m.new_task ≡ true
        → is_value_text m.new_date ≡ true
        → length m.task ≤ 2000
        → length m.new_task < max_data_len
        → length m.new_date ≤ 2000
        → Readable (modify_fields n m client_id)
    unfolding modify_fields dec_int
    modify_fields-Readable key task date short_key short_task short_date =
        int_before _ _ refl (pos n) (omega arith) int_no (
          int_before _ _ refl client_id (omega arith) int_id (
            int_before _ _ refl (pos 2) (omega arith) refl (
              int_before _ _ refl (pos (mod_flags m)) (omega arith) int_flags (
                text_before _ _ refl m.task (omega (arith, short_key)) key (
                  text_before _ _ refl m.new_task (omega (arith, short_task)) task (
                    text_before _ _ refl m.new_date (omega (arith, short_date)) date (
                      int_before _ _ refl (pos (status_code m.new_task_status)) (omega arith)
                        int_status last)))))))

-- a request without a payload for the storage, in the log
module _ (fuel : ℕ) (w : World) (q : SockBufRead) (fd : ℤ) (n : ℕ) (client_id : ℤ) where
  pub respond_add :
      (m : MessageAdd)
      → length m.task < max_data_len
      → respond_to fuel w (complete (added fd n m client_id) q)
        ≡ to_log (added fd n m client_id) [] normal false (is_recovering w.server) w
  unfolding added read_payload dispatch enqueue_client_req queue_of init_client_ctx
  respond_add m short =
      let fits : leb max_data_len (length m.task) ≡ false = ground (arith, short) in
      rw fits (rw (and_true (is_recovering w.server)) refl)

  pub respond_modify :
      (m : MessageModify) (key : ℕ)
      → length m.new_task < max_data_len
      → respond_to fuel w (complete (modified fd n key m client_id) q)
        ≡ to_log (modified fd n key m client_id) [] normal false (is_recovering w.server) w
  unfolding modified read_payload dispatch enqueue_client_req queue_of init_client_ctx
  respond_modify m key short =
      let fits : leb max_data_len (length m.new_task) ≡ false = ground (arith, short) in
      rw fits (rw (and_true (is_recovering w.server)) refl)
