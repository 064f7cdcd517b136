-- ===== src/Checkpoint/Transfer.antt =====
-- A checkpoint on its way from the primary (src/chkpt.c) to the log of a backup (src/server.c).
use to_do_list_public.Common.{
  ℕ, zero, suc, ◌+◌, ◌≤◌, ◌<◌, ◌≡◌, refl, ap, ◌∙◌, ℤ, pos, true, [], ◌∷◌, ◌++◌, arith, length, take,
  drop, take-drop,
}
use to_do_list_public.Text.{Bytes, codes, dec, dec_int, line}
use to_do_list_public.Storage.{msg_code, msg_chk_pt}
use to_do_list_public.Log.{normal}
use to_do_list_public.Socket.{SockBufRead}
use to_do_list_public.Socket.Reader.{view, IsGood}
use to_do_list_public.Protocol.{
  Strtol, is_int, Fields, field_text, Scan, Scans, accepts, parse_fields, max_req_fields, complete,
  text_of,
}
use to_do_list_public.Protocol.Int32.{Reads}
use to_do_list_public.Protocol.Numbers.{Readable, last, int_before}
use to_do_list_public.Protocol.Receive.{parse_fields-step, parse_fields-nil}
use to_do_list_public.Server.{max_length, World, is_backlog_now, enqueue_client_req, queue_of}
use to_do_list_public.Server.Parse.{low_half, msg_of, Incoming, init_client_ctx, parse_kv}
use to_do_list_public.Server.Connection.{
  stuck, collected, unfinished, handle_connection, respond_to, read_payload, collect, after_payload,
  dispatch,
}
use to_do_list_public.Server.Enqueue.{to_log, and_true, is_passive_backup, is_recovering}
use to_do_list_public.Server.Received.{Whole, handle-Whole}
use to_do_list_public.Server.Keys.{
  low_half_lem, client_id_lem, req_no_lem, type_lem, data_length_lem,
}
use to_do_list_public.Server.Payload.{collect_lem, collect-unfinished}
use to_do_list_public.Checkpoint.{WriteOutcome, whole, write_file, header}

length-drop : (n : ℕ) (xs : Bytes) → length (drop n xs) ≤ length xs
length-drop zero xs = omega arith
length-drop (suc n) [] = omega arith
length-drop (suc n) (x ∷ xs) = omega (arith, length-drop n xs)

-- where every write succeeds, the whole file is written
pub write_file-all :
    (writes : ℕ → WriteOutcome) (fuel i : ℕ) (file : Bytes)
    → ((k : ℕ) → writes k ≡ whole)
    → length file ≤ fuel
    → write_file writes fuel i file ≡ file
unfolding write_file
write_file-all writes zero i [] ok le = refl
write_file-all writes zero i (b ∷ bs) ok le = absurd (omega (arith, le))
write_file-all writes (suc fuel) i [] ok le = refl
write_file-all writes (suc fuel) i (b ∷ bs) ok le =
    let ih =
      write_file-all writes fuel (i + 1) (drop max_length (b ∷ bs)) ok
        (omega (arith, length-drop 8191 bs, le)) in
    rw (ok i) (ap (λ us. take max_length (b ∷ bs) ++ us) ih ∙ take-drop max_length (b ∷ bs))

unfoldable pub header_fields : ℤ → ℕ → ℕ → Fields
header_fields server_id num size =
    (codes "Client ID", dec_int server_id)
    ∷ (codes "Request No", dec num)
    ∷ (codes "Message Type", dec (msg_code msg_chk_pt))
    ∷ (codes "Data Length", dec size)
    ∷ []

pub header_lem :
    (server_id : ℤ) (num size : ℕ)
    → header server_id num size ≡ text_of (header_fields server_id num size)
unfolding header text_of field_text header_fields line
header_lem server_id num size = refl

-- the request that a backup makes of a checkpoint's header
unfoldable pub checkpoint : ℤ → ℤ → ℕ → ℕ → Incoming
checkpoint fd server_id num size =
    let new = init_client_ctx fd in
    record new {
      ctx = record new.ctx {
        client_id = server_id;
        req = record new.ctx.req { msg_type = msg_chk_pt; req_no = num };
      };
      payload_size = size;
    }

module _ (strtol : Strtol) (strtoul : Bytes → ℕ) (reads : Reads strtol) (fd server_id : ℤ)
    (num size : ℕ) (int_id : is_int server_id ≡ true) (int_num : is_int (pos num) ≡ true)
    (int_size : is_int (pos size) ≡ true) where
  parse-header_fields :
      parse_fields (parse_kv strtol strtoul) (init_client_ctx fd) (header_fields server_id num size)
      ≡ accepts (checkpoint fd server_id num size)
  unfolding header_fields dec_int init_client_ctx msg_of checkpoint
  parse-header_fields =
      parse_fields-step (parse_kv strtol strtoul) _ _ _ _ _
        (client_id_lem strtol strtoul reads _ server_id int_id)
        (parse_fields-step (parse_kv strtol strtoul) _ _ _ _ _
          (req_no_lem strtol strtoul reads _ (pos num) int_num)
          (parse_fields-step (parse_kv strtol strtoul) _ _ _ _ _
            (type_lem strtol strtoul reads _ (pos 6) refl)
            (parse_fields-step (parse_kv strtol strtoul) _ _ _ _ _
              (data_length_lem strtol strtoul reads _ (pos size) int_size)
              (parse_fields-nil (parse_kv strtol strtoul) _
                ∙ ap accepts (
                    ap (λ k. checkpoint fd server_id k (low_half 0 (pos size)))
                      (low_half_lem num int_num)
                    ∙ ap (checkpoint fd server_id num) (low_half_lem size int_size))))))

  header_fields-are : Readable (header_fields server_id num size)
  unfolding header_fields dec_int
  header_fields-are = int_before _ _ refl server_id (omega arith) int_id (
      int_before _ _ refl (pos num) (omega arith) int_num (
        int_before _ _ refl (pos 6) (omega arith) refl
          (int_before _ _ refl (pos size) (omega arith) int_size last)))

  short : length (header_fields server_id num size) ≤ max_req_fields
  unfolding header_fields
  short = omega arith

  module _ (fuel : ℕ) (w : World) where
    respond_checkpoint :
        (q : SockBufRead)
        → respond_to fuel w (complete (checkpoint fd server_id num size) q)
          ≡ after_payload (checkpoint fd server_id num size) w (read_payload fuel size q)
    unfolding checkpoint init_client_ctx
    respond_checkpoint q = refl

    dispatch-checkpoint :
        (payload : Bytes)
        → dispatch (checkpoint fd server_id num size) payload w
          ≡ to_log
              (checkpoint fd server_id num size)
              payload
              normal
              (is_passive_backup w.server)
              (is_recovering w.server)
              w
    unfolding dispatch enqueue_client_req queue_of is_backlog_now checkpoint init_client_ctx
    dispatch-checkpoint payload = rw (and_true (is_recovering w.server)) refl

    module _ (some_ : 0 < size) where
      read_payload_lem : (q : SockBufRead) → read_payload fuel size q ≡ collect fuel size q
      unfolding read_payload
      read_payload_lem q = ground (arith, some_, int_size)

      after_payload_lem :
          (q q' : SockBufRead) (payload : Bytes)
          → collect fuel size q ≡ collected payload q'
          → respond_to fuel w (complete (checkpoint fd server_id num size) q)
            ≡ to_log
                (checkpoint fd server_id num size)
                payload
                normal
                (is_passive_backup w.server)
                (is_recovering w.server)
                w
      after_payload_lem q q' payload e =
          respond_checkpoint q
          ∙ ap (after_payload (checkpoint fd server_id num size) w) (read_payload_lem q ∙ e)
          ∙ dispatch-checkpoint payload

      stuck_lem :
          (q : SockBufRead)
          → collect fuel size q ≡ unfinished
          → respond_to fuel w (complete (checkpoint fd server_id num size) q) ≡ stuck
      stuck_lem q e =
          respond_checkpoint q
          ∙ ap (after_payload (checkpoint fd server_id num size) w) (read_payload_lem q ∙ e)

      module _ (scan : Scan) (scans : Scans scan) (r : SockBufRead) (rest : Bytes) (good : IsGood r)
          (e : view r ≡ header server_id num size ++ rest) where
        received :
            Whole rest
              (checkpoint fd server_id num size)
              fuel
              w
              (handle_connection scan strtol strtoul fuel (init_client_ctx fd) r w)
        received =
            handle-Whole scan strtol strtoul scans fuel w (init_client_ctx fd)
              (checkpoint fd server_id num size) r (header_fields server_id num size) rest good
              (e ∙ ap (λ us. us ++ rest) (header_lem server_id num size)) header_fields-are short
              parse-header_fields

        pub received_whole :
            size ≤ length rest
            → size ≤ fuel
            → handle_connection scan strtol strtoul fuel (init_client_ctx fd) r w
              ≡ to_log
                  (checkpoint fd server_id num size)
                  (take size rest)
                  normal
                  (is_passive_backup w.server)
                  (is_recovering w.server)
                  w
        received_whole enough le =
            let h = received in
            let (q, got) =
              collect_lem fuel size h.reader h.good le some_
                (omega (arith, enough, ap length h.others)) in
            h.run
            ∙ after_payload_lem h.reader q (take size rest)
                (got ∙ ap (λ us. collected (take size us) q) h.others)

        pub received_part :
            length rest < size
            → handle_connection scan strtol strtoul fuel (init_client_ctx fd) r w ≡ stuck
        received_part short_of =
            let h = received in
            h.run
            ∙ stuck_lem h.reader (
                collect-unfinished fuel size h.reader h.good
                  (omega (arith, short_of, ap length h.others)))
