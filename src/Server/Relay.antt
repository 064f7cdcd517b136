-- ===== src/Server/Relay.antt =====
-- The text of an election (src/factory.c) as a server takes it from its connection (src/server.c).
use to_do_list_public.Common.{
  ℕ, ◌<◌, ◌⊎◌, ◌≡◌, sym, subst, refl, ap, ◌∙◌, ℤ, pos, Bool, ◌&&◌, true, false, [], ◌++◌, arith,
  length,
}
use to_do_list_public.Text.{Bytes, dec_int}
use to_do_list_public.State.{is_mode, is_state, active_rep, active_recover, mode_code, state_code}
use to_do_list_public.Storage.{msg_code, msg_rep_mgr}
use to_do_list_public.Log.{control}
use to_do_list_public.Socket.{SockBufRead}
use to_do_list_public.Socket.Reader.{view, IsGood}
use to_do_list_public.Protocol.{
  Strtol, is_int, is_value_text, Scan, Scans, accepts, parse_fields, complete,
}
use to_do_list_public.Protocol.Int32.{Reads}
use to_do_list_public.Protocol.Numbers.{Readable, last, int_before, text_before}
use to_do_list_public.Protocol.Receive.{parse_fields-step, parse_fields-nil}
use to_do_list_public.Manager.Data.{Manager}
use to_do_list_public.Manager.Send.{election_mode, election_state}
use to_do_list_public.Factory.{fill_change_state_buf}
use to_do_list_public.Log.Refines.{Contents}
use to_do_list_public.Server.Enqueue.{IsReady, Offered, to_log, to_log-Offered}
use to_do_list_public.Factory.Fields.{elected, fill_elected, mode_int, state_int}
use to_do_list_public.Server.Received.{handle-Whole}
use to_do_list_public.Server.{World, enqueue_client_req, queue_of}
use to_do_list_public.Server.Parse.{bits, msg_of, mode_of, state_of, init_client_ctx, parse_kv}
use to_do_list_public.Server.Connection.{handle_connection, respond_to, read_payload, dispatch}
use to_do_list_public.Server.Fields.{
  server_fields, server_text_lem, filled, cut, configured, mode_of_lem, state_of_lem, short,
}
use to_do_list_public.Server.Keys.{
  bits_lem, client_id_lem, req_no_lem, type_lem, mode_lem, state_lem, freq_lem, id_1_lem,
  port_1_lem, id_2_lem, port_2_lem, ip_1_lem, ip_2_lem,
}

and_false : (b : Bool) → b && false ≡ false
and_false b = ground arith

module _ (strtol : Strtol) (strtoul : Bytes → ℕ) (reads : Reads strtol) (fd : ℤ) (one two : ℕ)
    (m : Manager) (int_one : is_int (pos one) ≡ true) (int_two : is_int (pos two) ≡ true)
    (int_freq : is_int m.checkpoint_freq ≡ true)
    (int_port_1 : is_int (m.node one).server.port ≡ true)
    (int_port_2 : is_int (m.node two).server.port ≡ true) where
  read_back :
      filled fd
        (mode_of (bits (pos (mode_code (election_mode m.mode)))))
        (state_of (bits (pos (state_code (election_state m.mode)))))
        m.checkpoint_freq
        (bits (pos one))
        (bits (pos two))
        (cut (m.node one).server)
        (cut (m.node two).server)
      ≡ configured fd one two m
  unfolding configured
  read_back =
      let first = cut (m.node one).server in
      let second = cut (m.node two).server in
      let mode = mode_of (bits (pos (mode_code (election_mode m.mode)))) in
      let state = state_of (bits (pos (state_code (election_state m.mode)))) in
      let freq = m.checkpoint_freq in
      ap (λ x. filled fd x state freq (bits (pos one)) (bits (pos two)) first second)
        (mode_of_lem m.mode)
      ∙ ap
          (λ x.
            filled fd (election_mode m.mode) x freq (bits (pos one)) (bits (pos two)) first second)
          (state_of_lem m.mode)
      ∙ ap
          (λ x.
            filled fd (election_mode m.mode) (election_state m.mode) freq x (bits (pos two)) first
              second)
          (bits_lem one int_one)
      ∙ ap (λ x. filled fd (election_mode m.mode) (election_state m.mode) freq one x first second)
          (bits_lem two int_two)

  parse-server_fields :
      parse_fields (parse_kv strtol strtoul) (init_client_ctx fd) (server_fields one two m)
      ≡ accepts (configured fd one two m)
  unfolding server_fields dec_int configured init_client_ctx msg_of
  parse-server_fields =
      parse_fields-step (parse_kv strtol strtoul) _ _ _ _ _
        (client_id_lem strtol strtoul reads _ (pos 0) refl)
        (parse_fields-step (parse_kv strtol strtoul) _ _ _ _ _
          (req_no_lem strtol strtoul reads _ (pos 0) refl)
          (parse_fields-step (parse_kv strtol strtoul) _ _ _ _ _
            (type_lem strtol strtoul reads _ (pos (msg_code msg_rep_mgr)) refl)
            (parse_fields-step (parse_kv strtol strtoul) _ _ _ _ _
              (mode_lem strtol strtoul reads _ (pos (mode_code (election_mode m.mode)))
                (mode_int m.mode))
              (parse_fields-step (parse_kv strtol strtoul) _ _ _ _ _
                (state_lem strtol strtoul reads _ (pos (state_code (election_state m.mode)))
                  (state_int m.mode))
                (parse_fields-step (parse_kv strtol strtoul) _ _ _ _ _
                  (freq_lem strtol strtoul reads _ m.checkpoint_freq int_freq)
                  (parse_fields-step (parse_kv strtol strtoul) _ _ _ _ _
                    (id_1_lem strtol strtoul reads _ (pos one) int_one)
                    (parse_fields-step (parse_kv strtol strtoul) _ _ _ _ _
                      (ip_1_lem strtol strtoul reads _ (m.node one).server.server_ip)
                      (parse_fields-step (parse_kv strtol strtoul) _ _ _ _ _
                        (port_1_lem strtol strtoul reads _ (m.node one).server.port int_port_1)
                        (parse_fields-step (parse_kv strtol strtoul) _ _ _ _ _
                          (id_2_lem strtol strtoul reads _ (pos two) int_two)
                          (parse_fields-step (parse_kv strtol strtoul) _ _ _ _ _
                            (ip_2_lem strtol strtoul reads _ (m.node two).server.server_ip)
                            (parse_fields-step (parse_kv strtol strtoul) _ _ _ _ _
                              (port_2_lem strtol strtoul reads _ (m.node two).server.port
                                int_port_2)
                              (parse_fields-nil (parse_kv strtol strtoul) _
                                ∙ ap accepts read_back))))))))))))

  module _ (text_1 : is_value_text (m.node one).server.server_ip ≡ true)
      (text_2 : is_value_text (m.node two).server.server_ip ≡ true)
      (short_1 : length (m.node one).server.server_ip < 1024)
      (short_2 : length (m.node two).server.server_ip < 1024) where
    readable : Readable (server_fields one two m)
    unfolding server_fields dec_int
    readable = int_before _ _ refl (pos 0) (omega arith) refl (
        int_before _ _ refl (pos 0) (omega arith) refl (
          int_before _ _ refl (pos 7) (omega arith) refl (
            int_before _ _ refl (pos (mode_code (election_mode m.mode))) (omega arith)
              (mode_int m.mode)
              (int_before _ _ refl (pos (state_code (election_state m.mode))) (omega arith)
                (state_int m.mode)
                (int_before _ _ refl m.checkpoint_freq (omega arith) int_freq (
                  int_before _ _ refl (pos one) (omega arith) int_one (
                    text_before _ _ refl (m.node one).server.server_ip (omega (arith, short_1))
                      text_1
                      (int_before _ _ refl (m.node one).server.port (omega arith) int_port_1 (
                        int_before _ _ refl (pos two) (omega arith) int_two (
                          text_before _ _ refl (m.node two).server.server_ip
                            (omega (arith, short_2)) text_2
                            (int_before _ _ refl (m.node two).server.port (omega arith) int_port_2
                              last)))))))))))

    module _ (scan : Scan) (scans : Scans scan) (fuel : ℕ) (w : World) where
      respond_configured :
          (q : SockBufRead)
          → respond_to fuel w (complete (configured fd one two m) q)
            ≡ to_log (configured fd one two m) [] control false false w
      unfolding configured read_payload dispatch enqueue_client_req queue_of init_client_ctx
      respond_configured q =
          rw
            (and_false
              (is_mode w.server.rep_mode active_rep && is_state w.server.state active_recover))
            refl

      -- A server that reads, on a new connection without failures, the text that
      -- `fill_change_state_buf` makes of the factory's copy of an election, however it arrives and
      -- whatever follows it, offers to the log's queue of control messages a request that has the
      -- manager's mode, state and frequency and the two backups' identifiers, addresses and ports.
      -- Where the queue is full the request is dropped; otherwise it stands behind the others,
      -- marked as one of the backlog if and only if the server is a passive backup. The mode is one
      -- of the two, the numbers are ones of an `int`, the addresses are texts of less than 1024
      -- bytes that `sscanf` can read, `strtol` reads what `%d` prints, `sscanf` takes the lines apart,
      -- and the node that `malloc` returns is a new one.
      pub relay_to_server :
          (i : ℕ) (r : SockBufRead) (rest : Bytes) (c : Contents)
          → (m.mode ≡ 0) ⊎ (m.mode ≡ 1)
          → IsGood r
          → view r ≡ fill_change_state_buf (elected i one two m) ++ rest
          → IsReady w c
          → Offered c control
              (configured fd one two m)
              []
              false
              false
              w
              (handle_connection scan strtol strtoul fuel (init_client_ctx fd) r w)
      relay_to_server i r rest c mode good e ready =
          let sent = fill_elected i one two m mode ∙ server_text_lem one two m in
          let h =
            handle-Whole scan strtol strtoul scans fuel w (init_client_ctx fd)
              (configured fd one two m) r (server_fields one two m) rest good
              (e ∙ ap (λ us. us ++ rest) sent) readable (short one two m) parse-server_fields in
          subst (Offered c control (configured fd one two m) [] false false w)
            (sym (h.run ∙ respond_configured h.reader))
            (to_log-Offered (configured fd one two m) [] control false false w c ready)
