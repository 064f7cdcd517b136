-- ===== src/Factory/Relay.antt =====
-- A command of the replication manager (src/replication_manager.c) on its way through the factory
-- (src/factory.c) to the server.
use to_do_list_public.Common.{
  ℕ, ◌≡◌, refl, ap, ◌∙◌, subst, ℤ, pos, true, [], ◌∷◌, ◌++◌, ◌⊎◌, arith, length, ◌≤◌, ◌<◌, take,
  zero, suc,
}
use to_do_list_public.Text.{Bytes, codes, dec_int}
use to_do_list_public.State.{mode_code, state_code}
use to_do_list_public.Socket.{SockBufRead}
use to_do_list_public.Socket.Reader.{view, IsGood}
use to_do_list_public.Protocol.{
  Strtol, is_int, is_value_text, Fields, Scan, Scans, Parsed, accepts, parse_fields, read_fields,
  max_req_fields, Received,
}
use to_do_list_public.Protocol.Int32.{Reads, str_to_int_dec}
use to_do_list_public.Protocol.Numbers.{Readable, last, readable_lem, int_before, text_before}
use to_do_list_public.Protocol.Receive.{Ends, read_fields-Ends}
use to_do_list_public.Manager.Data.{Manager}
use to_do_list_public.Manager.Send.{election_text, election_mode, election_state}
use to_do_list_public.Factory.{
  FactoryMessage, parse_rep_manager_kv, handle_rep_man_command, send, acts, obey,
  handle_replication_manager_message,
}
use to_do_list_public.Factory.Fields.{
  mode_int, state_int, election_fields, elected, server_text, election_text_lem, fill_elected,
  command-elected,
}

take-all : (n : ℕ) (xs : Bytes) → length xs < n → take n xs ≡ xs
take-all zero xs lt = absurd (omega (arith, lt))
take-all (suc n) [] lt = refl
take-all (suc n) (x ∷ xs) lt = ap (λ us. x ∷ us) (take-all n xs (omega (arith, lt)))

short : (i one two : ℕ) (m : Manager) → length (election_fields i one two m) ≤ max_req_fields
unfolding election_fields
short i one two m = omega arith

module _ (strtol : Strtol) (reads : Reads strtol) where
  abbrev parse : FactoryMessage → Bytes × Bytes → Parsed FactoryMessage
  parse = parse_rep_manager_kv strtol

  -- one line of a command, with the number in it already read
  step :
      (m m' : FactoryMessage) (field : Bytes × Bytes) (rest : Fields) (r : Parsed FactoryMessage)
      → parse m field ≡ accepts m'
      → parse_fields parse m' rest ≡ r
      → parse_fields parse m (field ∷ rest) ≡ r
  unfolding parse_fields
  step m m' field rest r e f = rw (parse_fields, e) f

  module _ (m : FactoryMessage) (z : ℤ) (h : is_int z ≡ true) where
    replica_id_lem : parse m (codes "Replica ID", dec_int z) ≡ accepts (record m { replica_id = z })
    unfolding parse_rep_manager_kv
    replica_id_lem = rw (str_to_int_dec strtol reads z h) refl

    req_lem : parse m (codes "Factory Req", dec_int z) ≡ accepts (record m { req = z })
    unfolding parse_rep_manager_kv
    req_lem = rw (str_to_int_dec strtol reads z h) refl

    mode_lem : parse m (codes "REP MODE", dec_int z) ≡ accepts (record m { mode_rep = z })
    unfolding parse_rep_manager_kv
    mode_lem = rw (str_to_int_dec strtol reads z h) refl

    state_lem : parse m (codes "Server State", dec_int z) ≡ accepts (record m { server_state = z })
    unfolding parse_rep_manager_kv
    state_lem = rw (str_to_int_dec strtol reads z h) refl

    freq_lem :
        parse m (codes "Checkpoint freq", dec_int z) ≡ accepts (record m { checkpoint_freq = z })
    unfolding parse_rep_manager_kv
    freq_lem = rw (str_to_int_dec strtol reads z h) refl

    id_1_lem :
        parse m (codes "Replica 1 ID", dec_int z) ≡ accepts (record m { bkp_replica_id_1 = z })
    unfolding parse_rep_manager_kv
    id_1_lem = rw (str_to_int_dec strtol reads z h) refl

    port_1_lem :
        parse m (codes "Replica 1 Port", dec_int z)
        ≡ accepts (record m { server_1 = record m.server_1 { port = z } })
    unfolding parse_rep_manager_kv
    port_1_lem = rw (str_to_int_dec strtol reads z h) refl

    id_2_lem :
        parse m (codes "Replica 2 ID", dec_int z) ≡ accepts (record m { bkp_replica_id_2 = z })
    unfolding parse_rep_manager_kv
    id_2_lem = rw (str_to_int_dec strtol reads z h) refl

    port_2_lem :
        parse m (codes "Replica 2 Port", dec_int z)
        ≡ accepts (record m { server_2 = record m.server_2 { port = z } })
    unfolding parse_rep_manager_kv
    port_2_lem = rw (str_to_int_dec strtol reads z h) refl

  module _ (m : FactoryMessage) (ip : Bytes) (short_ip : length ip < 1024) where
    ip_1_lem :
        parse m (codes "Replica 1 IP", ip)
        ≡ accepts (record m { server_1 = record m.server_1 { server_ip = ip } })
    unfolding parse_rep_manager_kv
    ip_1_lem =
        ap (λ us. accepts (record m { server_1 = record m.server_1 { server_ip = us } }))
          (take-all 1024 ip short_ip)

    ip_2_lem :
        parse m (codes "Replica 2 IP", ip)
        ≡ accepts (record m { server_2 = record m.server_2 { server_ip = ip } })
    unfolding parse_rep_manager_kv
    ip_2_lem =
        ap (λ us. accepts (record m { server_2 = record m.server_2 { server_ip = us } }))
          (take-all 1024 ip short_ip)

  module _ (i one two : ℕ) (m : Manager) (fm : FactoryMessage) (int_i : is_int (pos i) ≡ true)
      (int_one : is_int (pos one) ≡ true) (int_two : is_int (pos two) ≡ true)
      (int_freq : is_int m.checkpoint_freq ≡ true)
      (int_port_1 : is_int (m.node one).server.port ≡ true)
      (int_port_2 : is_int (m.node two).server.port ≡ true)
      (short_1 : length (m.node one).server.server_ip < 1024)
      (short_2 : length (m.node two).server.server_ip < 1024) where
    -- The message that a factory makes of the lines of an election has the manager's fields.
    pub parse-election :
        parse_fields parse fm (election_fields i one two m) ≡ accepts (elected i one two m)
    unfolding election_fields dec_int elected parse_fields
    parse-election =
        let r11 : Fields = [] in
        let r10 : Fields = (codes "Replica 2 Port", dec_int (m.node two).server.port) ∷ r11 in
        let r9 : Fields = (codes "Replica 2 IP", (m.node two).server.server_ip) ∷ r10 in
        let r8 : Fields = (codes "Replica 2 ID", dec_int (pos two)) ∷ r9 in
        let r7 : Fields = (codes "Replica 1 Port", dec_int (m.node one).server.port) ∷ r8 in
        let r6 : Fields = (codes "Replica 1 IP", (m.node one).server.server_ip) ∷ r7 in
        let r5 : Fields = (codes "Replica 1 ID", dec_int (pos one)) ∷ r6 in
        let r4 : Fields = (codes "Checkpoint freq", dec_int m.checkpoint_freq) ∷ r5 in
        let state = pos (state_code (election_state m.mode)) in
        let rep = pos (mode_code (election_mode m.mode)) in
        let r3 : Fields = (codes "Server State", dec_int state) ∷ r4 in
        let r2 : Fields = (codes "REP MODE", dec_int rep) ∷ r3 in
        let r1 : Fields = (codes "Factory Req", dec_int (pos 1)) ∷ r2 in
        let a0 = fm in
        let a1 = record a0 { replica_id = pos i } in
        let a2 = record a1 { req = pos 1 } in
        let a3 = record a2 { mode_rep = rep } in
        let a4 = record a3 { server_state = state } in
        let a5 = record a4 { checkpoint_freq = m.checkpoint_freq } in
        let a6 = record a5 { bkp_replica_id_1 = pos one } in
        let a7 = record a6 {
          server_1 = record { server_ip = (m.node one).server.server_ip; port = a0.server_1.port };
        } in
        let a8 = record a7 { server_1 = (m.node one).server } in
        let a9 = record a8 { bkp_replica_id_2 = pos two } in
        let a10 = record a9 {
          server_2 = record { server_ip = (m.node two).server.server_ip; port = a0.server_2.port };
        } in
        let a11 = record a10 { server_2 = (m.node two).server } in
        step a0 a1 _ r1 _ (replica_id_lem a0 (pos i) int_i) (
          step a1 a2 _ r2 _ (req_lem a1 (pos 1) refl) (
            step a2 a3 _ r3 _ (mode_lem a2 rep (mode_int m.mode)) (
              step a3 a4 _ r4 _ (state_lem a3 state (state_int m.mode)) (
                step a4 a5 _ r5 _ (freq_lem a4 m.checkpoint_freq int_freq) (
                  step a5 a6 _ r6 _ (id_1_lem a5 (pos one) int_one) (
                    step a6 a7 _ r7 _ (ip_1_lem a6 (m.node one).server.server_ip short_1) (
                      step a7 a8 _ r8 _ (port_1_lem a7 (m.node one).server.port int_port_1) (
                        step a8 a9 _ r9 _ (id_2_lem a8 (pos two) int_two) (
                          step a9 a10 _ r10 _ (ip_2_lem a9 (m.node two).server.server_ip short_2) (
                            step a10 a11 _ r11 _
                              (port_2_lem a10 (m.node two).server.port int_port_2) refl))))))))))

    module _ (scan : Scan) (scans : Scans scan) (r : SockBufRead) (rest : Bytes)
        (text_1 : is_value_text (m.node one).server.server_ip ≡ true)
        (text_2 : is_value_text (m.node two).server.server_ip ≡ true) where
      readable : Readable (election_fields i one two m)
      unfolding election_fields dec_int
      readable = int_before _ _ refl (pos i) (omega arith) int_i (
          int_before _ _ refl (pos 1) (omega arith) refl (
            int_before _ _ refl (pos (mode_code (election_mode m.mode))) (omega arith)
              (mode_int m.mode)
              (int_before _ _ refl (pos (state_code (election_state m.mode))) (omega arith)
                (state_int m.mode)
                (int_before _ _ refl m.checkpoint_freq (omega arith) int_freq (
                  int_before _ _ refl (pos one) (omega arith) int_one (
                    text_before _ _ refl (m.node one).server.server_ip (omega (arith, short_1))
                      text_1
                      (int_before _ _ refl (m.node one).server.port (omega arith) int_port_1 (
                        int_before _ _ refl (pos two) (omega arith) int_two (
                          text_before _ _ refl (m.node two).server.server_ip
                            (omega (arith, short_2)) text_2
                            (int_before _ _ refl (m.node two).server.port (omega arith) int_port_2
                              last))))))))))

      obeyed :
          (o : Received FactoryMessage)
          → Ends rest (accepts (elected i one two m)) o
          → obey (pos i) o ≡ acts (handle_rep_man_command (pos i) (elected i one two m))
      obeyed o (q, (e, h)) = ap (obey (pos i)) e

      -- A factory of replica `i` that reads, on a connection without failures, the text that the
      -- manager writes to elect `i` as the primary, however it arrives and whatever follows it,
      -- sends to its server a message of type 7, in the passive and in the active mode alike, with
      -- the manager's mode, state and frequency and the two backups' identifiers, addresses and
      -- ports. The numbers are taken to be ones of an `int`, the addresses to be texts of less
      -- than 1024 bytes that `sscanf` can read, `strtol` to read what `%d` prints, and `sscanf` to take the
      -- lines apart.
      pub relay_election :
          (m.mode ≡ 0) ⊎ (m.mode ≡ 1)
          → IsGood r
          → view r ≡ election_text i one two m ++ rest
          → handle_replication_manager_message scan strtol (pos i) fm r
            ≡ acts (send (server_text one two m))
      unfolding handle_replication_manager_message
      relay_election mode good e =
          obeyed (read_fields scan parse max_req_fields r fm) (
            subst (λ o. Ends rest o (read_fields scan parse max_req_fields r fm)) parse-election
              (read_fields-Ends scan parse scans max_req_fields r fm (election_fields i one two m)
                rest good (e ∙ ap (λ us. us ++ rest) (election_text_lem i one two m))
                (readable_lem (election_fields i one two m) readable) (short i one two m)))
          ∙ ap acts (
              command-elected i one two m short_1 short_2 ∙ ap send (fill_elected i one two m mode))
