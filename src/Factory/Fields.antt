-- ===== src/Factory/Fields.antt =====
-- The lines of an election, as a factory reads them, its copy of the message and the text that it
-- sends to its server.
use to_do_list_public.Common.{
  ℕ, ◌<◌, ◌≡◌, refl, int_eq, length, leb, Bool, false, ◌&&◌, if◌then◌else◌, true, pos, [], ◌∷◌,
  ◌++◌, arith, append_assoc, ◌⊎◌, inl, inr,
}
use to_do_list_public.Text.{Bytes, codes, dec, dec_int, line, crlf}
use to_do_list_public.State.{mode_code, state_code}
use to_do_list_public.Manager.Data.{Manager}
use to_do_list_public.Manager.Send.{election_text, election_mode, election_state}
use to_do_list_public.Storage.{msg_code, msg_rep_mgr}
use to_do_list_public.Protocol.{is_int, Fields, field_text, text_of}
use to_do_list_public.Factory.{
  FactoryMessage, handle_rep_man_command, names_backups, reads_beyond, send, request_lines,
  fill_change_state_buf,
}

unfoldable pub election_fields : (i one two : ℕ) → Manager → Fields
election_fields i one two m =
    (codes "Replica ID", dec i)
    ∷ (codes "Factory Req", dec 1)
    ∷ (codes "REP MODE", dec (mode_code (election_mode m.mode)))
    ∷ (codes "Server State", dec (state_code (election_state m.mode)))
    ∷ (codes "Checkpoint freq", dec_int m.checkpoint_freq)
    ∷ (codes "Replica 1 ID", dec one)
    ∷ (codes "Replica 1 IP", (m.node one).server.server_ip)
    ∷ (codes "Replica 1 Port", dec_int (m.node one).server.port)
    ∷ (codes "Replica 2 ID", dec two)
    ∷ (codes "Replica 2 IP", (m.node two).server.server_ip)
    ∷ (codes "Replica 2 Port", dec_int (m.node two).server.port)
    ∷ []

-- the factory's copy of an election
unfoldable pub elected : (i one two : ℕ) → Manager → FactoryMessage
elected i one two m = record {
  replica_id = pos i;
  bkp_replica_id_1 = pos one;
  bkp_replica_id_2 = pos two;
  req = pos 1;
  mode_rep = pos (mode_code (election_mode m.mode));
  checkpoint_freq = m.checkpoint_freq;
  server_state = pos (state_code (election_state m.mode));
  server_1 = (m.node one).server;
  server_2 = (m.node two).server;
}

own : (i : ℕ) → int_eq (pos i) (pos i) ≡ true
own i = ground arith

-- what the server of the replica elected is sent
unfoldable pub server_text : (one two : ℕ) → Manager → Bytes
server_text one two m =
    request_lines (msg_code msg_rep_mgr)
    ++ (line "REP MODE" (dec (mode_code (election_mode m.mode)))
        ++ (line "Server State" (dec (state_code (election_state m.mode)))
            ++ ((line "Checkpoint freq" (dec_int m.checkpoint_freq)
                  ++ (line "Replica 1 ID" (dec one)
                      ++ (line "Replica 1 IP" (m.node one).server.server_ip
                          ++ (line "Replica 1 Port" (dec_int (m.node one).server.port)
                              ++ (line "Replica 2 ID" (dec two)
                                  ++ (line "Replica 2 IP" (m.node two).server.server_ip
                                      ++ line "Replica 2 Port"
                                          (dec_int (m.node two).server.port)))))))
                ++ crlf)))

pub election_text_lem :
    (i one two : ℕ) (m : Manager)
    → election_text i one two m ≡ text_of (election_fields i one two m)
unfolding election_text text_of field_text election_fields line
election_text_lem i one two m =
    append_assoc (line "Replica ID" (dec i)) (line "Factory Req" (dec 1)) _

pub fill_elected :
    (i one two : ℕ) (m : Manager)
    → (m.mode ≡ 0) ⊎ (m.mode ≡ 1)
    → fill_change_state_buf (elected i one two m) ≡ server_text one two m
unfolding fill_change_state_buf elected server_text dec_int
fill_elected i one two m (inl e) = simp e
fill_elected i one two m (inr e) = simp e

pub command-elected :
    (i one two : ℕ) (m : Manager)
    → length (m.node one).server.server_ip < 1024
    → length (m.node two).server.server_ip < 1024
    → handle_rep_man_command (pos i) (elected i one two m)
      ≡ send (fill_change_state_buf (elected i one two m))
unfolding handle_rep_man_command elected
command-elected i one two m short_1 short_2 =
    let fits_1 : leb 1024 (length (m.node one).server.server_ip) ≡ false =
      ground (arith, short_1) in
    let fits_2 : leb 1024 (length (m.node two).server.server_ip) ≡ false =
      ground (arith, short_2) in
    rw (own i, fits_1, fits_2) (sent (names_backups (elected i one two m)))
  where
    sent :
        (b : Bool)
        → (if b && false then reads_beyond else send (fill_change_state_buf (elected i one two m)))
          ≡ send (fill_change_state_buf (elected i one two m))
    sent true = refl
    sent false = refl

-- the numbers of an election are ones of an `int`
pub mode_int : (k : ℕ) → is_int (pos (mode_code (election_mode k))) ≡ true
mode_int k = ground arith

pub state_int : (k : ℕ) → is_int (pos (state_code (election_state k))) ≡ true
state_int k = ground arith
