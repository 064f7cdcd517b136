-- ===== src/Server/Fields.antt =====
-- The lines of an election that a factory sends (src/factory.c), and the message that a server makes
-- of them (src/server.c).
use to_do_list_public.Common.{
  ℕ, ◌≤◌, ◌≡◌, ap, ◌∙◌, ℤ, pos, [], ◌∷◌, ◌++◌, arith, length, take, append_assoc,
}
use to_do_list_public.Text.{Bytes, codes, dec, dec_int, line, crlf}
use to_do_list_public.State.{mode_code, state_code, RepMode, ServerState}
use to_do_list_public.Storage.{msg_code, msg_rep_mgr}
use to_do_list_public.Protocol.{Fields, field_text, max_req_fields, text_of}
use to_do_list_public.Manager.Data.{Manager, ServerInfo}
use to_do_list_public.Manager.Send.{election_mode, election_state}
use to_do_list_public.Factory.Fields.{server_text}
use to_do_list_public.Server.Parse.{bits, mode_of, state_of, Incoming, init_client_ctx, with_req}
use Prim.Native.String.{String}

unfoldable pub server_fields : (one two : ℕ) → Manager → Fields
server_fields one two m =
    (codes "Client ID", dec 0)
    ∷ (codes "Request No", dec 0)
    ∷ (codes "Message Type", dec (msg_code msg_rep_mgr))
    ∷ (codes "REP MODE", dec (mode_code (election_mode m.mode)))
    ∷ (codes "Server State", dec (state_code (election_state m.mode)))
    ∷ (codes "Checkpoint freq", dec_int m.checkpoint_freq)
    ∷ (codes "Replica 1 ID", dec one)
    ∷ (codes "Replica 1 IP", (m.node one).server.server_ip)
    ∷ (codes "Replica 1 Port", dec_int (m.node one).server.port)
    ∷ (codes "Replica 2 ID", dec two)
    ∷ (codes "Replica 2 IP", (m.node two).server.server_ip)
    ∷ (codes "Replica 2 Port", dec_int (m.node two).server.port)
    ∷ []

assoc_3 : (a b c r : Bytes) → (a ++ (b ++ c)) ++ r ≡ a ++ (b ++ (c ++ r))
assoc_3 a b c r = simp append_assoc

assoc_7 :
    (a b c d e f g r : Bytes)
    → (a ++ (b ++ (c ++ (d ++ (e ++ (f ++ g)))))) ++ r
      ≡ a ++ (b ++ (c ++ (d ++ (e ++ (f ++ (g ++ r))))))
assoc_7 a b c d e f g r = simp append_assoc

pub server_text_lem :
    (one two : ℕ) (m : Manager) → server_text one two m ≡ text_of (server_fields one two m)
unfolding server_text text_of field_text server_fields line
server_text_lem one two m =
    let l : String → Bytes → Bytes = line in
    assoc_3 (l "Client ID" (dec 0)) (l "Request No" (dec 0)) (l "Message Type" (dec 7)) _
    ∙ ap
        (λ us.
          l "Client ID" (dec 0)
          ++ (l "Request No" (dec 0)
              ++ (l "Message Type" (dec 7)
                  ++ (l "REP MODE" (dec (mode_code (election_mode m.mode)))
                      ++ (l "Server State" (dec (state_code (election_state m.mode))) ++ us)))))
        (assoc_7 (l "Checkpoint freq" (dec_int m.checkpoint_freq)) (l "Replica 1 ID" (dec one))
          (l "Replica 1 IP" (m.node one).server.server_ip)
          (l "Replica 1 Port" (dec_int (m.node one).server.port)) (l "Replica 2 ID" (dec two))
          (l "Replica 2 IP" (m.node two).server.server_ip)
          (l "Replica 2 Port" (dec_int (m.node two).server.port)) crlf)

-- the message that the server makes of it, by what it reads of the text
abbrev pub filled :
    ℤ → RepMode → ServerState → ℤ → (one two : ℕ) → (first second : ServerInfo) → Incoming
filled fd mode state freq one two first second =
    let new = init_client_ctx fd in
    record (with_req new (record new.ctx.req { msg_type = msg_rep_mgr })) {
      rep_mgr_msg = record { rep_mode = mode; server_state = state; checkpoint_freq = freq };
      bckup_svr_0 = record { server_id = one; info = first };
      bckup_svr_1 = record { server_id = two; info = second };
    }

-- an address that is cut to the size of its array
abbrev pub cut : ServerInfo → ServerInfo
cut info = record info { server_ip = take 1024 info.server_ip }

unfoldable pub configured : ℤ → (one two : ℕ) → Manager → Incoming
configured fd one two m =
    filled fd (election_mode m.mode) (election_state m.mode) m.checkpoint_freq one two
      (cut (m.node one).server) (cut (m.node two).server)

pub mode_of_lem : (k : ℕ) → mode_of (bits (pos (mode_code (election_mode k)))) ≡ election_mode k
unfolding mode_of
mode_of_lem k = ground arith

pub state_of_lem :
    (k : ℕ) → state_of (bits (pos (state_code (election_state k)))) ≡ election_state k
unfolding state_of
state_of_lem k = ground arith

pub short : (one two : ℕ) (m : Manager) → length (server_fields one two m) ≤ max_req_fields
unfolding server_fields
short one two m = omega arith
