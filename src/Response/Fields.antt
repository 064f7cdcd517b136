-- ===== src/Response/Fields.antt =====
-- The lines of a response, as `write_client_responce` of src/server.c writes them.
use to_do_list_public.Common.{
  ◌≡◌, refl, sym, ap, ◌∙◌, true, false, [], ◌∷◌, ◌++◌, arith, append_assoc, append-[],
  if◌then◌else◌, Bool-cases, inl, inr, ◌==◌,
}
use to_do_list_public.Text.{Bytes, codes, crlf, dec, dec_int, line}
use to_do_list_public.State.{ServerState, state_code}
use to_do_list_public.Storage.{ClientCtx, is_msg, msg_add, msg_heartbeat}
use to_do_list_public.Protocol.{Fields, field_text, is_key_text}
use to_do_list_public.Server.{response_text}
use to_do_list_public.Response.{starts}
use to_do_list_public.Response.Reading.{lines_of}
use Prim.Native.String.{String}

unfoldable pub head_fields : ClientCtx → String → String → Fields → Fields
head_fields ctx status msg rest =
    (codes "Status", codes status)
    ∷ (codes "Client ID", dec_int ctx.client_id)
    ∷ (codes "Request No", dec ctx.req.req_no)
    ∷ (codes "Msg", codes msg)
    ∷ rest

unfoldable pub last_fields : ClientCtx → ServerState → Fields
last_fields ctx state =
    if is_msg ctx.req.msg_type msg_add
    then (codes "Key", dec ctx.req.hash_key) ∷ []
    else (if is_msg ctx.req.msg_type msg_heartbeat
        then (codes "State", dec (state_code state)) ∷ []
        else [])

-- what stands behind the lines: nothing behind the response to a heartbeat
pub ending : ClientCtx → Bytes
ending ctx =
    if is_msg ctx.req.msg_type msg_add
    then crlf
    else (if is_msg ctx.req.msg_type msg_heartbeat then [] else crlf)

unfoldable pub fields : ClientCtx → String → String → ServerState → Fields
unfolding head_fields last_fields
fields ctx status msg state = head_fields ctx status msg (last_fields ctx state)

assoc_4 :
    (a b c d e r : Bytes) → (a ++ (b ++ (c ++ (d ++ e)))) ++ r ≡ a ++ (b ++ (c ++ (d ++ (e ++ r))))
assoc_4 a b c d e r = simp append_assoc

one_line : (key value : Bytes) → lines_of ((key, value) ∷ []) ≡ field_text key value
unfolding lines_of
one_line key value = append-[] (field_text key value)

line_field : (key : String) (value : Bytes) → field_text (codes key) value ≡ line key value
unfolding field_text line
line_field key value = refl

beat_text : (v : Bytes) → codes "State: " ++ (v ++ crlf) ≡ lines_of ((codes "State", v) ∷ []) ++ []
unfolding lines_of field_text
beat_text v =
    sym (append-[] (field_text (codes "State") v ++ []) ∙ append-[] (field_text (codes "State") v))

last_text : ClientCtx → ServerState → Bytes
last_text ctx state =
    if is_msg ctx.req.msg_type msg_add
    then line "Key" (dec ctx.req.hash_key) ++ crlf
    else (if is_msg ctx.req.msg_type msg_heartbeat
        then codes "State: " ++ (dec (state_code state) ++ crlf)
        else crlf)

last_lem :
    (ctx : ClientCtx) (state : ServerState)
    → last_text ctx state ≡ lines_of (last_fields ctx state) ++ ending ctx
unfolding last_text last_fields ending lines_of
last_lem ctx state = elim (Bool-cases (is_msg ctx.req.msg_type msg_add)) [
  | inl add ↦ rw add (
      ap (λ us. us ++ crlf)
        (sym (
          one_line (codes "Key") (dec ctx.req.hash_key) ∙ line_field "Key" (dec ctx.req.hash_key))))
  | inr not_add ↦ elim (Bool-cases (is_msg ctx.req.msg_type msg_heartbeat)) [
    | inl beat ↦ rw not_add (rw beat (beat_text (dec (state_code state))))
    | inr other ↦ rw not_add (rw other refl)
  ]
]

pub text_lem :
    (ctx : ClientCtx) (status msg : String) (state : ServerState)
    → response_text ctx status msg state ≡ lines_of (fields ctx status msg state) ++ ending ctx
unfolding response_text fields head_fields lines_of field_text line last_text
text_lem ctx status msg state =
    ap
      (λ us.
        line "Status" (codes status)
        ++ (line "Client ID" (dec_int ctx.client_id)
            ++ (line "Request No" (dec ctx.req.req_no) ++ (line "Msg" (codes msg) ++ us))))
      (last_lem ctx state)
    ∙ sym (
        assoc_4 (line "Status" (codes status)) (line "Client ID" (dec_int ctx.client_id))
          (line "Request No" (dec ctx.req.req_no)) (line "Msg" (codes msg))
          (lines_of (last_fields ctx state)) (ending ctx))

pub not_empty :
    (key value : Bytes)
    → is_key_text key ≡ true
    → starts key (13 ∷ []) ≡ false
    → starts (field_text key value) crlf ≡ false
unfolding field_text
not_empty [] value k h = absurd (ground (arith, k))
not_empty (b ∷ bs) value k h = let other : (b == 13) ≡ false = ground (arith, h) in rw other refl

pub crlf_end : (ctx : ClientCtx) → is_msg ctx.req.msg_type msg_heartbeat ≡ false → ending ctx ≡ crlf
unfolding ending
crlf_end ctx h = rw h (ground arith)

pub no_end : (ctx : ClientCtx) → is_msg ctx.req.msg_type msg_heartbeat ≡ true → ending ctx ≡ []
unfolding ending
no_end ctx h = ground (arith, h)
