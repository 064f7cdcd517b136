-- ===== src/Response/Laws.antt =====
-- A response from a server (`write_client_responce` of src/server.c) at the process that it is sent to
-- (src/util.c).
use to_do_list_public.Common.{
  ℕ, ◌^◌, ◌≤◌, ◌<◌, ◌≡◌, refl, ap, ◌∙◌, Bool, true, false, pos, some, [], ◌∷◌, ◌++◌, length, arith,
  append_assoc, if◌then◌else◌, ◌&&◌,
}
use to_do_list_public.Text.{Bytes, codes, dec, dec_int}
use to_do_list_public.Text.Bounds.{dec-length}
use to_do_list_public.State.{ServerState, state_code}
use to_do_list_public.Socket.{SockBufRead}
use to_do_list_public.Socket.Reader.{view, IsGood}
use to_do_list_public.Storage.{ClientCtx, is_msg, msg_add, msg_heartbeat}
use to_do_list_public.Protocol.{Fields, field_text, is_int, is_key_text, is_value_text}
use to_do_list_public.Protocol.Lines.{field_text-is_line}
use to_do_list_public.Protocol.Numbers.{int_text, int_length, field_length}
use to_do_list_public.Server.{response_text}
use to_do_list_public.Response.{
  MessageResponse, Conversions, starts, task_length, read_line, got_response, no_response,
  get_response_from_server,
}
use to_do_list_public.Response.Words.{
  is_word, Converts, dec-word, word-value, status_line, msg_line, client_id_line, req_no_line,
  state_line, key_line,
}
use to_do_list_public.Response.Reading.{
  lines_of, Reads, all_read, reads_line, get_response-got, get_response-ended,
}
use Prim.Native.String.{String}
use to_do_list_public.Response.Fields.{
  head_fields, last_fields, ending, fields, text_lem, not_empty, crlf_end, no_end,
}

-- what the process has afterwards
unfoldable pub told : ClientCtx → String → ServerState → MessageResponse → MessageResponse
told ctx status state r = record {
  hash_key = if is_msg ctx.req.msg_type msg_add then ctx.req.hash_key else r.hash_key;
  client_id = ctx.client_id;
  status = codes status;
  req_no = pos ctx.req.req_no;
  state = if is_msg ctx.req.msg_type msg_heartbeat then state else r.state;
}

-- a line of a response, with one of its labels
label_read :
    (c : Conversions) (r r' s : MessageResponse) (key value : Bytes) (rest : Fields)
    → is_key_text key ≡ true
    → starts key (13 ∷ []) ≡ false
    → length key ≤ 1000
    → is_value_text value ≡ true
    → length value ≤ 2000
    → read_line c (field_text key value) r ≡ some r'
    → Reads c r' rest s
    → Reads c r ((key, value) ∷ rest) s
label_read c r r' s key value rest k st le v lv e h =
    reads_line r r' s key value rest (field_text-is_line key value k v)
      (omega (arith, field_length key value, le, lv)) (not_empty key value k st) e h

module _ (c : Conversions) (converts : Converts c) (ctx : ClientCtx) (status msg : String)
    (state : ServerState) (r : MessageResponse) (word : is_word (codes status) ≡ true)
    (short : length (codes status) < task_length) (value : is_value_text (codes msg) ≡ true)
    (short_msg : length (codes msg) ≤ 2000) (int_id : is_int ctx.client_id ≡ true)
    (int_no : is_int (pos ctx.req.req_no) ≡ true) where
  headed : MessageResponse
  headed = record r {
    status = codes status;
    client_id = ctx.client_id;
    req_no = pos ctx.req.req_no;
  }

  head_read :
      (s : MessageResponse) (rest : Fields)
      → Reads c headed rest s
      → Reads c r (head_fields ctx status msg rest) s
  unfolding headed head_fields dec_int
  head_read s rest h =
      let r1 = record r { status = codes status } in
      let r2 = record r1 { client_id = ctx.client_id } in
      let r3 = record r2 { req_no = pos ctx.req.req_no } in
      label_read c r r1 s (codes "Status") (codes status) _ refl refl (omega arith)
        (word-value (codes status) word) (omega (arith, short))
        (status_line c converts r (codes status) word short)
        (label_read c r1 r2 s (codes "Client ID") (dec_int ctx.client_id) _ refl refl (omega arith)
          (int_text ctx.client_id) (omega (arith, int_length ctx.client_id int_id))
          (client_id_line c converts r1 ctx.client_id int_id)
          (label_read c r2 r3 s (codes "Request No") (dec_int (pos ctx.req.req_no)) _ refl refl
            (omega arith) (int_text (pos ctx.req.req_no))
            (omega (arith, int_length (pos ctx.req.req_no) int_no))
            (req_no_line c converts r2 (pos ctx.req.req_no) int_no)
            (label_read c r3 r3 s (codes "Msg") (codes msg) rest refl refl (omega arith) value
              short_msg (msg_line c converts r3 (codes msg)) h)))

  module _ (int_state : is_int (pos (state_code state)) ≡ true)
      (long_key : ctx.req.hash_key < 2 ^ 64) where
    tail_read :
        (add beat : Bool)
        → add && beat ≡ false
        → Reads c headed
            (if add
              then (codes "Key", dec ctx.req.hash_key) ∷ []
              else (if beat then (codes "State", dec (state_code state)) ∷ [] else []))
            (record headed {
              hash_key = if add then ctx.req.hash_key else r.hash_key;
              state = if beat then state else r.state;
            })
    unfolding headed dec_int
    tail_read true true h = absurd (ground (arith, h))
    tail_read true false h =
        label_read c _ _ _ (codes "Key") (dec ctx.req.hash_key) [] refl refl (omega arith)
          (word-value (dec ctx.req.hash_key) (dec-word ctx.req.hash_key))
          (omega (arith, dec-length 19 ctx.req.hash_key (omega (arith, long_key))))
          (key_line c converts headed ctx.req.hash_key long_key) (all_read _)
    tail_read false true h =
        label_read c _ _ _ (codes "State") (dec_int (pos (state_code state))) [] refl refl
          (omega arith) (int_text (pos (state_code state)))
          (omega (arith, int_length (pos (state_code state)) int_state))
          (state_line c converts headed state int_state) (all_read _)
    tail_read false false h = all_read headed

    lines_read : Reads c r (fields ctx status msg state) (told ctx status state r)
    unfolding fields last_fields told headed
    lines_read = head_read (told ctx status state r) (last_fields ctx state) (
        tail_read (is_msg ctx.req.msg_type msg_add) (is_msg ctx.req.msg_type msg_heartbeat)
          (ground arith))

    few : length (fields ctx status msg state) ≤ 5
    unfolding fields head_fields last_fields
    few = ground arith

    -- The text of a response to any request but a heartbeat, read whole by the process that it is for,
    -- whatever follows it and however it arrives: the call returns 0, and the process has the status,
    -- the client's identifier and the request's number, and after an addition the key. Six rounds of
    -- the loop are enough. The status is a word of less than 1024 bytes, the message a text of at
    -- most 2000 bytes that `sscanf` can read, the numbers are in the range of their types, and `sscanf`, `atoi` and
    -- `strtoul` read what is printed.
    pub get_response-write :
        (fuel : ℕ) (q : SockBufRead) (rest : Bytes)
        → is_msg ctx.req.msg_type msg_heartbeat ≡ false
        → 5 < fuel
        → IsGood q
        → view q ≡ response_text ctx status msg state ++ rest
        → get_response_from_server c fuel q r ≡ got_response (told ctx status state r)
    get_response-write fuel q rest other enough g e =
        get_response-got c fuel q r (told ctx status state r) (fields ctx status msg state) rest g
          (e
            ∙ ap (λ us. us ++ rest) (text_lem ctx status msg state)
            ∙ append_assoc (lines_of (fields ctx status msg state)) (ending ctx) rest
            ∙ ap (λ us. lines_of (fields ctx status msg state) ++ (us ++ rest))
                (crlf_end ctx other))
          lines_read (omega (arith, few, enough))

    -- The response to a heartbeat has no empty line at its end. At the end of the file the call returns -1
    -- although it has read all of it: the process has the status, the client's identifier, the
    -- request's number and the server's state. The status is a word of less than 1024
    -- bytes, the message a text of at most 2000 bytes that `sscanf` can read, the numbers are in the
    -- range of their types, and `sscanf`, `atoi` and `strtoul` read what is printed.
    pub get_response-heartbeat :
        (fuel : ℕ) (q : SockBufRead)
        → is_msg ctx.req.msg_type msg_heartbeat ≡ true
        → 5 < fuel
        → IsGood q
        → view q ≡ response_text ctx status msg state
        → get_response_from_server c fuel q r ≡ no_response (told ctx status state r)
    get_response-heartbeat fuel q beat enough g e =
        get_response-ended c fuel q r (told ctx status state r) (fields ctx status msg state) g
          (e
            ∙ text_lem ctx status msg state
            ∙ ap (λ us. lines_of (fields ctx status msg state) ++ us) (no_end ctx beat))
          lines_read (omega (arith, few, enough))
