-- ===== src/Response/Reading.antt =====
-- `get_response_from_server` (src/util.c) on the lines of a response.
use to_do_list_public.Common.{
  ℕ, zero, suc, ◌≤◌, ◌<◌, ◌≡◌, refl, ap, ◌∙◌, true, false, some, [], ◌∷◌, ◌++◌, length, arith,
  append_assoc,
}
use to_do_list_public.Text.{Bytes, crlf}
use to_do_list_public.Socket.{SockBufRead, sock_readline}
use to_do_list_public.Socket.Reader.{view, IsGood}
use to_do_list_public.Socket.Lines.{first_line, after_line, sock_readline-ReadsLine}
use to_do_list_public.Protocol.{Fields, field_text}
use to_do_list_public.Protocol.Lines.{is_line, line-append}
use to_do_list_public.Server.{max_length}
use to_do_list_public.Response.{
  MessageResponse, Conversions, starts, read_line, got_response, no_response,
  get_response_from_server,
}

-- the lines of some fields
unfoldable pub lines_of : Fields → Bytes
lines_of [] = []
lines_of ((key, value) ∷ rest) = field_text key value ++ lines_of rest

-- lines that can be read, and what they change
pub data Reads (c : Conversions) : MessageResponse → Fields → MessageResponse → Type 0 where
  all_read : (r : MessageResponse) → Reads c r [] r
  reads_line :
      (r r' s : MessageResponse) (key value : Bytes) (rest : Fields)
      → is_line (field_text key value) ≡ true
      → length (field_text key value) ≤ max_length
      → starts (field_text key value) crlf ≡ false
      → read_line c (field_text key value) r ≡ some r'
      → Reads c r' rest s
      → Reads c r ((key, value) ∷ rest) s

module _ (c : Conversions) (fuel : ℕ) (q q' : SockBufRead) (r : MessageResponse) where
  at_end :
      sock_readline max_length q ≡ some ([], q')
      → get_response_from_server c (suc fuel) q r ≡ no_response r
  unfolding get_response_from_server
  at_end e = rw (get_response_from_server, e) refl

  at_empty :
      sock_readline max_length q ≡ some (crlf, q')
      → get_response_from_server c (suc fuel) q r ≡ got_response r
  unfolding get_response_from_server
  at_empty e = rw (get_response_from_server, e) refl

  at_line :
      (line : Bytes) (r' : MessageResponse)
      → sock_readline max_length q ≡ some (line, q')
      → is_line line ≡ true
      → starts line crlf ≡ false
      → read_line c line r ≡ some r'
      → get_response_from_server c (suc fuel) q r ≡ get_response_from_server c fuel q' r'
  unfolding get_response_from_server
  at_line [] r' e l s p = absurd (ground (arith, l))
  at_line (b ∷ bs) r' e l s p =
      rw (get_response_from_server, e) (rw s (rw (get_response_from_server, p) refl))

lines_of-cons :
    (key value : Bytes) (fields : Fields) (rest : Bytes)
    → lines_of ((key, value) ∷ fields) ++ rest ≡ field_text key value ++ (lines_of fields ++ rest)
unfolding lines_of
lines_of-cons key value fields rest = append_assoc (field_text key value) (lines_of fields) rest

lines_of-nil : (rest : Bytes) → lines_of [] ++ rest ≡ rest
unfolding lines_of
lines_of-nil rest = refl

-- the line that is read of bytes to come that begin with one
record Next (q : SockBufRead) (xs rest : Bytes) : Type 0 where
  reader : SockBufRead
  run : sock_readline max_length q ≡ some (xs, reader)
  others : view reader ≡ rest
  good : IsGood reader

next :
    (q : SockBufRead) (xs rest : Bytes)
    → IsGood q
    → view q ≡ xs ++ rest
    → is_line xs ≡ true
    → length xs ≤ max_length
    → Next q xs rest
next q xs rest g e l le =
    let h = sock_readline-ReadsLine max_length q g in
    let p = line-append max_length xs rest l le in
    record {
      reader = h.rest;
      run = h.run ∙ ap (λ us. some (us, h.rest)) (ap (first_line max_length) e ∙ p.0);
      others = h.others ∙ ap (after_line max_length) e ∙ p.1;
      good = h.good;
    }

module _ (c : Conversions) where
  -- A response with its empty line is read whole, whatever follows it, and 0 returned.
  pub get_response-got :
      (fuel : ℕ) (q : SockBufRead) (r s : MessageResponse) (fields : Fields) (rest : Bytes)
      → IsGood q
      → view q ≡ lines_of fields ++ (crlf ++ rest)
      → Reads c r fields s
      → length fields < fuel
      → get_response_from_server c fuel q r ≡ got_response s
  get_response-got zero q r s fields rest g e h lt = absurd (omega (arith, lt))
  get_response-got (suc fuel) q r r2 [] rest g e (all_read r1) lt =
      let n = next q crlf rest g (e ∙ lines_of-nil (crlf ++ rest)) refl (omega arith) in
      at_empty c fuel q n.reader r n.run
  get_response-got (suc fuel) q r s ((key, value) ∷ fields) rest g e
        (reads_line r0 r' s0 k v fs l le st p h) lt =
      let n =
        next q (field_text key value) (lines_of fields ++ (crlf ++ rest)) g
          (e ∙ lines_of-cons key value fields (crlf ++ rest)) l le in
      at_line c fuel q n.reader r (field_text key value) r' n.run l st p
      ∙ get_response-got fuel n.reader r' s fields rest n.good n.others h (omega (arith, lt))

  -- The lines of a response that ends with the file, without an empty line, are read as well, but -1 is
  -- returned.
  pub get_response-ended :
      (fuel : ℕ) (q : SockBufRead) (r s : MessageResponse) (fields : Fields)
      → IsGood q
      → view q ≡ lines_of fields ++ []
      → Reads c r fields s
      → length fields < fuel
      → get_response_from_server c fuel q r ≡ no_response s
  get_response-ended zero q r s fields g e h lt = absurd (omega (arith, lt))
  get_response-ended (suc fuel) q r r2 [] g e (all_read r1) lt =
      let h = sock_readline-ReadsLine max_length q g in
      at_end c fuel q h.rest r
        (h.run ∙ ap (λ us. some (us, h.rest)) (ap (first_line max_length) (e ∙ lines_of-nil [])))
  get_response-ended (suc fuel) q r s ((key, value) ∷ fields) g e
        (reads_line r0 r' s0 k v fs l le st p h) lt =
      let n =
        next q (field_text key value) (lines_of fields ++ []) g
          (e ∙ lines_of-cons key value fields []) l le in
      at_line c fuel q n.reader r (field_text key value) r' n.run l st p
      ∙ get_response-ended fuel n.reader r' s fields n.good n.others h (omega (arith, lt))
