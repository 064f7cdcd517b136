-- ===== src/Protocol/Receive.antt =====
-- What the loop over the lines of a message makes of the text of some fields.
use to_do_list_public.Common.{
  ℕ, zero, suc, ◌≤◌, ◌≡◌, refl, sym, ap, ◌∙◌, true, some, [], ◌∷◌, ◌++◌, leb, length, take, ◌<◌,
  arith, subst,
}
use to_do_list_public.Text.{Bytes}
use to_do_list_public.Socket.{SockBufRead}
use to_do_list_public.Socket.Reader.{view, IsGood}
use to_do_list_public.Protocol.{
  Fields, field_text, text_of, Scan, Scans, is_key_text, Parsed, accepts, refuses, max_msg_size,
  empty, text, next_line, Received, complete, too_many, refused, read_fields, parse_fields,
}
use Prim.Native.String.{String}
use to_do_list_public.Protocol.Lines.{
  and_left, and_right, field_text-long, line_of-text, is_field, are_fields, Next, next_field,
  next_empty, text_of-cons, text_of-nil,
}

accepted : {A : Type 0} → A → Parsed A → A
accepted d (accepts a) = a
accepted d (refuses why a) = d

inside : {A : Type 0} {a b : A} → accepts a ≡ accepts b → a ≡ b
unfolding accepted
inside {A} {a} {b} e = ap (accepted a) e

-- How the loop ends on the text of some fields, by what the handler makes of the fields.
abbrev pub Ends : {A : Type 0} → Bytes → Parsed A → Received A → Type 0
Ends rest (accepts a) o = (r : SockBufRead) × ((o ≡ complete a r) × ((view r ≡ rest) × IsGood r))
Ends rest (refuses why a) o = o ≡ refused why a

-- one field of a message that the handler accepts, and the fields behind it
module _ {A : Type 0} (parse : A → Bytes × Bytes → Parsed A) where
  pub parse_fields-step :
      (a a' : A) (field : Bytes × Bytes) (rest : Fields) (r : Parsed A)
      → parse a field ≡ accepts a'
      → parse_fields parse a' rest ≡ r
      → parse_fields parse a (field ∷ rest) ≡ r
  unfolding parse_fields
  parse_fields-step a a' field rest r e f = rw (parse_fields, e) f

  pub parse_fields-nil : (a : A) → parse_fields parse a [] ≡ accepts a
  unfolding parse_fields
  parse_fields-nil a = refl

module _ {A : Type 0} (scan : Scan) (parse : A → Bytes × Bytes → Parsed A) where
  read_complete :
      (n : ℕ) (r r' : SockBufRead) (a : A)
      → next_line r ≡ empty r'
      → read_fields scan parse n r a ≡ complete a r'
  unfolding read_fields
  read_complete zero r r' a e = rw (read_fields, e) refl
  read_complete (suc n) r r' a e = rw (read_fields, e) refl

  -- what the loop does with a line that it has read, and with the field that it is
  module _ (n : ℕ) (r r' : SockBufRead) (a : A) where
    module _ (line : Bytes) (field : Bytes × Bytes) (e : next_line r ≡ text line r') where
      read_too_many : read_fields scan parse 0 r a ≡ too_many a
      unfolding read_fields
      read_too_many = rw (read_fields, e) refl

      module _ (s : scan line ≡ some field) where
        read_accepts :
            (a' : A)
            → parse a field ≡ accepts a'
            → read_fields scan parse (suc n) r a ≡ read_fields scan parse n r' a'
        unfolding read_fields
        read_accepts a' p = rw (read_fields, e, s, p) refl

        read_refuses :
            (why : String) (a' : A)
            → parse a field ≡ refuses why a'
            → read_fields scan parse (suc n) r a ≡ refused why a'
        unfolding read_fields
        read_refuses why a' p = rw (read_fields, e, s, p) refl

  parse_step :
      (a a' : A) (field : Bytes × Bytes) (fields : Fields)
      → parse a field ≡ accepts a'
      → parse_fields parse a (field ∷ fields) ≡ parse_fields parse a' fields
  unfolding parse_fields
  parse_step a a' field fields p = rw (parse_fields, p) refl

  parse_refused :
      (a a' : A) (why : String) (field : Bytes × Bytes) (fields : Fields)
      → parse a field ≡ refuses why a'
      → parse_fields parse a (field ∷ fields) ≡ refuses why a'
  unfolding parse_fields
  parse_refused a a' why field fields p = rw (parse_fields, p) refl

  module _ (scans : Scans scan) where
    scan_field :
        (key value : Bytes)
        → is_field (key, value) ≡ true
        → scan (field_text key value) ≡ some (key, value)
    scan_field key value f = scans key value (and_left _ _ f) (
        and_left _ (leb (length (field_text key value)) max_msg_size)
          (and_right (is_key_text key) _ f))

    -- one field of a text
    field_step :
        (n : ℕ) (r : SockBufRead) (a : A) (key value : Bytes) (fields : Fields) (rest : Bytes)
        (o : Parsed A)
        → Next r (field_text key value) (text_of fields ++ rest)
        → is_field (key, value) ≡ true
        → parse a (key, value) ≡ o
        → ((q : SockBufRead) (b : A)
            → IsGood q
            → view q ≡ text_of fields ++ rest
            → Ends rest (parse_fields parse b fields) (read_fields scan parse n q b))
        → Ends rest
            (parse_fields parse a ((key, value) ∷ fields))
            (read_fields scan parse (suc n) r a)
    field_step n r a key value fields rest (refuses why a') next f p ih =
        let run =
          next.run ∙ line_of-text (field_text key value) next.reader (field_text-long key value) in
        subst (λ x. Ends rest x (read_fields scan parse (suc n) r a))
          (sym (parse_refused a a' why (key, value) fields p))
          (read_refuses n r next.reader a (field_text key value) (key, value) run
            (scan_field key value f) why a' p)
    field_step n r a key value fields rest (accepts a') next f p ih =
        let run =
          next.run ∙ line_of-text (field_text key value) next.reader (field_text-long key value) in
        subst (λ x. Ends rest x (read_fields scan parse (suc n) r a))
          (sym (parse_step a a' (key, value) fields p))
          (subst (Ends rest (parse_fields parse a' fields))
            (sym (
              read_accepts n r next.reader a (field_text key value) (key, value) run
                (scan_field key value f) a' p))
            (ih next.reader a' next.good next.others))

    -- Where the bytes to come are the text of at most `n` fields, an empty line and `rest`, the loop
    -- ends as the handler does on the fields in their order: with its refusal, or complete, with
    -- `rest` still to be read.
    pub read_fields-Ends :
        (n : ℕ) (r : SockBufRead) (a : A) (fields : Fields) (rest : Bytes)
        → IsGood r
        → view r ≡ text_of fields ++ rest
        → are_fields fields ≡ true
        → length fields ≤ n
        → Ends rest (parse_fields parse a fields) (read_fields scan parse n r a)
    unfolding parse_fields
    read_fields-Ends n r a [] rest g e f le =
        let next = next_empty r rest g (e ∙ text_of-nil rest) in
        (next.reader, (read_complete n r next.reader a next.run, (next.others, next.good)))
    read_fields-Ends zero r a (field ∷ fields) rest g e f le = absurd (omega (arith, le))
    read_fields-Ends (suc n) r a ((key, value) ∷ fields) rest g e f le =
        let first : is_field (key, value) ≡ true = and_left _ (are_fields fields) f in
        field_step n r a key value fields rest (parse a (key, value))
          (next_field r key value (text_of fields ++ rest) g
            (e ∙ text_of-cons key value fields rest) first)
          first refl
          (λ q b gq eq.
            read_fields-Ends n q b fields rest gq eq (and_right (is_field (key, value)) _ f)
              (omega (arith, le)))

    -- the first field of a text and the loop behind it, where the handler accepts it
    accept_step :
        (n : ℕ) (r : SockBufRead) (a : A) (key value : Bytes) (fields : Fields) (rest : Bytes)
        (o : Parsed A) (b : A) (out : Received A)
        → Next r (field_text key value) (text_of fields ++ rest)
        → is_field (key, value) ≡ true
        → parse a (key, value) ≡ o
        → parse_fields parse a ((key, value) ∷ take n fields) ≡ accepts b
        → ((q : SockBufRead) (a' : A)
            → IsGood q
            → view q ≡ text_of fields ++ rest
            → parse_fields parse a' (take n fields) ≡ accepts b
            → read_fields scan parse n q a' ≡ out)
        → read_fields scan parse (suc n) r a ≡ out
    accept_step n r a key value fields rest (refuses why a') b out next f p h ih =
        absurd (cc (h, parse_refused a a' why (key, value) (take n fields) p))
    accept_step n r a key value fields rest (accepts a') b out next f p h ih =
        let run =
          next.run ∙ line_of-text (field_text key value) next.reader (field_text-long key value) in
        read_accepts n r next.reader a (field_text key value) (key, value) run
          (scan_field key value f) a' p
        ∙ ih next.reader a' next.good next.others
            (sym (parse_step a a' (key, value) (take n fields) p) ∙ h)

    -- Where the bytes to come are the text of more than `n` fields, of which the handler accepts the
    -- first `n`, the loop ends with too many fields and what the handler made of those.
    pub read_fields-too_many :
        (n : ℕ) (r : SockBufRead) (a b : A) (fields : Fields) (rest : Bytes)
        → IsGood r
        → view r ≡ text_of fields ++ rest
        → are_fields fields ≡ true
        → n < length fields
        → parse_fields parse a (take n fields) ≡ accepts b
        → read_fields scan parse n r a ≡ too_many b
    unfolding parse_fields
    read_fields-too_many n r a b [] rest g e f lt h = absurd (omega (arith, lt))
    read_fields-too_many zero r a b ((key, value) ∷ fields) rest g e f lt h =
        let first : is_field (key, value) ≡ true = and_left _ (are_fields fields) f in
        let next =
          next_field r key value (text_of fields ++ rest) g (e ∙ text_of-cons key value fields rest)
            first in
        read_too_many 0 r next.reader a (field_text key value) (key, value)
          (next.run ∙ line_of-text (field_text key value) next.reader (field_text-long key value))
        ∙ ap too_many (inside h)
    read_fields-too_many (suc n) r a b ((key, value) ∷ fields) rest g e f lt h =
        let first : is_field (key, value) ≡ true = and_left _ (are_fields fields) f in
        accept_step n r a key value fields rest (parse a (key, value)) b (too_many b)
          (next_field r key value (text_of fields ++ rest) g
            (e ∙ text_of-cons key value fields rest) first)
          first refl h
          (λ q a' gq eq h'.
            read_fields-too_many n q a' b fields rest gq eq (and_right (is_field (key, value)) _ f)
              (omega (arith, lt)) h')
