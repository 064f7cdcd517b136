-- ===== src/Protocol/Lines.antt =====
-- The lines that `sock_readline` (src/util.c) reads of the text of some fields.
use to_do_list_public.Common.{
  ℕ, zero, suc, ◌≤◌, ◌==◌, ◌≡◌, refl, ap, ◌∙◌, Bool, true, false, not, ◌&&◌, some, [], ◌∷◌, ◌++◌,
  leb, length, arith, append_assoc, length-append,
}
use to_do_list_public.Text.{Bytes, codes, crlf}
use to_do_list_public.Socket.{SockBufRead}
use to_do_list_public.Socket.Reader.{view, IsGood}
use to_do_list_public.Socket.Lines.{first_line, after_line, sock_readline-ReadsLine}
use to_do_list_public.Protocol.{
  Fields, field_text, text_of, all_of, is_key_byte, is_value_byte, is_key_text, is_value_text,
  max_msg_size, text, line_of, next_line,
}

-- a text that ends with its only newline
abbrev pub is_line : Bytes → Bool
is_line [] = false
is_line (c ∷ []) = c == 10
is_line (c ∷ b ∷ cs) = not (c == 10) && is_line (b ∷ cs)

abbrev no_newline : ℕ → Bool
no_newline c = not (c == 10)

pub and_left : (a b : Bool) → a && b ≡ true → a ≡ true
and_left a b h = ground (arith, h)

pub and_right : (a b : Bool) → a && b ≡ true → b ≡ true
and_right a b h = ground (arith, h)

pub line-append :
    (n : ℕ) (xs ys : Bytes)
    → is_line xs ≡ true
    → length xs ≤ n
    → (first_line n (xs ++ ys) ≡ xs) × (after_line n (xs ++ ys) ≡ ys)
line-append n [] ys h le = absurd (ground (arith, h))
line-append zero (c ∷ cs) ys h le = absurd (omega (arith, le))
line-append (suc n) (c ∷ []) ys h le = rw h (refl, refl)
line-append (suc n) (c ∷ b ∷ cs) ys h le =
    let other : (c == 10) ≡ false = ground (arith, h) in
    let ih = line-append n (b ∷ cs) ys (and_right _ _ h) (omega (arith, le)) in
    rw other (ap (λ us. c ∷ us) ih.0, ih.1)

is_line-append :
    (xs ys : Bytes) → all_of no_newline xs ≡ true → is_line ys ≡ true → is_line (xs ++ ys) ≡ true
is_line-append [] ys p h = h
is_line-append (x ∷ []) [] p h = absurd (ground (arith, h))
is_line-append (x ∷ []) (y ∷ ys) p h = rw (and_left (no_newline x) true p) h
is_line-append (x ∷ z ∷ xs) ys p h =
    rw (and_left (no_newline x) (all_of no_newline (z ∷ xs)) p)
      (is_line-append (z ∷ xs) ys (and_right (no_newline x) (all_of no_newline (z ∷ xs)) p) h)

all_of-weaken :
    (p q : ℕ → Bool)
    → ((c : ℕ) → p c ≡ true → q c ≡ true)
    → (xs : Bytes) → all_of p xs ≡ true
    → all_of q xs ≡ true
all_of-weaken p q f [] h = refl
all_of-weaken p q f (x ∷ xs) h =
    rw (f x (and_left _ _ h)) (all_of-weaken p q f xs (and_right _ _ h))

key_no_newline : (key : Bytes) → is_key_text key ≡ true → all_of no_newline key ≡ true
key_no_newline [] h = refl
key_no_newline (c ∷ cs) h =
    all_of-weaken is_key_byte no_newline (λ b e. ground (arith, e)) (c ∷ cs) h

value_no_newline : (value : Bytes) → is_value_text value ≡ true → all_of no_newline value ≡ true
value_no_newline [] h = refl
value_no_newline (c ∷ cs) h =
    all_of-weaken is_value_byte no_newline (λ b e. ground (arith, e)) (c ∷ cs) (and_right _ _ h)

pub field_text-is_line :
    (key value : Bytes)
    → is_key_text key ≡ true
    → is_value_text value ≡ true
    → is_line (field_text key value) ≡ true
unfolding field_text
field_text-is_line key value k v = is_line-append key _ (key_no_newline key k) (
    is_line-append (codes ": ") (value ++ crlf) refl
      (is_line-append value crlf (value_no_newline value v) refl))

pub field_text-long : (key value : Bytes) → 3 ≤ length (field_text key value)
unfolding field_text
field_text-long key value =
    omega (arith, length-append key (codes ": " ++ (value ++ crlf)), length-append value crlf)

pub line_of-text :
    (xs : Bytes) (r : SockBufRead) → 3 ≤ length xs → line_of (some (xs, r)) ≡ text xs r
line_of-text [] r h = absurd (omega (arith, h))
line_of-text (a ∷ []) r h = absurd (omega (arith, h))
line_of-text (a ∷ b ∷ []) r h = absurd (omega (arith, h))
line_of-text (a ∷ b ∷ c ∷ cs) r h = refl

-- The fields whose lines are read back: a line is not longer than the buffer that it is read into.
abbrev pub is_field : Bytes × Bytes → Bool
is_field (key, value) =
    is_key_text key && (is_value_text value && leb (length (field_text key value)) max_msg_size)

abbrev pub are_fields : Fields → Bool
are_fields [] = true
are_fields (field ∷ rest) = is_field field && are_fields rest

-- the line that is read from bytes to come that begin with one
pub record Next (r : SockBufRead) (xs rest : Bytes) : Type 0 where
  pub reader : SockBufRead
  pub run : next_line r ≡ line_of (some (xs, reader))
  pub others : view reader ≡ rest
  pub good : IsGood reader

pub next_line-Next :
    (r : SockBufRead) (xs rest : Bytes)
    → IsGood r
    → view r ≡ xs ++ rest
    → is_line xs ≡ true
    → length xs ≤ max_msg_size
    → Next r xs rest
unfolding next_line
next_line-Next r xs rest g e l le =
    let h = sock_readline-ReadsLine max_msg_size r g in
    let p = line-append max_msg_size xs rest l le in
    record {
      reader = h.rest;
      run =
          ap line_of (h.run ∙ ap (λ us. some (us, h.rest)) (ap (first_line max_msg_size) e ∙ p.0));
      others = h.others ∙ ap (after_line max_msg_size) e ∙ p.1;
      good = h.good;
    }

pub next_field :
    (r : SockBufRead) (key value rest : Bytes)
    → IsGood r
    → view r ≡ field_text key value ++ rest
    → is_field (key, value) ≡ true
    → Next r (field_text key value) rest
next_field r key value rest g e f =
    let short = leb (length (field_text key value)) max_msg_size in
    let k : is_key_text key ≡ true = and_left _ _ f in
    let v : is_value_text value ≡ true = and_left _ short (and_right (is_key_text key) _ f) in
    let le : short ≡ true = and_right (is_value_text value) _ (and_right (is_key_text key) _ f) in
    next_line-Next r (field_text key value) rest g e (field_text-is_line key value k v)
      (ground (arith, le))

pub next_empty :
    (r : SockBufRead) (rest : Bytes) → IsGood r → view r ≡ crlf ++ rest → Next r crlf rest
next_empty r rest g e = next_line-Next r crlf rest g e refl (omega arith)

pub text_of-cons :
    (key value : Bytes) (fields : Fields) (rest : Bytes)
    → text_of ((key, value) ∷ fields) ++ rest ≡ field_text key value ++ (text_of fields ++ rest)
unfolding text_of
text_of-cons key value fields rest = append_assoc (field_text key value) (text_of fields) rest

pub text_of-nil : (rest : Bytes) → text_of [] ++ rest ≡ crlf ++ rest
unfolding text_of
text_of-nil rest = refl
