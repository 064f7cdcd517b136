-- ===== src/Response/Words.antt =====
-- One line of a response: what `read_line`, the body of the loop of `get_response_from_server`
-- (src/util.c), makes of it.
use to_do_list_public.Common.{
  ℕ, ◌+◌, ◌%◌, ◌^◌, ◌<◌, ◌≡◌, refl, ap, ◌∙◌, Bool, true, false, not, ◌&&◌, ◌==◌, ltb, ℤ, pos,
  negsuc, some, [], ◌∷◌, length, arith,
}
use to_do_list_public.Text.{Bytes, codes, dec, dec_int}
use to_do_list_public.Text.Bounds.{is_digit, all_digits, dec-all, dec-length, dec-positive}
use to_do_list_public.State.{ServerState, state_code}
use to_do_list_public.Protocol.{
  field_text, is_int, all_of, is_key_text, is_value_text, is_value_byte, is_blank,
}
use to_do_list_public.Protocol.Numbers.{int_length}
use to_do_list_public.Protocol.Lines.{and_left, and_right}
use to_do_list_public.Server.Parse.{bits, state_of}
use to_do_list_public.Response.{MessageResponse, Conversions, task_length, read_line}

-- a word, which `%s` reads
abbrev pub is_word_byte : ℕ → Bool
is_word_byte c = not (is_blank c) && not (c == 0)

abbrev pub is_word : Bytes → Bool
is_word [] = false
is_word (c ∷ cs) = all_of is_word_byte (c ∷ cs)

-- `sscanf` assigns the word behind the label, and the other two read what is printed.
pub record Converts (c : Conversions) : Type 0 where
  pub scans :
      (label word : Bytes)
      → is_key_text label ≡ true
      → is_word word ≡ true
      → c.scan_string label (field_text label word) ≡ some word
  pub ints : (z : ℤ) → is_int z ≡ true → c.atoi (dec_int z) ≡ z
  pub longs : (n : ℕ) → n < 2 ^ 64 → c.strtoul (dec n) ≡ n

digits_word : (cs : Bytes) → all_digits cs ≡ true → all_of is_word_byte cs ≡ true
digits_word [] h = refl
digits_word (c ∷ cs) h =
    let byte : is_word_byte c ≡ true = ground (arith, and_left (is_digit c) (all_digits cs) h) in
    rw byte (digits_word cs (and_right (is_digit c) (all_digits cs) h))

dec_from : (cs : Bytes) → 0 < length cs → all_digits cs ≡ true → is_word cs ≡ true
dec_from [] lt h = absurd (omega (arith, lt))
dec_from (c ∷ cs) lt h = digits_word (c ∷ cs) h

pub dec-word : (n : ℕ) → is_word (dec n) ≡ true
dec-word n = dec_from (dec n) (dec-positive n) (dec-all n)

pub int-word : (z : ℤ) → is_word (dec_int z) ≡ true
unfolding dec_int
int-word (pos n) = dec-word n
int-word (negsuc n) = digits_word (dec (n + 1)) (dec-all (n + 1))

word_values : (cs : Bytes) → all_of is_word_byte cs ≡ true → all_of is_value_byte cs ≡ true
word_values [] h = refl
word_values (c ∷ cs) h =
    let byte : is_value_byte c ≡ true =
      ground (arith, and_left (is_word_byte c) (all_of is_word_byte cs) h) in
    rw byte (word_values cs (and_right (is_word_byte c) (all_of is_word_byte cs) h))

pub word-value : (w : Bytes) → is_word w ≡ true → is_value_text w ≡ true
word-value [] h = h
word-value (c ∷ cs) h =
    let first : not (is_blank c) ≡ true =
      ground (arith, and_left (is_word_byte c) (all_of is_word_byte cs) h) in
    rw first (word_values (c ∷ cs) h)

pub state_of-code : (s : ServerState) → state_of (state_code s) ≡ s
unfolding state_of
state_of-code s = ground arith

module _ (c : Conversions) (k : Converts c) (r : MessageResponse) where
  pub status_line :
      (w : Bytes)
      → is_word w ≡ true
      → length w < task_length
      → read_line c (field_text (codes "Status") w) r ≡ some (record r { status = w })
  unfolding read_line field_text
  status_line w h lt =
      let fits : ltb (length w) task_length ≡ true = ground (arith, lt) in
      rw (k.scans (codes "Status") w refl h) (rw fits refl)

  pub msg_line : (w : Bytes) → read_line c (field_text (codes "Msg") w) r ≡ some r
  unfolding read_line field_text
  msg_line w = refl

  module _ (z : ℤ) (h : is_int z ≡ true) where
    short_int : ltb (length (dec_int z)) task_length ≡ true
    short_int = ground (arith, int_length z h)

    pub client_id_line :
        read_line c (field_text (codes "Client ID") (dec_int z)) r
        ≡ some (record r { client_id = z })
    unfolding read_line field_text
    client_id_line =
        rw (k.scans (codes "Client ID") (dec_int z) refl (int-word z))
          (rw short_int (rw (k.ints z h) refl))

    pub req_no_line :
        read_line c (field_text (codes "Request No") (dec_int z)) r ≡ some (record r { req_no = z })
    unfolding read_line field_text
    req_no_line =
        rw (k.scans (codes "Request No") (dec_int z) refl (int-word z))
          (rw short_int (rw (k.ints z h) refl))

    state_line_raw :
        read_line c (field_text (codes "State") (dec_int z)) r
        ≡ some (record r { state = state_of (bits z) })
    unfolding read_line field_text
    state_line_raw =
        rw (k.scans (codes "State") (dec_int z) refl (int-word z))
          (rw short_int (rw (k.ints z h) refl))

  pub state_line :
      (s : ServerState)
      → is_int (pos (state_code s)) ≡ true
      → read_line c (field_text (codes "State") (dec (state_code s))) r
        ≡ some (record r { state = s })
  unfolding dec_int
  state_line s h =
      let low : state_code s % 2 ^ 32 ≡ state_code s = ground (arith, h) in
      state_line_raw (pos (state_code s)) h
      ∙ ap (λ x. some (record r { state = x })) (ap state_of low ∙ state_of-code s)

  pub key_line :
      (n : ℕ)
      → n < 2 ^ 64
      → read_line c (field_text (codes "Key") (dec n)) r ≡ some (record r { hash_key = n })
  unfolding read_line field_text
  key_line n h =
      let fits : ltb (length (dec n)) task_length ≡ true =
        ground (arith, dec-length 19 n (omega (arith, h))) in
      rw (k.scans (codes "Key") (dec n) refl (dec-word n)) (rw fits (rw (k.longs n h) refl))
