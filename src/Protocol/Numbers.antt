-- ===== src/Protocol/Numbers.antt =====
-- The lines in which `%d` prints an `int` can be read back.
use to_do_list_public.Common.{
  ℕ, ◌+◌, ◌≤◌, ◌<◌, ◌^◌, ◌≡◌, refl, true, not, leb, ℤ, pos, negsuc, [], ◌∷◌, ◌++◌, arith, length,
  length-append,
}
use to_do_list_public.Text.{Bytes, codes, crlf, dec, dec_int}
use to_do_list_public.Text.Bounds.{is_digit, all_digits, dec-all, dec-length, dec-positive}
use to_do_list_public.Protocol.{
  is_int, field_text, all_of, is_key_text, is_value_byte, is_value_text, is_blank, max_msg_size,
  Fields,
}
use to_do_list_public.Protocol.Lines.{and_left, and_right, is_field, are_fields}

digit_value : (c : ℕ) → is_digit c ≡ true → is_value_byte c ≡ true
digit_value c h = ground (arith, h)

digits_values : (cs : Bytes) → all_digits cs ≡ true → all_of is_value_byte cs ≡ true
digits_values [] h = refl
digits_values (c ∷ cs) h =
    rw (digit_value c (and_left (is_digit c) (all_digits cs) h))
      (digits_values cs (and_right (is_digit c) (all_digits cs) h))

digits_text : (cs : Bytes) → 0 < length cs → all_digits cs ≡ true → is_value_text cs ≡ true
digits_text [] lt h = absurd (omega (arith, lt))
digits_text (c ∷ cs) lt h =
    let first : not (is_blank c) ≡ true = ground (arith, and_left (is_digit c) (all_digits cs) h) in
    rw first (digits_values (c ∷ cs) h)

pub int_text : (z : ℤ) → is_value_text (dec_int z) ≡ true
unfolding dec_int
int_text (pos n) = digits_text (dec n) (dec-positive n) (dec-all n)
int_text (negsuc n) = digits_values (dec (n + 1)) (dec-all (n + 1))

pub int_length : (z : ℤ) → is_int z ≡ true → length (dec_int z) ≤ 11
unfolding dec_int
int_length (pos n) h =
    let small : n < 10 ^ 10 = ground (arith, h) in omega (arith, dec-length 9 n small)
int_length (negsuc n) h =
    let small : n + 1 < 10 ^ 10 = ground (arith, h) in omega (arith, dec-length 9 (n + 1) small)

pub field_length :
    (key value : Bytes) → length (field_text key value) ≡ length key + (2 + (length value + 2))
unfolding field_text
field_length key value =
    omega (arith, length-append key (codes ": " ++ (value ++ crlf)), length-append value crlf)

pub field-IsField :
    (key value : Bytes)
    → is_key_text key ≡ true
    → is_value_text value ≡ true
    → length key + length value ≤ 2084
    → is_field (key, value) ≡ true
field-IsField key value k v le =
    let short : leb (length (field_text key value)) max_msg_size ≡ true =
      ground (arith, field_length key value, le) in
    rw k (rw v short)

pub int_field_lem :
    (key : Bytes) (z : ℤ)
    → is_key_text key ≡ true
    → length key ≤ 2000
    → is_int z ≡ true
    → is_field (key, dec_int z) ≡ true
int_field_lem key z k le h =
    field-IsField key (dec_int z) k (int_text z) (omega (arith, le, int_length z h))

-- fields whose lines can be read back, one after the other
pub data Readable : Fields → Type 0 where
  last : Readable []
  before :
      (key value : Bytes) (rest : Fields)
      → is_field (key, value) ≡ true
      → Readable rest
      → Readable ((key, value) ∷ rest)

pub readable_lem : (fields : Fields) → Readable fields → are_fields fields ≡ true
readable_lem [] last = refl
readable_lem ((key, value) ∷ rest) (before k v r a h) = rw a (readable_lem rest h)

module _ (key : Bytes) (rest : Fields) (k : is_key_text key ≡ true) where
  pub int_before :
      (z : ℤ)
      → length key ≤ 2000
      → is_int z ≡ true
      → Readable rest
      → Readable ((key, dec_int z) ∷ rest)
  int_before z le h r = before key (dec_int z) rest (int_field_lem key z k le h) r

  pub text_before :
      (value : Bytes)
      → length key + length value ≤ 2084
      → is_value_text value ≡ true
      → Readable rest
      → Readable ((key, value) ∷ rest)
  text_before value le v r = before key value rest (field-IsField key value k v le) r
