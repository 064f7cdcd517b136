-- ===== src/Text/Digits.antt =====
-- The number that a decimal text stands for, as `strtol` reads it, and that it is the one printed.
use to_do_list_public.Common.{
  ℕ, zero, suc, ◌+◌, ◌-◌, ◌*◌, ◌/◌, ◌%◌, ◌<◌, ◌≡◌, ◌≢◌, ap, ◌∙◌, Bool, true, false, not, ◌==◌,
  if◌then◌else◌, ℤ, pos, negsuc, [], ◌∷◌, arith, Bool-cases, inl, inr,
}
use to_do_list_public.Text.{Bytes, digits, dec, dec_int}

-- the value of digits behind those of `value`
unfoldable pub value_of : ℕ → Bytes → ℕ
value_of value [] = value
value_of value (c ∷ cs) = value_of (value * 10 + (c - 48)) cs

unfoldable pub read_int : Bytes → ℤ × Bytes
read_int [] = (pos 0, [])
read_int (c ∷ cs) =
    if c == 45 then (negsuc (value_of 0 cs - 1), []) else (pos (value_of 0 (c ∷ cs)), [])

abbrev is_unsigned : Bytes → Bool
is_unsigned [] = false
is_unsigned (c ∷ cs) = not (c == 45)

last_digit : (n : ℕ) → (n / 10 == 0) ≡ true → 0 * 10 + (48 + n % 10 - 48) ≡ n
last_digit n small = let h : n / 10 ≡ 0 = ground (arith, small) in omega (arith, h)

next_digit : (n : ℕ) → n / 10 * 10 + (48 + n % 10 - 48) ≡ n
next_digit n = omega arith

fewer : (n fuel : ℕ) → n < suc fuel → (n / 10 == 0) ≡ false → n / 10 < fuel
fewer n fuel lt large = let h : n / 10 ≢ 0 = ground (arith, large) in omega (arith, lt, h)

digits-value_of :
    (fuel n : ℕ) (rest : Bytes)
    → n < fuel
    → (value_of 0 (digits fuel n rest) ≡ value_of n rest)
      × (is_unsigned (digits fuel n rest) ≡ true)
unfolding digits value_of
digits-value_of zero n rest lt = absurd (omega (arith, lt))
digits-value_of (suc fuel) n rest lt = elim (Bool-cases (n / 10 == 0)) [
  | inl small ↦ rw small (ap (λ k. value_of k rest) (last_digit n small), ground arith)
  | inr large ↦
      let ih = digits-value_of fuel (n / 10) ((48 + n % 10) ∷ rest) (fewer n fuel lt large) in
      rw large (ih.0 ∙ ap (λ k. value_of k rest) (next_digit n), ih.1)
]

read_unsigned :
    (bytes : Bytes) → is_unsigned bytes ≡ true → read_int bytes ≡ (pos (value_of 0 bytes), [])
unfolding read_int
read_unsigned [] u = ground (arith, u)
read_unsigned (c ∷ cs) u = ground (arith, u)

suc_sub : (n : ℕ) → n + 1 - 1 ≡ n
suc_sub n = omega arith

-- Every integer is read back from what `%d` prints of it, with nothing left over.
pub read-dec_int : (z : ℤ) → read_int (dec_int z) ≡ (z, [])
unfolding dec_int dec value_of read_int
read-dec_int (pos n) =
    let h = digits-value_of (n + 1) n [] (omega arith) in
    read_unsigned (digits (n + 1) n []) h.1 ∙ ap (λ k. (pos k, [])) h.0
read-dec_int (negsuc n) =
    let h = digits-value_of (n + 1 + 1) (n + 1) [] (omega arith) in
    ap (λ k. (negsuc (k - 1), [])) h.0 ∙ ap (λ k. (negsuc k, [])) (suc_sub n)
