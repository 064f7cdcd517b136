-- ===== src/Text/Bounds.antt =====
-- The digits that `%d` prints, and how many they are.
use to_do_list_public.Common.{
  ℕ, zero, suc, ◌+◌, ◌*◌, ◌/◌, ◌%◌, ◌^◌, ◌≤◌, ◌<◌, ◌≡◌, refl, Bool, true, ◌&&◌, ◌==◌, leb, [], ◌∷◌,
  arith, Bool-cases, inl, inr, length,
}
use to_do_list_public.Text.{Bytes, digits, dec}
use native.Mathlib.Nat.{pow-succ'}

abbrev pub is_digit : ℕ → Bool
is_digit c = leb 48 c && leb c 57

abbrev pub all_digits : Bytes → Bool
all_digits [] = true
all_digits (c ∷ cs) = is_digit c && all_digits cs

digit : (n : ℕ) → is_digit (48 + n % 10) ≡ true
digit n = ground arith

digits-all :
    (fuel n : ℕ) (rest : Bytes) → all_digits rest ≡ true → all_digits (digits fuel n rest) ≡ true
unfolding digits
digits-all zero n rest h = h
digits-all (suc fuel) n rest h = elim (Bool-cases (n / 10 == 0)) [
  | inl small ↦ rw small (rw (digit n) h)
  | inr large ↦ rw large (digits-all fuel (n / 10) ((48 + n % 10) ∷ rest) (rw (digit n) h))
]

tenth : (n x : ℕ) → n < 10 * x → n / 10 < x
tenth n x h = omega (arith, h)

power : (d : ℕ) → 10 ^ suc d ≡ 10 * 10 ^ d
power d = pow-succ' 10 d

digits-length :
    (fuel d n : ℕ) (rest : Bytes)
    → n < 10 ^ suc d
    → length (digits fuel n rest) ≤ suc d + length rest
unfolding digits
digits-length zero d n rest h = omega arith
digits-length (suc fuel) zero n rest h =
    let small : (n / 10 == 0) ≡ true = ground (arith, h) in rw small (omega arith)
digits-length (suc fuel) (suc d) n rest h = elim (Bool-cases (n / 10 == 0)) [
  | inl small ↦ rw small (omega arith)
  | inr large ↦ rw large (
      omega (
        arith,
        digits-length fuel d (n / 10) ((48 + n % 10) ∷ rest)
            (tenth n (10 ^ suc d) (omega (arith, h, power (suc d)))),
      ))
]

digits-positive :
    (fuel n : ℕ) (rest : Bytes) → 0 < fuel + length rest → 0 < length (digits fuel n rest)
unfolding digits
digits-positive zero n rest h = omega (arith, h)
digits-positive (suc fuel) n rest h = elim (Bool-cases (n / 10 == 0)) [
  | inl small ↦ rw small (omega arith)
  | inr large ↦ rw large (digits-positive fuel (n / 10) ((48 + n % 10) ∷ rest) (omega arith))
]

pub dec-all : (n : ℕ) → all_digits (dec n) ≡ true
unfolding dec
dec-all n = digits-all (n + 1) n [] refl

pub dec-length : (d n : ℕ) → n < 10 ^ suc d → length (dec n) ≤ suc d
unfolding dec
dec-length d n h = omega (arith, digits-length (n + 1) d n [] h)

pub dec-positive : (n : ℕ) → 0 < length (dec n)
unfolding dec
dec-positive n = digits-positive (n + 1) n [] (omega arith)
