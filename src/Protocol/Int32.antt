-- ===== src/Protocol/Int32.antt =====
-- `str_to_int` on the numbers that an `int` can hold.
use to_do_list_public.Common.{◌≡◌, true, ◌∙◌, ap, ℤ, pos, negsuc, some, [], arith}
use to_do_list_public.Text.{dec_int}
use to_do_list_public.Protocol.{to_int, is_int, Strtol, number, str_to_int}

pub to_int_lem : (z : ℤ) → is_int z ≡ true → to_int z ≡ z
unfolding to_int
to_int_lem (pos n) h = ground (arith, h)
to_int_lem (negsuc n) h = ground (arith, h)

number_lem : (z : ℤ) → is_int z ≡ true → number (z, []) ≡ some z
number_lem z h = ground (arith, h, to_int_lem z h)

-- `strtol` reads what `%d` prints of an `int`.
abbrev pub Reads : Strtol → Type 0
Reads strtol = (z : ℤ) → is_int z ≡ true → strtol (dec_int z) ≡ (z, [])

module _ (strtol : Strtol) (reads : Reads strtol) where
  pub str_to_int_dec : (z : ℤ) → is_int z ≡ true → str_to_int strtol (dec_int z) ≡ some z
  unfolding str_to_int
  str_to_int_dec z h = ap number (reads z h) ∙ number_lem z h
