-- ===== src/Text.antt =====
-- Text as lists of bytes, with what `sprintf` makes of `%d`, `%lu` and `%s`, and the
-- `Key: value` lines in which the processes write to one another.
pub mod Digits
pub mod Bounds
use to_do_list_public.Common.{
  ℕ, zero, suc, ◌+◌, ◌/◌, ◌%◌, ◌==◌, if◌then◌else◌, List, [], ◌∷◌, ◌++◌, ℤ, pos, negsuc,
}
use Prim.Native.Char.{code}
use Prim.Native.String.{String}

abbrev pub Bytes : Type 0
Bytes = List ℕ

abbrev pub codes : String → Bytes
codes String.[] = []
codes (String.◌∷◌ c s) = code c ∷ codes s

-- The decimal digits of a number in front of `rest`. A number has fewer digits than its value plus
-- one, which is the fuel that `dec` gives.
digits : ℕ → ℕ → Bytes → Bytes
digits zero n rest = rest
digits (suc fuel) n rest =
    let more = digits fuel (n / 10) ((48 + n % 10) ∷ rest) in
    if n / 10 == 0 then (48 + n % 10) ∷ rest else more

unfoldable pub dec : ℕ → Bytes
unfolding digits
dec n = digits (n + 1) n []

unfoldable pub dec_int : ℤ → Bytes
dec_int (pos n) = dec n
dec_int (negsuc n) = b'-' ∷ dec (n + 1)

abbrev pub crlf : Bytes
crlf = 13 ∷ 10 ∷ []

-- `"key: value\r\n"`
unfoldable pub line : String → Bytes → Bytes
line key value = codes key ++ (codes ": " ++ (value ++ crlf))
