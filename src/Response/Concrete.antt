-- ===== src/Response/Concrete.antt =====
-- Functions that do what `sscanf` with `%s`, `atoi` and `strtoul` are documented to do on the texts of
-- responses, for the runs on concrete ones.
use to_do_list_public.Common.{
  ℕ, ◌+◌, ◌-◌, ◌≡◌, refl, ap, ◌∙◌, true, ℤ, pos, negsuc, Option, none, some, [], ◌∷◌, ◌++◌, length,
  drop, drop-append_long, arith,
}
use to_do_list_public.Text.{Bytes, crlf, dec_int}
use to_do_list_public.Text.Digits.{read_int, read-dec_int}
use to_do_list_public.Protocol.{field_text, all_of}
use to_do_list_public.Protocol.Scan.{until, until-append}
use to_do_list_public.Response.{Conversions}
use to_do_list_public.Response.Words.{is_word_byte, is_word, Converts}

word_or_none : Bytes → Option Bytes
word_or_none [] = none
word_or_none (c ∷ cs) = some (c ∷ cs)

abs_value : ℤ → ℕ
abs_value (pos n) = n
abs_value (negsuc n) = n + 1

unfoldable pub conversions : Conversions
unfolding word_or_none abs_value
conversions = record {
  scan_string = λ label line. word_or_none (until is_word_byte (drop (length label + 2) line));
  atoi = λ text. (read_int text).0;
  strtoul = λ text. abs_value (read_int text).0;
}

behind_label : (label rest : Bytes) → drop (length label + 2) (label ++ (58 ∷ 32 ∷ rest)) ≡ rest
behind_label label rest =
    drop-append_long (length label + 2) label (58 ∷ 32 ∷ rest) (omega arith)
    ∙ ap (λ n. drop n (58 ∷ 32 ∷ rest)) (two (length label))
  where
    two : (n : ℕ) → n + 2 - n ≡ 2
    two n = omega arith

word_all : (w : Bytes) → is_word w ≡ true → all_of is_word_byte w ≡ true
word_all [] h = refl
word_all (c ∷ cs) h = h

some_word : (w : Bytes) → is_word w ≡ true → word_or_none w ≡ some w
unfolding word_or_none
some_word [] h = absurd (ground (arith, h))
some_word (c ∷ cs) h = refl

pub conversions-Converts : Converts conversions
unfolding conversions field_text dec_int
conversions-Converts = record {
  scans = λ label word k h.
      ap (λ us. word_or_none (until is_word_byte us)) (behind_label label (word ++ crlf))
      ∙ ap word_or_none (until-append is_word_byte word 13 (10 ∷ []) (word_all word h) refl).0
      ∙ some_word word h;
  ints = λ z h. ap (λ p. p.0) (read-dec_int z);
  longs = λ n h. ap (λ p. abs_value p.0) (read-dec_int (pos n));
}
