-- ===== src/Protocol/Scan.antt =====
-- A way to take a line apart, as `sscanf` documents it, for the runs on concrete texts.
use to_do_list_public.Common.{
  ℕ, ◌==◌, ◌≡◌, refl, ap, ◌∙◌, Bool, true, false, not, Option, none, some, [], ◌∷◌, ◌++◌,
  if◌then◌else◌, arith,
}
use to_do_list_public.Text.{Bytes, crlf}
use to_do_list_public.Protocol.{
  field_text, Scan, Scans, all_of, is_key_byte, is_value_byte, is_key_text, is_value_text, is_blank,
}
use to_do_list_public.Protocol.Lines.{and_left, and_right}

abbrev pub until : (ℕ → Bool) → Bytes → Bytes
until p [] = []
until p (c ∷ cs) = if p c then c ∷ until p cs else []

abbrev behind : (ℕ → Bool) → Bytes → Bytes
behind p [] = []
behind p (c ∷ cs) = if p c then behind p cs else c ∷ cs

pub until-append :
    (p : ℕ → Bool) (xs : Bytes) (y : ℕ) (ys : Bytes)
    → all_of p xs ≡ true
    → p y ≡ false
    → (until p (xs ++ (y ∷ ys)) ≡ xs) × (behind p (xs ++ (y ∷ ys)) ≡ y ∷ ys)
until-append p [] y ys h e = rw e (refl, refl)
until-append p (x ∷ xs) y ys h e =
    let ih = until-append p xs y ys (and_right (p x) (all_of p xs) h) e in
    rw (and_left (p x) (all_of p xs) h) (ap (λ us. x ∷ us) ih.0, ih.1)

both : Bytes → Bytes → Option (Bytes × Bytes)
both [] value = none
both (c ∷ cs) [] = none
both (c ∷ cs) (d ∷ ds) = some (c ∷ cs, d ∷ ds)

values : Bytes → Bytes → Option (Bytes × Bytes)
unfolding both
values key [] = none
values key (c ∷ cs) = if c == 58 then both key (until is_value_byte (behind is_blank cs)) else none

unfoldable pub scan_line : Scan
unfolding values
scan_line line = values (until is_key_byte line) (behind is_key_byte line)

both-some :
    (key value : Bytes)
    → is_key_text key ≡ true
    → is_value_text value ≡ true
    → both key value ≡ some (key, value)
unfolding both
both-some [] value k v = absurd (ground (arith, k))
both-some (c ∷ cs) [] k v = absurd (ground (arith, v))
both-some (c ∷ cs) (d ∷ ds) k v = refl

all_value :
    (value : Bytes)
    → is_value_text value ≡ true
    → (behind is_blank (32 ∷ (value ++ crlf)) ≡ value ++ crlf)
      × (until is_value_byte (value ++ crlf) ≡ value)
all_value [] v = absurd (ground (arith, v))
all_value (d ∷ ds) v =
    let w = not (is_blank d) in
    let nonblank : is_blank d ≡ false =
      ground (arith, and_left w (all_of is_value_byte (d ∷ ds)) v) in
    (
      rw nonblank refl,
      (until-append is_value_byte (d ∷ ds) 13 (10 ∷ [])
          (and_right w (all_of is_value_byte (d ∷ ds)) v) refl).0,
    )

all_key : (key : Bytes) → is_key_text key ≡ true → all_of is_key_byte key ≡ true
all_key [] k = refl
all_key (c ∷ cs) k = k

pub scan_line-Scans : Scans scan_line
unfolding scan_line values field_text
scan_line-Scans key value k v =
    let p = until-append is_key_byte key 58 (32 ∷ (value ++ crlf)) (all_key key k) refl in
    let q = all_value value v in
    ap (λ us. values us (behind is_key_byte (field_text key value))) p.0
    ∙ ap (values key) p.1
    ∙ ap (λ us. both key (until is_value_byte us)) q.0
    ∙ ap (both key) q.1
    ∙ both-some key value k v
