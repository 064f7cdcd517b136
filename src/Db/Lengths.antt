-- ===== src/Db/Lengths.antt =====
-- The lengths of the data in the table of src/db.c, and how a replaced chain changes their sum.
use to_do_list_public.Common.{
  ℕ, zero, suc, ◌+◌, ◌<◌, ◌≡◌, refl, ap, true, false, ◌&&◌, List, [], ◌∷◌, ◌++◌, ltb, leb, ◌==◌,
  if◌then◌else◌, arith, inl, inr, Bool-cases, ==_iff,
}
use to_do_list_public.Db.{DataPoint, HashTable, hash_table_len, store, visit, hash_table_get_all}

-- the lengths of some data points together
unfoldable pub lengths : List DataPoint → ℕ
lengths [] = 0
lengths (d ∷ ds) = d.data_len + lengths ds

pub lengths-append : (xs ys : List DataPoint) → lengths (xs ++ ys) ≡ lengths xs + lengths ys
unfolding lengths
lengths-append [] ys = omega arith
lengths-append (x ∷ xs) ys = omega (arith, lengths-append xs ys)

-- what a replaced chain changes
abbrev here : ℕ → ℕ → ℕ → ℕ → ℕ
here n i h len = if leb i h && ltb h (i + n) then len else 0

here-now : (n i h x : ℕ) → (i == h) ≡ true → (here (suc n) i h x ≡ x) × (here n (i + 1) h x ≡ 0)
here-now n i h x e = ground (arith, e)

here-later : (n i h x : ℕ) → (i == h) ≡ false → here (suc n) i h x ≡ here n (i + 1) h x
here-later n i h x e = ground (arith, e)

pub store-here :
    (f : ℕ → List DataPoint) (i h : ℕ) (c : List DataPoint) → (i == h) ≡ true → store f h c i ≡ c
store-here f i h c e = rw e refl

pub store-other :
    (f : ℕ → List DataPoint) (i h : ℕ) (c : List DataPoint) → (i == h) ≡ false → store f h c i ≡ f i
store-other f i h c e = rw e refl

lengths-visit :
    (n i h m : ℕ) (c : List DataPoint) (t : HashTable)
    → lengths (visit n i (record { «data» = store t.«data» h c; data_size = m }))
        + here n i h (lengths (t.«data» h))
      ≡ lengths (visit n i t) + here n i h (lengths c)
unfolding visit lengths
lengths-visit zero i h m c t = ground arith
lengths-visit (suc n) i h m c t =
    let t' : HashTable = record { «data» = store t.«data» h c; data_size = m } in
    let ih = lengths-visit n (i + 1) h m c t in
    let a = lengths-append (store t.«data» h c i) (visit n (i + 1) t') in
    let b = lengths-append (t.«data» i) (visit n (i + 1) t) in
    elim (Bool-cases (i == h)) [
      | inl e ↦
          let same = ap (λ k. lengths (t.«data» k)) ((==_iff i h).0 e) in
          let new = store-here t.«data» i h c e in
          let p = here-now n i h (lengths (t.«data» h)) e in
          let q = here-now n i h (lengths c) e in
          omega (arith, a, b, ih, same, ap lengths new, p.0, p.1, q.0, q.1)
      | inr e ↦
          let old = store-other t.«data» i h c e in
          let p = here-later n i h (lengths (t.«data» h)) e in
          let q = here-later n i h (lengths c) e in omega (arith, a, b, ih, ap lengths old, p, q)
    ]

pub lengths-store :
    (h m : ℕ) (c : List DataPoint) (t : HashTable)
    → h < hash_table_len
    → lengths (hash_table_get_all (record { «data» = store t.«data» h c; data_size = m }))
        + lengths (t.«data» h)
      ≡ lengths (hash_table_get_all t) + lengths c
unfolding hash_table_get_all
lengths-store h m c t lt = let e = lengths-visit hash_table_len 0 h m c t in ground (arith, e, lt)

pub lengths-one : (d : DataPoint) → lengths (d ∷ []) ≡ d.data_len
unfolding lengths
lengths-one d = omega arith
