-- ===== src/Db/Valid.antt =====
-- The well-formed tables of src/db.c, and that the operations keep them.
use to_do_list_public.Common.{
  ℕ, ◌+◌, ◌-◌, ◌%◌, ◌^◌, ◌≤◌, ◌<◌, ◌≡◌, ◌≢◌, refl, sym, subst, true, false, ℤ, pos, minus_one,
  Option, none, some, List, [], ◌∷◌, ◌++◌, ◌==◌, arith, inl, inr, Bool-cases, Option-cases, ==_iff,
}
use to_do_list_public.Db.{
  DataPoint, HashTable, returns, Array, hash_func, hash_table_insert, hash_table_delete,
  hash_table_init, hash_table_len, insert_data_point, unlink, store, memcpy, max_data_len, visit,
  hash_table_get_all,
}
use to_do_list_public.Db.Lengths.{
  lengths, lengths-append, lengths-store, lengths-one, store-here, store-other,
}

-- a data point that belongs to the chain `i`
pub record Belongs (i : ℕ) (d : DataPoint) : Type 0 where
  pub chain : hash_func d.key ≡ i
  pub nonzero : d.key ≢ 0
  pub fits : d.data_len ≤ max_data_len

abbrev pub AllBelong : ℕ → List DataPoint → Type 0
AllBelong i [] = Unit
AllBelong i (d ∷ ds) = Belongs i d × AllBelong i ds

pub record IsValid (t : HashTable) : Type 0 where
  pub chains : (i : ℕ) → AllBelong i (t.«data» i)
  pub size : t.data_size ≡ lengths (hash_table_get_all t) % 2 ^ 64

AllBelong-append :
    (i : ℕ) (xs : List DataPoint) (d : DataPoint)
    → AllBelong i xs
    → Belongs i d
    → AllBelong i (xs ++ (d ∷ []))
AllBelong-append i [] d all b = (b, tt)
AllBelong-append i (x ∷ xs) d all b = (all.0, AllBelong-append i xs d all.1 b)

-- a well-formed table in which a chain was replaced
IsValid-store :
    (h m : ℕ) (c : List DataPoint) (t : HashTable)
    → h < hash_table_len
    → IsValid t
    → AllBelong h c
    → ((total : ℕ)
        → total + lengths (t.«data» h) ≡ lengths (hash_table_get_all t) + lengths c
        → m ≡ total % 2 ^ 64)
    → IsValid (record { «data» = store t.«data» h c; data_size = m })
IsValid-store h m c t lt valid all size = record {
  chains = λ i. elim (Bool-cases (i == h)) [
    | inl e ↦
        let here' = subst (λ k. AllBelong k c) (sym ((==_iff i h).0 e)) all in
        subst (AllBelong i) (sym (store-here t.«data» i h c e)) here'
    | inr e ↦ subst (AllBelong i) (sym (store-other t.«data» i h c e)) (valid.chains i)
  ];
  size =
      size (lengths (hash_table_get_all (record { «data» = store t.«data» h c; data_size = m })))
        (lengths-store h m c t lt);
}

hash_func-bound : (key : ℕ) → hash_func key < hash_table_len
unfolding hash_func
hash_func-bound key = omega arith

insert-none :
    (key : ℕ) (src : Array) (len : ℕ) (t : HashTable)
    → hash_table_insert none key src len t ≡ returns minus_one t
unfolding hash_table_insert
insert-none key src len t = ground arith

insert-zero :
    (new : DataPoint) (key : ℕ) (src : Array) (len : ℕ) (t : HashTable)
    → (key == 0) ≡ true
    → hash_table_insert (some new) key src len t ≡ returns minus_one t
unfolding hash_table_insert
insert-zero new key src len t e = rw e refl

insert-some :
    (new : DataPoint) (key : ℕ) (src : Array) (len : ℕ) (t : HashTable)
    → (key == 0) ≡ false
    → len ≤ max_data_len
    → hash_table_insert (some new) key src len t
      ≡ returns (pos 0) (
          insert_data_point
            (hash_func key)
            (record new { key = key; data_len = len; raw_data = memcpy new.raw_data src len })
            (record t { data_size = (t.data_size + len) % 2 ^ 64 }))
unfolding hash_table_insert
insert-some new key src len t e fits = ground (arith, e, fits)

-- Insertion into a well-formed table, of at most 1024 bytes, returns, with or without memory and
-- whatever the key, and leaves a well-formed table: each data point stands in the chain of its
-- key, has a key other than 0 and at most 1024 bytes, and the size is the total length of the
-- data, modulo 2 ^ 64.
pub insert-IsValid :
    (malloc : Option DataPoint) (key : ℕ) (src : Array) (len : ℕ) (t : HashTable)
    → len ≤ max_data_len
    → IsValid t
    → (r : ℤ) × ((t' : HashTable) × ((hash_table_insert malloc key src len t ≡ returns r t')
          × IsValid t'))
unfolding insert_data_point
insert-IsValid none key src len t fits valid = (minus_one, (t, (insert-none key src len t, valid)))
insert-IsValid (some new) key src len t fits valid = elim (Bool-cases (key == 0)) [
  | inl e ↦ (minus_one, (t, (insert-zero new key src len t e, valid)))
  | inr e ↦
      let h = hash_func key in
      let m = (t.data_size + len) % 2 ^ 64 in
      let d = record new { key = key; data_len = len; raw_data = memcpy new.raw_data src len } in
      let nonzero : key ≢ 0 = ground (arith, e) in
      (
        pos 0,
        (
          record { «data» = store t.«data» h (t.«data» h ++ (d ∷ [])); data_size = m },
          (
            insert-some new key src len t e fits,
            IsValid-store h m (t.«data» h ++ (d ∷ [])) t (hash_func-bound key) valid
                (AllBelong-append h (t.«data» h) d (valid.chains h)
                  (record { chain = refl; nonzero = nonzero; fits = fits }))
                (λ total e'.
                  omega
                    (arith, e', lengths-append (t.«data» h) (d ∷ []), lengths-one d, valid.size)),
          ),
        ),
      )
]

-- what unlinking leaves of a chain
abbrev Rest : ℕ → List DataPoint → Option (ℕ × List DataPoint) → Type 0
Rest i xs none = Unit
Rest i xs (some (n, ys)) = (lengths xs ≡ n + lengths ys) × ((n ≤ max_data_len) × AllBelong i ys)

unlink-Rest : (i key : ℕ) (xs : List DataPoint) → AllBelong i xs → Rest i xs (unlink key xs)
unfolding unlink lengths
unlink-Rest i key [] all = tt
unlink-Rest i key (x ∷ xs) all = elim (Bool-cases (key == x.key)) [
  | inl e ↦ rw e (refl, (all.0.fits, all.1))
  | inr e ↦ rw e (behind (unlink key xs) (unlink-Rest i key xs all.1))
]
  where
    behind :
        (o : Option (ℕ × List DataPoint))
        → Rest i xs o
        → Rest i (x ∷ xs) (elim o [ none ↦ none | some (n, chain) ↦ some (n, x ∷ chain) ])
    behind none r = tt
    behind (some (n, ys)) r = (omega (arith, r.0), (r.1.0, (all.0, r.1.1)))

delete-miss :
    (key : ℕ) (t : HashTable)
    → unlink key (t.«data» (hash_func key)) ≡ none
    → hash_table_delete key t ≡ returns minus_one t
unfolding hash_table_delete
delete-miss key t e = rw (hash_table_delete, e) refl

delete-hit :
    (key n : ℕ) (chain : List DataPoint) (t : HashTable)
    → unlink key (t.«data» (hash_func key)) ≡ some (n, chain)
    → hash_table_delete key t
      ≡ returns (pos 0) (record {
        «data» = store t.«data» (hash_func key) chain;
        data_size = (t.data_size + (2 ^ 64 - n)) % 2 ^ 64;
      })
unfolding hash_table_delete hash_func
delete-hit key n chain t e = rw (hash_table_delete, e) refl

-- Deletion from a well-formed table leaves a well-formed table, whether the key is found or not.
pub delete-IsValid :
    (key : ℕ) (t : HashTable)
    → IsValid t
    → (r : ℤ) × ((t' : HashTable) × ((hash_table_delete key t ≡ returns r t') × IsValid t'))
delete-IsValid key t valid =
    let h = hash_func key in
    elim (Option-cases (unlink key (t.«data» h))) [
      | inl miss ↦ (minus_one, (t, (delete-miss key t miss, valid)))
      | inr ((n, chain), hit) ↦
          let m = (t.data_size + (2 ^ 64 - n)) % 2 ^ 64 in
          let r =
            subst (Rest h (t.«data» h)) hit (unlink-Rest h key (t.«data» h) (valid.chains h)) in
          (
            pos 0,
            (
              record { «data» = store t.«data» h chain; data_size = m },
              (
                delete-hit key n chain t hit,
                IsValid-store h m chain t (hash_func-bound key) valid r.1.1
                    (λ total e. omega (arith, e, r.0, r.1.0, valid.size)),
              ),
            ),
          )
    ]

-- The table is empty and well formed after its initialisation.
init-IsValid : IsValid hash_table_init
unfolding hash_table_init hash_table_get_all visit lengths
init-IsValid = record { chains = λ i. tt; size = refl }
