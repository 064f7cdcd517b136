-- ===== src/Db/Bag.antt =====
-- The table of src/db.c as a bag of data points: the data points stored under a key, and the
-- well-formed tables.
use to_do_list_public.Common.{
  ℕ, ◌+◌, ◌-◌, ◌%◌, ◌^◌, ◌≤◌, ◌<◌, ◌≡◌, ◌≢◌, refl, sym, ap, subst, true, false, ℤ, pos, minus_one,
  none, some, List, [], ◌∷◌, ◌++◌, ◌==◌, ==_iff, if◌then◌else◌, arith, inl, inr, Bool-cases,
  append-[], Option-cases,
}
use to_do_list_public.Db.{
  DataPoint, HashTable, returns, Array, hash_func, hash_table_insert, hash_table_delete,
  insert_data_point, unlink, store, memcpy, max_data_len,
}

-- the data points of a chain whose key is `key`, in order
unfoldable pub with_key : ℕ → List DataPoint → List DataPoint
with_key key [] = []
with_key key (x ∷ xs) = if key == x.key then x ∷ with_key key xs else with_key key xs

-- the data points that the table stores under `key`
unfoldable pub points : ℕ → HashTable → List DataPoint
points key t = with_key key (t.«data» (hash_func key))

-- a list without its first element
unfoldable pub tail : List DataPoint → List DataPoint
tail [] = []
tail (x ∷ xs) = xs

with_key-append :
    (key : ℕ) (xs ys : List DataPoint)
    → with_key key (xs ++ ys) ≡ with_key key xs ++ with_key key ys
unfolding with_key
with_key-append key [] ys = refl
with_key-append key (x ∷ xs) ys = elim (Bool-cases (key == x.key)) [
  | inl e ↦ rw e (ap (λ zs. x ∷ zs) (with_key-append key xs ys))
  | inr e ↦ rw e (with_key-append key xs ys)
]

-- what `unlink` does to the points under the key and under another
unlink-some :
    (key : ℕ) (xs : List DataPoint) (n : ℕ) (ys : List DataPoint) (k : ℕ)
    → unlink key xs ≡ some (n, ys)
    → with_key k ys ≡ (if k == key then tail (with_key k xs) else with_key k xs)
unfolding unlink with_key tail
unlink-some key [] n ys k e = ground (arith, e)
unlink-some key (x ∷ xs) n ys k e = elim (Option-cases (unlink key xs)) [
  | inl miss ↦ ground (arith, e, miss)
  | inr ((n', zs), hit) ↦ let ih = unlink-some key xs n' zs k hit in ground (arith, e, hit, ih)
]

unlink-none : (key : ℕ) (xs : List DataPoint) → unlink key xs ≡ none → with_key key xs ≡ []
unfolding unlink with_key
unlink-none key [] e = refl
unlink-none key (x ∷ xs) e = elim (Option-cases (unlink key xs)) [
  | inl miss ↦ let ih = unlink-none key xs miss in ground (arith, e, miss, ih)
  | inr (p, hit) ↦ ground (arith, e, hit)
]

-- what a deletion returns, by the points stored under its key
unfoldable pub delete_code : List DataPoint → ℤ
delete_code [] = minus_one
delete_code (x ∷ xs) = pos 0

unlink-hit :
    (key : ℕ) (xs : List DataPoint) (n : ℕ) (ys : List DataPoint)
    → unlink key xs ≡ some (n, ys)
    → delete_code (with_key key xs) ≡ pos 0
unfolding unlink with_key delete_code
unlink-hit key [] n ys e = ground (arith, e)
unlink-hit key (x ∷ xs) n ys e = elim (Option-cases (unlink key xs)) [
  | inl miss ↦ ground (arith, e, miss)
  | inr ((n', zs), hit) ↦ let ih = unlink-hit key xs n' zs hit in ground (arith, e, hit, ih)
]

different-key : (k key : ℕ) → (hash_func k == hash_func key) ≡ false → (k == key) ≡ false
different-key k key e = elim (Bool-cases (k == key)) [
  | inl same ↦ let eq = ap hash_func ((==_iff k key).0 same) in ground (arith, e, eq)
  | inr other ↦ other
]

-- the points of a table in which one chain was replaced
points-store :
    (key k n : ℕ) (chain : List DataPoint) (t : HashTable)
    → points k (record { «data» = store t.«data» (hash_func key) chain; data_size = n })
      ≡ (if hash_func k == hash_func key then with_key k chain else points k t)
unfolding points
points-store key k n chain t = ground arith

same-chain :
    (key k : ℕ) (t : HashTable)
    → (hash_func k == hash_func key) ≡ true
    → points k t ≡ with_key k (t.«data» (hash_func key))
unfolding points
same-chain key k t e =
    ap (λ h. with_key k (t.«data» h)) ((==_iff (hash_func k) (hash_func key)).0 e)

points-insert :
    (d : DataPoint) (key k : ℕ) (t : HashTable)
    → d.key ≡ key
    → points k (insert_data_point (hash_func key) d t)
      ≡ points k t ++ (if k == key then d ∷ [] else [])
unfolding insert_data_point with_key
points-insert d key k t e =
    rw (points-store key k t.data_size (t.«data» (hash_func key) ++ (d ∷ [])) t)
      (elim (Bool-cases (hash_func k == hash_func key)) [
        | inl same ↦
            rw
              (
                same,
                same-chain key k t same,
                with_key-append k (t.«data» (hash_func key)) (d ∷ []),
                e,
              )
              refl
        | inr other ↦ rw (other, different-key k key other) (sym (append-[] (points k t)))
      ])

points-delete :
    (key k m n : ℕ) (chain : List DataPoint) (t : HashTable)
    → unlink key (t.«data» (hash_func key)) ≡ some (n, chain)
    → points k (record { «data» = store t.«data» (hash_func key) chain; data_size = m })
      ≡ (if k == key then tail (points k t) else points k t)
points-delete key k m n chain t e =
    rw (points-store key k m chain t) (elim (Bool-cases (hash_func k == hash_func key)) [
      | inl same ↦
          rw (same, same-chain key k t same)
            (unlink-some key (t.«data» (hash_func key)) n chain k e)
      | inr other ↦ rw (other, different-key k key other) refl
    ])

-- Insertion with a key other than 0, memory from `malloc` and at most 1024 bytes succeeds; it adds
-- one data point, with that key, length and data, after those stored under the key, and leaves
-- the points under every other key alone.
pub insert_refines :
    (new : DataPoint) (key : ℕ) (src : Array) (len : ℕ) (t : HashTable)
    → key ≢ 0
    → len ≤ max_data_len
    → (d : DataPoint) × ((t' : HashTable) × ((hash_table_insert (some new) key src len t
            ≡ returns (pos 0) t')
          × ((d.key ≡ key)
              × ((d.data_len ≡ len)
                  × (((i : ℕ) → i < len → d.raw_data i ≡ src i)
                      × ((k : ℕ)
                          → points k t' ≡ points k t ++ (if k == key then d ∷ [] else [])))))))
unfolding hash_table_insert points
insert_refines new key src len t nonzero fits =
    let d = record new { key = key; data_len = len; raw_data = memcpy new.raw_data src len } in
    let t1 = record t { data_size = (t.data_size + len) % 2 ^ 64 } in
    (
      d,
      (
        insert_data_point (hash_func key) d t1,
        (
          ground (arith, nonzero, fits),
          (
            refl,
            (refl, ((λ i below. ground (arith, below)), (λ k. points-insert d key k t1 refl))),
          ),
        ),
      ),
    )

points-[] :
    (key : ℕ) (t : HashTable) → unlink key (t.«data» (hash_func key)) ≡ none → points key t ≡ []
unfolding points
points-[] key t e = unlink-none key (t.«data» (hash_func key)) e

delete-miss :
    (key : ℕ) (t : HashTable)
    → unlink key (t.«data» (hash_func key)) ≡ none
    → hash_table_delete key t ≡ returns (delete_code (points key t)) t
unfolding delete_code hash_table_delete
delete-miss key t e = rw (points-[] key t e) (rw (hash_table_delete, e) refl)

delete-hit :
    (key n : ℕ) (chain : List DataPoint) (t : HashTable)
    → unlink key (t.«data» (hash_func key)) ≡ some (n, chain)
    → hash_table_delete key t
      ≡ returns (delete_code (points key t)) (record {
        «data» = store t.«data» (hash_func key) chain;
        data_size = (t.data_size + (2 ^ 64 - n)) % 2 ^ 64;
      })
unfolding points hash_table_delete hash_func
delete-hit key n chain t e =
    rw (unlink-hit key (t.«data» (hash_func key)) n chain e) (rw (hash_table_delete, e) refl)

points-none :
    (key k : ℕ) (t : HashTable)
    → unlink key (t.«data» (hash_func key)) ≡ none
    → points k t ≡ (if k == key then tail (points k t) else points k t)
unfolding tail
points-none key k t e = elim (Bool-cases (k == key)) [
  | inl same ↦
      let h = subst (λ x. points x t ≡ []) (sym ((==_iff k key).0 same)) (points-[] key t e) in
      rw (same, h) refl
  | inr other ↦ rw other refl
]

-- Deletion returns, and a key with data points loses the first of them and gives 0, a key without
-- gives -1; the points under every other key stay.
pub delete_refines :
    (key : ℕ) (t : HashTable)
    → (t' : HashTable) × ((hash_table_delete key t ≡ returns (delete_code (points key t)) t')
        × ((k : ℕ) → points k t' ≡ (if k == key then tail (points k t) else points k t)))
delete_refines key t = elim (Option-cases (unlink key (t.«data» (hash_func key)))) [
  | inl miss ↦ (t, (delete-miss key t miss, λ k. points-none key k t miss))
  | inr ((n, chain), hit) ↦
      let size = (t.data_size + (2 ^ 64 - n)) % 2 ^ 64 in
      (
        record { «data» = store t.«data» (hash_func key) chain; data_size = size },
        (delete-hit key n chain t hit, λ k. points-delete key k size n chain t hit),
      )
]
