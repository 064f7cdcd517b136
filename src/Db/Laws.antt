-- ===== src/Db/Laws.antt =====
-- What search, get and modify of src/db.c do, and the operations' effect on the well-formed table.
use to_do_list_public.Text.{Bytes, codes, crlf, dec_int}
use to_do_list_public.Common.{
  take, ◌++◌, ℕ, zero, suc, ◌≡◌, ◌≢◌, refl, pos, Option, none, some, List, [], ◌∷◌, ◌==◌,
  if◌then◌else◌, get_elem?, set, arith, inl, inr, Bool-cases,
}
use to_do_list_public.Db.{
  DataPoint, HashTable, returns, out_of_fuel, TaskStatus, hash_func, search_list, search_loop,
  hash_table_get, hash_table_modify, with_status, store, text_at, status_int, max_data_len,
}

-- the first node of the chain that `key` hashes to
abbrev pub first : ℕ → HashTable → Option DataPoint
first key t = get_elem? (t.«data» (hash_func key)) 0

-- with any fuel, the loop stays where it is
search_loop-miss :
    (fuel key : ℕ) (x : DataPoint) (xs : List DataPoint)
    → key ≢ x.key
    → search_loop fuel key 0 (x ∷ xs) ≡ none
unfolding search_loop
search_loop-miss zero key x xs e = refl
search_loop-miss (suc fuel) key x xs e =
    let ih = search_loop-miss fuel key x xs e in ground (arith, ih)

-- What the search for `key` returns in a chain, given the chain's first node.
unfoldable pub found_at : ℕ → Option DataPoint → Option (Option ℕ)
found_at key none = some none
found_at key (some x) = if key == x.key then some (some 0) else none

search_loop-found_at :
    (fuel key : ℕ) (chain : List DataPoint)
    → search_loop (suc fuel) key 0 chain ≡ found_at key (get_elem? chain 0)
unfolding search_loop found_at
search_loop-found_at fuel key [] = refl
search_loop-found_at fuel key (x ∷ xs) = elim (Bool-cases (key == x.key)) [
  | inl e ↦ rw e refl
  | inr e ↦ rw e (search_loop-miss fuel key x xs (λ same. ground (arith, e, same)))
]

-- With any fuel, `search_list` finds no key but the one of the first node: an empty chain and a
-- first node with the key each take one round, and on a chain that starts with another key the
-- fuel runs out, wherever in that chain the key is.
pub search_list_lem :
    (fuel key : ℕ) (t : HashTable)
    → search_list (suc fuel) (hash_func key) key t ≡ found_at key (first key t)
unfolding search_list
search_list_lem fuel key t = search_loop-found_at fuel key (t.«data» (hash_func key))

set-first :
    (chain : List DataPoint) (x v : DataPoint)
    → get_elem? chain 0 ≡ some x
    → get_elem? (set chain 0 v) 0 ≡ some v
set-first [] x v e = ground (arith, e)
set-first (y ∷ ys) x v e = refl

store-other : {A : Type 0} (f : ℕ → A) (i : ℕ) (x : A) (j : ℕ) → j ≢ i → store f i x j ≡ f j
store-other f i x j other = ground (arith, other)

-- the text of a task and its status
abbrev pub printed : Bytes → TaskStatus → Bytes
printed text s =
    codes "task: "
    ++ (text ++ (codes " status: " ++ (dec_int (status_int s) ++ (codes " " ++ crlf))))

store-same : {A : Type 0} (f : ℕ → A) (i : ℕ) (x : A) → store f i x i ≡ x
store-same f i x = ground arith

module _ (fuel key : ℕ) (t : HashTable) (x : DataPoint) (here : first key t ≡ some x) where
  found : x.key ≡ key → search_list (suc fuel) (hash_func key) key t ≡ some (some 0)
  unfolding found_at
  found same = rw (search_list_lem fuel key t) (rw here (ground (arith, same)))

  missed : x.key ≢ key → search_list (suc fuel) (hash_func key) key t ≡ none
  unfolding found_at
  missed other = rw (search_list_lem fuel key t) (rw here (ground (arith, other)))

  modified : TaskStatus → HashTable
  modified s = record t {
    «data» = store t.«data» (hash_func key) (set (t.«data» (hash_func key)) 0 (with_status s x));
  }

  modify_lem :
      (s : TaskStatus)
      → x.key ≡ key
      → hash_table_modify (suc fuel) key s t ≡ returns (pos 0) (modified s)
  unfolding hash_table_modify modified
  modify_lem s same = rw (hash_table_modify, found same) (rw here refl)

  first-modified : (s : TaskStatus) → first key (modified s) ≡ some (with_status s x)
  unfolding modified
  first-modified s =
      rw (store-same t.«data» (hash_func key) (set (t.«data» (hash_func key)) 0 (with_status s x)))
        (set-first (t.«data» (hash_func key)) x (with_status s x) here)

  -- Where another key stands first in the chain of a key, get and modify of that key loop for
  -- ever: no fuel is enough.
  pub modify-hangs :
      (s : TaskStatus)
      → x.key ≢ key
      → (hash_table_modify (suc fuel) key s t ≡ out_of_fuel)
        × (hash_table_get (suc fuel) key t ≡ out_of_fuel)
  unfolding hash_table_get hash_table_modify
  modify-hangs s other =
      (rw (hash_table_modify, missed other) refl, rw (hash_table_get, missed other) refl)

get_lem :
    (fuel key : ℕ) (t : HashTable) (x : DataPoint) (text : Bytes)
    → first key t ≡ some x
    → x.key ≡ key
    → text_at max_data_len x.raw_data 0 ≡ some text
    → hash_table_get (suc fuel) key t ≡ returns (some (take 1023 (printed text x.task_status))) t
unfolding hash_table_get
get_lem fuel key t x text here same ends =
    rw (hash_table_get, found fuel key t x here same) (rw here (rw ends refl))

-- Where the first node of its chain has the key and its task is a text, `hash_table_modify` returns 0
-- and leaves the other chains and the size of the table as they were, and `hash_table_get` then
-- writes the task that was there with the new status, cut to 1023 bytes: the status of a long
-- task is cut off.
pub get-modify :
    (fuel key : ℕ) (t : HashTable) (x : DataPoint) (s : TaskStatus) (text : Bytes)
    → first key t ≡ some x
    → x.key ≡ key
    → text_at max_data_len x.raw_data 0 ≡ some text
    → (t' : HashTable) × ((hash_table_modify (suc fuel) key s t ≡ returns (pos 0) t')
        × ((hash_table_get (suc fuel) key t' ≡ returns (some (take 1023 (printed text s))) t')
            × (((i : ℕ) → i ≢ hash_func key → t'.«data» i ≡ t.«data» i)
                × (t'.data_size ≡ t.data_size))))
get-modify fuel key t x s text here same ends = (
  modified fuel key t x here s,
  (
    modify_lem fuel key t x here s same,
    (
      get_lem fuel key (modified fuel key t x here s) (with_status s x) text
          (first-modified fuel key t x here s) same ends,
      unfold modified in
          (
            (λ i other.
                store-other t.«data» (hash_func key)
                  (set (t.«data» (hash_func key)) 0 (with_status s x)) i other),
            refl,
          ),
    ),
  ),
)
