-- ===== src/Db.antt =====
-- The hash table of tasks (src/db.c, include/db.h): thirteen chains of data points and the total
-- length of their data. A chain is the list of its nodes in the order of the `next` pointers, and
-- a pointer into it is an index. `malloc` is a parameter of `hash_table_insert`: what it returns,
-- with the contents that the memory happens to have.
pub mod Laws
pub mod Bag
pub mod Lengths
pub mod Valid
mod Tests
use to_do_list_public.Text.{Bytes, codes, crlf, dec_int}
use to_do_list_public.Common.{
  take, negsuc, ℕ, zero, suc, ◌+◌, ◌-◌, ◌%◌, ◌^◌, Bool, true, false, ℤ, pos, minus_one, Option,
  none, some, List, [], ◌∷◌, ◌++◌, ltb, leb, ◌==◌, if◌then◌else◌, get_elem?, set,
}

-- `enum t_status`, with the integers that a message may store in it
pub data TaskStatus : Type 0 where
  task_not_done : TaskStatus
  task_done : TaskStatus
  other_status : ℕ → TaskStatus

abbrev pub hash_table_len : ℕ
hash_table_len = 13

abbrev pub max_data_len : ℕ
max_data_len = 1024

-- the bytes of an array, by index
abbrev pub Array : Type 0
Array = ℕ → ℕ

-- `data_point`
pub record DataPoint : Type 0 where
  pub key : ℕ
  pub raw_data : Array
  pub data_len : ℕ
  pub task_status : TaskStatus

-- `hash_table`
pub record HashTable : Type 0 where
  pub «data» : ℕ → List DataPoint
  pub data_size : ℕ

-- What a call does: it returns a value and the table, writes outside of an array, or loops longer
-- than the fuel.
pub data Call (A : Type 0) : Type 0 where
  returns : A → HashTable → Call A
  overflow : Call A
  out_of_fuel : Call A

abbrev pub store : {A : Type 0} → (ℕ → A) → ℕ → A → ℕ → A
store f i x j = if j == i then x else f j

unfoldable pub hash_func : ℕ → ℕ
hash_func val = val % hash_table_len

-- The walk to the last node that appends there.
unfoldable pub insert_data_point : ℕ → DataPoint → HashTable → HashTable
insert_data_point hash new t = record t {
  «data» = store t.«data» hash (t.«data» hash ++ (new ∷ []));
}

-- The loop of `search_list`: `temp` is the node at `i`, and no round changes it.
search_loop : ℕ → ℕ → ℕ → List DataPoint → Option (Option ℕ)
search_loop zero key i chain = none
search_loop (suc fuel) key i chain =
    let rest = search_loop fuel key i chain in
    elim (get_elem? chain i) [
      | none ↦ some none
      | some temp ↦ if key == temp.key then some (some i) else rest
    ]

unfoldable pub search_list : ℕ → ℕ → ℕ → HashTable → Option (Option ℕ)
unfolding search_loop
search_list fuel hash key t = search_loop fuel key 0 (t.«data» hash)

-- `memcpy` of the first `len` bytes
abbrev pub memcpy : Array → Array → ℕ → Array
memcpy old src len i = if ltb i len then src i else old i

unfoldable pub hash_table_insert : Option DataPoint → ℕ → Array → ℕ → HashTable → Call ℤ
hash_table_insert malloc key src len t = if key == 0 then returns minus_one t else (elim malloc [
  | none ↦ returns minus_one t
  | some new ↦
      if leb len max_data_len
      then returns (pos 0) (
          insert_data_point (hash_func key)
            (record new { key = key; data_len = len; raw_data = memcpy new.raw_data src len })
            (record t { data_size = (t.data_size + len) % 2 ^ 64 }))
      else overflow
])

-- the text in an array from `i` on, up to its first 0; `none` where there is none in the next `fuel` bytes
unfoldable pub text_at : ℕ → Array → ℕ → Option Bytes
text_at zero bytes i = none
text_at (suc fuel) bytes i =
    let rest = text_at fuel bytes (i + 1) in
    if bytes i == 0
    then some []
    else (elim rest [ none ↦ none | some text ↦ some (bytes i ∷ text) ])

-- the enumerator as an `int`
abbrev pub status_int : TaskStatus → ℤ
status_int task_not_done = pos 0
status_int task_done = pos 1
status_int (other_status n) =
    if ltb (2 + n) (2 ^ 31) then pos (2 + n) else negsuc (2 ^ 32 - (2 + n) - 1)

-- What the call leaves in the buffer, less the final 0, which `snprintf` writes into the last of the
-- 1024 bytes at most; `none` is the return of -1. A task without a final 0 is read beyond its array.
unfoldable pub hash_table_get : ℕ → ℕ → HashTable → Call (Option Bytes)
unfolding text_at
hash_table_get fuel key t = elim (search_list fuel (hash_func key) key t) [
  | none ↦ out_of_fuel
  | some none ↦ returns none t
  | some (some i) ↦ elim (get_elem? (t.«data» (hash_func key)) i) [
    | none ↦ overflow
    | some task ↦ elim (text_at max_data_len task.raw_data 0) [
      | none ↦ overflow
      | some text ↦
          returns
            (some (
              take 1023 (
                codes "task: "
                ++ (text
                    ++ (codes " status: "
                        ++ (dec_int (status_int task.task_status) ++ (codes " " ++ crlf)))))))
            t
    ]
  ]
]

abbrev pub with_status : TaskStatus → DataPoint → DataPoint
with_status task_status d = record d { task_status = task_status }

unfoldable pub hash_table_modify : ℕ → ℕ → TaskStatus → HashTable → Call ℤ
hash_table_modify fuel key task_status t = elim (search_list fuel (hash_func key) key t) [
  | none ↦ out_of_fuel
  | some none ↦ returns minus_one t
  | some (some i) ↦ elim (get_elem? (t.«data» (hash_func key)) i) [
    | none ↦ overflow
    | some task ↦ returns (pos 0) (record t {
      «data» =
          store t.«data» (hash_func key)
            (set (t.«data» (hash_func key)) i (with_status task_status task));
    })
  ]
]

-- The loop of `hash_table_delete`: the length of the data point that it unlinks and the chain
-- without it.
unfoldable pub unlink : ℕ → List DataPoint → Option (ℕ × List DataPoint)
unlink key [] = none
unlink key (temp ∷ next) =
    let rest = unlink key next in
    if key == temp.key
    then some (temp.data_len, next)
    else elim rest [ none ↦ none | some (n, chain) ↦ some (n, temp ∷ chain) ]

unfoldable pub hash_table_delete : ℕ → HashTable → Call ℤ
hash_table_delete key t = elim (unlink key (t.«data» (hash_func key))) [
  | none ↦ returns minus_one t
  | some (n, chain) ↦ returns (pos 0) (record t {
    «data» = store t.«data» (hash_func key) chain;
    data_size = (t.data_size + (2 ^ 64 - n)) % 2 ^ 64;
  })
]

-- The nodes that `hash_table_get_all` visits, from the chain `index` on.
unfoldable pub visit : ℕ → ℕ → HashTable → List DataPoint
visit zero index t = []
visit (suc rounds) index t = t.«data» index ++ visit rounds (index + 1) t

unfoldable pub hash_table_get_all : HashTable → List DataPoint
hash_table_get_all t = visit hash_table_len 0 t

-- `data_size` is returned as an `int`.
unfoldable pub hash_table_get_dat_size : HashTable → ℤ
hash_table_get_dat_size t =
    let n = t.data_size % 2 ^ 32 in if ltb n (2 ^ 31) then pos n else negsuc (2 ^ 32 - n - 1)

unfoldable pub hash_table_init : HashTable
hash_table_init = record { «data» = λ _. []; data_size = 0 }
