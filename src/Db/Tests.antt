-- ===== src/Db/Tests.antt =====
-- Runs of the hash table on small tables.
use to_do_list_public.Common.{
  take, ◌≢◌, subst, sym, ==_iff, Bool-cases, inl, inr, ℤ, ℕ, ◌<◌, ◌≡◌, refl, pos, some, [], ◌∷◌,
  ◌++◌, ◌==◌, if◌then◌else◌, arith,
}
use to_do_list_public.Db.{
  text_at, task_not_done, task_done, DataPoint, HashTable, returns, out_of_fuel, hash_func,
  search_list, hash_table_insert, hash_table_get, hash_table_modify, hash_table_delete,
  hash_table_get_all, visit,
}
use to_do_list_public.Db.Laws.{printed, first, found_at, search_list_lem, get-modify, modify-hangs}
use to_do_list_public.Db.Lengths.{lengths}
use to_do_list_public.Db.Valid.{AllBelong, IsValid, insert-IsValid, delete-IsValid}
use to_do_list_public.Db.Bag.{points, tail, delete_code, insert_refines, delete_refines}

abbrev point : ℕ → DataPoint
point key = record { key = key; raw_data = λ i. 97; data_len = 3; task_status = task_not_done }

-- two data points whose keys, 1 and 14, belong to one chain
abbrev one_chain : HashTable
one_chain = record { «data» = λ i. if i == 1 then point 1 ∷ point 14 ∷ [] else []; data_size = 6 }

search_list_lem_example :
    search_list 100 (hash_func 14) 14 one_chain ≡ found_at 14 (first 14 one_chain)
search_list_lem_example = search_list_lem 99 14 one_chain

modify-hangs_example :
    (hash_table_modify 100 14 task_done one_chain ≡ out_of_fuel)
    × (hash_table_get 100 14 one_chain ≡ out_of_fuel)
unfolding hash_func
modify-hangs_example = modify-hangs 99 14 one_chain (point 1) refl task_done (ground arith)

-- a data point with the text of one letter
abbrev letter : DataPoint
letter = record (point 1) { raw_data = λ i. if i == 0 then 97 else 0; data_len = 1 }

abbrev letter_first : HashTable
letter_first = record { «data» = λ i. if i == 1 then letter ∷ point 14 ∷ [] else []; data_size = 4 }

get-modify_example :
    (t' : HashTable) × ((hash_table_modify 100 1 task_done letter_first ≡ returns (pos 0) t')
      × ((hash_table_get 100 1 t' ≡ returns (some (take 1023 (printed (97 ∷ []) task_done))) t')
          × (((i : ℕ) → i ≢ hash_func 1 → t'.«data» i ≡ letter_first.«data» i)
              × (t'.data_size ≡ letter_first.data_size))))
unfolding hash_func text_at
get-modify_example = get-modify 99 1 letter_first letter task_done (97 ∷ []) refl refl refl

insert_refines_example :
    (d : DataPoint) × ((t' : HashTable) × ((hash_table_insert
            (some (point 0))
            27
            (λ i. 98)
            5
            one_chain
          ≡ returns (pos 0) t')
        × ((d.key ≡ 27)
            × ((d.data_len ≡ 5)
                × (((i : ℕ) → i < 5 → d.raw_data i ≡ 98)
                    × ((k : ℕ)
                        → points k t' ≡ points k one_chain ++ (if k == 27 then d ∷ [] else [])))))))
insert_refines_example =
    insert_refines (point 0) 27 (λ i. 98) 5 one_chain (ground arith) (omega arith)

delete_refines_example :
    (t' : HashTable) × ((hash_table_delete 14 one_chain
        ≡ returns (delete_code (points 14 one_chain)) t')
      × ((k : ℕ)
          → points k t' ≡ (if k == 14 then tail (points k one_chain) else points k one_chain)))
delete_refines_example = delete_refines 14 one_chain

one_chain-IsValid : IsValid one_chain
unfolding hash_func hash_table_get_all visit lengths
one_chain-IsValid = record { chains = belong; size = refl }
  where
    belong : (i : ℕ) → AllBelong i (one_chain.«data» i)
    belong i = elim (Bool-cases (i == 1)) [
      | inl e ↦
          subst (λ k. AllBelong k (one_chain.«data» k)) (sym ((==_iff i 1).0 e))
            (
              record { chain = refl; nonzero = ground arith; fits = omega arith },
              (record { chain = refl; nonzero = ground arith; fits = omega arith }, tt),
            )
      | inr e ↦ rw e tt
    ]

insert-IsValid_example :
    (r : ℤ) × ((t' : HashTable) × ((hash_table_insert (some (point 0)) 27 (λ i. 98) 5 one_chain
          ≡ returns r t')
        × IsValid t'))
insert-IsValid_example =
    insert-IsValid (some (point 0)) 27 (λ i. 98) 5 one_chain (omega arith) one_chain-IsValid

delete-IsValid_example :
    (r : ℤ) × ((t' : HashTable) × ((hash_table_delete 14 one_chain ≡ returns r t') × IsValid t'))
delete-IsValid_example = delete-IsValid 14 one_chain one_chain-IsValid
