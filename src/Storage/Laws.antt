-- ===== src/Storage/Laws.antt =====
-- What requests of src/storage.c do beyond the table's own laws.
use to_do_list_public.Common.{
  ℕ, ◌+◌, ◌<◌, ◌≤◌, if◌then◌else◌, ◌≡◌, ◌≢◌, refl, false, pos, List, [], ◌∷◌, arith, leb,
}
use to_do_list_public.Db.{
  DataPoint, HashTable, overflow, hash_table_get_all, hash_table_get_dat_size, max_data_len,
}
use to_do_list_public.Storage.{ClientCtx, Outside, msg_get_all, fits, entry_len, handle_storage}

entry_len-bound : (d : DataPoint) → 20 ≤ entry_len d
unfolding entry_len
entry_len-bound d = omega arith

too_long :
    (len room : ℕ)
    → 20 ≤ len
    → room < 21
    → leb (if leb max_data_len len then max_data_len else len + 1) room ≡ false
too_long len room long small = ground (arith, long, small)

fits-small : (room : ℕ) (ds : List DataPoint) → room < 21 → ds ≢ [] → fits room ds ≡ false
unfolding fits
fits-small room [] small some_points = ground (arith, some_points refl)
fits-small room (d ∷ ds) small some_points =
    rw (too_long (entry_len d) room (entry_len-bound d) small) refl

-- A request for all the tasks writes outside of its buffer whenever there are tasks and their texts
-- have fewer than 21 bytes together: the buffer has room for the texts alone, not for the words
-- and the keys that are printed with them.
pub get_all-overflow :
    (out : Outside) (fuel : ℕ) (ctx : ClientCtx) (t : HashTable) (n : ℕ)
    → ctx.req.msg_type ≡ msg_get_all
    → hash_table_get_dat_size t ≡ pos n
    → n < 21
    → hash_table_get_all t ≢ []
    → handle_storage out fuel ctx t ≡ overflow
unfolding handle_storage
get_all-overflow out fuel ctx t n e size small some_points =
    rw (e, size) (rw (fits-small n (hash_table_get_all t) small some_points) refl)
