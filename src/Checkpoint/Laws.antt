-- ===== src/Checkpoint/Laws.antt =====
-- What becomes of a checkpoint (`write_check_point` of src/chkpt.c) at a backup (src/server.c), and of
-- one that is not sent whole.
use to_do_list_public.Common.{
  ℕ, ◌≤◌, ◌<◌, ◌≡◌, sym, subst, refl, ap, ◌∙◌, ℤ, pos, true, some, [], ◌∷◌, ◌++◌, arith, length,
  take, append_assoc, length-append,
}
use to_do_list_public.Text.{Bytes}
use to_do_list_public.Log.{normal}
use to_do_list_public.Socket.{SockBufRead}
use to_do_list_public.Socket.Reader.{view, IsGood}
use to_do_list_public.Protocol.{Strtol, is_int, Scan, Scans}
use to_do_list_public.Protocol.Int32.{Reads}
use to_do_list_public.Server.{World}
use to_do_list_public.Server.Parse.{init_client_ctx}
use to_do_list_public.Server.Connection.{stuck, handle_connection}
use to_do_list_public.Server.Enqueue.{
  IsReady, Offered, to_log, to_log-Offered, is_passive_backup, is_recovering,
}
use to_do_list_public.Log.Refines.{Contents}
use to_do_list_public.Checkpoint.{WriteOutcome, whole, header, write_check_point}
use to_do_list_public.Checkpoint.Transfer.{
  write_file-all, checkpoint, received_whole, received_part,
}

take-length : (xs ys : Bytes) → take (length xs) (xs ++ ys) ≡ xs
take-length [] ys = refl
take-length (x ∷ xs) ys = ap (λ us. x ∷ us) (take-length xs ys)

written_lem :
    (writes : ℕ → WriteOutcome) (server_id : ℤ) (num : ℕ) (file : Bytes)
    → ((k : ℕ) → writes k ≡ whole)
    → write_check_point writes server_id num (some file)
      ≡ header server_id num (length file) ++ file
unfolding write_check_point
written_lem writes server_id num file ok = rw (ok 0) (
    ap (λ us. header server_id num (length file) ++ us)
      (write_file-all writes (length file) 1 file ok (omega arith)))

length-prefix : (xs ys : Bytes) → length xs ≤ length (xs ++ ys)
length-prefix xs ys = omega (arith, length-append xs ys)

module _ (scan : Scan) (strtol : Strtol) (strtoul : Bytes → ℕ) (scans : Scans scan)
    (reads : Reads strtol) (fuel : ℕ) (fd server_id : ℤ) (num : ℕ) (w : World) (r : SockBufRead)
    (rest : Bytes) (good : IsGood r) (int_id : is_int server_id ≡ true)
    (int_num : is_int (pos num) ≡ true) where
  -- A backup that reads, on a new connection without failures, a checkpoint that `write_check_point`
  -- has written with writes that take all their bytes offers a request of type 6 to the queue of normal messages,
  -- with the sender's identifier and number and with the file as its payload, unchanged and whole,
  -- however the bytes arrive and whatever follows them. Where the queue is full the request is
  -- dropped; otherwise it stands behind the others, marked as one of the backlog if and only if the
  -- server is a passive backup. The workers are told to prune if and only if it is one, also where
  -- the queue is full, and the connection is closed at once if the server is active and
  -- recovering. As many rounds of the loop as the file has bytes are enough. The file is not empty,
  -- the numbers and its length are ones of an `int`, `strtol` reads what `%d` prints, `sscanf` takes
  -- the lines apart, and the node that `malloc` returns is a new one.
  pub checkpoint_transfer :
      (writes : ℕ → WriteOutcome) (file : Bytes)
      → ((k : ℕ) → writes k ≡ whole)
      → 0 < length file
      → is_int (pos (length file)) ≡ true
      → length file ≤ fuel
      → view r ≡ write_check_point writes server_id num (some file) ++ rest
      → (c : Contents) → IsReady w c
      → Offered c normal
          (checkpoint fd server_id num (length file))
          file
          (is_passive_backup w.server)
          (is_recovering w.server)
          w
          (handle_connection scan strtol strtoul fuel (init_client_ctx fd) r w)
  checkpoint_transfer writes file ok some_ int_size le e c ready =
      let m = checkpoint fd server_id num (length file) in
      let prune = is_passive_backup w.server in
      let closes = is_recovering w.server in
      let come =
        e
        ∙ ap (λ us. us ++ rest) (written_lem writes server_id num file ok)
        ∙ append_assoc (header server_id num (length file)) file rest in
      let run =
        received_whole strtol strtoul reads fd server_id num (length file) int_id int_num int_size
          fuel w some_ scan scans r (file ++ rest) good come (length-prefix file rest) le
        ∙ ap (λ us. to_log m us normal prune closes w) (take-length file rest) in
      subst (Offered c normal m file prune closes w) (sym run)
        (to_log-Offered m file normal prune closes w c ready)

  -- A checkpoint of which fewer bytes arrive than its header tells, before the end of the file, keeps the
  -- thread that handles its connection for ever: with every number of rounds the loop over the
  -- payload is unfinished. The numbers are ones of an `int`, `strtol` reads what `%d` prints, and `sscanf` takes
  -- the lines apart.
  pub checkpoint_cut :
      (size : ℕ)
      → is_int (pos size) ≡ true
      → length rest < size
      → view r ≡ header server_id num size ++ rest
      → handle_connection scan strtol strtoul fuel (init_client_ctx fd) r w ≡ stuck
  checkpoint_cut size int_size lt e =
      received_part strtol strtoul reads fd server_id num size int_id int_num int_size fuel w
        (omega (arith, lt)) scan scans r rest good e lt
