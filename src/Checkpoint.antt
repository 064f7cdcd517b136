-- ===== src/Checkpoint.antt =====
-- The sending of a checkpoint to the backups (src/chkpt.c): what `write_check_point` and
-- `send_checkpoint_ondemand` write. Connections, the outcomes of the writes and the exported file are
-- parameters. The thread that sends checkpoints from time to time is State/Thread.
pub mod Transfer
pub mod Laws
mod Tests
use to_do_list_public.Common.{
  ℕ, zero, suc, ◌+◌, ◌^◌, ◌%◌, Bool, true, false, ℤ, Option, none, some, List, [], ◌∷◌, ◌++◌,
  if◌then◌else◌, is_negative, length, take, drop,
}
use to_do_list_public.Text.{Bytes, codes, crlf, line, dec, dec_int}
use to_do_list_public.Manager.Data.{ServerInfo}
use to_do_list_public.Storage.{msg_code, msg_chk_pt}
use to_do_list_public.Server.{max_length}
use to_do_list_public.Server.Parse.{BsvrCtx}

-- What a `write` does: it fails, takes all its bytes, or the first `n` of them.
pub data WriteOutcome : Type 0 where
  failed : WriteOutcome
  whole : WriteOutcome
  part : ℕ → WriteOutcome

-- What arrives of a write and of those that follow it; the bytes that a write has not taken are not
-- written again.
abbrev pub and_rest : WriteOutcome → Bytes → Bytes → Bytes
and_rest failed bytes rest = []
and_rest whole bytes rest = bytes ++ rest
and_rest (part n) bytes rest = take n bytes ++ rest

-- The `read` and `write` loop over the file, whose reads are full ones; `writes i` is the outcome of
-- the write number `i` on the connection. Each round takes bytes from the file, so that its
-- length is enough fuel.
unfoldable pub write_file : (ℕ → WriteOutcome) → ℕ → ℕ → Bytes → Bytes
write_file writes zero i file = []
write_file writes (suc fuel) i [] = []
write_file writes (suc fuel) i (b ∷ bs) =
    let rest = write_file writes fuel (i + 1) (drop max_length (b ∷ bs)) in
    and_rest (writes i) (take max_length (b ∷ bs)) rest

unfoldable pub header : ℤ → ℕ → ℕ → Bytes
header server_id chk_point_num size =
    line "Client ID" (dec_int server_id)
    ++ (line "Request No" (dec chk_point_num)
        ++ (line "Message Type" (dec (msg_code msg_chk_pt))
            ++ (line "Data Length" (dec size) ++ crlf)))

-- what `write_check_point` writes to a backup; `none` is a file that cannot be opened
unfoldable pub write_check_point : (ℕ → WriteOutcome) → ℤ → ℕ → Option Bytes → Bytes
write_check_point writes server_id chk_point_num none = []
write_check_point writes server_id chk_point_num (some file) =
    and_rest (writes 0) (header server_id chk_point_num (length file))
      (write_file writes (length file) 1 file)

-- The process: its identifier, its checkpoint number, and the backups' addresses.
pub record Sender : Type 0 where
  pub server_id : ℤ
  pub chk_point_num : ℕ
  pub bckup_svr_0 : BsvrCtx
  pub bckup_svr_1 : BsvrCtx

-- What is written to a backup that is connected to
pub record Written : Type 0 where
  pub target : BsvrCtx
  pub bytes : Bytes

-- the descriptors of `open_ports_secondary`
unfoldable pub open_ports_secondary : (ServerInfo → ℤ) → Sender → ℤ × ℤ
open_ports_secondary connect_to_server s =
    (connect_to_server s.bckup_svr_0.info, connect_to_server s.bckup_svr_1.info)

-- one round of the loop over the backups
abbrev pub write_to :
    (ℤ → ℕ → WriteOutcome) → Sender → Option Bytes → BsvrCtx → ℤ → List Written → List Written
write_to writes s file backup fd rest =
    if is_negative fd
    then rest
    else record {
      target = backup;
      bytes = write_check_point (writes fd) s.server_id s.chk_point_num file;
    }
      ∷ rest

-- `file` is what `export_db` leaves.
unfoldable pub send_checkpoint_ondemand :
    (ServerInfo → ℤ) → (ℤ → ℕ → WriteOutcome) → Option Bytes → Sender → List Written × Sender
send_checkpoint_ondemand connect_to_server writes file s =
    let (first, second) = open_ports_secondary connect_to_server s in
    (
      write_to writes s file s.bckup_svr_0 first (write_to writes s file s.bckup_svr_1 second []),
      record s { chk_point_num = (s.chk_point_num + 1) % 2 ^ 64 },
    )
