-- ===== src/Socket.antt =====
-- The buffered reads and the writes on a connection (src/util.c, include/util.h). What the peer
-- and the kernel give is a list of the arrivals on the connection: bytes, of which a call of `read`
-- gets as many as it asks for or all there are, an interruption (EINTR) or a failure. The end of
-- the list is the end of the file.
pub mod Stream
pub mod Reader
pub mod OneByte
pub mod Lines
mod Tests
use to_do_list_public.Common.{
  ℕ, zero, suc, ◌+◌, ◌-◌, ◌^◌, Bool, true, false, ℤ, pos, minus_one, Option, none, some, List, [],
  ◌∷◌, ◌++◌, ltb, leb, ◌==◌, if◌then◌else◌, length, take, drop, get_or,
}
use to_do_list_public.Text.{Bytes}

pub data Arrival : Type 0 where
  chunk : Bytes → Arrival
  interrupted : Arrival
  failed : Arrival

abbrev pub Connection : Type 0
Connection = List Arrival

-- what a call of `sock_readn` leaves: its result, the bytes written to the buffer and what is
-- still to arrive
pub record ReadN : Type 0 where
  pub error : Bool
  pub bytes : Bytes
  pub rest : Connection

abbrev pub got : Bytes → ReadN → ReadN
got bytes r = record r { bytes = bytes ++ r.bytes }

-- The loop with `n` bytes left. A read of no bytes is the end of the file.
unfoldable pub sock_readn : ℕ → Connection → ReadN
sock_readn n [] = record { error = false; bytes = []; rest = [] }
sock_readn n (interrupted ∷ more) =
    let next = sock_readn n more in
    if n == 0 then record { error = false; bytes = []; rest = interrupted ∷ more } else next
sock_readn n (failed ∷ more) =
    if n == 0
    then record { error = false; bytes = []; rest = failed ∷ more }
    else record { error = true; bytes = []; rest = more }
sock_readn n (chunk [] ∷ more) = record { error = false; bytes = []; rest = chunk [] ∷ more }
sock_readn n (chunk (b ∷ bs) ∷ more) =
    let next = got (b ∷ bs) (sock_readn (n - length (b ∷ bs)) more) in
    if leb (length (b ∷ bs)) n
    then next
    else record { error = false; bytes = take n (b ∷ bs); rest = chunk (drop n (b ∷ bs)) ∷ more }

abbrev pub buf_len : ℕ
buf_len = 8192

-- `sock_buf_read`: the contents of the buffer, the index that `buf_ptr` points to, and `bytes_pend`,
-- a `size_t`
pub record SockBufRead : Type 0 where
  pub input : Connection
  pub buf : ℕ → ℕ
  pub buf_ptr : ℕ
  pub bytes_pend : ℕ

abbrev pub init_buf_fd : Connection → SockBufRead
init_buf_fd input = record { input = input; buf = λ i. 0; buf_ptr = 0; bytes_pend = 0 }

-- the bytes of the buffer from an index on
unfoldable pub window : (ℕ → ℕ) → ℕ → ℕ → Bytes
window buf i zero = []
window buf i (suc n) = buf i ∷ window buf (i + 1) n

-- `bytes_pend = sock_readn(...)`; -1 is the largest `size_t`, and never below 0
unfoldable pub refill : SockBufRead → SockBufRead
refill r =
    let n = sock_readn buf_len r.input in
    record {
      input = n.rest;
      buf = λ i. get_or n.bytes i (r.buf i);
      buf_ptr = 0;
      bytes_pend = if n.error then 2 ^ 64 - 1 else length n.bytes;
    }

abbrev pub smaller : ℕ → ℕ → ℕ
smaller n m = if ltb n m then n else m

-- `none` is a read outside of the buffer. The pointer advances by what the number of pending bytes
-- gives after it was decreased.
unfoldable pub sock_read_from : ℕ → SockBufRead → Option (Bytes × SockBufRead)
sock_read_from n r =
    if r.bytes_pend == 0
    then some ([], r)
    else (if leb (r.buf_ptr + smaller n r.bytes_pend) buf_len
        then some (
          window r.buf r.buf_ptr (smaller n r.bytes_pend),
          record r {
            buf_ptr = r.buf_ptr + smaller n (r.bytes_pend - smaller n r.bytes_pend);
            bytes_pend = r.bytes_pend - smaller n r.bytes_pend;
          },
        )
        else none)

unfoldable pub sock_read : ℕ → SockBufRead → Option (Bytes × SockBufRead)
sock_read n r = sock_read_from n (if r.bytes_pend == 0 then refill r else r)

abbrev pub more_of : ℕ → Option (Bytes × SockBufRead) → Option (Bytes × SockBufRead)
more_of c none = none
more_of c (some (line, r)) = some (c ∷ line, r)

-- The loop of `sock_readline` with `nleft` bytes of the caller's buffer left.
unfoldable pub sock_readline : ℕ → SockBufRead → Option (Bytes × SockBufRead)
sock_readline zero r = some ([], r)
sock_readline (suc nleft) r = elim (sock_read 1 r) [
  | none ↦ none
  | some ([], r') ↦ some ([], r')
  | some (c ∷ cs, r') ↦ (if c == 10 then some (c ∷ [], r') else more_of c (sock_readline nleft r'))
]

-- What a call of `write` does: it takes some of the bytes, is interrupted, or fails.
pub data Write : Type 0 where
  takes : ℕ → Write
  write_interrupted : Write
  write_failed : Write

-- what `sock_writen` leaves: its result and the bytes that were taken
pub record WriteN : Type 0 where
  pub error : Bool
  pub bytes : Bytes

abbrev pub wrote : Bytes → Option WriteN → Option WriteN
wrote bytes none = none
wrote bytes (some w) = some (record w { bytes = bytes ++ w.bytes })

-- The loop on the bytes left; `none` waits for a call that is not in the list.
unfoldable pub sock_writen : List Write → Bytes → Option WriteN
sock_writen calls [] = some (record { error = false; bytes = [] })
sock_writen [] (b ∷ bs) = none
sock_writen (takes k ∷ calls) (b ∷ bs) =
    wrote (take k (b ∷ bs)) (sock_writen calls (drop k (b ∷ bs)))
sock_writen (write_interrupted ∷ calls) (b ∷ bs) = sock_writen calls (b ∷ bs)
sock_writen (write_failed ∷ calls) (b ∷ bs) = some (record { error = true; bytes = [] })
