-- ===== src/Response.antt =====
-- A server's response at the process that it goes to (src/util.c): `get_response_from_server` and
-- `parse_response_from_server`. `sscanf` with `%s`, `atoi` and `strtoul` are parameters.
pub mod Words
pub mod Concrete
pub mod Reading
pub mod Fields
pub mod Laws
use to_do_list_public.Common.{
  ℕ, zero, suc, Bool, true, false, not, ◌&&◌, ◌==◌, ℤ, pos, minus_one, negsuc, int_eq, Option, none,
  some, List, [], ◌∷◌, ltb, if◌then◌else◌, length,
}
use to_do_list_public.Text.{Bytes, codes, crlf}
use to_do_list_public.State.{ServerState}
use to_do_list_public.Socket.{SockBufRead, sock_readline}
use to_do_list_public.Server.{max_length}
use to_do_list_public.Server.Parse.{bits, state_of}
use Prim.Native.String.{String}

-- `struct message_response`
pub record MessageResponse : Type 0 where
  pub hash_key : ℕ
  pub client_id : ℤ
  pub status : Bytes
  pub req_no : ℤ
  pub state : ServerState

-- What the code calls: `sscanf(line, "<label>: %s", ...)`, which may assign nothing, `atoi` and
-- `strtoul`.
pub record Conversions : Type 0 where
  pub scan_string : Bytes → Bytes → Option Bytes
  pub atoi : Bytes → ℤ
  pub strtoul : Bytes → ℕ

-- `strncmp(text, prefix, strlen(prefix)) == 0`
abbrev pub starts : Bytes → Bytes → Bool
starts text [] = true
starts [] (c ∷ cs) = false
starts (b ∷ bs) (c ∷ cs) = (b == c) && starts bs cs

abbrev pub task_length : ℕ
task_length = 1024

-- the text that is stored, where it fits the array with its final 0
abbrev pub stored : Bytes → Option Bytes → (Bytes → MessageResponse) → Option MessageResponse
stored old none f = some (f old)
stored old (some text) f = if ltb (length text) task_length then some (f text) else none

-- one of the tests on a line; `old` is what the array holds before
abbrev pub on_line :
    Conversions
    → String
    → Bytes
    → Bytes
    → (Bytes → MessageResponse)
    → MessageResponse
    → Option MessageResponse
on_line c label old line f r =
    if starts line (codes label) then stored old (c.scan_string (codes label) line) f else some r

abbrev pub and_then :
    Option MessageResponse → (MessageResponse → Option MessageResponse) → Option MessageResponse
and_then none f = none
and_then (some r) f = f r

-- what a line changes; `none` is a text that does not fit its array
unfoldable pub read_line : Conversions → Bytes → MessageResponse → Option MessageResponse
read_line c line r =
    and_then (on_line c "Status" r.status line (λ t. record r { status = t }) r) (λ r1.
      and_then (on_line c "Request No" [] line (λ t. record r1 { req_no = c.atoi t }) r1) (λ r2.
        and_then (on_line c "Client ID" [] line (λ t. record r2 { client_id = c.atoi t }) r2) (λ r3.
          and_then (on_line c "Key" [] line (λ t. record r3 { hash_key = c.strtoul t }) r3) (λ r4.
            on_line c "State" [] line (λ t. record r4 { state = state_of (bits (c.atoi t)) }) r4))))

-- How the call ends, with what is in `*response` then: the return of 0, the return of -1 at the end of
-- the file, a use of memory outside of an array, or more lines than the fuel.
pub data Gotten : Type 0 where
  got_response : MessageResponse → Gotten
  no_response : MessageResponse → Gotten
  got_outside : Gotten
  got_unfinished : Gotten

unfoldable pub get_response_from_server : Conversions → ℕ → SockBufRead → MessageResponse → Gotten
get_response_from_server c zero q r = got_unfinished
get_response_from_server c (suc fuel) q r = elim (sock_readline max_length q) [
  | none ↦ got_outside
  | some ([], q') ↦ no_response r
  | some (b ∷ bs, q') ↦ elim (starts (b ∷ bs) crlf) [
    | true ↦ got_response r
    | false ↦ elim (read_line c (b ∷ bs) r) [
      | none ↦ got_outside
      | some r' ↦ get_response_from_server c fuel q' r'
    ]
  ]
]

unfoldable pub parse_response_from_server : MessageResponse → ℤ → ℤ
parse_response_from_server r client_id =
    if not (int_eq r.client_id client_id)
    then negsuc 1
    else (if starts r.status (codes "OK")
        then pos 0
        else (if starts r.status (codes "FAIL") then minus_one else pos 0))
