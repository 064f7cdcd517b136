-- ===== src/Protocol.antt =====
-- The `Key: value` protocol that the processes speak: the loops of `handle_connection` (src/server.c),
-- `handle_fault_detector_message` (src/replication_manager.c) and
-- `handle_replication_manager_message` (src/factory.c), which are one loop over the lines of a
-- connection, and `str_to_int` (src/util.c). `strtol` and `sscanf` are parameters.
pub mod Int32
pub mod Receive
pub mod Lines
pub mod Numbers
pub mod Scan
use to_do_list_public.Common.{
  ℕ, zero, suc, ◌-◌, ◌%◌, ◌^◌, ◌==◌, Bool, true, false, not, ◌&&◌, ◌||◌, ℤ, pos, negsuc, int_eq,
  Option, none, some, List, [], ◌∷◌, ◌++◌, ltb, if◌then◌else◌, length, ◌≡◌,
}
use to_do_list_public.Text.{Bytes, codes, crlf}
use to_do_list_public.Socket.{SockBufRead, sock_readline}
use Prim.Native.String.{String}

-- `strcmp(a, b) == 0`
abbrev pub bytes_eq : Bytes → Bytes → Bool
bytes_eq [] [] = true
bytes_eq (a ∷ as') (b ∷ bs) = (a == b) && bytes_eq as' bs
bytes_eq _ _ = false

abbrev pub is_key : Bytes → String → Bool
is_key key name = bytes_eq key (codes name)

-- what `strtol` returns, and the text behind the number
abbrev pub Strtol : Type 0
Strtol = Bytes → ℤ × Bytes

-- `(int)v`
unfoldable pub to_int : ℤ → ℤ
to_int (pos n) =
    if ltb (n % 2 ^ 32) (2 ^ 31) then pos (n % 2 ^ 32) else negsuc (2 ^ 32 - 1 - n % 2 ^ 32)
to_int (negsuc n) =
    if ltb (n % 2 ^ 32) (2 ^ 31) then negsuc (n % 2 ^ 32) else pos (2 ^ 32 - 1 - n % 2 ^ 32)

-- the range of `int`
abbrev pub is_int : ℤ → Bool
is_int (pos n) = ltb n (2 ^ 31)
is_int (negsuc n) = ltb n (2 ^ 31)

abbrev pub long_min : ℤ
long_min = negsuc (2 ^ 63 - 1)

abbrev pub number : ℤ × Bytes → Option ℤ
number (v, []) = if int_eq v long_min then none else some (to_int v)
number (v, _ ∷ _) = none

-- `none` is the return of -1.
unfoldable pub str_to_int : Strtol → Bytes → Option ℤ
str_to_int strtol str = number (strtol str)

-- the lines of a message, and its text, which an empty line ends
abbrev pub Fields : Type 0
Fields = List (Bytes × Bytes)

unfoldable pub field_text : Bytes → Bytes → Bytes
field_text key value = key ++ (codes ": " ++ (value ++ crlf))

unfoldable pub text_of : Fields → Bytes
text_of [] = crlf
text_of ((key, value) ∷ rest) = field_text key value ++ text_of rest

-- `sscanf(msg_buf, "%[^:]: %[^\r\n]", key, value)`, where both are assigned
abbrev pub Scan : Type 0
Scan = Bytes → Option (Bytes × Bytes)

-- The texts that `scan` takes apart as they were put together: a key is not empty and has no colon,
-- a value is not empty, begins with no blank and has no end of line.
abbrev pub all_of : (ℕ → Bool) → Bytes → Bool
all_of p [] = true
all_of p (c ∷ cs) = p c && all_of p cs

abbrev pub is_key_byte : ℕ → Bool
is_key_byte c = not (c == 58) && (not (c == 10) && not (c == 0))

abbrev pub is_value_byte : ℕ → Bool
is_value_byte c = not (c == 13) && (not (c == 10) && not (c == 0))

abbrev pub is_blank : ℕ → Bool
is_blank c = c == 32 || (ltb 8 c && ltb c 14)

abbrev pub is_key_text : Bytes → Bool
is_key_text [] = false
is_key_text (c ∷ cs) = all_of is_key_byte (c ∷ cs)

abbrev pub is_value_text : Bytes → Bool
is_value_text [] = false
is_value_text (c ∷ cs) = not (is_blank c) && all_of is_value_byte (c ∷ cs)

abbrev pub Scans : Scan → Type 0
Scans scan =
    (key value : Bytes)
    → is_key_text key ≡ true
    → is_value_text value ≡ true
    → scan (field_text key value) ≡ some (key, value)

-- what a handler makes of a field: its message with the field, or a refusal
pub data Parsed (A : Type 0) : Type 0 where
  accepts : A → Parsed A
  refuses : String → A → Parsed A

-- a conversion, or the failure of it, for which `why` is printed or answered
abbrev pub int_field : {A : Type 0} → String → A → Option ℤ → (ℤ → A) → Parsed A
int_field why m none f = refuses why m
int_field why m (some v) f = accepts (f v)

-- `MAX_REQ_FIELDS`, and `MAXMSGSIZE`, the size of a `struct message_modify`
abbrev pub max_req_fields : ℕ
max_req_fields = 20

abbrev pub max_msg_size : ℕ
max_msg_size = 2088

pub data Line : Type 0 where
  outside : Line
  closed : Line
  empty : SockBufRead → Line
  text : Bytes → SockBufRead → Line

abbrev pub line_of : Option (Bytes × SockBufRead) → Line
line_of none = outside
line_of (some ([], r)) = closed
line_of (some (a ∷ b ∷ [], r)) = if a == 13 && b == 10 then empty r else text (a ∷ b ∷ []) r
line_of (some (a ∷ bs, r)) = text (a ∷ bs) r

unfoldable pub next_line : SockBufRead → Line
next_line r = line_of (sock_readline max_msg_size r)

-- How the loop ends: with a read outside of the buffer, the end of the file, too many fields, a line
-- that is no field, a field that the handler refuses, or the whole message.
pub data Received (A : Type 0) : Type 0 where
  read_outside : Received A
  ended : A → Received A
  too_many : A → Received A
  malformed : A → Received A
  refused : String → A → Received A
  complete : A → SockBufRead → Received A

module _ {A : Type 0} (scan : Scan) (parse : A → Bytes × Bytes → Parsed A) where
  -- The loop with `n` fields left; what is in `msg_buf` behind the line is not modelled.
  unfoldable pub read_fields : ℕ → SockBufRead → A → Received A
  read_fields zero r a = elim (next_line r) [
    | outside ↦ read_outside
    | closed ↦ ended a
    | empty r' ↦ complete a r'
    | text line r' ↦ too_many a
  ]
  read_fields (suc n) r a = elim (next_line r) [
    | outside ↦ read_outside
    | closed ↦ ended a
    | empty r' ↦ complete a r'
    | text line r' ↦ elim (scan line) [
      | none ↦ malformed a
      | some field ↦ elim (parse a field) [
        | refuses why a' ↦ refused why a'
        | accepts a' ↦ read_fields n r' a'
      ]
    ]
  ]

module _ {A : Type 0} (parse : A → Bytes × Bytes → Parsed A) where
  -- the fields of a message, one after the other
  unfoldable pub parse_fields : A → Fields → Parsed A
  parse_fields a [] = accepts a
  parse_fields a (field ∷ rest) = elim (parse a field) [
    | refuses why a' ↦ refuses why a'
    | accepts a' ↦ parse_fields a' rest
  ]
