-- ===== src/Client.antt =====
-- The client (src/client.c): the requests that it writes for what its user enters, and
-- `send_and_get_response`, which sends one to every server and waits for the responses. What
-- `scanf` reads, the connections and the events that `poll` reports are arguments.
pub mod Requests
pub mod Fields
pub mod Events
pub mod Answers
pub mod Laws
mod Tests
use to_do_list_public.Common.{
  ℕ, zero, suc, ◌+◌, ◌-◌, Bool, true, false, not, ◌&&◌, ◌==◌, ℤ, pos, minus_one, int_eq, Option,
  none, some, List, [], ◌∷◌, ◌++◌, ltb, if◌then◌else◌, is_negative, length,
}
use to_do_list_public.Text.{Bytes, codes, crlf, line, dec, dec_int}
use to_do_list_public.Db.{TaskStatus, task_not_done, task_done, other_status}
use to_do_list_public.Storage.{msg_code, msg_add, msg_remove, msg_modify}
use to_do_list_public.Socket.{SockBufRead}
use to_do_list_public.Response.{
  MessageResponse, Conversions, starts, Gotten, got_response, no_response, got_outside,
  got_unfinished, get_response_from_server, parse_response_from_server,
}

-- `struct message_add`, `struct message_remove` and `struct message_modify`
pub record MessageAdd : Type 0 where
  pub task : Bytes
  pub task_date : Bytes
  pub task_status : TaskStatus

pub record MessageRemove : Type 0 where
  pub task : Bytes

pub record MessageModify : Type 0 where
  pub task : Bytes
  pub new_task : Bytes
  pub new_date : Bytes
  pub new_task_status : TaskStatus
  pub task_string_modified : Bool
  pub date_modified : Bool
  pub status_modified : Bool

abbrev pub status_code : TaskStatus → ℕ
status_code task_not_done = 0
status_code task_done = 1
status_code (other_status n) = 2 + n

-- the bits of `mod_flags`
abbrev pub mod_flags : MessageModify → ℕ
mod_flags m =
    (if m.task_string_modified then 1 else 0)
    + ((if m.date_modified then 2 else 0) + (if m.status_modified then 4 else 0))

abbrev common_lines : ℕ → ℤ → ℕ → Bytes → Bytes
common_lines request_no client_id msg_type rest =
    line "Request No" (dec request_no)
    ++ (line "Client ID" (dec_int client_id) ++ (line "Message Type" (dec msg_type) ++ rest))

unfoldable pub create_add_message_to_server : ℕ → MessageAdd → ℤ → Bytes
create_add_message_to_server request_no m client_id =
    common_lines request_no client_id (msg_code msg_add) (
      line "Task" m.task
      ++ (line "Task status" (dec (status_code m.task_status))
          ++ (line "Due date" m.task_date ++ crlf)))

unfoldable pub create_remove_message_to_server : ℕ → MessageRemove → ℤ → Bytes
create_remove_message_to_server request_no m client_id =
    common_lines request_no client_id (msg_code msg_remove) (line "Key" m.task ++ crlf)

unfoldable pub create_modify_message_to_server : ℕ → MessageModify → ℤ → Bytes
create_modify_message_to_server request_no m client_id =
    common_lines request_no client_id (msg_code msg_modify) (
      line "Flags" (dec (mod_flags m))
      ++ (line "Key" m.task
          ++ (line "New Task" m.new_task
              ++ (line "New Date" m.new_date
                  ++ (line "New status" (dec (status_code m.new_task_status)) ++ crlf)))))

-- The message of the four texts that the user enters. `old` is what stands in its memory: the `memset`
-- before clears only the size of a `struct message_remove`, so neither the flags nor the status.
unfoldable pub get_inputs_for_message_modify :
    MessageModify → (task new_task new_date status : Bytes) → MessageModify
get_inputs_for_message_modify old task new_task new_date status = record {
  task = task;
  new_task = new_task;
  new_date = new_date;
  new_task_status =
      if starts status (codes "NA")
      then old.new_task_status
      else (if starts status (codes "DONE")
          then task_done
          else (if starts status (codes "NOT_DONE") then task_not_done else old.new_task_status));
  task_string_modified = if starts new_task (codes "NA") then old.task_string_modified else true;
  date_modified = if starts new_date (codes "NA") then old.date_modified else true;
  status_modified = if starts status (codes "NA") then old.status_modified else true;
}

-- `connect_to_server` and `write` for a server: no connection, a failed write, or a descriptor and
-- what arrives on it
pub data Reach : Type 0 where
  not_connected : Reach
  not_written : Reach
  reached : ℤ → SockBufRead → Reach

-- `struct pollfd`, with whether POLLIN is asked for, and the connection; the array is cleared first
pub record Pollfd : Type 0 where
  pub fd : ℤ
  pub events : Bool
  pub input : Option SockBufRead

abbrev pub no_pollfd : Pollfd
no_pollfd = record { fd = pos 0; events = false; input = none }

abbrev pub pollfd_of : Reach → Pollfd
pollfd_of not_connected = no_pollfd
pollfd_of not_written = no_pollfd
pollfd_of (reached fd q) = record { fd = fd; events = true; input = some q }

abbrev pub is_reached : Reach → Bool
is_reached (reached fd q) = true
is_reached _ = false

-- the loop over the servers: the entry of each, by its index, and the number of those connected to
unfoldable pub open_all : List Reach → (ℕ → Pollfd) × ℕ
open_all [] = (λ i. no_pollfd, 0)
open_all (s ∷ rest) =
    let (others, nfds) = open_all rest in
    (λ i. if i == 0 then pollfd_of s else others (i - 1), if is_reached s then nfds + 1 else nfds)

-- The loop over the events: the entries, the number of open descriptors, `*response`, the global
-- `response_no_g`, `success`, and the descriptors that were closed, the last one first.
pub record Polling : Type 0 where
  pub pfds : ℕ → Pollfd
  pub num_open_fds : ℕ
  pub response : MessageResponse
  pub response_no_g : ℕ
  pub success : Bool
  pub closed : List ℤ

abbrev pub close_entry : ℕ → Polling → Polling
close_entry j p = record p {
  pfds = λ i. if i == j then record (p.pfds j) { fd = minus_one } else p.pfds i;
  num_open_fds = p.num_open_fds - 1;
  closed = (p.pfds j).fd ∷ p.closed;
}

-- a response that was read, after its connection is closed
unfoldable pub take_response : ℤ → Polling → Polling
take_response client_id p =
    if int_eq p.response.req_no (pos p.response_no_g)
    then p
    else (let p' = record p { response_no_g = p.response_no_g + 1 } in
        if is_negative (parse_response_from_server p.response client_id)
        then p'
        else record p' { success = true })

abbrev pub read_entry : ℤ → ℕ → Polling → Gotten → Option Polling
read_entry client_id j p (got_response r) =
    some (take_response client_id (close_entry j (record p { response = r })))
read_entry client_id j p (no_response r) =
    some (record p { response = r; closed = (p.pfds j).fd ∷ p.closed })
read_entry client_id j p got_outside = none
read_entry client_id j p got_unfinished = none

-- An entry for which `poll` reports POLLIN; `none` is a response that does not fit, or that has more
-- lines than the fuel, or one that is read from the descriptor 0.
unfoldable pub poll_entry : Conversions → ℕ → ℤ → ℕ → Polling → Option Polling
poll_entry c fuel client_id j p = elim (p.pfds j).input [
  | none ↦ none
  | some q ↦ read_entry client_id j p (get_response_from_server c fuel q p.response)
]

abbrev pub bind : Option Polling → (Polling → Option Polling) → Option Polling
bind none f = none
bind (some p) f = f p

-- the loop over the `n` entries from `j` on
unfoldable pub poll_entries : Conversions → ℕ → ℤ → (ℕ → Bool) → ℕ → ℕ → Polling → Option Polling
poll_entries c fuel client_id revents zero j p = some p
poll_entries c fuel client_id revents (suc n) j p =
    bind (if revents j then poll_entry c fuel client_id j p else some p)
      (poll_entries c fuel client_id revents n (j + 1))

-- the loop over the entries that are still open, after a success
unfoldable pub close_all : ℕ → ℕ → Polling → Polling
close_all zero j p = p
close_all (suc n) j p =
    close_all n (j + 1) (if int_eq (p.pfds j).fd minus_one then p else close_entry j p)

unfoldable pub poll_round : Conversions → ℕ → ℤ → (ℕ → Bool) → ℕ → Polling → Option Polling
poll_round c fuel client_id revents nfds p =
    bind (poll_entries c fuel client_id revents nfds 0 p)
      (λ p'. some (if p'.success then close_all nfds 0 p' else p'))

-- How `send_and_get_response` ends: it returns, uses memory outside of its arrays or waits for a
-- response on the descriptor 0, or needs more rounds than there are.
pub data Exchange : Type 0 where
  returned : Polling → Exchange
  exchange_outside : Exchange
  waiting : Polling → Exchange

-- The loop over the rounds of `poll`, each with what it reports.
unfoldable pub poll_loop : Conversions → ℕ → ℤ → List (ℕ → Bool) → ℕ → Polling → Exchange
poll_loop c fuel client_id [] nfds p = if p.num_open_fds == 0 then returned p else waiting p
poll_loop c fuel client_id (revents ∷ more) nfds p =
    if p.num_open_fds == 0 then returned p else (elim (poll_round c fuel client_id revents nfds p) [
      | none ↦ exchange_outside
      | some p' ↦ poll_loop c fuel client_id more nfds p'
    ])

unfoldable pub send_and_get_response :
    Conversions → ℕ → ℤ → List Reach → List (ℕ → Bool) → MessageResponse → ℕ → Exchange
send_and_get_response c fuel client_id servers events response response_no_g =
    let (pfds, nfds) = open_all servers in
    poll_loop c fuel client_id events nfds (record {
      pfds = pfds;
      num_open_fds = nfds;
      response = response;
      response_no_g = response_no_g;
      success = false;
      closed = [];
    })

-- the result of the call: 0 after a success, or else -1
abbrev pub result : Polling → ℤ
result p = if p.success then pos 0 else minus_one
