-- ===== src/State.antt =====
-- The run state of a server: replication mode and server state (src/state.c, include/state.h), the
-- checkpoint thread that they start and stop (src/chkpt.c), quiescence (src/worker.c) and the
-- replication manager's message (`handle_rep_msg` of src/server.c).
-- An enumeration that a message fills from an integer has one more constructor for the integers
-- that are no enumerator. `assert` is on, as in the Makefile's flags.
pub mod Thread
pub mod Laws
pub mod Steps
pub mod Calm
pub mod Reachable
mod Tests
use to_do_list_public.Common.{
  ℕ, ◌+◌, Bool, true, false, not, ◌&&◌, ◌||◌, ℤ, pos, Option, none, some, leb, ltb, ◌==◌,
  if◌then◌else◌,
}
use Thread.{Chkpt, start_ckhpt_thread, kill_chkpt_thrd_if_running}

-- `rep_mode_t`
pub data RepMode : Type 0 where
  unknown_rep : RepMode
  active_rep : RepMode
  passive_rep : RepMode
  other_rep : ℕ → RepMode

-- `server_states_t`
pub data ServerState : Type 0 where
  unknown_state : ServerState
  quiesce : ServerState
  active_running : ServerState
  active_recover : ServerState
  passive_primary : ServerState
  passive_backup : ServerState
  passive_preprimary : ServerState
  other_state : ℕ → ServerState

abbrev pub mode_code : RepMode → ℕ
mode_code unknown_rep = 0
mode_code active_rep = 1
mode_code passive_rep = 2
mode_code (other_rep n) = 3 + n

abbrev pub state_code : ServerState → ℕ
state_code unknown_state = 0
state_code quiesce = 1
state_code active_running = 2
state_code active_recover = 3
state_code passive_primary = 4
state_code passive_backup = 5
state_code passive_preprimary = 6
state_code (other_state n) = 7 + n

abbrev pub is_mode : RepMode → RepMode → Bool
is_mode a b = mode_code a == mode_code b

abbrev pub is_state : ServerState → ServerState → Bool
is_state a b = state_code a == state_code b

-- A failed assertion ends the process; a call may also wait for ever.
pub data Outcome {ℓ} (A : Type ℓ) : Type ℓ where
  done : A → Outcome A
  aborts : Outcome A
  hangs : Outcome A

infixl 5 ◌>>=◌ ◌>>◌
abbrev pub ◌>>=◌ {ℓ κ} : {A : Type ℓ} {B : Type κ} → Outcome A → (A → Outcome B) → Outcome B
done a >>= f = f a
aborts >>= f = aborts
hangs >>= f = hangs

abbrev pub ◌>>◌ {ℓ} : {B : Type ℓ} → Outcome (Unit {0}) → Outcome B → Outcome B
m >> k = m >>= λ _. k

-- `dbg_requires` and `dbg_ensures`
abbrev pub assert : Bool → Outcome (Unit {0})
assert true = done tt
assert false = aborts

-- The globals: `server_state`, `prev_state` of worker.c, and those of chkpt.c.
pub record Server : Type 0 where
  pub rep_mode : RepMode
  pub state : ServerState
  pub prev_state : ServerState
  pub chkpt : Chkpt

unfoldable pub set_mode : RepMode → Server → Outcome Server
set_mode rep_mode s = do
  assert (is_mode s.rep_mode unknown_rep)
  assert (
      ltb (mode_code unknown_rep) (mode_code rep_mode)
      && leb (mode_code rep_mode) (mode_code passive_rep))
  done (record s { rep_mode = rep_mode })

-- the states that `set_state` accepts in a mode
unfoldable pub is_allowed : RepMode → ServerState → Bool
is_allowed mode s_state =
    if is_mode mode active_rep
    then is_state s_state active_running
      || is_state s_state active_recover
      || is_state s_state quiesce
    else (if is_mode mode passive_rep
        then is_state s_state passive_primary
          || is_state s_state passive_backup
          || is_state s_state passive_preprimary
        else true)

-- the checkpoint thread is started for a primary and stopped for a backup
unfoldable pub update_thread : RepMode → ServerState → Chkpt → Outcome Chkpt
update_thread mode s_state c =
    if is_mode mode passive_rep && is_state s_state passive_primary
    then done (start_ckhpt_thread c)
    else (if is_mode mode passive_rep && is_state s_state passive_backup
        then elim (kill_chkpt_thrd_if_running c) [ none ↦ hangs | some c' ↦ done c' ]
        else done c)

unfoldable pub set_state : ServerState → Server → Outcome Server
set_state s_state s = do
  assert (not (is_mode s.rep_mode unknown_rep))
  assert (is_allowed s.rep_mode s_state)
  c ← update_thread s.rep_mode s_state s.chkpt
  done (record s { state = s_state; chkpt = c })

-- worker.c
unfoldable pub put_in_quiesence : Server → Outcome Server
put_in_quiesence s = set_state quiesce (record s { prev_state = s.state })

unfoldable pub remove_from_quiesence : Server → Outcome Server
remove_from_quiesence s = do
  s' ← set_state s.prev_state s
  done (record s' { prev_state = s'.state })

-- `rep_mgr_msg_t`, less the addresses of the backups
pub record RepMgrMsg : Type 0 where
  pub rep_mode : RepMode
  pub server_state : ServerState
  pub checkpoint_freq : ℤ

-- server.c; `set_bckup_servers` only stores addresses
unfoldable pub handle_rep_msg : RepMgrMsg → Server → Outcome Server
handle_rep_msg msg s = do
  s' ← (if is_mode s.rep_mode unknown_rep then set_mode msg.rep_mode s else done s)
  c ← elim (kill_chkpt_thrd_if_running s'.chkpt) [ none ↦ hangs | some c' ↦ done c' ]
  set_state msg.server_state (record s' { chkpt = record c { freq = msg.checkpoint_freq } })
