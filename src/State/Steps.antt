-- ===== src/State/Steps.antt =====
-- The steps of a server as a relation, the states that it reaches, and the invariant of its mode,
-- state and checkpoint thread, with what `set_state` and `set_mode` do to it.
use to_do_list_public.Common.{
  some, ℕ, ◌≡◌, refl, Bool, true, false, ◌&&◌, ◌||◌, none, arith, if◌then◌else◌, pos,
}
use to_do_list_public.State.Thread.{
  wait, is_positive, Chkpt, IsQuiet, kill_chkpt_thrd_if_running, start_ckhpt_thread, thread_step,
}
use to_do_list_public.State.{
  RepMode, unknown_rep, active_rep, passive_rep, other_rep, ServerState, unknown_state, quiesce,
  active_running, active_recover, passive_backup, passive_primary, passive_preprimary, is_mode,
  is_state, Outcome, done, aborts, hangs, ◌>>=◌, Server, set_mode, set_state, is_allowed,
  update_thread, put_in_quiesence, remove_from_quiesence, RepMgrMsg, handle_rep_msg,
}
use to_do_list_public.State.Laws.{set_mode_lem}

abbrev pub start : Server
start = record {
  rep_mode = unknown_rep;
  state = unknown_state;
  prev_state = unknown_state;
  chkpt = record {
    signal_exit = false;
    is_running = false;
    freq = pos 10;
    chk_point_num = 0;
    thread = none;
  };
}

pub data Step (s : Server) : Server → Type 0 where
  rep_msg : {s' : Server} (msg : RepMgrMsg) → handle_rep_msg msg s ≡ done s' → Step s s'
  start_quiesce : {s' : Server} → put_in_quiesence s ≡ done s' → Step s s'
  stop_quiesce : {s' : Server} → remove_from_quiesence s ≡ done s' → Step s s'
  promote :
      {s' : Server}
      → s.rep_mode ≡ passive_rep
      → s.state ≡ passive_preprimary
      → set_state passive_primary s ≡ done s'
      → Step s s'
  chkpt_step : Step s (record s { chkpt = thread_step s.chkpt })
  -- a message that arrives after the mode is set and whose call waits for the checkpoint thread for ever
  wait_for_thread :
      (msg : RepMgrMsg)
      → is_mode s.rep_mode unknown_rep ≡ false
      → s.chkpt.is_running ≡ true
      → ((fuel : ℕ) → wait fuel (record s.chkpt { signal_exit = true }) ≡ none)
      → Step s (record s { chkpt = record s.chkpt { signal_exit = true } })

pub data Reach : Server → Type 0 where
  here : Reach start
  next : {s s' : Server} → Reach s → Step s s' → Reach s'

-- the server's state belongs to its mode
unfoldable pub is_consistent : RepMode → ServerState → Bool
is_consistent unknown_rep t = is_state t unknown_state
is_consistent (other_rep n) t = false
is_consistent active_rep t =
    is_state t unknown_state
    || (is_state t active_running || (is_state t active_recover || is_state t quiesce))
is_consistent passive_rep t =
    is_state t unknown_state
    || (is_state t passive_primary || (is_state t passive_backup || is_state t passive_preprimary))

-- what holds while no call waits for the checkpoint thread
pub record Calm (s : Server) : Type 0 where
  pub consistent : is_consistent s.rep_mode s.state ≡ true
  pub quiet : IsQuiet s.chkpt
  pub primary_runs :
      s.chkpt.is_running ≡ (is_mode s.rep_mode passive_rep && is_state s.state passive_primary)
  pub remembered : is_mode s.rep_mode active_rep || is_state s.prev_state unknown_state ≡ true

-- what a successful `set_state` tells
pub record Stored (t : ServerState) (s s' : Server) : Type 0 where
  pub known : is_mode s.rep_mode unknown_rep ≡ false
  pub allowed : is_allowed s.rep_mode t ≡ true
  pub thread : update_thread s.rep_mode t s.chkpt ≡ done (s'.chkpt)
  pub state : s'.state ≡ t
  pub mode : s'.rep_mode ≡ s.rep_mode
  pub prev : s'.prev_state ≡ s.prev_state

pub set_state-Stored : (t : ServerState) (s s' : Server) → set_state t s ≡ done s' → Stored t s s'
unfolding set_state
set_state-Stored t s s' e = ground arith

-- with no thread running, `update_thread` leaves one exactly for a passive primary
update_thread-off :
    (m : RepMode) (t : ServerState) (c c' : Chkpt)
    → IsQuiet c
    → c.is_running ≡ false
    → update_thread m t c ≡ done c'
    → IsQuiet c' × (c'.is_running ≡ (is_mode m passive_rep && is_state t passive_primary))
unfolding update_thread start_ckhpt_thread kill_chkpt_thrd_if_running
update_thread-off m t c c' q off e = (ground arith, ground arith)

allowed-consistent :
    (m : RepMode) (t : ServerState)
    → is_consistent m unknown_state ≡ true
    → is_mode m unknown_rep ≡ false
    → is_allowed m t ≡ true
    → is_consistent m t ≡ true
unfolding is_consistent is_allowed
allowed-consistent unknown_rep t hc hm ht = cc
allowed-consistent active_rep t hc hm ht = ground arith
allowed-consistent passive_rep t hc hm ht = ground arith
allowed-consistent (other_rep n) t hc hm ht = cc

-- a consistent server has one of the three modes
pub consistent-mode :
    (m : RepMode) (t : ServerState)
    → is_consistent m t ≡ true
    → is_consistent m unknown_state ≡ true
unfolding is_consistent
consistent-mode unknown_rep t h = refl
consistent-mode active_rep t h = refl
consistent-mode passive_rep t h = refl
consistent-mode (other_rep n) t h = cc

-- `set_state` brings about the invariant wherever no thread runs before it
pub set_state-Calm :
    (t : ServerState) (s s' : Server)
    → is_consistent s.rep_mode unknown_state ≡ true
    → IsQuiet s.chkpt
    → s.chkpt.is_running ≡ false
    → is_mode s.rep_mode active_rep || is_state s.prev_state unknown_state ≡ true
    → set_state t s ≡ done s'
    → Calm s'
unfolding is_consistent
set_state-Calm t s s' hc q off hp e =
    let st = set_state-Stored t s s' e in
    let (q', r) = update_thread-off s.rep_mode t s.chkpt s'.chkpt q off st.thread in
    record {
      consistent = rw (st.mode, st.state) (allowed-consistent s.rep_mode t hc st.known st.allowed);
      quiet = q';
      primary_runs = rw (st.mode, st.state) r;
      remembered = rw (st.mode, st.prev) hp;
    }

-- a state of the active mode is accepted in no other mode
pub active_only :
    (m : RepMode) (t : ServerState)
    → is_consistent m unknown_state ≡ true
    → is_mode m unknown_rep ≡ false
    → is_allowed m t ≡ true
    → is_state t quiesce || is_state t unknown_state ≡ true
    → is_mode m active_rep ≡ true
unfolding is_consistent is_allowed
active_only unknown_rep t hc hm ht hq = cc
active_only active_rep t hc hm ht hq = refl
active_only passive_rep t hc hm ht hq = ground arith
active_only (other_rep n) t hc hm ht hq = cc

-- the inversion of a successful sequence
pub >>=-eq-done :
    {A B : Type 0} (m : Outcome A) (f : A → Outcome B) {b : B}
    → (m >>= f) ≡ done b
    → (a : A) × (m ≡ done a) × (f a ≡ done b)
>>=-eq-done (done a) f h = (a, refl, h)
>>=-eq-done aborts f h = cc
>>=-eq-done hangs f h = cc

legal-consistent :
    (m : RepMode)
    → is_mode m active_rep || is_mode m passive_rep ≡ true
    → is_consistent m unknown_state ≡ true
unfolding is_consistent
legal-consistent unknown_rep h = cc
legal-consistent active_rep h = refl
legal-consistent passive_rep h = refl
legal-consistent (other_rep n) h = ground arith

-- the state after the mode was set, if it was unknown
pub record Moded (s s' : Server) : Type 0 where
  pub known : is_consistent s'.rep_mode unknown_state ≡ true
  pub chkpt : s'.chkpt ≡ s.chkpt
  pub remembered : is_mode s'.rep_mode active_rep || is_state s'.prev_state unknown_state ≡ true

pub moded :
    (msg : RepMgrMsg) (s s' : Server)
    → Calm s
    → (if is_mode s.rep_mode unknown_rep then set_mode msg.rep_mode s else done s) ≡ done s'
    → Moded s s'
moded msg s s' inv e = record {
  known = ground (
    arith,
    set_mode_lem msg.rep_mode s,
    consistent-mode s.rep_mode s.state inv.consistent,
    legal-consistent msg.rep_mode,
  );
  chkpt = ground (arith, set_mode_lem msg.rep_mode s);
  remembered = ground (arith, set_mode_lem msg.rep_mode s, inv.remembered);
}

-- the invariant
pub record Inv (s : Server) : Type 0 where
  pub consistent : is_consistent s.rep_mode s.state ≡ true
  pub flagged : s.chkpt.is_running ≡ elim s.chkpt.thread [ none ↦ false | some _ ↦ true ]
  pub pending :
      s.chkpt.signal_exit ≡ true → (s.chkpt.is_running ≡ true) × (is_positive s.chkpt.freq ≡ false)
  pub primary_runs :
      s.chkpt.is_running ≡ (is_mode s.rep_mode passive_rep && is_state s.state passive_primary)
  pub remembered : is_mode s.rep_mode active_rep || is_state s.prev_state unknown_state ≡ true

pub Calm-Inv : (s : Server) → Calm s → Inv s
Calm-Inv s c = record {
  consistent = c.consistent;
  flagged = c.quiet.flagged;
  pending = λ set. ground (arith, c.quiet.quiet, set);
  primary_runs = c.primary_runs;
  remembered = c.remembered;
}

pub Inv-Calm : (s : Server) → Inv s → s.chkpt.signal_exit ≡ false → Calm s
Inv-Calm s inv quiet = record {
  consistent = inv.consistent;
  quiet = record { quiet = quiet; flagged = inv.flagged };
  primary_runs = inv.primary_runs;
  remembered = inv.remembered;
}
