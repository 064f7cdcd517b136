-- ===== src/State/Laws.antt =====
-- What the calls on the run state do, branch by branch.
use to_do_list_public.Common.{
  ℕ, zero, suc, ◌≡◌, refl, true, false, ◌&&◌, ◌||◌, arith, if◌then◌else◌,
}
use to_do_list_public.State.Thread.{
  Chkpt, IsQuiet, is_positive, kill-StoppedFrom, kill_chkpt_thrd_if_running, start_ckhpt_thread,
}
use to_do_list_public.State.{
  RepMode, unknown_rep, active_rep, passive_rep, ServerState, quiesce, active_running,
  active_recover, passive_primary, is_mode, is_state, Outcome, done, aborts, ◌>>=◌, Server,
  set_mode, set_state, is_allowed, update_thread, put_in_quiesence, remove_from_quiesence,
  RepMgrMsg, handle_rep_msg,
}

-- `set_mode` succeeds exactly from the unknown mode and to one of the two replication modes, and
-- then stores that mode and nothing else; otherwise an assertion fails.
pub set_mode_lem :
    (m : RepMode) (s : Server)
    → set_mode m s ≡ (
        if is_mode s.rep_mode unknown_rep && (is_mode m active_rep || is_mode m passive_rep)
        then done (record s { rep_mode = m })
        else aborts)
unfolding set_mode
set_mode_lem m s = ground arith

-- In the active mode the three states of that mode are stored, with the thread left alone, and any
-- other state fails an assertion.
set_state-active :
    (t : ServerState) (s : Server)
    → s.rep_mode ≡ active_rep
    → set_state t s ≡ (
        if is_state t active_running || is_state t active_recover || is_state t quiesce
        then done (record s { state = t })
        else aborts)
unfolding set_state is_allowed update_thread
set_state-active t s e = ground arith

-- Quiescence in the active mode
module _ (s : Server) (active : s.rep_mode ≡ active_rep) where
  put_in_quiesence_lem :
      put_in_quiesence s ≡ done (record s { state = quiesce; prev_state = s.state })
  unfolding put_in_quiesence set_state is_allowed update_thread
  put_in_quiesence_lem = ground arith

  -- In the active mode a start and a stop of quiescence bring back the state from before, whatever
  -- active state that was, and change nothing else but the remembered state.
  pub remove-put :
      is_allowed active_rep s.state ≡ true
      → put_in_quiesence s >>= remove_from_quiesence ≡ done (record s { prev_state = s.state })
  unfolding remove_from_quiesence set_state is_allowed update_thread
  remove-put ok = rw put_in_quiesence_lem (ground arith)

-- `remove_from_quiesence`, n times
unfoldable pub remove_times : ℕ → Server → Outcome Server
remove_times zero s = done s
remove_times (suc n) s = remove_from_quiesence s >>= remove_times n

remove_stuck :
    (s : Server)
    → s.rep_mode ≡ active_rep
    → s.state ≡ quiesce
    → s.prev_state ≡ quiesce
    → remove_from_quiesence s ≡ done s
unfolding remove_from_quiesence set_state is_allowed update_thread
remove_stuck s m e e' = ground arith

remove_times-stuck :
    (n : ℕ) (s : Server)
    → s.rep_mode ≡ active_rep
    → s.state ≡ quiesce
    → s.prev_state ≡ quiesce
    → remove_times n s ≡ done s
unfolding remove_times
remove_times-stuck zero s m e e' = refl
remove_times-stuck (suc n) s m e e' = rw (remove_stuck s m e e') (remove_times-stuck n s m e e')

-- Two starts of quiescence in a row in the active mode overwrite the remembered state: no number of
-- stops brings the server back, it stays in the quiescent state.
pub quiesce_twice :
    (s : Server)
    → s.rep_mode ≡ active_rep
    → (n : ℕ)
    → put_in_quiesence s >>= put_in_quiesence >>= remove_times n
      ≡ done (record s { state = quiesce; prev_state = quiesce })
quiesce_twice s m n =
    rw
      (
        put_in_quiesence_lem s m,
        put_in_quiesence_lem (record s { state = quiesce; prev_state = s.state }) m,
      )
      (remove_times-stuck n (record s { state = quiesce; prev_state = quiesce }) m refl refl)

-- the mode that a server is in after a message of the replication manager
abbrev pub mode_after : RepMode → RepMode → RepMode
mode_after old new = if is_mode old unknown_rep then new else old

-- what a message of the replication manager leaves behind
pub record Configured (msg : RepMgrMsg) (s s' : Server) : Type 0 where
  pub mode : s'.rep_mode ≡ mode_after s.rep_mode msg.rep_mode
  pub state : s'.state ≡ msg.server_state
  pub freq : s'.chkpt.freq ≡ msg.checkpoint_freq
  pub thread : IsQuiet s'.chkpt
  pub primary_runs :
      s'.chkpt.is_running ≡ (is_mode s'.rep_mode passive_rep && is_state s'.state passive_primary)

configure :
    (t : ServerState) (m : RepMode) (c : Chkpt)
    → is_mode m active_rep || is_mode m passive_rep ≡ true
    → is_allowed m t ≡ true
    → IsQuiet c
    → c.is_running ≡ false
    → (c' : Chkpt) × (update_thread m t c ≡ done c')
      × IsQuiet c'
      × (c'.freq ≡ c.freq)
      × (c'.is_running ≡ (is_mode m passive_rep && is_state t passive_primary))
unfolding update_thread start_ckhpt_thread kill_chkpt_thrd_if_running
configure t m c hm ht q off = (
  if is_mode m passive_rep && is_state t passive_primary then start_ckhpt_thread c else c,
  ground arith,
  ground arith,
  ground arith,
  ground arith,
)

set_state-done :
    (t : ServerState) (s : Server) (c : Chkpt)
    → is_mode s.rep_mode unknown_rep ≡ false
    → is_allowed s.rep_mode t ≡ true
    → update_thread s.rep_mode t s.chkpt ≡ done c
    → set_state t s ≡ done (record s { state = t; chkpt = c })
unfolding set_state
set_state-done t s c hm ht run = rw (hm, ht, run)

mode_step_lem :
    (msg : RepMgrMsg) (s : Server)
    → is_mode (mode_after s.rep_mode msg.rep_mode) active_rep
        || is_mode (mode_after s.rep_mode msg.rep_mode) passive_rep
      ≡ true
    → (if is_mode s.rep_mode unknown_rep then set_mode msg.rep_mode s else done s)
      ≡ done (record s { rep_mode = mode_after s.rep_mode msg.rep_mode })
mode_step_lem msg s h = ground (arith, set_mode_lem msg.rep_mode s)

-- Let a message of the replication manager name a state of the mode that the server has, or of the
-- replication mode that the message names for a server without one. If the checkpoint thread has
-- no request to exit pending, a flag that tells whether it is there, and a positive frequency, the
-- message is carried out: the mode is set once, the state and the frequency are stored, and
-- afterwards a checkpoint thread runs if and only if the server is a passive primary.
pub handle_rep_msg-Configured :
    (msg : RepMgrMsg) (s : Server)
    → IsQuiet s.chkpt
    → is_positive s.chkpt.freq ≡ true
    → is_mode (mode_after s.rep_mode msg.rep_mode) active_rep
        || is_mode (mode_after s.rep_mode msg.rep_mode) passive_rep
      ≡ true
    → is_allowed (mode_after s.rep_mode msg.rep_mode) msg.server_state ≡ true
    → (s' : Server) × (handle_rep_msg msg s ≡ done s') × Configured msg s s'
unfolding handle_rep_msg
handle_rep_msg-Configured msg s q hf hm ht =
    let m = mode_after s.rep_mode msg.rep_mode in
    let (c, run, st) = kill-StoppedFrom s.chkpt q hf in
    let fresh = record c { freq = msg.checkpoint_freq } in
    let (c', run', q', f, r) =
      configure msg.server_state m fresh hm ht
        (record { quiet = st.quiet; flagged = ground (arith, st.flag, st.gone) }) st.flag in
    (
      record s { rep_mode = m; state = msg.server_state; chkpt = c' },
      rw (mode_step_lem msg s hm, run)
          (set_state-done msg.server_state (record s { rep_mode = m; chkpt = fresh }) c'
            (ground arith) ht run'),
      record { mode = refl; state = refl; freq = f; thread = q'; primary_runs = r },
    )
