-- ===== src/State/Calm.antt =====
-- The calls on the run state of a server (src/state.c, src/worker.c, handle_rep_msg of src/server.c)
-- where none of them waits for the checkpoint thread.
use to_do_list_public.Common.{
  ◌≡◌, refl, subst, true, none, some, arith, if◌then◌else◌, Bool-cases, inl, inr,
}
use to_do_list_public.State.Thread.{Chkpt, kill_chkpt_thrd_if_running, kill-some}
use to_do_list_public.State.{
  unknown_rep, active_rep, passive_rep, quiesce, passive_primary, passive_preprimary, is_mode,
  Outcome, done, hangs, Server, set_mode, set_state, put_in_quiesence, remove_from_quiesence,
  RepMgrMsg, handle_rep_msg,
}
use to_do_list_public.State.Steps.{
  >>=-eq-done, set_state-Stored, consistent-mode, set_state-Calm, Calm, active_only, moded,
}

kill-done :
    (c : Chkpt) (c' : Chkpt)
    → (elim (kill_chkpt_thrd_if_running c) [ none ↦ hangs | some k ↦ done k ]) ≡ done c'
    → kill_chkpt_thrd_if_running c ≡ some c'
kill-done c c' e = ground arith

pub rep_msg-Calm :
    (msg : RepMgrMsg) (s s' : Server) → Calm s → handle_rep_msg msg s ≡ done s' → Calm s'
unfolding handle_rep_msg
rep_msg-Calm msg s s' inv e =
    let (s₁, e₁, r₁) =
      >>=-eq-done (if is_mode s.rep_mode unknown_rep then set_mode msg.rep_mode s else done s) _
        e in
    let (c, e₂, r₂) =
      >>=-eq-done
        (let k : Outcome Chkpt = elim (kill_chkpt_thrd_if_running s₁.chkpt) [
          | none ↦ hangs
          | some c' ↦ done c'
        ] in
          k)
        _ r₁ in
    let m = moded msg s s₁ inv e₁ in
    let (q, off, gone) = kill-some s₁.chkpt c (rw m.chkpt inv.quiet) (kill-done s₁.chkpt c e₂) in
    set_state-Calm msg.server_state (record s₁ { chkpt = record c { freq = msg.checkpoint_freq } })
      s' m.known (record { quiet = q; flagged = ground (arith, off, gone) }) off m.remembered r₂

pub put-Calm : (s s' : Server) → Calm s → put_in_quiesence s ≡ done s' → Calm s'
unfolding put_in_quiesence
put-Calm s s' inv e =
    let st = set_state-Stored quiesce (record s { prev_state = s.state }) s' e in
    let hc = consistent-mode s.rep_mode s.state inv.consistent in
    let active = active_only s.rep_mode quiesce hc st.known st.allowed refl in
    set_state-Calm quiesce (record s { prev_state = s.state }) s' hc inv.quiet
      (ground (arith, inv.primary_runs)) (rw active refl) e

pub remove-Calm : (s s' : Server) → Calm s → remove_from_quiesence s ≡ done s' → Calm s'
unfolding remove_from_quiesence
remove-Calm s s' inv e =
    let (s₁, e₁, r₁) = >>=-eq-done (set_state s.prev_state s) _ e in
    let st = set_state-Stored s.prev_state s s₁ e₁ in
    let hc = consistent-mode s.rep_mode s.state inv.consistent in
    let active : is_mode s.rep_mode active_rep ≡ true =
      elim (Bool-cases (is_mode s.rep_mode active_rep)) [
        | inl a ↦ a
        | inr b ↦
            active_only s.rep_mode s.prev_state hc st.known st.allowed
              (ground (arith, inv.remembered))
      ] in
    let inv' =
      set_state-Calm s.prev_state s s₁ hc inv.quiet (ground (arith, inv.primary_runs))
        inv.remembered e₁ in
    let same : record s₁ { prev_state = s₁.state } ≡ s' = ground arith in
    subst Calm same (record {
      consistent = inv'.consistent;
      quiet = inv'.quiet;
      primary_runs = inv'.primary_runs;
      remembered = ground (arith, st.mode);
    })

pub promote-Calm :
    (s s' : Server)
    → Calm s
    → s.rep_mode ≡ passive_rep
    → s.state ≡ passive_preprimary
    → set_state passive_primary s ≡ done s'
    → Calm s'
promote-Calm s s' inv hm ht e =
    set_state-Calm passive_primary s s' (consistent-mode s.rep_mode s.state inv.consistent)
      inv.quiet (ground (arith, inv.primary_runs)) inv.remembered e
