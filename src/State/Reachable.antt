-- ===== src/State/Reachable.antt =====
-- The states that a server process can come to: the messages of the replication manager, the starts
-- and stops of quiescence, the promotion of a pre-primary by its worker, the steps of the
-- checkpoint thread, and the waits for it, in any order.
use to_do_list_public.Common.{
  ℕ, ◌≢◌, false, ◌&&◌, Option-cases, ◌≡◌, refl, ◌∙◌, true, none, some, arith, if◌then◌else◌,
  Bool-cases, inl, inr,
}
use to_do_list_public.State.Thread.{
  wait, wait-none, is_positive, kill-StoppedFrom, send_checkpoint, stop_chk_pt_thread, Chkpt,
  kill_chkpt_thrd_if_running, thread_step-is_running, thread_step, thread_step-IsQuiet,
}
use to_do_list_public.State.{
  unknown_rep, passive_rep, quiesce, passive_primary, passive_preprimary, is_mode, is_state,
  is_allowed, done, Server, set_mode, set_state, put_in_quiesence, remove_from_quiesence, RepMgrMsg,
  handle_rep_msg,
}
use to_do_list_public.State.Steps.{
  >>=-eq-done, Step, rep_msg, start_quiesce, stop_quiesce, promote, chkpt_step, wait_for_thread,
  Reach, here, next, is_consistent, Inv, set_state-Stored, Calm, Calm-Inv, Inv-Calm,
}
use to_do_list_public.State.Calm.{rep_msg-Calm, put-Calm, remove-Calm, promote-Calm}

running_thread :
    (c : Chkpt)
    → c.is_running ≡ true
    → c.is_running ≡ elim c.thread [ none ↦ false | some _ ↦ true ]
    → (n : ℕ) × (c.thread ≡ some n)
running_thread c running flagged = elim (Option-cases c.thread) [
  | inl e ↦ absurd (ground (arith, running, flagged, e))
  | inr (n, e) ↦ (n, e)
]

killed :
    (c : Chkpt)
    → c.is_running ≡ true
    → kill_chkpt_thrd_if_running (record c { signal_exit = false })
      ≡ wait 3 (record c { signal_exit = true })
unfolding kill_chkpt_thrd_if_running stop_chk_pt_thread
killed c running = rw running refl

thread-Inv : (s : Server) → Inv s → Inv (record s { chkpt = thread_step s.chkpt })
unfolding thread_step send_checkpoint
thread-Inv s inv = elim (Bool-cases s.chkpt.signal_exit) [
  | inl set ↦
      let (running, never) = inv.pending set in
      let (n, there) = running_thread s.chkpt running inv.flagged in
      record {
        consistent = inv.consistent;
        flagged = ground (arith, inv.flagged, there, never);
        pending = λ _. ground (arith, there, never, running);
        primary_runs = ground (arith, there, never, inv.primary_runs);
        remembered = inv.remembered;
      }
  | inr quiet ↦
      let calm = Inv-Calm s inv quiet in
      Calm-Inv (record s { chkpt = thread_step s.chkpt })
        (record {
          consistent = inv.consistent;
          quiet = thread_step-IsQuiet s.chkpt calm.quiet;
          primary_runs = thread_step-is_running s.chkpt calm.quiet ∙ inv.primary_runs;
          remembered = inv.remembered;
        })
]

-- A wait that lasts for ever has a frequency that is not positive.
waits-never :
    (c : Chkpt)
    → c.is_running ≡ elim c.thread [ none ↦ false | some _ ↦ true ]
    → c.is_running ≡ true
    → ((fuel : ℕ) → wait fuel (record c { signal_exit = true }) ≡ none)
    → is_positive c.freq ≡ false
waits-never c flagged running waits = elim (Bool-cases (is_positive c.freq)) [
  | inl often ↦
      let calm = record c { signal_exit = false } in
      let (k, run, st) = kill-StoppedFrom calm (record { quiet = refl; flagged = flagged }) often in
      absurd (ground (arith, waits 3, killed c running, run))
  | inr never ↦ never
]

-- While a call waits for ever, no call on the run state returns, and the worker finds no pre-primary.
module _ (s s' : Server) (inv : Inv s) (set : s.chkpt.signal_exit ≡ true) where
  passive : is_mode s.rep_mode passive_rep && is_state s.state passive_primary ≡ true
  passive = ground (arith, inv.primary_runs, inv.pending set)

  no_rep_msg : (msg : RepMgrMsg) → handle_rep_msg msg s ≢ done s'
  unfolding handle_rep_msg kill_chkpt_thrd_if_running stop_chk_pt_thread
  no_rep_msg msg e =
      let (running, never) = inv.pending set in
      let (n, there) = running_thread s.chkpt running inv.flagged in
      let waits = wait-none 3 (record s.chkpt { signal_exit = true }) refl never n there in
      let (s₁, e₁, r₁) =
        >>=-eq-done (if is_mode s.rep_mode unknown_rep then set_mode msg.rep_mode s else done s) _
          e in
      let same : s₁ ≡ s = ground (arith, e₁, passive) in ground (arith, r₁, same, running, waits)

  no_quiesce : put_in_quiesence s ≢ done s'
  unfolding put_in_quiesence is_allowed
  no_quiesce e =
      let st = set_state-Stored quiesce (record s { prev_state = s.state }) s' e in
      ground (arith, st.allowed, passive)

  no_stop : remove_from_quiesence s ≢ done s'
  unfolding remove_from_quiesence is_allowed
  no_stop e =
      let (s₁, e₁, r₁) = >>=-eq-done (set_state s.prev_state s) _ e in
      let st = set_state-Stored s.prev_state s s₁ e₁ in
      ground (arith, st.allowed, passive, inv.remembered)

  no_promote : s.state ≢ passive_preprimary
  no_promote e = ground (arith, e, passive)

-- from the invariant to the states where nothing waits
calmly : {s s' : Server} → Inv s → (s.chkpt.signal_exit ≢ true) → (Calm s → Calm s') → Inv s'
calmly {s} {s'} inv unset k = elim (Bool-cases s.chkpt.signal_exit) [
  | inl set ↦ absurd (unset set)
  | inr quiet ↦ Calm-Inv s' (k (Inv-Calm s inv quiet))
]

Step-Inv : {s s' : Server} → Step s s' → Inv s → Inv s'
Step-Inv {s} {s'} (rep_msg msg e) inv =
    calmly inv (λ set. no_rep_msg s s' inv set msg e) (λ c. rep_msg-Calm msg s s' c e)
Step-Inv {s} {s'} (start_quiesce e) inv =
    calmly inv (λ set. no_quiesce s s' inv set e) (λ c. put-Calm s s' c e)
Step-Inv {s} {s'} (stop_quiesce e) inv =
    calmly inv (λ set. no_stop s s' inv set e) (λ c. remove-Calm s s' c e)
Step-Inv {s} {s'} (promote hm ht e) inv =
    calmly inv (λ set. no_promote s s' inv set ht) (λ c. promote-Calm s s' c hm ht e)
Step-Inv {s} chkpt_step inv = thread-Inv s inv
Step-Inv {s} (wait_for_thread msg known running waits) inv = record {
  consistent = inv.consistent;
  flagged = inv.flagged;
  pending = λ _. (running, waits-never s.chkpt inv.flagged running waits);
  primary_runs = inv.primary_runs;
  remembered = inv.remembered;
}

-- In every state that a server comes to, whatever messages arrive in whatever order, each call that
-- returns taken as one step: the state is unknown or one of the replication mode's own three, the
-- checkpoint thread's flag says whether there is one, a checkpoint thread runs exactly while the
-- server is a passive primary, and outside the active mode no state from before a quiescence is
-- remembered. A call that waits for the checkpoint thread for ever leaves its request to exit
-- behind; such a request is pending only while the thread runs with a frequency that is not
-- positive, and all the rest still holds then.
pub Reach-Inv : {s : Server} → Reach s → Inv s
unfolding is_consistent
Reach-Inv here = record {
  consistent = refl;
  flagged = refl;
  pending = λ set. ground (arith, set);
  primary_runs = refl;
  remembered = refl;
}
Reach-Inv (next r st) = Step-Inv st (Reach-Inv r)
