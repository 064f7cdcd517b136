-- ===== src/State/Thread.antt =====
-- The checkpoint thread of src/chkpt.c: `send_checkpoint`, a step at a time, and the calls that
-- start it and stop it. What it sends is counted by `chk_point_num`.
use to_do_list_public.Common.{
  ℕ, zero, suc, ◌+◌, ◌≡◌, refl, Bool, true, false, ℤ, pos, negsuc, Option, none, some, ltb,
  if◌then◌else◌, arith, ◌⊎◌, inl, inr, Option-cases, Bool-cases, sym, ◌∙◌,
}

-- The globals `signal_exit_checkpt_thread`, `is_chkpt_thrd_running`, `checkpoint_freq_g` and
-- `chk_point_num`, and the local `sleep_count` of the thread while there is one.
pub record Chkpt : Type 0 where
  pub signal_exit : Bool
  pub is_running : Bool
  pub freq : ℤ
  pub chk_point_num : ℕ
  pub thread : Option ℕ

-- `sleep_count < checkpoint_freq_g`
abbrev pub below : ℕ → ℤ → Bool
below n (pos m) = ltb n m
below n (negsuc m) = false

-- One round of the inner loop, or the passage through the outer one, which sends a checkpoint.
unfoldable pub send_checkpoint : ℕ → Chkpt → Chkpt
send_checkpoint sleep_count c =
    if below sleep_count c.freq
    then (if c.signal_exit
        then record c { signal_exit = false; is_running = false; thread = none }
        else record c { thread = some (sleep_count + 1) })
    else record c { chk_point_num = c.chk_point_num + 1; thread = some 0 }

-- a step of the thread, if there is one
unfoldable pub thread_step : Chkpt → Chkpt
thread_step c = elim c.thread [ none ↦ c | some n ↦ send_checkpoint n c ]

unfoldable pub start_ckhpt_thread : Chkpt → Chkpt
start_ckhpt_thread c = if c.is_running then c else record c { thread = some 0; is_running = true }

-- `while (signal_exit_checkpt_thread == 1);`, during which the thread takes its steps. The fuel is
-- the number of these; `none` means that the signal is still set.
unfoldable pub wait : ℕ → Chkpt → Option Chkpt
wait zero c = if c.signal_exit then none else some c
wait (suc fuel) c = elim c.signal_exit [ true ↦ wait fuel (thread_step c) | false ↦ some c ]

-- Three steps are enough if any number is (`kill-StoppedFrom`, `wait-forever`).
unfoldable pub stop_chk_pt_thread : Chkpt → Option Chkpt
stop_chk_pt_thread c = wait 3 (record c { signal_exit = true })

unfoldable pub kill_chkpt_thrd_if_running : Chkpt → Option Chkpt
kill_chkpt_thrd_if_running c = if c.is_running then stop_chk_pt_thread c else some c

-- the flag tells whether there is a thread, and no request to exit is pending
pub record IsQuiet (c : Chkpt) : Type 0 where
  pub quiet : c.signal_exit ≡ false
  pub flagged : c.is_running ≡ elim c.thread [ none ↦ false | some _ ↦ true ]

pub thread_step-IsQuiet : (c : Chkpt) → IsQuiet c → IsQuiet (thread_step c)
unfolding thread_step send_checkpoint
thread_step-IsQuiet c q = ground arith

pub thread_step-is_running : (c : Chkpt) → IsQuiet c → (thread_step c).is_running ≡ c.is_running
unfolding thread_step send_checkpoint
thread_step-is_running c q = ground (arith, q.quiet)

pub start-IsQuiet : (c : Chkpt) → IsQuiet c → IsQuiet (start_ckhpt_thread c)
unfolding start_ckhpt_thread
start-IsQuiet c q = ground arith

abbrev pub is_positive : ℤ → Bool
is_positive (pos n) = ltb 0 n
is_positive (negsuc n) = false

-- what stopping the thread gives: at most one more checkpoint is sent
pub record StoppedFrom (c c' : Chkpt) : Type 0 where
  pub quiet : c'.signal_exit ≡ false
  pub flag : c'.is_running ≡ false
  pub gone : c'.thread ≡ none
  pub freq : c'.freq ≡ c.freq
  pub sent : (c'.chk_point_num ≡ c.chk_point_num) ⊎ (c'.chk_point_num ≡ c.chk_point_num + 1)

-- the thread at `sleep_count`, and how it stops
stopped : ℕ → Chkpt → Chkpt
stopped n c = record c {
  signal_exit = false;
  is_running = false;
  thread = none;
  chk_point_num = if below n c.freq then c.chk_point_num else c.chk_point_num + 1;
}

wait-stopped :
    (c : Chkpt) (n : ℕ)
    → is_positive c.freq ≡ true
    → c.thread ≡ some n
    → wait 3 (record c { signal_exit = true }) ≡ some (stopped n c)
unfolding wait thread_step send_checkpoint stopped
wait-stopped c n hf ht = ground arith

-- With a positive frequency, no request to exit pending and a flag that tells whether there is a
-- thread, the call that stops the thread returns within its fuel: the flags are cleared, the
-- thread is gone, the frequency is kept, and at most one more checkpoint was sent.
pub kill-StoppedFrom :
    (c : Chkpt)
    → IsQuiet c
    → is_positive c.freq ≡ true
    → (c' : Chkpt) × (kill_chkpt_thrd_if_running c ≡ some c') × StoppedFrom c c'
unfolding kill_chkpt_thrd_if_running stop_chk_pt_thread
kill-StoppedFrom c q hf = elim (Option-cases c.thread) [
  | inl e ↦ (
    c,
    ground (arith, q.flagged),
    record {
      quiet = q.quiet;
      flag = ground (arith, q.flagged);
      gone = e;
      freq = refl;
      sent = inl refl;
    },
  )
  | inr (n, e) ↦ (
    stopped n c,
    ground (arith, q.flagged, wait-stopped c n hf e),
    unfold stopped in
        record { quiet = refl; flag = refl; gone = refl; freq = refl; sent = ground arith },
  )
]

pub wait-none :
    (fuel : ℕ) (c : Chkpt)
    → c.signal_exit ≡ true
    → is_positive c.freq ≡ false
    → (n : ℕ) → c.thread ≡ some n
    → wait fuel c ≡ none
unfolding wait thread_step send_checkpoint
wait-none zero c hs hf n ht = ground arith
wait-none (suc fuel) c hs hf n ht =
    ground (arith, wait-none fuel (thread_step c) (ground arith) (ground arith) 0 (ground arith))

-- With a frequency that is not positive, a running thread without a request to exit never looks at
-- one that is made: however many steps it takes, `stop_chk_pt_thread` goes on waiting.
pub wait-forever :
    (c : Chkpt)
    → IsQuiet c
    → c.is_running ≡ true
    → is_positive c.freq ≡ false
    → (fuel : ℕ) → wait fuel (record c { signal_exit = true }) ≡ none
wait-forever c q running hf fuel = elim (Option-cases c.thread) [
  | inl e ↦ absurd (ground (arith, q.flagged))
  | inr (n, e) ↦ wait-none fuel (record c { signal_exit = true }) refl hf n e
]

-- whenever the call that stops the thread returns, no thread is left
pub kill-some :
    (c c' : Chkpt)
    → IsQuiet c
    → kill_chkpt_thrd_if_running c ≡ some c'
    → (c'.signal_exit ≡ false) × (c'.is_running ≡ false) × (c'.thread ≡ none)
unfolding kill_chkpt_thrd_if_running stop_chk_pt_thread
kill-some c c' q e = elim (Bool-cases (is_positive c.freq)) [
  | inl hf ↦
      let (k, run, st) = kill-StoppedFrom c q hf in
      let same : some k ≡ some c' = sym (unfold kill_chkpt_thrd_if_running in run) ∙ e in
      ground (arith, st.quiet, st.flag, st.gone)
  | inr hf ↦
      ground (arith, q.quiet, q.flagged, λ (r : c.is_running ≡ true). wait-forever c q r hf 3)
]
