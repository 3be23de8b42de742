-- ===== src/Proc/GiveUp.antt =====
-- kernel/proc.c: `yield`, `exit` and `sleep`, called by a running process.
use mathlib.Core.Path.{subst}
use rt.Prelude.{ℕ, zero, suc, ◌≡◌, ◌≢◌, refl, sym, true, false, some, arith, ◌==◌, get_elem?}
use rt.Prelude.Int.{ℤ, pos, negsuc, ltb_ℤ}
use rt.Prelude.Run.{done, panic, Returns}
use rt.Proc.{ProcState, Proc, Machine, is_running}
use rt.Proc.Table.{get_elem?-lt}
use rt.Proc.Switch.{sched, yield, exit, sleep}
use rt.Proc.Invariant.{IsCounted, IsSound, IsPassed, stopping, sched-IsPassed}

module _ (m : Machine) (c i : ℕ) (p : Proc) (s : IsSound i c m)
    (at : get_elem? m.procs c ≡ some p) where
  running : is_running p.state ≡ true
  running = s.cur_runs c p at refl

  yield-eq : yield m ≡ sched (stopping m c (record p { state = ProcState.runnable }))
  unfolding yield
  yield-eq = rw (s.cur, at, running, at) refl

  exit-eq :
      (retval : ℕ)
      → exit retval m
        ≡ sched (stopping m c (record p { state = ProcState.exited; retval = retval }))
  unfolding exit
  exit-eq retval = rw (s.cur, at, running, at) refl

  sleep-eq :
      (n : ℕ)
      → sleep (pos (suc n)) m
        ≡ sched (stopping m c (record p { state = ProcState.sleeping; sleeprem = pos (suc n) }))
  unfolding sleep
  sleep-eq n =
      let not_negative : ltb_ℤ (pos (suc n)) (pos 0) ≡ false = ground arith in
      let not_zero : (suc n == 0) ≡ false = ground arith in
      rw (not_negative, not_zero, s.cur, at, running, at) refl

  -- Leaving the processor with `p'` in the slot.
  leave :
      (p' : Proc)
      → c ≢ i
      → is_running p'.state ≡ false
      → IsCounted p'
      → Returns (λ _ m'. IsPassed m c i p' m') (sched (stopping m c p'))
  leave p' ne off ready =
      let (q, at_i) = get_elem?-lt m.procs i (omega (arith, s.idle_in, s.table)) in
      sched-IsPassed m c i p p' q s ne at at_i off ready

-- With the scheduler's invariant, `yield` of a current process other than the idle one meets no
-- failing assertion and goes over to the idle loop. The process is runnable, and its slot holds
-- its registers, with the address that its call returns to; the processor has the registers of
-- the idle process, with a word taken off its stack; no other slot has changed, and the invariant
-- holds.
pub yield-IsPassed :
    (m : Machine) (c i : ℕ) (p : Proc)
    → IsSound i c m
    → get_elem? m.procs c ≡ some p
    → c ≢ i
    → Returns (λ _ m'. IsPassed m c i (record p { state = ProcState.runnable }) m') (yield m)
yield-IsPassed m c i p s at ne =
    subst (Returns _) (sym (yield-eq m c i p s at))
      (leave m c i p s at _ ne refl (λ e. ground arith))

-- With the scheduler's invariant, `exit` of a current process other than the idle one meets no
-- failing assertion and goes over to the idle loop; the process is exited with its value, no
-- other slot has changed, and the invariant holds.
pub exit-IsPassed :
    (m : Machine) (c i : ℕ) (p : Proc) (retval : ℕ)
    → IsSound i c m
    → get_elem? m.procs c ≡ some p
    → c ≢ i
    → Returns
        (λ _ m'. IsPassed m c i (record p { state = ProcState.exited; retval = retval }) m')
        (exit retval m)
exit-IsPassed m c i p retval s at ne =
    subst (Returns _) (sym (exit-eq m c i p s at retval))
      (leave m c i p s at _ ne refl (λ e. ground arith))

-- What a call of `sleep` does, by its argument.
abbrev pub SleepsFor : ℤ → Machine → ℕ → ℕ → Proc → Type 0
SleepsFor (pos zero) m c i p = sleep (pos zero) m ≡ done tt m
SleepsFor (pos (suc n)) m c i p =
    Returns
      (λ _ m'. IsPassed m c i (record p { state = ProcState.sleeping; sleeprem = pos (suc n) }) m')
      (sleep (pos (suc n)) m)
SleepsFor (negsuc n) m c i p = sleep (negsuc n) m ≡ panic

-- With the scheduler's invariant, in a current process other than the idle one, `sleep` panics
-- for a negative number of ticks and does nothing for zero; for a positive number it meets no
-- failing assertion and goes over to the idle loop, with that number and the registers of the
-- process in its slot, which is marked as sleeping, no other slot changed, and the invariant
-- kept.
pub sleep-SleepsFor :
    (n : ℤ) (m : Machine) (c i : ℕ) (p : Proc)
    → IsSound i c m
    → get_elem? m.procs c ≡ some p
    → c ≢ i
    → SleepsFor n m c i p
unfolding sleep
sleep-SleepsFor (pos zero) m c i p s at ne = refl
sleep-SleepsFor (pos (suc n)) m c i p s at ne =
    subst (Returns _) (sym (sleep-eq m c i p s at n))
      (leave m c i p s at _ ne refl (λ e. (n, refl)))
sleep-SleepsFor (negsuc n) m c i p s at ne =
    let negative : ltb_ℤ (negsuc n) (pos 0) ≡ true = ground arith in rw negative
