-- ===== src/Trap/Calls.antt =====
-- kernel/trap.c and kernel/syscall.c: system calls and faults of the current process.
use rt.Prelude.{
  ℕ, ◌-◌, ◌%◌, ◌^◌, ◌≡◌, ◌≢◌, refl, ap, true, false, none, some, bit_and, ◌==◌, arith, get_elem?,
  ◌⊎◌, inl, inr, ◌<◌, ◌≤◌, ◌+◌,
}
use native.Mathlib.Decide.{ℕ_discrete}
use rt.Memory.Laws.{IsBytes}
use rt.Console.Format.{printed, IsText, text_at}
use rt.Console.Text.{IsPercentS, vcprintf-text}
use rt.Prelude.Run
use rt.Prelude.Run.{done, panic, Returns, returns}
use rt.Bits.{bit_and-low}
use rt.Proc.{ProcState, Proc, Machine, Statics}
use rt.Proc.Invariant.{IsSound, IsPassed}
use rt.Proc.GiveUp.{exit-IsPassed}
use rt.Trap.{TrapFrame, no_process, after_print, sys_print, syscall, trap}

-- A trap that is neither the timer nor a system call.
pub record IsFault (tf : TrapFrame) : Type 0 where
  pub not_timer : tf.trapno ≢ 32
  pub not_call : tf.trapno ≢ 64

user_mode : (cs : ℕ) → (bit_and cs 3 == 0) ≡ (cs % 4 == 0)
user_mode cs = rw (bit_and-low 2 cs) refl

kernel_fault :
    (st : Statics) (fuel : ℕ) (tf : TrapFrame) (m : Machine)
    → IsFault tf
    → tf.cs % 4 ≡ 0
    → trap st fuel tf m ≡ panic
unfolding trap
kernel_fault st fuel tf m f kern =
    let a : (tf.trapno == 32) ≡ false = ground (arith, f.not_timer) in
    let b : (tf.trapno == 64) ≡ false = ground (arith, f.not_call) in
    ground (arith, a, b, bit_and-low 2 tf.cs)

-- The process that a trap has ended, with its value.
abbrev pub ended : ℕ → Proc → Proc
ended v p = record p { state = ProcState.exited; retval = v }

user_fault :
    (st : Statics) (fuel : ℕ) (tf : TrapFrame) (m : Machine) (c i : ℕ) (p : Proc)
    → IsFault tf
    → tf.cs % 4 ≢ 0
    → IsSound i c m
    → get_elem? m.procs c ≡ some p
    → c ≢ i
    → Returns
        (λ r m'. (r ≡ none) × IsPassed m c i (ended 0xDEADDEADDEADDEAD p) m')
        (trap st fuel tf m)
unfolding trap
user_fault st fuel tf m c i p f user s at ne =
    let a : (tf.trapno == 32) ≡ false = ground (arith, f.not_timer) in
    let b : (tf.trapno == 64) ≡ false = ground (arith, f.not_call) in
    let u : (tf.cs % 4 == 0) ≡ false = ground arith in
    let away = exit-IsPassed m c i p 0xDEADDEADDEADDEAD s at ne in
    let has : no_process m.curproc ≡ false = ap no_process s.cur in
    rw (a, b, bit_and-low 2 tf.cs, u, has) (Run.bind away λ _ m' h. returns (refl, h))

-- With the scheduler's invariant and a current process other than the idle one, a trap that is
-- neither the timer nor a system call panics if it comes from the kernel (the low two bits of
-- `cs` are 0); otherwise it ends the current process with the value 0xDEADDEADDEADDEAD and goes
-- over to the idle loop, no other slot changes, and the invariant holds.
pub trap-fault :
    (st : Statics) (fuel : ℕ) (tf : TrapFrame) (m : Machine) (c i : ℕ) (p : Proc)
    → IsFault tf
    → IsSound i c m
    → get_elem? m.procs c ≡ some p
    → c ≢ i
    → ((tf.cs % 4 ≡ 0) × (trap st fuel tf m ≡ panic))
      ⊎ ((tf.cs % 4 ≢ 0)
          × Returns
              (λ r m'. (r ≡ none) × IsPassed m c i (ended 0xDEADDEADDEADDEAD p) m')
              (trap st fuel tf m))
trap-fault st fuel tf m c i p f s at ne = elim (ℕ_discrete (tf.cs % 4) 0) [
  | yes kern ↦ inl (kern, kernel_fault st fuel tf m f kern)
  | no user ↦ inr (user, user_fault st fuel tf m c i p f user s at ne)
]

syscall-exit :
    (st : Statics) (fuel num v : ℕ) (m : Machine) (c i : ℕ) (p : Proc)
    → num ≡ 13
    → IsSound i c m
    → get_elem? m.procs c ≡ some p
    → c ≢ i
    → Returns (λ r m'. (r ≡ none) × IsPassed m c i (ended v p) m') (syscall st fuel num v m)
unfolding syscall
syscall-exit st fuel num v m c i p e s at ne =
    rw e (Run.bind (exit-IsPassed m c i p v s at ne) λ _ m' h. returns (refl, h))

-- With the scheduler's invariant, the system call 13 ends the current process, which is not the
-- idle one, with the value in `rdi`, and goes over to the idle loop; no other slot changes, and
-- the invariant holds.
pub trap_exit :
    (st : Statics) (fuel : ℕ) (tf : TrapFrame) (m : Machine) (c i : ℕ) (p : Proc)
    → tf.trapno ≡ 64
    → tf.rax ≡ 13
    → IsSound i c m
    → get_elem? m.procs c ≡ some p
    → c ≢ i
    → Returns (λ r m'. (r ≡ none) × IsPassed m c i (ended tf.rdi p) m') (trap st fuel tf m)
unfolding trap
trap_exit st fuel tf m c i p call num s at ne =
    let t : (tf.trapno == 32) ≡ false = ground arith in
    let u : (tf.trapno == 64) ≡ true = ground arith in
    rw (t, u)
      (Run.bind (syscall-exit st fuel tf.rax tf.rdi m c i p num s at ne)
        λ r m' h. rw (h.0) (returns (refl, h.1)))

-- A system call with any other number than 12 and 13 gives -1 in `rax` and changes nothing else.
pub trap_unknown :
    (st : Statics) (fuel : ℕ) (tf : TrapFrame) (m : Machine)
    → tf.trapno ≡ 64
    → tf.rax ≢ 12
    → tf.rax ≢ 13
    → trap st fuel tf m ≡ done (some (record tf { rax = 2 ^ 64 - 1 })) m
unfolding trap syscall
trap_unknown st fuel tf m call no_print no_exit =
    let t : (tf.trapno == 32) ≡ false = ground arith in
    let u : (tf.trapno == 64) ≡ true = ground arith in
    let a : (tf.rax == 12) ≡ false = ground arith in
    let b : (tf.rax == 13) ≡ false = ground arith in rw (t, u, a, b) refl

sys_print-text :
    (st : Statics) (fuel a k : ℕ) (m : Machine)
    → IsBytes m.kernel.mem
    → IsPercentS m.kernel.mem st.percent_s
    → m.console.panicked ≡ false
    → 0 < a
    → IsText m.kernel.mem a k
    → k + 2 ≤ fuel
    → sys_print st fuel a m
      ≡ done 0 (record m { console = printed m.console (text_at m.kernel.mem a k) })
unfolding sys_print
sys_print-text st fuel a k m bytes l live some_text t h =
    ap (after_print m)
      (vcprintf-text m.kernel.mem st.percent_s a k fuel m.console bytes l live some_text t h)

-- With the literal `"%s"` in a memory of bytes, a console that has not panicked, and fuel for the
-- text, the system call 12 with the address of a string in `rdi` prints exactly the bytes of that
-- string, gives 0 in `rax`, and changes nothing else.
pub trap_print :
    (st : Statics) (fuel k : ℕ) (tf : TrapFrame) (m : Machine)
    → tf.trapno ≡ 64
    → tf.rax ≡ 12
    → IsBytes m.kernel.mem
    → IsPercentS m.kernel.mem st.percent_s
    → m.console.panicked ≡ false
    → 0 < tf.rdi
    → IsText m.kernel.mem tf.rdi k
    → k + 2 ≤ fuel
    → trap st fuel tf m
      ≡ done
          (some (record tf { rax = 0 }))
          (record m { console = printed m.console (text_at m.kernel.mem tf.rdi k) })
unfolding trap syscall
trap_print st fuel k tf m call num bytes l live some_text t h =
    let a : (tf.trapno == 32) ≡ false = ground arith in
    let b : (tf.trapno == 64) ≡ true = ground arith in
    let c : (tf.rax == 12) ≡ true = ground arith in
    rw (a, b, c, sys_print-text st fuel tf.rdi k m bytes l live some_text t h) refl
