-- ===== src/Trap.antt =====
-- kernel/trap.c and kernel/syscall.c: interrupts, system calls and faults. Messages and the clock
-- that the handler keeps for a test program (`test_tsc`) are left out.
pub mod Timer
pub mod Wake
pub mod Calls
pub mod Setup
pub mod Gate
pub mod Tables
pub mod Segments
pub mod Ready
mod Tests
use rt.Prelude.{
  ℕ, zero, suc, ◌+◌, ◌-◌, ◌*◌, ◌/◌, ◌%◌, ◌^◌, bit_and, bit_or, Bool, true, false, not, ◌||◌, Option,
  none, some, List, [], ◌∷◌, ◌==◌, if◌then◌else◌,
}
use rt.Prelude.Int.{ℤ, pos, negsuc, ◌-ℤ◌}
use rt.Prelude.Run.{
  Outcome, done, panic, out_of_fuel, undefined, Cmd, ◌>>=◌, ◌>>◌, pure, assert, modify, gets,
}
use rt.Memory.{Mem, store32}
use rt.Console.{Console, vcprintf}
use rt.Proc.{ProcState, Proc, Machine, Statics, proc_at, set_proc}
use rt.Proc.Switch.{exit}

abbrev pub t_syscall : ℕ
t_syscall = 64

abbrev pub t_irq0 : ℕ
t_irq0 = 32

abbrev pub irq_timer : ℕ
irq_timer = 0

abbrev pub sys_print_num : ℕ
sys_print_num = 12

abbrev pub sys_exit_num : ℕ
sys_exit_num = 13

-- `struct trapframe`, of which the handler reads and writes these.
pub record TrapFrame : Type 0 where
  pub rax : ℕ
  pub rcx : ℕ
  pub rdx : ℕ
  pub rsi : ℕ
  pub rdi : ℕ
  pub r8 : ℕ
  pub r9 : ℕ
  pub trapno : ℕ
  pub cs : ℕ

-- `idt[n]` for an address and a privilege level; `trap` chooses the kind of gate.
unfoldable pub mkgate : Mem → (idt n kva pl trap : ℕ) → Mem
mkgate m idt n kva pl trap =
    let kind = if trap == 0 then 0x8E00 else 0x8F00 in
    let word = λ (i : ℕ). idt + 4 * ((n * 4 + i) % 2 ^ 32) in
    let m = store32 m (word 0) (bit_or (bit_and kva 0xFFFF) (1 * 2 ^ 3 * 2 ^ 16)) in
    let m =
      store32 m (word 1) (bit_or (bit_or (bit_and kva 0xFFFF0000) kind) (bit_and pl 3 * 2 ^ 13)) in
    let m = store32 m (word 2) (kva / 2 ^ 32) in store32 m (word 3) 0

abbrev pub is_sleeping : ProcState → Bool
is_sleeping ProcState.sleeping = true
is_sleeping _ = false

abbrev pub is_zero : ℤ → Bool
is_zero (pos n) = n == 0
is_zero (negsuc n) = false

-- One process at a tick.
unfoldable pub tick_proc : Proc → Proc
tick_proc p =
    let left = p.sleeprem -ℤ pos 1 in
    if not (is_sleeping p.state)
    then p
    else if is_zero left
    then record p { sleeprem = left; state = ProcState.runnable }
    else record p { sleeprem = left }

-- `for (int i = 0; i < nproc; i++)`, with `left` rounds to go.
unfoldable pub tick_procs : (left i : ℕ) → Cmd Machine (Unit {0})
unfolding tick_proc
tick_procs zero i = pure tt
tick_procs (suc left) i =
    let rest = tick_procs left (i + 1) in do p ← proc_at i; set_proc i (tick_proc p); rest

-- A print on the console of the machine, with the result 0.
abbrev pub after_print : Machine → Outcome Console (Unit {0}) → Outcome Machine ℕ
after_print m (done _ out) = done 0 (record m { console = out })
after_print m panic = panic
after_print m out_of_fuel = out_of_fuel
after_print m undefined = undefined

-- `cprintf("%s", a0)`; `fuel` bounds the text.
unfoldable pub sys_print : Statics → (fuel a0 : ℕ) → Cmd Machine ℕ
sys_print st fuel a0 m = after_print m (vcprintf m.kernel.mem fuel st.percent_s (a0 ∷ []) m.console)

-- The result is `none` where the calling thread does not come back.
unfoldable pub syscall : Statics → (fuel num a0 : ℕ) → Cmd Machine (Option ℕ)
unfolding sys_print exit
syscall st fuel num a0 =
    if num == sys_print_num
    then (do r ← sys_print st fuel a0; pure (some r))
    else if num == sys_exit_num
    then (do exit a0; pure none)
    else pure (some (2 ^ 64 - 1))

-- `lapiceoi()`: the register at 0xB0, and the value 0. The read that waits for the write has no effect.
unfoldable pub end_interrupt : Cmd Machine (Unit {0})
end_interrupt = modify λ m. record m { lapic = (0xB0 / 4, 0) ∷ m.lapic }

-- `tick_procs` runs over the processes that there are.
unfoldable pub timer : Cmd Machine (Unit {0})
unfolding tick_procs end_interrupt
timer = do
  modify λ m. record m { ticks = (m.ticks + 1) % 2 ^ 32 }
  n ← gets (λ m. m.nproc)
  tick_procs n 0
  end_interrupt

abbrev pub no_process : Option ℕ → Bool
no_process none = true
no_process (some i) = false

-- The frame with which the interrupted thread goes on; `none` if it does not.
unfoldable pub trap : Statics → (fuel : ℕ) → TrapFrame → Cmd Machine (Option TrapFrame)
unfolding timer syscall exit
trap st fuel tf =
    if tf.trapno == t_irq0 + irq_timer
    then (do timer; pure (some tf))
    else if tf.trapno == t_syscall
    then (do
      r ← syscall st fuel tf.rax tf.rdi
      pure (elim r [ none ↦ none | some v ↦ some (record tf { rax = v }) ]))
    else (do
      cur ← gets (λ m. m.curproc)
      if no_process cur || bit_and tf.cs 3 == 0
          then (λ _. panic)
          else (do exit 0xDEADDEADDEADDEAD; pure none))
