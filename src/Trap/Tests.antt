-- ===== src/Trap/Tests.antt =====
-- The theorems on traps at the sample machines.
use mathlib.Core.Option
use rt.Prelude.{
  ◌*◌, zero, [], ◌∷◌, ◌+◌, ℕ, suc, ◌-◌, ◌≡◌, refl, none, some, arith, get_elem?, ◌⊎◌, ◌≢◌, ◌%◌,
  ◌==◌, ◌&&◌, leb, ltb, if◌then◌else◌,
}
use rt.Prelude.Run
use rt.Prelude.Run.{done, panic, Returns}
use rt.Proc.{ProcState, Machine}
use rt.Proc.Invariant.{IsSound, IsPassed}
use rt.Proc.Samples.{busy_slot, sample, addresses, busy-IsSound}
use rt.Trap.{TrapFrame, timer, trap, mkgate}
use rt.Trap.Setup.{Processor, trapinit}
use rt.Trap.Gate.{IsGate, mkgate-IsGate}
use rt.Trap.Ready.{IsNumbered, Outcomes, trapinit-IsSetUp}
use rt.Trap.Timer.{IsTimed, trap_timer}
use rt.Trap.Wake.{Sleeps, History, here, sleep-exact}
use rt.Trap.Calls.{IsFault, ended, trap-fault, trap_print}
use rt.Memory.{Mem}
use rt.Memory.Laws.{IsBytes, SameBut}
use rt.Console.Format.{printed, IsText, text_at}
use rt.Console.Text.{IsPercentS}
use rt.Kalloc.Samples.{none_free}

abbrev busy : Machine
busy = sample ProcState.running 1

abbrev frame : (trapno rax cs : ℕ) → TrapFrame
frame trapno rax cs = record {
  rax = rax;
  rcx = 0;
  rdx = 0;
  rsi = 0;
  rdi = 9;
  r8 = 0;
  r9 = 0;
  trapno = trapno;
  cs = cs;
}

trap_timer_example :
    Returns
      (λ r m. (r ≡ some (frame 32 0 8)) × IsTimed busy m)
      (trap addresses 0 (frame 32 0 8) busy)
trap_timer_example = trap_timer addresses 0 (frame 32 0 8) busy refl (omega arith)

page-IsFault : (cs : ℕ) → IsFault (frame 14 0 cs)
page-IsFault cs = record { not_timer = omega arith; not_call = omega arith }

trap-fault_example :
    ((35 % 4 ≡ 0) × (trap addresses 0 (frame 14 0 35) busy ≡ panic))
    ⊎ ((35 % 4 ≢ 0)
        × Returns
            (λ r m.
              (r ≡ none)
              × IsPassed busy 1 0 (ended 0xDEADDEADDEADDEAD (busy_slot ProcState.running)) m)
            (trap addresses 0 (frame 14 0 35) busy))
trap-fault_example =
    trap-fault addresses 0 (frame 14 0 35) busy 1 0 (busy_slot ProcState.running) (page-IsFault 35)
      busy-IsSound refl (omega arith)

-- The literal "%s" at 64 and the text "abc" at 16.
abbrev texts : Mem
texts a =
    if a == 64 then 37 else if a == 65 then 115 else if leb 16 a && ltb a 19 then a + 81 else 0

texts-IsBytes : IsBytes texts
texts-IsBytes a = ground arith

texts-IsPercentS : IsPercentS texts 64
texts-IsPercentS = record { not_null = omega arith; percent = refl; letter = refl; nul = refl }

texts-IsText : IsText texts 16 3
texts-IsText = record { text = λ i h. ground arith; nul = refl }

abbrev with_texts : Machine
with_texts = record busy { kernel = record none_free { mem = texts } }

abbrev print_frame : ℕ → TrapFrame
print_frame rax = record (frame 64 rax 35) { rdi = 16 }

trap_print_example :
    trap addresses 5 (print_frame 12) with_texts
    ≡ done
        (some (print_frame 0))
        (record with_texts { console = printed with_texts.console (text_at texts 16 3) })
trap_print_example =
    trap_print addresses 5 3 (print_frame 12) with_texts refl refl texts-IsBytes texts-IsPercentS
      refl (omega arith) texts-IsText (omega arith)

two_left : Sleeps 2 2 busy
two_left = record { proc = _; at = refl; asleep = refl; left = refl; in_use = omega arith }

-- One tick of the timer.
abbrev ticked : Machine
ticked = state_of (timer busy)
  where
    state_of : Run.Outcome Machine (Unit {0}) → Machine
    state_of (done _ m) = m
    state_of _ = busy

first_tick : timer busy ≡ done tt ticked
unfolding timer
first_tick = refl

one_tick : History addresses 0 1 busy 1 1 ticked
one_tick = History.tick here first_tick

sleep-exact_example :
    IsSound 0 1 ticked
    × Sleeps (2 - 1) 2 ticked
    × ((m : Machine)
        → timer ticked ≡ done tt m
        → suc 1 ≡ 2
        → Option.map (λ p. p.state) (get_elem? m.procs 2) ≡ some ProcState.runnable)
sleep-exact_example =
    sleep-exact addresses 0 1 2 2 1 1 busy ticked busy-IsSound two_left (omega arith) one_tick

-- Two processors, of which the second sets itself up.
abbrev vectors : ℕ → ℕ
vectors j = 0xFFFFFFFF80100000 + 16 * (j % 256)

abbrev bare : Processor
bare = record {
  mem = λ _. 3;
  idtr = record { base = 0; limit = 0 };
  gdtr = record { base = 0; limit = 0 };
  task = 0;
  fs_base = 0;
  curcpu = none;
  cpu_tls = 0;
}

pair-IsNumbered : IsNumbered (0 ∷ 1 ∷ []) 2
pair-IsNumbered zero h = refl
pair-IsNumbered (suc zero) h = refl
pair-IsNumbered (suc (suc i)) h = absurd (omega arith)

trapinit-IsSetUp_example :
    Outcomes vectors 0x10000 0x20000 2 1 bare
      (trapinit vectors 0x10000 0x20000 (0 ∷ 1 ∷ []) 2 1 bare)
trapinit-IsSetUp_example =
    trapinit-IsSetUp vectors 0x10000 0x20000 (0 ∷ 1 ∷ []) 2 1 bare (λ j. omega arith)
      pair-IsNumbered (omega arith) (omega arith) (omega arith)

mkgate-IsGate_example :
    IsGate (mkgate bare.mem 0x10000 64 0xFFFFFFFF80101234 3 1) 0x10000 64 0xFFFFFFFF80101234 3 15
    × SameBut (0x10000 + 16 * 64) 16 bare.mem (mkgate bare.mem 0x10000 64 0xFFFFFFFF80101234 3 1)
mkgate-IsGate_example =
    mkgate-IsGate bare.mem 0x10000 64 0xFFFFFFFF80101234 3 1 (omega arith) (omega arith)
