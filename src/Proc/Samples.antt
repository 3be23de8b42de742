-- ===== src/Proc/Samples.antt =====
-- Machines of three processes for the tests: the idle one in slot 0, one that runs or is runnable in
-- slot 1, one that sleeps for two more ticks in slot 2, and a free slot.
use rt.Prelude.{ℕ, zero, suc, ◌≡◌, refl, false, true, some, List, [], ◌∷◌, arith}
use mathlib.Core.Path.{subst}
use rt.Prelude.Int.{pos}
use rt.Kalloc.Samples.{none_free}
use rt.Proc.{ProcState, Proc, zero_proc, zero_context, Machine, Statics, is_running}
use rt.Proc.Invariant.{IsCounted, Every, IsStopped, IsSound}

Every-nil : (P : ℕ → Proc → Type 0) → Every P []
Every-nil P j p at = absurd (ground arith)

Every-cons :
    (P : ℕ → Proc → Type 0) (p : Proc) (ps : List Proc)
    → P 0 p
    → Every (λ j q. P (suc j) q) ps
    → Every P (p ∷ ps)
Every-cons P p ps h all zero q at = subst (P 0) (same at) h
  where
    same : {a b : Proc} → some a ≡ some b → a ≡ b
    same e = cc
Every-cons P p ps h all (suc j) q at = all j q at

abbrev idle_slot : Proc
idle_slot = record zero_proc { state = ProcState.running }

abbrev pub busy_slot : ProcState → Proc
busy_slot x = record zero_proc { state = x; pid = 1 }

abbrev sleeping_slot : Proc
sleeping_slot = record zero_proc { state = ProcState.sleeping; pid = 2; sleeprem = pos 2 }

abbrev pub slots : ProcState → List Proc
slots x = idle_slot ∷ busy_slot x ∷ sleeping_slot ∷ zero_proc ∷ []

-- Slot 1 is in state `x`, and slot `c` is the current one.
abbrev pub sample : ProcState → ℕ → Machine
sample x c = record {
  kernel = none_free;
  procs = slots x;
  nproc = 3;
  curproc = some c;
  idleproc = some 0;
  idlectx = some 0;
  next = 2;
  regs = zero_context;
  irq = true;
  cr3 = 0;
  kpml4 = 0;
  upml4 = 0;
  ticks = 0;
  console = record { uart = []; cga = []; panicked = false };
  procs_at = 4096;
  lapic = [];
}

abbrev pub addresses : Statics
addresses = record {
  procs = 4096;
  kstacks = 8192;
  ustacks = 65536;
  spawnret = 16;
  trapret = 32;
  spawnuserret = 48;
  tls = 131072;
  percent_s = 64;
}

all_slots :
    (P : ℕ → Proc → Type 0) (x : ProcState)
    → P 0 idle_slot
    → P 1 (busy_slot x)
    → P 2 sleeping_slot
    → P 3 zero_proc
    → Every P (slots x)
all_slots P x a b c d = Every-cons P idle_slot (busy_slot x ∷ sleeping_slot ∷ zero_proc ∷ []) a (
    Every-cons (λ j q. P (suc j) q) (busy_slot x) (sleeping_slot ∷ zero_proc ∷ []) b
      (Every-cons (λ j q. P (suc (suc j)) q) sleeping_slot (zero_proc ∷ []) c
        (Every-cons (λ j q. P (suc (suc (suc j))) q) zero_proc [] d
          (Every-nil (λ j q. P (suc (suc (suc (suc j)))) q)))))

-- The process of slot 1 runs.
pub busy-IsSound : IsSound 0 1 (sample ProcState.running 1)
busy-IsSound = record {
  idle = refl;
  idle_ctx = refl;
  cur = refl;
  table = omega arith;
  idle_in = omega arith;
  cur_in = omega arith;
  next_in = omega arith;
  idle_runs =
      all_slots (λ j p. j ≡ 0 → is_running p.state ≡ true) ProcState.running (λ e. refl)
        (λ e. absurd (omega arith)) (λ e. absurd (omega arith)) (λ e. absurd (omega arith));
  cur_runs =
      all_slots (λ j p. j ≡ 1 → is_running p.state ≡ true) ProcState.running
        (λ e. absurd (omega arith)) (λ e. refl) (λ e. absurd (omega arith))
        (λ e. absurd (omega arith));
  stopped =
      all_slots (IsStopped 0 1) ProcState.running (λ a b. absurd (a refl)) (λ a b. absurd (b refl))
        (λ a b. refl) (λ a b. refl);
  counted =
      all_slots (λ j p. IsCounted p) ProcState.running (λ e. absurd (ground arith))
        (λ e. absurd (ground arith)) (λ e. (1, refl)) (λ e. absurd (ground arith));
}

-- The idle loop runs, and the process of slot 1 is runnable.
pub idle-IsSound : IsSound 0 0 (sample ProcState.runnable 0)
idle-IsSound = record {
  idle = refl;
  idle_ctx = refl;
  cur = refl;
  table = omega arith;
  idle_in = omega arith;
  cur_in = omega arith;
  next_in = omega arith;
  idle_runs =
      all_slots (λ j p. j ≡ 0 → is_running p.state ≡ true) ProcState.runnable (λ e. refl)
        (λ e. absurd (omega arith)) (λ e. absurd (omega arith)) (λ e. absurd (omega arith));
  cur_runs =
      all_slots (λ j p. j ≡ 0 → is_running p.state ≡ true) ProcState.runnable (λ e. refl)
        (λ e. absurd (omega arith)) (λ e. absurd (omega arith)) (λ e. absurd (omega arith));
  stopped =
      all_slots (IsStopped 0 0) ProcState.runnable (λ a b. absurd (a refl)) (λ a b. refl)
        (λ a b. refl) (λ a b. refl);
  counted =
      all_slots (λ j p. IsCounted p) ProcState.runnable (λ e. absurd (ground arith))
        (λ e. absurd (ground arith)) (λ e. (1, refl)) (λ e. absurd (ground arith));
}
