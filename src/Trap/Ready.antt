-- ===== src/Trap/Ready.antt =====
-- kernel/trap.c: `trapinit` as a whole.
use native.Mathlib.Decide.{ℕ_discrete}
use rt.Prelude.{
  ℕ, zero, suc, ◌+◌, ◌-◌, ◌*◌, ◌%◌, ◌^◌, ◌<◌, ◌≤◌, ◌≡◌, ◌≢◌, ◌⊎◌, refl, sym, ap, ◌∙◌, true, false,
  ◌==◌, arith, none, some, List, get_elem?,
}
use rt.Prelude.Run.{Outcome, panic, Returns, returns}
use rt.Memory.Laws.{Outside}
use rt.Trap.Setup.{Processor, find_cpu, set_idt, set_gdt, set_tables, trapinit}
use rt.Trap.Tables.{IsTable, IsTable-kept, set_idt-IsTable}
use rt.Trap.Segments.{HasSegments, set_gdt_frame, set_gdt-HasSegments}

-- What acpi.c leaves in `cpus`: the field `index` of a slot is its own number.
abbrev pub IsNumbered : List ℕ → ℕ → Type 0
IsNumbered indices ncpu = (i : ℕ) → i < ncpu → get_elem? indices i ≡ some (i % 256)

module _ (indices : List ℕ) (ncpu lapic_id : ℕ) (numbered : IsNumbered indices ncpu)
    (few : ncpu ≤ 256) where
  find-here :
      (left i : ℕ) → i < ncpu → lapic_id % 256 ≡ i → find_cpu indices lapic_id (suc left) i ≡ some i
  unfolding find_cpu
  find-here left i h e =
      let a : (lapic_id % 256 == i % 256) ≡ true = ground arith in rw (numbered i h, a) refl

  find-next :
      (left i : ℕ)
      → i < ncpu
      → lapic_id % 256 ≢ i
      → find_cpu indices lapic_id (suc left) i ≡ find_cpu indices lapic_id left (i + 1)
  unfolding find_cpu
  find-next left i h e =
      let a : (lapic_id % 256 == i % 256) ≡ false = ground arith in rw (numbered i h, a) refl

  find_own :
      (left i : ℕ)
      → i + left ≡ ncpu
      → i ≤ lapic_id % 256
      → lapic_id % 256 < ncpu
      → find_cpu indices lapic_id left i ≡ some (lapic_id % 256)
  find_own zero i n h l = absurd (omega arith)
  find_own (suc left) i n h l = elim (ℕ_discrete (lapic_id % 256) i) [
    | yes e ↦ find-here left i (omega arith) e ∙ ap some (sym e)
    | no ne ↦
        find-next left i (omega arith) ne ∙ find_own left (i + 1) (omega arith) (omega arith) l
  ]

  find_nobody :
      (left i : ℕ)
      → i + left ≡ ncpu
      → ncpu ≤ lapic_id % 256
      → find_cpu indices lapic_id left i ≡ none
  unfolding find_cpu
  find_nobody zero i n h = refl
  find_nobody (suc left) i n h =
      find-next left i (omega arith) (λ e. omega arith) ∙ find_nobody left (i + 1) (omega arith) h

-- The processor `c` enters the kernel through the tables, which nothing else in memory is part of.
pub record IsSetUp (vectors : ℕ → ℕ) (idt tls_local c : ℕ) (s s' : Processor) : Type 0 where
  pub entries : IsTable vectors idt s'.mem
  pub segments : HasSegments tls_local (tls_local + 1024) s'.mem
  pub idt_all : (s'.idtr.base ≡ idt) × (s'.idtr.limit ≡ 16 * 256 - 1)
  pub gdt_all : (s'.gdtr.base ≡ tls_local) × (s'.gdtr.limit ≡ 8 * 8 - 1)
  pub task_register : s'.task ≡ 48
  pub thread_data : s'.fs_base ≡ tls_local + 2048
  pub current : (s'.curcpu ≡ some c) × (s'.cpu_tls ≡ tls_local)
  pub rest : (b : ℕ) → Outside idt 4096 b → Outside tls_local 4096 b → s'.mem b ≡ s.mem b

-- The two pages do not overlap.
abbrev pub Apart : ℕ → ℕ → Type 0
Apart a b = (a + 4096 ≤ b) ⊎ (b + 4096 ≤ a)

set_tables-IsSetUp :
    (vectors : ℕ → ℕ) (idt tls c : ℕ) (s : Processor)
    → ((j : ℕ) → vectors j < 2 ^ 64)
    → tls + 4096 * c + 4096 ≤ 2 ^ 64
    → Apart idt (tls + 4096 * c)
    → IsSetUp vectors idt (tls + 4096 * c) c s (set_tables vectors idt tls c s)
unfolding set_tables
set_tables-IsSetUp vectors idt tls c s v h apart =
    let t = tls + 4096 * c in
    let m1 = set_idt vectors idt s.mem in
    let one = set_idt-IsTable vectors idt s.mem v in
    let frame = set_gdt_frame t m1 in
    record {
      entries =
          IsTable-kept vectors idt m1 (set_gdt t (t + 1024) m1) (λ b p q. frame b (omega arith))
            one.0;
      segments = set_gdt-HasSegments t (t + 1024) m1 (omega arith);
      idt_all = (refl, refl);
      gdt_all = (refl, refl);
      task_register = refl;
      thread_data = refl;
      current = (refl, refl);
      rest = λ b o p. frame b p ∙ one.1 b o;
    }

-- A processor whose identity is that of nobody panics.
abbrev pub Outcomes :
    (vectors : ℕ → ℕ) (idt tls ncpu lapic_id : ℕ)
    → Processor
    → Outcome Processor (Unit {0})
    → Type 0
Outcomes vectors idt tls ncpu lapic_id s o =
    let c = lapic_id % 256 in
    (c < ncpu → Returns (λ _ s'. IsSetUp vectors idt (tls + 4096 * c) c s s') o)
    × (ncpu ≤ c → o ≡ panic)

-- With `cpus[i].index` equal to `i` for at most 256 processors, entry points that fit 64 bits and
-- pages that do not overlap, `trapinit` panics if the low byte of the identity is not below the
-- number of processors. Otherwise it ends; each of the 256 gates enters at its own entry point in
-- the kernel, with the gate of the system call as the only one open to user programs, the
-- segments are kernel and user code and data with their levels, the task descriptor points to the
-- task state, the table registers cover the tables, and memory outside the two pages has not
-- changed.
pub trapinit-IsSetUp :
    (vectors : ℕ → ℕ) (idt tls : ℕ) (indices : List ℕ) (ncpu lapic_id : ℕ) (s : Processor)
    → ((j : ℕ) → vectors j < 2 ^ 64)
    → IsNumbered indices ncpu
    → ncpu ≤ 256
    → tls + 4096 * (lapic_id % 256) + 4096 ≤ 2 ^ 64
    → Apart idt (tls + 4096 * (lapic_id % 256))
    → Outcomes vectors idt tls ncpu lapic_id s (trapinit vectors idt tls indices ncpu lapic_id s)
unfolding trapinit
trapinit-IsSetUp vectors idt tls indices ncpu lapic_id s v numbered few fits apart = (
  λ h.
      rw (find_own indices ncpu lapic_id numbered few ncpu 0 (omega arith) (omega arith) h)
        (returns (set_tables-IsSetUp vectors idt tls (lapic_id % 256) s v fits apart)),
  λ h. rw (find_nobody indices ncpu lapic_id numbered few ncpu 0 (omega arith) h) refl,
)
