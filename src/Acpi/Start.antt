-- ===== src/Acpi/Start.antt =====
-- kernel/acpi.c with kernel/trap.c: the processors that `acpiinit` records are those that `trapinit`
-- looks for.
use mathlib.Core.Option
use mathlib.Core.Path.{subst}
use rt.Prelude.{
  ℕ, zero, suc, ◌+◌, ◌-◌, ◌*◌, ◌%◌, ◌^◌, ◌≤◌, ◌<◌, ◌≡◌, refl, ◌∙◌, inl, inr, Bool, true, false,
  Option, none, some, List, [], ◌∷◌, map, get_elem?, length, arith, ltb, leb, not, ◌==◌,
  if◌then◌else◌, Bool-cases,
}
use rt.Prelude.Run.{Outcome, done, panic, out_of_fuel, undefined, Cmd, and_then, assert}
use rt.Memory.{Mem, load32}
use rt.Layout.{p2v, max_phys_mem}
use rt.Acpi.{
  Cpu, Apics, rsdt_count, find_madt, with_madt, with_rdsp, acpi_config_smp, madt_loop, madt_size,
  default_lapic_paddr, find_rdsp, acpiinit,
}
use rt.Acpi.Madt.{IsIndexed, Keeps, madt_loop-Keeps}
use rt.Trap.Setup.{Processor, trapinit}
use rt.Trap.Ready.{IsNumbered, Apart, Outcomes, trapinit-IsSetUp}

-- A run that ends normally leaves at least one processor, and the invariant of the array.
abbrev pub Found : {A : Type 0} → Outcome Apics A → Type 0
Found (done a s) = IsIndexed s × (0 < s.ncpu)
Found panic = Unit {0}
Found out_of_fuel = Unit {0}
Found undefined = Unit {0}

-- An assertion that holds leaves the state alone.
after_assert :
    {A : Type 0} (b : Bool) (k : Cmd Apics A) (s : Apics)
    → (b ≡ true → Found (k s))
    → Found (and_then (assert b s) λ _. k)
after_assert true k s h = h refl
after_assert false k s h = tt

after_loop :
    {A B : Type 0} (r : Outcome Apics A) (k : A → Cmd Apics B)
    → Keeps r
    → ((a : A) (s : Apics) → IsIndexed s → Found (k a s))
    → Found (and_then r k)
after_loop (done a s) k h next = next a s h
after_loop panic k h next = tt
after_loop out_of_fuel k h next = tt
after_loop undefined k h next = tt

Found-if :
    (b : Bool) (f g : Cmd Apics (Unit {0})) (s : Apics)
    → Found (f s)
    → Found (g s)
    → Found ((if b then f else g) s)
Found-if true f g s h k = h
Found-if false f g s h k = k

some_cpu : (s : Apics) → IsIndexed s → Found (assert (not (s.ncpu == 0)) s)
some_cpu s v = elim (Bool-cases (s.ncpu == 0)) [
  | inl e ↦ rw (e) tt
  | inr e ↦ rw (e) (v, ground arith)
]

acpi_config_smp-Found :
    (m : Mem) (madt : ℕ) (s : Apics) → IsIndexed s → Found (acpi_config_smp m madt s)
unfolding acpi_config_smp
acpi_config_smp-Found m madt s v =
    let size = load32 m (madt + 4) in
    after_assert (not (madt == 0)) _ s λ _. after_assert (leb madt_size size) _ s λ _.
      after_assert (load32 m (madt + 36) == default_lapic_paddr) _ s λ _.
        after_loop (madt_loop m (size - madt_size + 1) (madt + madt_size) (size - madt_size) 0 s) _
          (madt_loop-Keeps m (size - madt_size + 1) (madt + madt_size) (size - madt_size) 0 s v)
          λ _ t w. some_cpu t w

with_madt-Found : (m : Mem) (r : Option ℕ) (s : Apics) → IsIndexed s → Found (with_madt m r s)
unfolding with_madt
with_madt-Found m none s v = tt
with_madt-Found m (some madt) s v = acpi_config_smp-Found m madt s v

with_rdsp-Found :
    (m : Mem) (sig : ℕ) (r : Option ℕ) (s : Apics) → IsIndexed s → Found (with_rdsp m sig r s)
unfolding with_rdsp
with_rdsp-Found m sig none s v = tt
with_rdsp-Found m sig (some rdsp) s v =
    Found-if (ltb max_phys_mem (load32 m (rdsp + 16))) _ _ s tt (
      with_madt-Found m
        (find_madt m sig (p2v (load32 m (rdsp + 16))) (rsdt_count m (p2v (load32 m (rdsp + 16)))) 0
          0)
        s v)

pub acpiinit-Found :
    (m : Mem) (sig_rdsp sig_madt : ℕ) (s : Apics)
    → IsIndexed s
    → Found (acpiinit m sig_rdsp sig_madt s)
unfolding acpiinit
acpiinit-Found m sig_rdsp sig_madt s v = with_rdsp-Found m sig_madt (find_rdsp m sig_rdsp) s v

-- The fields `index` of the array.
abbrev pub indices : Apics → List ℕ
indices a = map (λ c. c.index) a.cpus

get-map :
    (cs : List Cpu) (i : ℕ)
    → get_elem? (map (λ c. c.index) cs) i ≡ Option.map (λ c. c.index) (get_elem? cs i)
get-map [] i = refl
get-map (c ∷ cs) zero = refl
get-map (c ∷ cs) (suc i) = get-map cs i

indices-IsNumbered : (a : Apics) → IsIndexed a → IsNumbered (indices a) a.ncpu
indices-IsNumbered a v i h = get-map a.cpus i ∙ v.index i h

-- If `acpiinit` returns from an empty array that has at most 256 slots, it has found a processor;
-- and `trapinit`, with entry points that fit 64 bits and pages that do not overlap, then sets up
-- the processor whose number is the identity (its low byte), and panics if that is not below the
-- number of processors found.
pub acpiinit-trapinit :
    (m : Mem) (sig_rdsp sig_madt : ℕ) (empty found : Apics) (vectors : ℕ → ℕ) (idt tls lapic_id : ℕ)
    (s : Processor)
    → empty.ncpu ≡ 0
    → length found.cpus ≤ 256
    → acpiinit m sig_rdsp sig_madt empty ≡ done tt found
    → ((j : ℕ) → vectors j < 2 ^ 64)
    → tls + 4096 * (lapic_id % 256) + 4096 ≤ 2 ^ 64
    → Apart idt (tls + 4096 * (lapic_id % 256))
    → (0 < found.ncpu)
      × Outcomes vectors idt tls found.ncpu lapic_id s
          (trapinit vectors idt tls (indices found) found.ncpu lapic_id s)
acpiinit-trapinit m sig_rdsp sig_madt empty found vectors idt tls lapic_id s none_yet few e v fits
      apart =
    let start : IsIndexed empty = record {
      room = omega arith;
      index = λ i h. absurd (omega arith);
    } in
    let f : IsIndexed found × (0 < found.ncpu) =
      subst Found e (acpiinit-Found m sig_rdsp sig_madt empty start) in
    (
      f.1,
      trapinit-IsSetUp vectors idt tls (indices found) found.ncpu lapic_id s v
          (indices-IsNumbered found f.0) (omega (arith, f.0.room)) fits apart,
    )
