-- ===== src/Acpi/Madt.antt =====
-- kernel/acpi.c: the walk over the entries of the MADT.
use mathlib.Core.Option
use mathlib.Core.Path.{subst}
use native.Mathlib.Decide.{ℕ_discrete, dec_lt}
use rt.Prelude.{
  ℕ, zero, suc, ◌+◌, ◌-◌, ◌%◌, ◌≤◌, ◌<◌, ◌≡◌, ◌≢◌, refl, sym, ◌∙◌, ap, ◌⊎◌, inl, inr, Bool, true,
  false, not, some, arith, ltb, ◌==◌, bit_and, length, length-set, get_elem?, get_elem?-set_self,
  get_elem?-set_ne, set, if◌then◌else◌, Bool-cases,
}
use rt.Prelude.Run.{Outcome, done, panic, out_of_fuel, undefined, Cmd, and_then}
use rt.Memory.{Mem, load32}
use rt.Acpi.{Cpu, Apics, add_cpu, madt_entry, madt_loop}

-- Every entry that the walk meets has a length of at least one byte.
pub data Advances (m : Mem) : (p left : ℕ) → Type 0 where
  short : {p left : ℕ} → left < 2 → Advances m p left
  cut : {p left : ℕ} → left < m (p + 1) → Advances m p left
  entry :
      {p left : ℕ}
      → 0 < m (p + 1)
      → Advances m (p + m (p + 1)) (left - m (p + 1))
      → Advances m p left

entry_ends : (m : Mem) (p len n : ℕ) (s : Apics) → madt_entry m p len n s ≢ out_of_fuel
unfolding madt_entry add_cpu
entry_ends m p len n s e = ground arith

and_then_ends :
    {A B : Type 0} (r : Outcome Apics A) (k : A → Cmd Apics B)
    → r ≢ out_of_fuel
    → ((a : A) (s : Apics) → k a s ≢ out_of_fuel)
    → and_then r k ≢ out_of_fuel
and_then_ends (done a s) k h next = next a s
and_then_ends panic k h next = λ e. cc
and_then_ends out_of_fuel k h next = λ e. h refl
and_then_ends undefined k h next = λ e. cc

-- One round of the walk.
stops :
    (m : Mem) (fuel p left n : ℕ) (s : Apics)
    → (left < 2) ⊎ (left < m (p + 1))
    → madt_loop m (suc fuel) p left n s ≡ done tt s
unfolding madt_loop
stops m fuel p left n s h = ground arith

goes :
    (m : Mem) (fuel p left n : ℕ) (s : Apics)
    → 2 ≤ left
    → m (p + 1) ≤ left
    → madt_loop m (suc fuel) p left n s
      ≡ and_then
          (madt_entry m p (m (p + 1)) n s)
          (madt_loop m fuel (p + m (p + 1)) (left - m (p + 1)))
unfolding madt_loop
goes m fuel p left n s h k =
    let a : (left == 0) ≡ false = ground arith in
    let b : ltb left 2 ≡ false = ground arith in
    let c : ltb left (m (p + 1)) ≡ false = ground arith in rw (a, b, c) refl

stopped_ends :
    (m : Mem) (fuel p left n : ℕ) (s : Apics)
    → (left < 2) ⊎ (left < m (p + 1))
    → madt_loop m (suc fuel) p left n s ≢ out_of_fuel
stopped_ends m fuel p left n s h e = absurd (differ (sym (stops m fuel p left n s h) ∙ e))
  where
    differ : {t : Apics} → done tt t ≡ out_of_fuel → ⊥
    differ e' = cc

-- With a round for each byte left and one more, the walk over a MADT in which every entry that it
-- meets has a length of at least one byte ends.
pub madt_loop-ends :
    (m : Mem) (fuel p left n : ℕ) (s : Apics)
    → Advances m p left
    → left < fuel
    → madt_loop m fuel p left n s ≢ out_of_fuel
madt_loop-ends m zero p left n s adv h = absurd (omega arith)
madt_loop-ends m (suc fuel) p left n s (short few) h = stopped_ends m fuel p left n s (inl few)
madt_loop-ends m (suc fuel) p left n s (cut few) h = stopped_ends m fuel p left n s (inr few)
madt_loop-ends m (suc fuel) p left n s (entry some_len adv) h = elim (dec_lt left 2) [
  | yes few ↦ stopped_ends m fuel p left n s (inl few)
  | no many ↦ elim (dec_lt left (m (p + 1))) [
    | yes over ↦ stopped_ends m fuel p left n s (inr over)
    | no fit ↦ λ e.
        and_then_ends (madt_entry m p (m (p + 1)) n s) _ (entry_ends m p (m (p + 1)) n s)
          (λ n' t. madt_loop-ends m fuel (p + m (p + 1)) (left - m (p + 1)) n' t adv (omega arith))
          (sym (goes m fuel p left n s (omega arith) (omega arith)) ∙ e)
  ]
]

entry_of_none : (m : Mem) (p n : ℕ) (s : Apics) → madt_entry m p 0 n s ≡ done n s
unfolding madt_entry
entry_of_none m p n s = ground arith

-- An entry of length 0 with at least two bytes left holds the walk over the MADT for ever: it
-- runs out of any number of rounds.
pub madt_loop-stuck :
    (m : Mem) (fuel p left n : ℕ) (s : Apics)
    → m (p + 1) ≡ 0
    → 2 ≤ left
    → madt_loop m fuel p left n s ≡ out_of_fuel
unfolding madt_loop
madt_loop-stuck m zero p left n s z h = refl
madt_loop-stuck m (suc fuel) p left n s z h =
    goes m fuel p left n s h (omega arith)
    ∙ ap (λ len. and_then (madt_entry m p len n s) (madt_loop m fuel (p + len) (left - len))) z
    ∙ ap (λ r. and_then r (madt_loop m fuel (p + 0) (left - 0))) (entry_of_none m p n s)
    ∙ madt_loop-stuck m fuel (p + 0) (left - 0) n s (ap m (omega arith) ∙ z) (omega arith)

-- `INVARIANT: forall i, cpus[i].index = i`, for the entries in use, as far as a byte holds them.
pub record IsIndexed (s : Apics) : Type 0 where
  pub room : s.ncpu ≤ length s.cpus
  pub index : (i : ℕ) → i < s.ncpu → Option.map (λ c. c.index) (get_elem? s.cpus i) ≡ some (i % 256)

-- A run that ends normally keeps the invariant.
abbrev pub Keeps : {A : Type 0} → Outcome Apics A → Type 0
Keeps (done a s) = IsIndexed s
Keeps panic = Unit {0}
Keeps out_of_fuel = Unit {0}
Keeps undefined = Unit {0}

add_cpu-Keeps : (id : ℕ) (s : Apics) → IsIndexed s → Keeps (add_cpu id s)
unfolding add_cpu
add_cpu-Keeps id s v = elim (Bool-cases (ltb s.ncpu (length s.cpus))) [
  | inl fits ↦ rw fits (record {
    room = ground (arith, length-set s.cpus s.ncpu new);
    index = λ i lt. elim (ℕ_discrete s.ncpu i) [
      | yes e ↦
          ap (λ j. Option.map (λ c. c.index) (get_elem? (set s.cpus s.ncpu new) j)) (sym e)
          ∙ ap (Option.map (λ c. c.index)) (get_elem?-set_self s.cpus s.ncpu new (ground arith))
          ∙ ap (λ j. some (j % 256)) e
      | no ne ↦
          ap (Option.map (λ c. c.index)) (get_elem?-set_ne s.cpus new ne) ∙ v.index i (omega arith)
    ];
  })
  | inr full ↦ rw full tt
]
  where
    new : Cpu
    new = record { index = s.ncpu % 256; lapicid = id }

Keeps-and_then :
    {A B : Type 0} (r : Outcome Apics A) (k : A → Cmd Apics B)
    → Keeps r
    → ((a : A) (s : Apics) → IsIndexed s → Keeps (k a s))
    → Keeps (and_then r k)
Keeps-and_then (done a s) k h next = next a s h
Keeps-and_then panic k h next = tt
Keeps-and_then out_of_fuel k h next = tt
Keeps-and_then undefined k h next = tt

Keeps-if :
    (b : Bool) (f g : Cmd Apics ℕ) (s : Apics)
    → Keeps (f s)
    → Keeps (g s)
    → Keeps ((if b then f else g) s)
Keeps-if true f g s h k = h
Keeps-if false f g s h k = k

out_of_rounds : (m : Mem) (p left n : ℕ) (s : Apics) → madt_loop m 0 p left n s ≡ out_of_fuel
unfolding madt_loop
out_of_rounds m p left n s = refl

madt_entry-Keeps :
    (m : Mem) (p len n : ℕ) (s : Apics) → IsIndexed s → Keeps (madt_entry m p len n s)
unfolding madt_entry
madt_entry-Keeps m p len n s v =
    let added =
      Keeps-and_then {B = ℕ} (add_cpu (m (p + 3)) s) (λ _ t. done n t)
        (add_cpu-Keeps (m (p + 3)) s v) (λ _ t w. w) in
    let reg : IsIndexed (record s { ioapicid = m (p + 2) }) = record {
      room = v.room;
      index = v.index;
    } in
    Keeps-if (m p == 0) _ _ s
      (Keeps-if (ltb len 8) _ _ s v (Keeps-if (bit_and (load32 m (p + 4)) 1 == 0) _ _ s v added))
      (Keeps-if (m p == 1) _ _ s
        (Keeps-if (ltb len 12) _ _ s v (
          Keeps-if (not (load32 m (p + 4) == 0xFEC00000)) _ _ s tt
            (Keeps-if (not (n == 0)) _ _ s tt reg)))
        v)

-- A walk over the MADT that ends normally keeps the invariant of include/ktypes.h that
-- `cpus[i].index` is `i`, as far as a byte holds it, for every entry in use.
pub madt_loop-Keeps :
    (m : Mem) (fuel p left n : ℕ) (s : Apics) → IsIndexed s → Keeps (madt_loop m fuel p left n s)
madt_loop-Keeps m zero p left n s v = subst Keeps (sym (out_of_rounds m p left n s)) tt
madt_loop-Keeps m (suc fuel) p left n s v = elim (dec_lt left 2) [
  | yes few ↦ subst Keeps (sym (stops m fuel p left n s (inl few))) v
  | no many ↦ elim (dec_lt left (m (p + 1))) [
    | yes over ↦ subst Keeps (sym (stops m fuel p left n s (inr over))) v
    | no fit ↦ subst Keeps (sym (goes m fuel p left n s (omega arith) (omega arith))) (
        Keeps-and_then (madt_entry m p (m (p + 1)) n s) _ (madt_entry-Keeps m p _ n s v)
          (λ n' t w. madt_loop-Keeps m fuel _ _ n' t w))
  ]
]
