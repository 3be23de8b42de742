-- ===== src/Acpi/Root.antt =====
-- kernel/acpi.c: the choice of the MADT among the tables of the root table, and `acpiinit` as a whole.
use mathlib.Core.Path.{subst}
use native.Mathlib.Decide.{ℕ_discrete, dec_lt}
use rt.Prelude.{
  ℕ, zero, suc, ◌+◌, ◌≤◌, ◌<◌, ◌≡◌, refl, sym, ◌⊎◌, inl, inr, true, false, Option, none, some,
  arith, ltb, Bool-cases,
}
use rt.Memory.{Mem}
use rt.Layout.{p2v, max_phys_mem}
use rt.Acpi.{rsdt_entry, is_madt, find_madt}

-- An entry beyond the memory that is mapped.
abbrev pub IsFar : Mem → (rsdt k : ℕ) → Type 0
IsFar m rsdt k = max_phys_mem < rsdt_entry m rsdt k

-- The last of the `left` entries from `n` on that is an MADT, or `madt` if none is; no table at all if
-- an entry is not mapped.
abbrev pub LastMadt : Mem → (sig rsdt left n madt : ℕ) → Option ℕ → Type 0
LastMadt m sig rsdt left n madt none = (k : ℕ) × ((n ≤ k) × (k < n + left) × IsFar m rsdt k)
LastMadt m sig rsdt left n madt (some r) =
    ((k : ℕ) → n ≤ k → k < n + left → rsdt_entry m rsdt k ≤ max_phys_mem)
    × (((r ≡ madt) × ((k : ℕ) → n ≤ k → k < n + left → is_madt m sig rsdt k ≡ false))
        ⊎ ((k : ℕ) × ((n ≤ k)
              × (k < n + left)
              × (is_madt m sig rsdt k ≡ true)
              × (r ≡ p2v (rsdt_entry m rsdt k))
              × ((j : ℕ) → k < j → j < n + left → is_madt m sig rsdt j ≡ false))))

module _ (m : Mem) (sig rsdt : ℕ) where
  at-far : (left n madt : ℕ) → IsFar m rsdt n → find_madt m sig rsdt (suc left) n madt ≡ none
  unfolding find_madt
  at-far left n madt h =
      let a : ltb max_phys_mem (rsdt_entry m rsdt n) ≡ true = ground arith in rw (a) refl

  at-madt :
      (left n madt : ℕ)
      → rsdt_entry m rsdt n ≤ max_phys_mem
      → is_madt m sig rsdt n ≡ true
      → find_madt m sig rsdt (suc left) n madt
        ≡ find_madt m sig rsdt left (n + 1) (p2v (rsdt_entry m rsdt n))
  unfolding find_madt
  at-madt left n madt h e =
      let a : ltb max_phys_mem (rsdt_entry m rsdt n) ≡ false = ground arith in rw (a, e) refl

  at-other :
      (left n madt : ℕ)
      → rsdt_entry m rsdt n ≤ max_phys_mem
      → is_madt m sig rsdt n ≡ false
      → find_madt m sig rsdt (suc left) n madt ≡ find_madt m sig rsdt left (n + 1) madt
  unfolding find_madt
  at-other left n madt h e =
      let a : ltb max_phys_mem (rsdt_entry m rsdt n) ≡ false = ground arith in rw (a, e) refl

  abbrev Near : (n left : ℕ) → Type 0
  Near n left = (k : ℕ) → n ≤ k → k < n + left → rsdt_entry m rsdt k ≤ max_phys_mem

  Near-cons :
      (left n : ℕ) → rsdt_entry m rsdt n ≤ max_phys_mem → Near (n + 1) left → Near n (suc left)
  Near-cons left n h near k p q = elim (ℕ_discrete n k) [
    | yes e ↦ subst (λ i. rsdt_entry m rsdt i ≤ max_phys_mem) e h
    | no ne ↦ near k (omega arith) (omega arith)
  ]

  not_before :
      (left n : ℕ)
      → is_madt m sig rsdt n ≡ false
      → ((k : ℕ) → n + 1 ≤ k → k < n + 1 + left → is_madt m sig rsdt k ≡ false)
      → (k : ℕ) → n ≤ k
      → k < n + suc left
      → is_madt m sig rsdt k ≡ false
  not_before left n e h k p q = elim (ℕ_discrete n k) [
    | yes u ↦ subst (λ i. is_madt m sig rsdt i ≡ false) u e
    | no u ↦ h k (omega arith) (omega arith)
  ]

  -- One entry before those that were searched.
  before_madt :
      (left n madt : ℕ) (r : Option ℕ)
      → rsdt_entry m rsdt n ≤ max_phys_mem
      → is_madt m sig rsdt n ≡ true
      → LastMadt m sig rsdt left (n + 1) (p2v (rsdt_entry m rsdt n)) r
      → LastMadt m sig rsdt (suc left) n madt r
  before_madt left n madt none h e l = (l.0, (omega (arith, l.1.0), omega (arith, l.1.1), l.1.2))
  before_madt left n madt (some r) h e l = (
    Near-cons left n h l.0,
    elim l.1 [
      | inl u ↦
          inr (n, (omega arith, omega arith, e, u.0, λ j p q. u.1 j (omega arith) (omega arith)))
      | inr u ↦ inr (
        u.0,
        (
          omega (arith, u.1.0),
          omega (arith, u.1.1),
          u.1.2,
          u.1.3,
          λ j p q. u.1.4 j p (omega arith),
        ),
      )
    ],
  )

  before_other :
      (left n madt : ℕ) (r : Option ℕ)
      → rsdt_entry m rsdt n ≤ max_phys_mem
      → is_madt m sig rsdt n ≡ false
      → LastMadt m sig rsdt left (n + 1) madt r
      → LastMadt m sig rsdt (suc left) n madt r
  before_other left n madt none h e l = (l.0, (omega (arith, l.1.0), omega (arith, l.1.1), l.1.2))
  before_other left n madt (some r) h e l = (
    Near-cons left n h l.0,
    elim l.1 [
      | inl u ↦ inl (u.0, not_before left n e u.1)
      | inr u ↦ inr (
        u.0,
        (
          omega (arith, u.1.0),
          omega (arith, u.1.1),
          u.1.2,
          u.1.3,
          λ j p q. u.1.4 j p (omega arith),
        ),
      )
    ],
  )

  -- The loop over the root table gives no table if an entry lies beyond the mapped memory;
  -- otherwise it gives the last of the entries that has the signature of the MADT, or the value
  -- it started with if none has.
  pub find_madt-LastMadt :
      (left n madt : ℕ) → LastMadt m sig rsdt left n madt (find_madt m sig rsdt left n madt)
  unfolding find_madt
  find_madt-LastMadt zero n madt =
      (λ k p q. absurd (omega arith), inl (refl, λ k p q. absurd (omega arith)))
  find_madt-LastMadt (suc left) n madt = elim (dec_lt max_phys_mem (rsdt_entry m rsdt n)) [
    | yes far ↦
        subst (LastMadt m sig rsdt (suc left) n madt) (sym (at-far left n madt far))
          (n, (omega arith, omega arith, far))
    | no near ↦ elim (Bool-cases (is_madt m sig rsdt n)) [
      | inl e ↦
          subst (LastMadt m sig rsdt (suc left) n madt) (sym (at-madt left n madt (omega arith) e))
            (before_madt left n madt _ (omega arith) e (find_madt-LastMadt left (n + 1) _))
      | inr e ↦
          subst (LastMadt m sig rsdt (suc left) n madt) (sym (at-other left n madt (omega arith) e))
            (before_other left n madt _ (omega arith) e (find_madt-LastMadt left (n + 1) madt))
    ]
  ]
