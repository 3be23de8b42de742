-- ===== src/Acpi/Scan.antt =====
-- kernel/acpi.c: `scan_rdsp` finds the first root pointer of a range.
use rt.Prelude.{
  ℕ, zero, suc, ◌+◌, ◌-◌, ◌*◌, ◌≤◌, ◌<◌, ◌≡◌, refl, ◌∙◌, ap, ◌⊎◌, inl, inr, true, false, Option,
  none, some, arith, leb, Bool-cases,
}
use rt.Memory.{Mem}
use rt.Layout.{p2v}
use rt.Acpi.{is_rdsp, scan_loop, scan_rdsp}

-- The structure fits the range at the `k`-th step of four bytes.
abbrev pub Fits : (len k : ℕ) → Type 0
Fits len k = 4 * k + 36 ≤ len

-- No structure at the steps before `k`.
abbrev pub NoneBefore : Mem → (sig p len k : ℕ) → Type 0
NoneBefore m sig p len k = (i : ℕ) → i < k → Fits len i → is_rdsp m sig (p + 4 * i) ≡ false

-- The first structure is at the `k`-th step.
pub record FirstRdsp (m : Mem) (sig p len k : ℕ) : Type 0 where
  pub fits : Fits len k
  pub valid : is_rdsp m sig (p + 4 * k) ≡ true
  pub first : NoneBefore m sig p len k

-- The two results of a search.
abbrev pub Searched : Mem → (sig p len : ℕ) → Option ℕ → Type 0
Searched m sig p len r =
    ((r ≡ none) × ((k : ℕ) → NoneBefore m sig p len k))
    ⊎ ((k : ℕ) × FirstRdsp m sig p len k × (r ≡ some (p + 4 * k)))

NoneBefore-suc :
    (m : Mem) (sig p len k : ℕ)
    → is_rdsp m sig p ≡ false
    → NoneBefore m sig (p + 4) (len - 4) k
    → NoneBefore m sig p len (suc k)
NoneBefore-suc m sig p len k miss h zero lt fit = ap (is_rdsp m sig) (omega arith) ∙ miss
NoneBefore-suc m sig p len k miss h (suc i) lt fit =
    ap (is_rdsp m sig) (omega arith) ∙ h i (omega arith) (omega arith)

NoneBefore-all :
    (m : Mem) (sig p len : ℕ)
    → is_rdsp m sig p ≡ false
    → ((k : ℕ) → NoneBefore m sig (p + 4) (len - 4) k)
    → (k : ℕ) → NoneBefore m sig p len k
NoneBefore-all m sig p len miss h k i lt fit =
    NoneBefore-suc m sig p len i miss (h i) i (omega arith) fit

scan_loop-Searched :
    (fuel : ℕ) (m : Mem) (sig p len : ℕ)
    → len < fuel
    → Searched m sig p len (scan_loop m sig fuel p len)
unfolding scan_loop
scan_loop-Searched zero m sig p len h = absurd (omega arith)
scan_loop-Searched (suc fuel) m sig p len h = elim (Bool-cases (leb 36 len)) [
  | inl fit ↦ elim (Bool-cases (is_rdsp m sig p)) [
    | inl hit ↦
        rw (fit, hit)
          (inr (
            0,
            record {
              fits = ground arith;
              valid = ap (is_rdsp m sig) (omega arith) ∙ hit;
              first = λ i lt. absurd (omega arith);
            },
            ap some (omega arith),
          ))
    | inr miss ↦
        rw (fit, miss)
          (step fit miss (scan_loop-Searched fuel m sig (p + 4) (len - 4) (ground arith)))
  ]
  | inr short ↦ rw short (inl (refl, λ k i lt fit. absurd (ground arith)))
]
  where
    step :
        {r : Option ℕ}
        → leb 36 len ≡ true
        → is_rdsp m sig p ≡ false
        → Searched m sig (p + 4) (len - 4) r
        → Searched m sig p len r
    step fit miss (inl (e, h')) = inl (e, NoneBefore-all m sig p len miss h')
    step fit miss (inr (k, f, e)) = inr (
      suc k,
      record {
        fits = ground (arith, f.fits);
        valid = ap (is_rdsp m sig) (omega arith) ∙ f.valid;
        first = NoneBefore-suc m sig p len k miss f.first;
      },
      e ∙ ap some (omega arith),
    )

-- `scan_rdsp` ends. If it returns nothing, no step of four bytes at which the structure fits the
-- range has the signature and the checksum; otherwise it returns the first one that has.
pub scan_rdsp-Searched :
    (m : Mem) (sig base len : ℕ) → Searched m sig (p2v base) len (scan_rdsp m sig base len)
unfolding scan_rdsp
scan_rdsp-Searched m sig base len = scan_loop-Searched (len + 1) m sig (p2v base) len (omega arith)
