-- ===== src/Str/Compare.antt =====
-- `memcmp` and `strncmp` give the difference of the first pair of bytes that differ.
use mathlib.Core.Path.{subst₂}
use rt.Prelude.{
  ℕ, zero, suc, ◌+◌, ◌<◌, ◌≡◌, ◌≢◌, refl, sym, ◌∙◌, ◌⊎◌, inl, inr, ◌↔◌, ◌&&◌, not, arith, ◌==◌,
  Bool-cases,
}
use rt.Prelude.Int.{ℤ, pos, sub_ℕ}
use rt.Memory.{Mem}
use rt.Str.{memcmp, strncmp}

-- The `n` bytes from `p` and from `q` are the same.
abbrev pub SameBytes : Mem → ℕ → ℕ → ℕ → Type 0
SameBytes m p q n = (i : ℕ) → i < n → m (p + i) ≡ m (q + i)

-- `k` is the first of the `n` positions at which they differ.
pub record FirstDiff (m : Mem) (p q n k : ℕ) : Type 0 where
  pub bound : k < n
  pub before : SameBytes m p q k
  pub differs : m (p + k) ≢ m (q + k)

SameBytes-suc :
    (m : Mem) (p q n : ℕ) → m p ≡ m q → SameBytes m (p + 1) (q + 1) n → SameBytes m p q (suc n)
SameBytes-suc m p q n e h zero lt = ground arith
SameBytes-suc m p q n e h (suc i) lt = ground (arith, h i)

FirstDiff-suc :
    (m : Mem) (p q n k : ℕ)
    → m p ≡ m q
    → FirstDiff m (p + 1) (q + 1) n k
    → FirstDiff m p q (suc n) (suc k)
FirstDiff-suc m p q n k e d = record {
  bound = omega (arith, d.bound);
  before = SameBytes-suc m p q k e d.before;
  differs = ground (arith, d.differs);
}

sub_ℕ-zero : (a b : ℕ) → sub_ℕ a b ≡ pos 0 → a ≡ b
sub_ℕ-zero a b h = ground arith

-- The outcome of a comparison at the first difference, moved by one byte.
shift_diff :
    (m : Mem) (p q k : ℕ) {r : ℤ}
    → r ≡ sub_ℕ (m (p + 1 + k)) (m (q + 1 + k))
    → r ≡ sub_ℕ (m (p + suc k)) (m (q + suc k))
shift_diff m p q k {r} e = subst₂ (λ a b. r ≡ sub_ℕ (m a) (m b)) (omega arith) (omega arith) e

here_diff : (m : Mem) (p q : ℕ) → sub_ℕ (m p) (m q) ≡ sub_ℕ (m (p + 0)) (m (q + 0))
here_diff m p q =
    subst₂ (λ a b. sub_ℕ (m p) (m q) ≡ sub_ℕ (m a) (m b)) (omega arith) (omega arith) refl

FirstDiff-here : (m : Mem) (p q n : ℕ) → m p ≢ m q → FirstDiff m p q (suc n) 0
FirstDiff-here m p q n ne = record {
  bound = omega arith;
  before = λ i h. absurd (omega arith);
  differs = ground arith;
}

-- `memcmp` returns 0 when the `n` bytes are the same, and otherwise the difference of the first
-- pair that differs.
pub memcmp_lem :
    (n : ℕ) (m : Mem) (p q : ℕ)
    → ((memcmp m p q n ≡ pos 0) × SameBytes m p q n)
      ⊎ ((k : ℕ) × FirstDiff m p q n k × (memcmp m p q n ≡ sub_ℕ (m (p + k)) (m (q + k))))
unfolding memcmp
memcmp_lem zero m p q = inl (refl, λ i h. absurd (omega arith))
memcmp_lem (suc n) m p q = elim (Bool-cases (m p == m q)) [
  | inl same ↦ elim (memcmp_lem n m (p + 1) (q + 1)) [
    | inl (e, h) ↦ inl (rw same e, SameBytes-suc m p q n (ground arith) h)
    | inr (k, d, e) ↦
        inr (suc k, FirstDiff-suc m p q n k (ground arith) d, rw same (shift_diff m p q k e))
  ]
  | inr differ ↦ inr (0, FirstDiff-here m p q n (ground arith), rw differ (here_diff m p q))
]

-- `memcmp` returns 0 exactly when all `n` bytes are the same.
pub memcmp-zero_iff : (n : ℕ) (m : Mem) (p q : ℕ) → (memcmp m p q n ≡ pos 0) ↔ SameBytes m p q n
memcmp-zero_iff n m p q = elim (memcmp_lem n m p q) [
  | inl (e, h) ↦ (λ _. h, λ _. e)
  | inr (k, d, e) ↦
      (λ z. absurd (d.differs (sub_ℕ-zero _ _ (sym e ∙ z))), λ h. absurd (d.differs (h k d.bound)))
]

-- The first `k` bytes of both strings are the same and none of them ends the string.
abbrev pub SameText : Mem → ℕ → ℕ → ℕ → Type 0
SameText m p q k = (i : ℕ) → i < k → (m (p + i) ≡ m (q + i)) × (m (p + i) ≢ 0)

SameText-suc :
    (m : Mem) (p q n : ℕ)
    → (m p ≡ m q) × (m p ≢ 0)
    → SameText m (p + 1) (q + 1) n
    → SameText m p q (suc n)
SameText-suc m p q n e h zero lt = ground arith
SameText-suc m p q n e h (suc i) lt = ground (arith, h i)

-- Where `strncmp` stops before `n`: after `k` bytes of common text, at a difference or at the end
-- of the first string.
pub record Stops (m : Mem) (p q n k : ℕ) : Type 0 where
  pub bound : k < n
  pub before : SameText m p q k
  pub here : (m (p + k) ≢ m (q + k)) ⊎ (m (p + k) ≡ 0)

-- `strncmp` returns 0 when it has compared `n` bytes of common text, and otherwise the difference
-- of the two bytes, as unsigned bytes, at the first position where the strings differ or the
-- first of them ends.
pub strncmp_lem :
    (n : ℕ) (m : Mem) (p q : ℕ)
    → ((strncmp m p q n ≡ pos 0) × SameText m p q n)
      ⊎ ((k : ℕ) × Stops m p q n k × (strncmp m p q n ≡ sub_ℕ (m (p + k)) (m (q + k))))
unfolding strncmp
strncmp_lem zero m p q = inl (refl, λ i h. absurd (omega arith))
strncmp_lem (suc n) m p q = elim (Bool-cases (not (m p == 0) && (m p == m q))) [
  | inl on ↦ elim (strncmp_lem n m (p + 1) (q + 1)) [
    | inl (e, h) ↦ inl (rw on e, SameText-suc m p q n (ground arith) h)
    | inr (k, d, e) ↦ inr (
      suc k,
      record {
        bound = omega (arith, d.bound);
        before = SameText-suc m p q k (ground arith) d.before;
        here = ground (arith, d.here);
      },
      rw on (shift_diff m p q k e),
    )
  ]
  | inr stop ↦ inr (
    0,
    record { bound = omega arith; before = λ i h. absurd (omega arith); here = ground arith },
    rw stop (here_diff m p q),
  )
]
