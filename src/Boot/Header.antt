-- ===== src/Boot/Header.antt =====
-- boot/bootmain.c: the search for the multiboot header.
use mathlib.Core.Path.{subst}
use native.Mathlib.Decide.{ℕ_discrete}
use rt.Prelude.{
  ℕ, zero, suc, ◌+◌, ◌*◌, ◌<◌, ◌≤◌, ◌≡◌, ◌≢◌, refl, sym, ap, ◌∙◌, true, false, inl, inr, Option,
  none, some, ◌==◌, arith, Bool-cases,
}
use rt.Memory.{Mem}
use rt.Memory.Laws.{load_ext, SameOn}
use rt.Boot.{scratch, word, is_header, find_header}

-- The outcome of a search of the `left` words from word `n`: the first header, or there is none.
abbrev pub FoundFirst : Mem → (left n : ℕ) → Option ℕ → Type 0
FoundFirst m left n none = (j : ℕ) → n ≤ j → j < n + left → is_header m j ≡ false
FoundFirst m left n (some k) =
    (n ≤ k)
    × (k < n + left)
    × (is_header m k ≡ true)
    × ((j : ℕ) → n ≤ j → j < k → is_header m j ≡ false)

module _ (m : Mem) where
  found_here : (left n : ℕ) → is_header m n ≡ true → find_header m (suc left) n ≡ some n
  unfolding find_header
  found_here left n e = rw (e) refl

  found_later :
      (left n : ℕ) → is_header m n ≡ false → find_header m (suc left) n ≡ find_header m left (n + 1)
  unfolding find_header
  found_later left n e = rw (e) refl

  -- One more word before those searched.
  before :
      (left n : ℕ) (r : Option ℕ)
      → is_header m n ≡ false
      → FoundFirst m left (n + 1) r
      → FoundFirst m (suc left) n r
  before left n none e h = λ j p q. elim (ℕ_discrete n j) [
    | yes u ↦ ap (is_header m) (sym u) ∙ e
    | no u ↦ h j (omega arith) (omega arith)
  ]
  before left n (some k) e h = (
    omega (arith, h.0),
    omega (arith, h.1),
    h.2,
    λ j p q. elim (ℕ_discrete n j) [
      | yes u ↦ ap (is_header m) (sym u) ∙ e
      | no u ↦ h.3 j (omega arith) q
    ],
  )

  pub find_header-FoundFirst : (left n : ℕ) → FoundFirst m left n (find_header m left n)
  unfolding find_header
  find_header-FoundFirst zero n = λ j p q. absurd (omega arith)
  find_header-FoundFirst (suc left) n = elim (Bool-cases (is_header m n)) [
    | inl e ↦
        subst (FoundFirst m (suc left) n) (sym (found_here left n e))
          (omega arith, omega arith, e, λ j p q. absurd (omega arith))
    | inr e ↦
        subst (FoundFirst m (suc left) n) (sym (found_later left n e))
          (before left n _ e (find_header-FoundFirst left (n + 1)))
  ]

  -- The search stops at a word that is the first header.
  pub find_first :
      (k left n : ℕ)
      → k < left
      → is_header m (n + k) ≡ true
      → ((j : ℕ) → j < n + k → is_header m j ≡ false)
      → find_header m left n ≡ some (n + k)
  find_first k zero n l h before = absurd (omega arith)
  find_first zero (suc left) n l h before =
      found_here left n (ap (is_header m) (omega arith) ∙ h) ∙ ap some (omega arith)
  find_first (suc k) (suc left) n l h before =
      found_later left n (before n (omega arith))
      ∙ find_first k left (n + 1) (omega arith) (ap (is_header m) (omega arith) ∙ h)
          (λ j q. before j (omega arith))
      ∙ ap some (omega arith)

  pub find_none :
      (left n : ℕ)
      → ((j : ℕ) → n ≤ j → j < n + left → is_header m j ≡ false)
      → find_header m left n ≡ none
  unfolding find_header
  find_none zero n h = refl
  find_none (suc left) n h =
      found_later left n (h n (omega arith) (omega arith))
      ∙ find_none left (n + 1) (λ j p q. h j (omega arith) (omega arith))

-- A word of a memory that agrees on its bytes, and the test on three such words.
pub word_ext : (m m' : Mem) (n : ℕ) → SameOn (scratch + 4 * n) 4 m m' → word m n ≡ word m' n
word_ext m m' n h = load_ext 4 m m' (scratch + 4 * n) h

pub is_header_ext :
    (m m' : Mem) (n : ℕ) → SameOn (scratch + 4 * n) 12 m m' → is_header m n ≡ is_header m' n
unfolding is_header
is_header_ext m m' n h =
    let a = word_ext m m' n (λ b p q. h b p (omega arith)) in
    let b = word_ext m m' (n + 1) (λ b p q. h b (omega arith) (omega arith)) in
    let c = word_ext m m' (n + 2) (λ b p q. h b (omega arith) (omega arith)) in rw (a, b, c) refl

pub no_magic : (m : Mem) (n : ℕ) → word m n ≢ 0x1BADB002 → is_header m n ≡ false
unfolding is_header
no_magic m n h = let a : (word m n == 0x1BADB002) ≡ false = ground arith in rw (a) refl
