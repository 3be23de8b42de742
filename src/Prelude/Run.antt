-- ===== src/Prelude/Run.antt =====
-- Kernel code that may stop in `panic` (include/common.h: ASSERT; kernel/console.c: panic) or wait
-- for ever, as functions from a state to an outcome.
use mathlib.Core.Path.{◌≡◌, subst}
use mathlib.Core.Logic.{◌≢◌}
use mathlib.Core.Option.{Option, none, some}
use mathlib.Core.Bool.{Bool, true, false}

-- `panic` never returns, so its state is of no interest; `out_of_fuel` is a loop that did not end
-- within the rounds it was given; `undefined` is an access outside an object or through a null
-- pointer, which C gives no meaning.
pub data Outcome (S A : Type 0) : Type 0 where
  done : A → S → Outcome S A
  panic : Outcome S A
  out_of_fuel : Outcome S A
  undefined : Outcome S A

abbrev pub Cmd : Type 0 → Type 0 → Type 0
Cmd S A = S → Outcome S A

abbrev pub and_then : {S A B : Type 0} → Outcome S A → (A → Cmd S B) → Outcome S B
and_then (done a s) k = k a s
and_then panic k = panic
and_then out_of_fuel k = out_of_fuel
and_then undefined k = undefined

infixl 5 ◌>>=◌ ◌>>◌
abbrev pub ◌>>=◌ : {S A B : Type 0} → Cmd S A → (A → Cmd S B) → Cmd S B
m >>= k = λ s. and_then (m s) k

abbrev pub ◌>>◌ : {S A B : Type 0} → Cmd S A → Cmd S B → Cmd S B
m >> k = m >>= λ _. k

abbrev pub pure : {S A : Type 0} → A → Cmd S A
pure a s = done a s

-- `ASSERT(c)`.
abbrev pub assert : {S : Type 0} → Bool → Cmd S (Unit {0})
assert true s = done tt s
assert false s = panic

abbrev pub modify : {S : Type 0} → (S → S) → Cmd S (Unit {0})
modify f s = done tt (f s)

abbrev pub gets : {S A : Type 0} → (S → A) → Cmd S A
gets f s = done (f s) s

-- The run ends normally, in a result and a state that satisfy `P`.
pub data Returns {S A : Type 0} (P : A → S → Type 0) : Outcome S A → Type 0 where
  returns : {a : A} {s : S} → P a s → Returns P (done a s)

module _ {S A : Type 0} {P : A → S → Type 0} where
  pub bind :
      {B : Type 0} {Q : B → S → Type 0} {r : Outcome S A} {k : A → Cmd S B}
      → Returns P r
      → ((a : A) (s : S) → P a s → Returns Q (k a s))
      → Returns Q (and_then r k)
  bind (returns p) next = next _ _ p

  pub mono :
      {Q : A → S → Type 0} {r : Outcome S A}
      → Returns P r
      → ((a : A) (s : S) → P a s → Q a s)
      → Returns Q r
  mono (returns p) weaken = returns (weaken _ _ p)

  pub outcome : {r : Outcome S A} {a : A} {s : S} → Returns P r → r ≡ done a s → P a s
  outcome {a} {s} h e = from_done (subst (Returns P) e h)
    where
      from_done : Returns P (done a s) → P a s
      from_done (returns p) = p

  pub not_panic : {r : Outcome S A} → Returns P r → r ≢ panic
  not_panic (returns p) e = cc

-- The value of an option, where the code follows a pointer or an index without a test.
abbrev pub the : {S A : Type 0} → Option A → Cmd S A
the none = λ _. undefined
the (some a) = pure a
