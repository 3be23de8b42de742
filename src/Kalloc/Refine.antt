-- ===== src/Kalloc/Refine.antt =====
-- The allocator implements a stack of frames: any sequence of calls has the outcome that it has on an
-- abstract list, on which a frame is taken from the front and put back there.
use mathlib.Core.Path.{subst}
use rt.Prelude.{ℕ, ◌+◌, ◌^◌, ◌<◌, sym, List, [], ◌∷◌, arith, length}
use rt.Prelude.Run.{Outcome, Cmd, done, panic, Returns, returns, and_then, ◌>>=◌, ◌>>◌, pure}
use rt.Kalloc.{Kernel, kfree, kalloc}
use rt.Kalloc.Chain.{IsFrame, NotIn, IsFree}
use rt.Kalloc.Ops.{kfree-cons, kalloc-head, kalloc-nil}

pub data Call : Type 0 where
  allocate : Call
  free : (frame : ℕ) → Call

-- The frames that a sequence of calls gets, from the allocator and from a list.
pub run : List Call → Cmd Kernel (List ℕ)
run [] = pure []
run (allocate ∷ cs) = kalloc >>= λ f. run cs >>= λ fs. pure (f ∷ fs)
run (free f ∷ cs) = kfree f >> run cs

abbrev pub take_first : Cmd (List ℕ) ℕ
take_first [] = panic
take_first (f ∷ fs) = done f fs

pub run_list : List Call → Cmd (List ℕ) (List ℕ)
run_list [] = pure []
run_list (allocate ∷ cs) = take_first >>= λ f. run_list cs >>= λ fs. pure (f ∷ fs)
run_list (free f ∷ cs) = λ pool. run_list cs (f ∷ pool)

-- Only frames that are not free are freed.
abbrev pub IsLegal : List Call → List ℕ → Type 0
IsLegal [] pool = Unit {0}
IsLegal (allocate ∷ cs) [] = Unit {0}
IsLegal (allocate ∷ cs) (f ∷ pool) = IsLegal cs pool
IsLegal (free f ∷ cs) pool = IsFrame f × NotIn f pool × IsLegal cs (f ∷ pool)

-- The same outcome: both panic, or both give the same frames and end in the same free frames.
pub data Refines {A : Type 0} : Outcome Kernel A → Outcome (List ℕ) A → Type 0 where
  both_done :
      {a : A} {k : Kernel} {pool : List ℕ} → IsFree k pool → Refines (done a k) (done a pool)
  both_panic : Refines panic panic

Refines-bind :
    {A B : Type 0} {r : Outcome Kernel A} {o : Outcome (List ℕ) A} (f : A → B)
    → Refines r o
    → Refines (and_then r λ a. pure (f a)) (and_then o λ a. pure (f a))
Refines-bind f (both_done h) = both_done h
Refines-bind f both_panic = both_panic

-- A call that returns, and then the rest.
then_rest :
    {A B : Type 0} {r : Outcome Kernel A} {c : A → Cmd Kernel B} {o : Outcome (List ℕ) B}
    {P : A → Kernel → Type 0}
    → Returns P r
    → ((a : A) (k : Kernel) → P a k → Refines (c a k) o)
    → Refines (and_then r c) o
then_rest (returns p) next = next _ _ p

-- From a free list that stands for a list of frames, any sequence of `kalloc` and of `kfree` of
-- frames that are not free (fewer than 2 ^ 32 together) has the outcome that it has on the list,
-- with frames taken from the front and put back there: both panic, when a frame is asked of an
-- empty list, or both return the same frames and end in the same free frames.
pub run-Refines :
    (cs : List Call) (pool : List ℕ) (k : Kernel)
    → IsFree k pool
    → IsLegal cs pool
    → length pool + length cs < 2 ^ 32
    → Refines (run cs k) (run_list cs pool)
unfolding run run_list
run-Refines [] pool k h l n = both_done h
run-Refines (allocate ∷ cs) [] k h l n =
    subst (λ o. Refines (and_then o λ f. run cs >>= λ fs. pure (f ∷ fs)) panic) (sym (kalloc-nil h))
      both_panic
run-Refines (allocate ∷ cs) (f ∷ pool) k h l n = then_rest (kalloc-head h (omega arith)) λ a k' p.
    subst
      (λ x.
        Refines (and_then (run cs k') λ fs. pure (x ∷ fs))
          (and_then (run_list cs pool) λ fs. pure (f ∷ fs)))
      (sym p.0) (Refines-bind (λ fs. f ∷ fs) (run-Refines cs pool k' p.1 l (omega arith)))
run-Refines (free f ∷ cs) pool k h l n =
    then_rest (kfree-cons f h l.0 l.1 (omega arith))
      λ a k' p. run-Refines cs (f ∷ pool) k' p.0 l.2 (omega arith)
