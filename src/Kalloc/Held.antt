-- ===== src/Kalloc/Held.antt =====
-- The frames that clients hold, as a list without repetition.
use mathlib.Core.Path.{subst}
use rt.Prelude.{
  ℕ, suc, ◌≡◌, ◌≢◌, sym, ◌⊎◌, inl, inr, List, [], ◌∷◌, arith, length, ◌==◌, if◌then◌else◌,
  Bool-cases,
}
use rt.Kalloc.Chain.{IsFrame, NotIn, Frames}

abbrev pub erase : ℕ → List ℕ → List ℕ
erase f [] = []
erase f (g ∷ gs) = if f == g then gs else g ∷ erase f gs

-- `f` is one of the frames.
abbrev pub In : ℕ → List ℕ → Type 0
In f [] = ⊥
In f (g ∷ gs) = (f ≡ g) ⊎ In f gs

-- No frame of the first list is on the second.
abbrev pub NoneIn : List ℕ → List ℕ → Type 0
NoneIn [] hs = Unit {0}
NoneIn (f ∷ fs) hs = NotIn f hs × NoneIn fs hs

pub NotIn-erase : (a f : ℕ) (gs : List ℕ) → NotIn a gs → NotIn a (erase f gs)
NotIn-erase a f [] n = tt
NotIn-erase a f (g ∷ gs) n = ground (arith, NotIn-erase a f gs n.1)

pub Frames-erase : (f : ℕ) (gs : List ℕ) → Frames gs → Frames (erase f gs)
Frames-erase f [] h = tt
Frames-erase f (g ∷ gs) h = elim (Bool-cases (f == g)) [
  | inl same ↦ rw same h.2
  | inr other ↦ rw other (h.0, NotIn-erase g f gs h.1, Frames-erase f gs h.2)
]

pub NoneIn-erase : (fs : List ℕ) (f : ℕ) (gs : List ℕ) → NoneIn fs gs → NoneIn fs (erase f gs)
NoneIn-erase [] f gs h = tt
NoneIn-erase (x ∷ fs) f gs h = (NotIn-erase x f gs h.0, NoneIn-erase fs f gs h.1)

pub NoneIn-cons :
    (fs : List ℕ) (f : ℕ) (gs : List ℕ) → NotIn f fs → NoneIn fs gs → NoneIn fs (f ∷ gs)
NoneIn-cons [] f gs n h = tt
NoneIn-cons (x ∷ fs) f gs n h = ((ground (arith, n.0), h.0), NoneIn-cons fs f gs n.1 h.1)

-- An erased frame is gone: it was there once.
pub NotIn-erase_self : (f : ℕ) (gs : List ℕ) → Frames gs → NotIn f (erase f gs)
NotIn-erase_self f [] h = tt
NotIn-erase_self f (g ∷ gs) h = elim (Bool-cases (f == g)) [
  | inl same ↦ rw same (subst (λ x. NotIn x gs) (ground arith) h.1)
  | inr other ↦ rw other (ground arith, NotIn-erase_self f gs h.2)
]

pub length-erase : (f : ℕ) (gs : List ℕ) → In f gs → suc (length (erase f gs)) ≡ length gs
length-erase f [] i = absurd i
length-erase f (g ∷ gs) i = ground (arith, length-erase f gs)

pub IsFrame-In : (f : ℕ) (gs : List ℕ) → Frames gs → In f gs → IsFrame f
IsFrame-In f [] h i = absurd i
IsFrame-In f (g ∷ gs) h (inl e) = subst IsFrame (sym e) h.0
IsFrame-In f (g ∷ gs) h (inr i) = IsFrame-In f gs h.2 i

pub ne_of_In : (a f : ℕ) (gs : List ℕ) → NotIn a gs → In f gs → a ≢ f
ne_of_In a f [] n i = absurd i
ne_of_In a f (g ∷ gs) n (inl e) = ground arith
ne_of_In a f (g ∷ gs) n (inr i) = ne_of_In a f gs n.1 i

pub NotIn-free : (fs : List ℕ) (f : ℕ) (gs : List ℕ) → NoneIn fs gs → In f gs → NotIn f fs
NotIn-free [] f gs h i = tt
NotIn-free (x ∷ fs) f gs h i = (λ e. ne_of_In x f gs h.0 i (sym e), NotIn-free fs f gs h.1 i)
