-- ===== src/Kalloc/Chain.antt =====
-- What the free list stands for: a list of distinct page frames, linked through their first words.
use rt.Prelude.{ℕ, ◌+◌, ◌%◌, ◌^◌, ◌≤◌, ◌<◌, ◌≡◌, ◌≢◌, refl, List, [], ◌∷◌, arith, length}
use rt.Memory.{Mem, load64, store64}
use rt.Memory.Laws.{IsBytes, SameBut, load_ext, store_frame, load-store_self}
use rt.Kalloc.{Kernel}

-- A page frame: aligned, not null, and inside the address space.
pub record IsFrame (f : ℕ) : Type 0 where
  pub aligned : f % 4096 ≡ 0
  pub not_null : f ≢ 0
  pub inside : f + 4096 ≤ 2 ^ 64

abbrev pub NotIn : ℕ → List ℕ → Type 0
NotIn f [] = Unit {0}
NotIn f (g ∷ gs) = (f ≢ g) × NotIn f gs

-- Frames, each of them once.
abbrev pub Frames : List ℕ → Type 0
Frames [] = Unit {0}
Frames (f ∷ fs) = IsFrame f × NotIn f fs × Frames fs

-- From `p` the links lead through `fs` to null.
abbrev pub Chain : Mem → ℕ → List ℕ → Type 0
Chain m p [] = p ≡ 0
Chain m p (f ∷ fs) = (p ≡ f) × Chain m (load64 m f) fs

-- The allocator's list is `fs`, and its counter is right.
pub record IsFree (k : Kernel) (fs : List ℕ) : Type 0 where
  pub frames : Frames fs
  pub chain : Chain k.mem k.freelist fs
  pub counted : k.nfreepages ≡ length fs
  pub bytes : IsBytes k.mem

-- A change inside one frame is not seen from another.
pub load_other :
    (m m' : Mem) (a b i : ℕ)
    → a % 4096 ≡ 0
    → b % 4096 ≡ 0
    → a ≢ b
    → i + 8 ≤ 4096
    → SameBut a 4096 m m'
    → load64 m' (b + i) ≡ load64 m (b + i)
load_other m m' a b i ha hb ne hi same = load_ext 8 m' m (b + i) (λ c p q. same c (omega arith))

link_other :
    (m m' : Mem) (a b : ℕ)
    → a % 4096 ≡ 0
    → b % 4096 ≡ 0
    → a ≢ b
    → SameBut a 4096 m m'
    → load64 m' b ≡ load64 m b
link_other m m' a b ha hb ne same = load_ext 8 m' m b (λ c p q. same c (omega arith))

-- A chain survives any change inside a frame that is not on it.
pub Chain-SameBut :
    (m m' : Mem) (a p : ℕ) (fs : List ℕ)
    → a % 4096 ≡ 0
    → NotIn a fs
    → Frames fs
    → SameBut a 4096 m m'
    → Chain m p fs
    → Chain m' p fs
Chain-SameBut m m' a p [] ha n fr same c = c
Chain-SameBut m m' a p (f ∷ fs) ha n fr same c = (
  c.0,
  rw (link_other m m' a f ha fr.0.aligned n.0 same)
      (Chain-SameBut m m' a (load64 m f) fs ha n.1 fr.2 same c.1),
)

-- The head of the list fits a word.
pub head-lt : (m : Mem) (p : ℕ) (fs : List ℕ) → Frames fs → Chain m p fs → p < 2 ^ 64
head-lt m p [] fr c = omega arith
head-lt m p (f ∷ fs) fr c = omega (arith, c.0, fr.0.inside)

-- Linking a new frame in front.
pub Chain-store :
    (m : Mem) (f p : ℕ) (fs : List ℕ)
    → IsFrame f
    → NotIn f fs
    → Frames fs
    → Chain m p fs
    → Chain (store64 m f p) f (f ∷ fs)
Chain-store m f p fs is n fr c = (
  refl,
  rw (load-store_self 8 m f p (head-lt m p fs fr c))
      (Chain-SameBut m _ f p fs is.aligned n fr (λ b o. store_frame 8 m f p b (omega arith)) c),
)
