-- ===== src/Kalloc/History.antt =====
-- Any history of calls by clients that write only to frames they hold and free only such frames.
use rt.Prelude.{ℕ, ◌+◌, ◌^◌, ◌≤◌, ◌<◌, ◌≡◌, sym, ◌↔◌, List, [], ◌∷◌, arith, length}
use mathlib.Core.Path.{subst}
use rt.Prelude.Run
use rt.Prelude.Run.{done, panic}
use rt.Memory.{Mem}
use rt.Memory.Laws.{IsBytes, SameBut}
use rt.Kalloc.{Kernel, kfree, kalloc}
use rt.Kalloc.Chain.{NotIn, Frames, IsFree, Chain-SameBut}
use rt.Kalloc.Held.{
  erase, In, NoneIn, Frames-erase, NoneIn-erase, NoneIn-cons, NotIn-erase_self, length-erase,
  IsFrame-In, ne_of_In, NotIn-free,
}
use rt.Kalloc.Ops.{kfree-cons, kalloc-head, kalloc-nil}

-- The kernel, and the frames that clients hold.
pub record World : Type 0 where
  pub kernel : Kernel
  pub held : List ℕ

pub data Step : World → World → Type 0 where
  allocs :
      (w : World) (f : ℕ) (k : Kernel)
      → kalloc w.kernel ≡ done f k
      → Step w (record { kernel = k; held = f ∷ w.held })
  frees :
      (w : World) (f : ℕ) (k : Kernel)
      → In f w.held
      → kfree f w.kernel ≡ done tt k
      → Step w (record { kernel = k; held = erase f w.held })
  writes :
      (w : World) (f : ℕ) (m : Mem)
      → In f w.held
      → IsBytes m
      → SameBut f 4096 w.kernel.mem m
      → Step w (record w { kernel = record w.kernel { mem = m } })

pub data Reach (s : World) : World → Type 0 where
  here : Reach s s
  next : {t u : World} → Reach s t → Step t u → Reach s u

-- What holds between any two calls: held and free frames are all distinct, and none is lost.
pub record Inv (total : ℕ) (w : World) : Type 0 where
  pub free : List ℕ
  pub is_free : IsFree w.kernel free
  pub frames : Frames w.held
  pub apart : NoneIn free w.held
  pub sum : length free + length w.held ≡ total

allocs-Inv :
    {total : ℕ} (fs : List ℕ) (w : World) (f : ℕ) (k : Kernel)
    → total < 2 ^ 32
    → IsFree w.kernel fs
    → Frames w.held
    → NoneIn fs w.held
    → length fs + length w.held ≡ total
    → kalloc w.kernel ≡ done f k
    → Inv total (record { kernel = k; held = f ∷ w.held })
allocs-Inv [] w f k small free held apart sum e = absurd (cc (kalloc-nil free))
allocs-Inv (x ∷ fs) w f k small free held apart sum e =
    let (same, free', zero) = Run.outcome (kalloc-head free (omega arith)) e in
    record {
      free = fs;
      is_free = free';
      frames = subst (λ y. Frames (y ∷ w.held)) (sym same) (free.frames.0, apart.0, held);
      apart =
          subst (λ y. NoneIn fs (y ∷ w.held)) (sym same)
            (NoneIn-cons fs x w.held free.frames.1 apart.1);
      sum = omega arith;
    }

-- Every step keeps the invariant: no frame is both free and held, none is held or free twice,
-- none is lost.
pub Step-Inv : {total : ℕ} {w u : World} → total < 2 ^ 32 → Inv total w → Step w u → Inv total u
Step-Inv small v (allocs w f k e) = allocs-Inv v.free w f k small v.is_free v.frames v.apart v.sum e
Step-Inv small v (frees w f k i e) =
    let is = IsFrame-In f w.held v.frames i in
    let new = NotIn-free v.free f w.held v.apart i in
    let len = length-erase f w.held i in
    let (free', same) = Run.outcome (kfree-cons f v.is_free is new (omega (arith, len, v.sum))) e in
    record {
      free = f ∷ v.free;
      is_free = free';
      frames = Frames-erase f w.held v.frames;
      apart = (NotIn-erase_self f w.held v.frames, NoneIn-erase v.free f w.held v.apart);
      sum = omega (arith, v.sum);
    }
Step-Inv small v (writes w f m i bytes same) =
    let is = IsFrame-In f w.held v.frames i in
    record {
      free = v.free;
      is_free = record {
        frames = v.is_free.frames;
        chain =
            Chain-SameBut w.kernel.mem m f w.kernel.freelist v.free is.aligned
              (NotIn-free v.free f w.held v.apart i) v.is_free.frames same v.is_free.chain;
        counted = v.is_free.counted;
        bytes = bytes;
      };
      frames = v.frames;
      apart = v.apart;
      sum = v.sum;
    }

Reach-Inv : {total : ℕ} {s w : World} → total < 2 ^ 32 → Inv total s → Reach s w → Inv total w
Reach-Inv small v here = v
Reach-Inv small v (next r st) = Step-Inv small (Reach-Inv small v r) st

-- What `kalloc` gives out in a world of this kind.
pub record IsFresh (w : World) (f : ℕ) (k : Kernel) : Type 0 where
  pub new : NotIn f w.held
  pub zeroed : (b : ℕ) → f ≤ b → b < f + 4096 → k.mem b ≡ 0
  pub kept : (g : ℕ) → In g w.held → (b : ℕ) → g ≤ b → b < g + 4096 → k.mem b ≡ w.kernel.mem b

kalloc-IsFresh :
    {total : ℕ} (fs : List ℕ) (w : World) (f : ℕ) (k : Kernel)
    → total < 2 ^ 32
    → IsFree w.kernel fs
    → Frames w.held
    → NoneIn fs w.held
    → length fs + length w.held ≡ total
    → kalloc w.kernel ≡ done f k
    → IsFresh w f k
kalloc-IsFresh [] w f k small free held apart sum e = absurd (cc (kalloc-nil free))
kalloc-IsFresh (x ∷ fs) w f k small free held apart sum e =
    let (same, free', zero) = Run.outcome (kalloc-head free (omega arith)) e in
    record {
      new = subst (λ y. NotIn y w.held) (sym same) apart.0;
      zeroed = λ b p q. zero.inside b (omega arith) (omega arith);
      kept = λ g i b p q. zero.outside b (
          ground (
            arith,
            (IsFrame-In g w.held held i).aligned,
            free.frames.0.aligned,
            ne_of_In x g w.held apart.0 i,
          ));
    }

-- From a world whose `total` frames (fewer than 2 ^ 32) are each free or held once, after any
-- history of `kalloc`, `kfree` of held frames and writes to held frames, a frame that `kalloc`
-- returns is held by nobody, reads as zero throughout, and getting it changes no byte of a frame
-- that somebody holds.
pub Reach-IsFresh :
    {total : ℕ} {s w : World} {f : ℕ} {k : Kernel}
    → total < 2 ^ 32
    → Inv total s
    → Reach s w
    → kalloc w.kernel ≡ done f k
    → IsFresh w f k
Reach-IsFresh {w} {f} {k} small v r e =
    let u = Reach-Inv small v r in
    kalloc-IsFresh u.free w f k small u.is_free u.frames u.apart u.sum e

-- From a world whose `total` frames (fewer than 2 ^ 32) are each free or held once, after any
-- history of `kalloc`, `kfree` of held frames and writes to held frames, the counter and the
-- number of held frames make up the total, and `kalloc` panics exactly when all of the frames are
-- held.
pub Reach-panic_iff :
    {total : ℕ} {s w : World}
    → total < 2 ^ 32
    → Inv total s
    → Reach s w
    → (w.kernel.nfreepages + length w.held ≡ total)
      × ((kalloc w.kernel ≡ panic) ↔ (length w.held ≡ total))
Reach-panic_iff {total} {w} small v r =
    let u = Reach-Inv small v r in
    (omega (arith, u.sum, u.is_free.counted), split u.free u.is_free u.sum)
  where
    split :
        (fs : List ℕ)
        → IsFree w.kernel fs
        → length fs + length w.held ≡ total
        → (kalloc w.kernel ≡ panic) ↔ (length w.held ≡ total)
    split [] free sum = (λ _. omega arith, λ _. kalloc-nil free)
    split (x ∷ fs) free sum =
        (λ e. absurd (Run.not_panic (kalloc-head free (omega arith)) e), λ e. absurd (omega arith))
