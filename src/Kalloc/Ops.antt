-- ===== src/Kalloc/Ops.antt =====
-- `kfree` and `kalloc` on every branch, against the list of free frames.
use rt.Prelude.{
  ℕ, ◌+◌, ◌%◌, ◌^◌, ◌<◌, ◌≡◌, ◌≢◌, refl, ap, true, false, List, [], ◌∷◌, arith, length, ◌==◌,
}
use rt.Prelude.Run.{done, panic, Returns, returns}
use rt.Bits.{bit_and-low}
use rt.Memory.{Mem, load64}
use rt.Memory.Laws.{IsBytes, SameBut, store_frame, store-IsBytes}
use rt.Str.{memset}
use rt.Str.Fill.{IsFilled, memset-IsFilled}
use rt.Layout.{aligned}
use rt.Kalloc.{Kernel, take_frame, kfree, kalloc}
use rt.Kalloc.Chain.{IsFrame, NotIn, IsFree, Chain-SameBut, Chain-store}

pub aligned_lem : (f : ℕ) → f % 4096 ≡ 0 → aligned f 4096 ≡ true
aligned_lem f h = ground (arith, bit_and-low 12 f)

pub unaligned_lem : (f : ℕ) → f % 4096 ≢ 0 → aligned f 4096 ≡ false
unaligned_lem f h = ground (arith, bit_and-low 12 f)

-- `kfree` of a frame that is not on the free list (of fewer than 2 ^ 32 - 1 frames) puts it at
-- the head of the list, counts it, and writes nothing but the first word of that frame.
pub kfree-cons :
    (f : ℕ) {k : Kernel} {fs : List ℕ}
    → IsFree k fs
    → IsFrame f
    → NotIn f fs
    → length fs + 1 < 2 ^ 32
    → Returns (λ _ k'. IsFree k' (f ∷ fs) × SameBut f 8 k.mem k'.mem) (kfree f k)
unfolding kfree
kfree-cons f {k} {fs} free is new small = rw (aligned_lem f is.aligned) (
    returns (
      record {
        frames = (is, new, free.frames);
        chain = Chain-store k.mem f k.freelist fs is new free.frames free.chain;
        counted = omega (arith, free.counted);
        bytes = store-IsBytes 8 k.mem f k.freelist free.bytes;
      },
      store_frame 8 k.mem f k.freelist,
    ))

-- `kfree` of an address that is not a page boundary panics.
pub kfree_unaligned : (f : ℕ) (k : Kernel) → f % 4096 ≢ 0 → kfree f k ≡ panic
unfolding kfree
kfree_unaligned f k h = rw (unaligned_lem f h)

zeroed : (m : Mem) (f : ℕ) → IsFilled m f 4096 0 (memset m f 0 4096).1
zeroed m f = (memset-IsFilled m f 0 4096 (omega arith)).1

IsBytes-filled : {m m' : Mem} (f : ℕ) → IsBytes m → IsFilled m f 4096 0 m' → IsBytes m'
IsBytes-filled f h z b = ground (arith, h b, z.inside b, z.outside b)

take_frame-IsFree :
    {k : Kernel} {f : ℕ} {fs : List ℕ}
    → IsFree k (f ∷ fs)
    → length fs + 1 < 2 ^ 32
    → IsFree (take_frame f k) fs
unfolding take_frame
take_frame-IsFree {k} {f} {fs} free small =
    let zero = zeroed k.mem f in
    record {
      frames = free.frames.2;
      chain =
          Chain-SameBut k.mem _ f (load64 k.mem f) fs free.frames.0.aligned free.frames.1
            free.frames.2 zero.outside free.chain.1;
      counted = omega (arith, free.counted);
      bytes = IsBytes-filled f free.bytes zero;
    }

kalloc-eq-done : (k : Kernel) {f : ℕ} → k.freelist ≡ f → f ≢ 0 → kalloc k ≡ done f (take_frame f k)
unfolding kalloc
kalloc-eq-done k {f} e ne =
    let some_frame : (k.freelist == 0) ≡ false = ground arith in
    rw some_frame (ap (λ p. done p (take_frame p k)) e)

-- On a free list that is not empty (of at most 2 ^ 32 - 1 frames), `kalloc` returns its head,
-- takes it off the list, counts that, zeroes the whole frame and writes nowhere else.
pub kalloc-head :
    {k : Kernel} {f : ℕ} {fs : List ℕ}
    → IsFree k (f ∷ fs)
    → length fs + 1 < 2 ^ 32
    → Returns (λ p k'. (p ≡ f) × IsFree k' fs × IsFilled k.mem f 4096 0 k'.mem) (kalloc k)
unfolding take_frame
kalloc-head {k} {f} free small =
    rw (kalloc-eq-done k free.chain.0 free.frames.0.not_null)
      (returns (refl, take_frame-IsFree free small, zeroed k.mem f))

-- `kalloc` with no free frame panics.
pub kalloc-nil : {k : Kernel} → IsFree k [] → kalloc k ≡ panic
unfolding kalloc
kalloc-nil free = rw free.chain
