-- ===== src/Kalloc/Init.antt =====
-- `kallocinit` frees every whole page between `end` and the top of physical memory.
use mathlib.Core.Path.{subst₂}
use rt.Prelude.{
  ℕ, zero, suc, ◌+◌, ◌-◌, ◌*◌, ◌/◌, ◌%◌, ◌^◌, ◌≤◌, ◌<◌, ◌≡◌, refl, ◌∙◌, ap, true, false, List, [],
  ◌∷◌, arith, length, leb,
}
use rt.Prelude.Run
use rt.Prelude.Run.{done, and_then, ◌>>◌, Returns, returns}
use rt.Memory.{Mem}
use rt.Layout.{max_phys_mem, p2v}
use rt.Kalloc.{Kernel, kfree, init_loop, kallocinit}
use rt.Kalloc.Chain.{IsFrame, NotIn, IsFree}
use rt.Kalloc.Ops.{kfree-cons}

-- `n` frames from `a` upwards.
abbrev pub frames_from : ℕ → ℕ → List ℕ
frames_from zero a = []
frames_from (suc n) a = a ∷ frames_from n (a + 4096)

pub length-frames_from : (n a : ℕ) → length (frames_from n a) ≡ n
length-frames_from zero a = refl
length-frames_from (suc n) a = ap suc (length-frames_from n (a + 4096))

NotIn-frames_from : (n a b : ℕ) → a < b → NotIn a (frames_from n b)
NotIn-frames_from zero a b h = tt
NotIn-frames_from (suc n) a b h = (omega arith, NotIn-frames_from n a (b + 4096) (omega arith))

recount :
    {k : Kernel} (i j a b : ℕ)
    → IsFree k (frames_from i a)
    → i ≡ j
    → a ≡ b
    → IsFree k (frames_from j b)
recount {k} i j a b free e e' = subst₂ (λ n x. IsFree k (frames_from n x)) e e' free

-- Nothing below `a` has changed.
abbrev pub SameBelow : ℕ → Mem → Mem → Type 0
SameBelow a m m' = (b : ℕ) → b < a → m' b ≡ m b

-- One round frees `it`, which lies below all that is free.
round :
    (j it : ℕ) {k : Kernel}
    → IsFree k (frames_from j (it + 4096))
    → IsFrame it
    → j + 1 < 2 ^ 32
    → Returns (λ _ k'. IsFree k' (frames_from (suc j) it) × SameBelow it k.mem k'.mem) (kfree it k)
round j it {k} free is small =
    Run.mono
      (kfree-cons it free is (NotIn-frames_from j it (it + 4096) (omega arith))
        (omega (arith, length-frames_from j (it + 4096))))
      λ _ k' (free', same). (free', λ b lt. same b (omega arith))

-- With `r` rounds to go down to `lo` and `j` frames free above `it`.
init_loop-IsFree :
    (r fuel j it lo from : ℕ) {k : Kernel}
    → IsFree k (frames_from j (it + 4096))
    → r < fuel
    → it + 4096 ≡ lo + r * 4096
    → from ≤ lo
    → lo < from + 4096
    → lo % 4096 ≡ 0
    → 4096 ≤ lo
    → it + 4096 ≤ 2 ^ 64
    → r + j < 2 ^ 32
    → Returns
        (λ _ k'. IsFree k' (frames_from (r + j) lo) × SameBelow lo k.mem k'.mem)
        (init_loop fuel it from k)
unfolding init_loop
init_loop-IsFree r zero j it lo from free lt e p q al big top small = absurd (omega arith)
init_loop-IsFree zero (suc fuel) j it lo from {k} free lt e p q al big top small =
    let stop : leb from it ≡ false = ground arith in
    rw stop
      (returns (recount j (0 + j) (it + 4096) lo free (omega arith) (omega arith), λ b lt. refl))
init_loop-IsFree (suc r) (suc fuel) j it lo from {k} free lt e p q al big top small =
    let go : leb from it ≡ true = ground arith in
    rw go (
      Run.bind
        (round j it free
          (record { aligned = omega arith; not_null = omega arith; inside = omega arith })
          (omega arith))
        λ _ k' (free', same).
          Run.mono
            (init_loop-IsFree r fuel (suc j) (it - 4096) lo from
              (recount (suc j) (suc j) it (it - 4096 + 4096) free' refl (omega arith)) (omega arith)
              (omega arith) p q al big (omega arith) (omega arith))
            λ _ k'' (free'', same'). (
              recount (r + suc j) (suc r + j) lo lo free'' (omega arith) refl,
              λ b lt. same' b lt ∙ same b (omega arith),
            ))

-- The frames that `kallocinit` frees: those that lie wholly between `end` and the top.
abbrev pub page_count : ℕ → ℕ
page_count end = (p2v max_phys_mem - end) / 4096

abbrev pub first_page : ℕ → ℕ
first_page end = p2v max_phys_mem - page_count end * 4096

-- From an empty list, and for an `end` inside the kernel's mapping of physical memory,
-- `kallocinit` ends; the free list then holds every whole page from `end` to the top of physical
-- memory, lowest first, the counter is their number, and nothing below them has been written.
pub kallocinit-IsFree :
    (end : ℕ) {k : Kernel}
    → IsFree k []
    → p2v 0 ≤ end
    → end ≤ p2v max_phys_mem
    → Returns
        (λ _ k'.
          IsFree k' (frames_from (page_count end) (first_page end))
          × SameBelow (first_page end) k.mem k'.mem)
        (kallocinit end k)
unfolding kallocinit
kallocinit-IsFree end {k} free low high =
    Run.mono
      (init_loop-IsFree (page_count end) 4097 0 (p2v max_phys_mem - 4096) (first_page end) end free
        (omega arith) (omega arith) (omega arith) (omega arith) (omega arith) (omega arith)
        (omega arith) (omega arith))
      λ _ k' (free', same).
        (recount (page_count end + 0) (page_count end) _ _ free' (omega arith) refl, same)
