-- ===== src/Paging/Range.antt =====
-- `paging_map` maps a range, page by page.
use mathlib.Core.Path.{subst₂}
use rt.Prelude.{
  ℕ, zero, suc, ◌+◌, ◌-◌, ◌*◌, ◌/◌, ◌%◌, ◌^◌, ◌≤◌, ◌<◌, ◌≡◌, ◌≢◌, refl, ◌∙◌, true, false, ◌==◌, leb,
  some, List, arith, length, bit_or,
}
use rt.Prelude.Int.{pos}
use rt.Prelude.Run
use rt.Prelude.Run.{done, panic, Returns, returns}
use rt.Bits.{bit_and-low, bit_or-shifted}
use rt.Layout.{aligned}
use rt.Kalloc.{Kernel}
use rt.Kalloc.Ops.{aligned_lem}
use rt.Paging.{leaf_entry, map_loop, paging_map}
use rt.Paging.Tables.{Owner, IsTree}
use rt.Paging.Walk.{pte}
use rt.Paging.Map4K.{Mapped, paging_map_4K-Mapped}

-- `n` pages from `va` are mapped to those from `pa`; every other page is translated as before.
pub record MappedRange (k : Kernel) (fs : List ℕ) (root va pa flags n : ℕ) (k' : Kernel)
    : Type 0 where
  pub free' : List ℕ
  pub own' : Owner
  pub tree : IsTree k' free' own' root
  pub spent : length fs ≤ length free' + 3 * n
  pub fewer : length free' ≤ length fs
  pub hit :
      (j : ℕ) → j < n → pte k'.mem root (va + 4096 * j) ≡ some (leaf_entry (pa + 4096 * j) flags)
  pub others :
      (va' : ℕ)
      → ((j : ℕ) → j < n → va' / 4096 % 2 ^ 36 ≢ (va / 4096 + j) % 2 ^ 36)
      → pte k'.mem root va' ≡ pte k.mem root va'

pub both_aligned : (va pa : ℕ) → va % 4096 ≡ 0 → pa % 4096 ≡ 0 → aligned (bit_or va pa) 4096 ≡ true
both_aligned va pa hva hpa =
    ground (arith, bit_or-shifted 12 (va / 4096) (pa / 4096), bit_and-low 12 (bit_or va pa))

-- The first page and then the others.
MappedRange-suc :
    {k k' k'' : Kernel} {fs : List ℕ} {root va pa flags n : ℕ}
    → va % 4096 ≡ 0
    → n < 2 ^ 36
    → (m : Mapped k fs root va (leaf_entry pa flags) k')
    → MappedRange k' m.free' root (va + 4096) (pa + 4096) flags n k''
    → MappedRange k fs root va pa flags (suc n) k''
MappedRange-suc {k} {k''} {root} {va} {pa} {flags} {n} hva hn m r = record {
  free' = r.free';
  own' = r.own';
  tree = r.tree;
  spent = omega (arith, m.spent, r.spent);
  fewer = omega (arith, m.fewer, r.fewer);
  hit = hit;
  others = λ va' h.
      r.others va' (λ j lt e. h (suc j) (omega arith) (omega arith))
      ∙ m.others va' (λ e. h 0 (omega arith) (omega arith));
}
  where
    hit :
        (j : ℕ)
        → j < suc n
        → pte k''.mem root (va + 4096 * j) ≡ some (leaf_entry (pa + 4096 * j) flags)
    hit zero lt =
        subst₂ (λ a b. pte k''.mem root a ≡ some (leaf_entry b flags)) (omega arith) (omega arith)
          (r.others va (λ j below e. absurd (omega arith)) ∙ m.hit)
    hit (suc j) lt =
        subst₂ (λ a b. pte k''.mem root a ≡ some (leaf_entry b flags)) (omega arith) (omega arith)
          (r.hit j (omega arith))

-- The free frames are those of the others.
pub MappedRange-suc_free :
    {k k' k'' : Kernel} {fs : List ℕ} {root va pa flags n : ℕ}
    → va % 4096 ≡ 0
    → n < 2 ^ 36
    → (m : Mapped k fs root va (leaf_entry pa flags) k')
    → (r : MappedRange k' m.free' root (va + 4096) (pa + 4096) flags n k'')
    → (x : MappedRange k fs root va pa flags (suc n) k'') × (x.free' ≡ r.free')
unfolding MappedRange-suc
MappedRange-suc_free hva hn m r = (MappedRange-suc hva hn m r, refl)

pub MappedRange-zero :
    (k : Kernel) (fs : List ℕ) (own : Owner) (root va pa flags : ℕ)
    → IsTree k fs own root
    → MappedRange k fs root va pa flags 0 k
MappedRange-zero k fs own root va pa flags tree = record {
  free' = fs;
  own' = own;
  tree = tree;
  spent = omega arith;
  fewer = omega arith;
  hit = λ j lt. absurd (omega arith);
  others = λ va' h. refl;
}

-- With `n` pages to go and fuel for one more round.
map_loop-MappedRange :
    (n fuel : ℕ) (k : Kernel) (fs : List ℕ) (own : Owner) (root va pa flags : ℕ)
    → IsTree k fs own root
    → n < fuel
    → 3 * n ≤ length fs
    → length fs < 2 ^ 32
    → va % 4096 ≡ 0
    → pa % 4096 ≡ 0
    → va + n * 4096 < 2 ^ 64
    → pa + n * 4096 < 2 ^ 64
    → flags < 4096
    → Returns
        (λ _. MappedRange k fs root va pa flags n)
        (map_loop fuel root va pa (n * 4096) flags k)
unfolding map_loop
map_loop-MappedRange n zero k fs own root va pa flags tree lt en few hva hpa top ptop hf =
    absurd (omega arith)
map_loop-MappedRange zero (suc fuel) k fs own root va pa flags tree lt en few hva hpa top ptop hf =
    returns (MappedRange-zero k fs own root va pa flags tree)
map_loop-MappedRange (suc n) (suc fuel) k fs own root va pa flags tree lt en few hva hpa top ptop
      hf =
    let more : (suc n * 4096 == 0) ≡ false = ground arith in
    let page : leb 4096 (suc n * 4096) ≡ true = ground arith in
    rw (more, page, both_aligned va pa hva hpa)
      (Run.bind
        (paging_map_4K-Mapped k fs own root va pa flags tree (omega arith) few hva hpa (omega arith)
          hf)
        λ _ k' m. next_round m (
          map_loop-MappedRange n fuel k' m.free' m.own' root (va + 4096) (pa + 4096) flags m.tree
            (omega arith) (omega (arith, m.spent)) (omega (arith, m.fewer)) (omega arith)
            (omega arith) (omega arith) (omega arith) hf))
  where
    next_round :
        {k' : Kernel} (m : Mapped k fs root va (leaf_entry pa flags) k')
        → Returns
            (λ _. MappedRange k' m.free' root (va + 4096) (pa + 4096) flags n)
            (map_loop fuel root (va + 4096) (pa + 4096) (n * 4096) flags k')
        → Returns
            (λ _. MappedRange k fs root va pa flags (suc n))
            (map_loop fuel root
              ((va + 4096) % 2 ^ 64)
              ((pa + 4096) % 2 ^ 64)
              (suc n * 4096 - 4096)
              flags
              k')
    next_round {k'} m r =
        let same_va : (va + 4096) % 2 ^ 64 ≡ va + 4096 = omega arith in
        let same_pa : (pa + 4096) % 2 ^ 64 ≡ pa + 4096 = omega arith in
        let same_sz : suc n * 4096 - 4096 ≡ n * 4096 = omega arith in
        rw (same_va, same_pa, same_sz)
          (Run.mono r λ _ k'' rest. MappedRange-suc hva (omega arith) m rest)

-- In a tree of page tables with three free frames for each page (fewer than 2 ^ 32 in all),
-- `paging_map` of `n` pages from page-aligned addresses, with flags below 4096 and neither range
-- reaching 2 ^ 64, ends; then the walk finds `(pa + 4096 * j) | flags | PF_P` for the `j`-th page
-- of the range, finds for every page outside the range what it found before, and the tables form
-- a tree again.
pub paging_map-MappedRange :
    (k : Kernel) (fs : List ℕ) (own : Owner) (root va pa n flags : ℕ)
    → IsTree k fs own root
    → 3 * n ≤ length fs
    → length fs < 2 ^ 32
    → va % 4096 ≡ 0
    → pa % 4096 ≡ 0
    → va + n * 4096 < 2 ^ 64
    → pa + n * 4096 < 2 ^ 64
    → flags < 4096
    → Returns
        (λ _. MappedRange k fs root va pa flags n)
        (paging_map root va pa (pos (n * 4096)) flags k)
unfolding paging_map
paging_map-MappedRange k fs own root va pa n flags tree en few hva hpa top ptop hf =
    rw (aligned_lem va hva, aligned_lem pa hpa, aligned_lem (n * 4096 % 2 ^ 64) (omega arith))
      (map_loop-MappedRange n (n * 4096 / 4096 + 1) k fs own root va pa flags tree (omega arith) en
        few hva hpa top ptop hf)
