-- ===== src/Paging/Blocks.antt =====
-- `paging_map` spends frames by the blocks of 2M that the range touches, not by its pages: within a
-- block the tables are made once.
use mathlib.Core.Path.{subst}
use native.Mathlib.Decide.{ℕ_discrete}
use rt.Prelude.{
  ℕ, zero, suc, ◌+◌, ◌-◌, ◌*◌, ◌/◌, ◌%◌, ◌^◌, ◌≤◌, ◌<◌, ◌≡◌, ◌≢◌, ◌⊎◌, inl, inr, refl, sym, ap,
  true, false, ◌==◌, leb, List, arith, length,
}
use rt.Prelude.Int.{pos}
use rt.Prelude.Run.{Returns, returns, bind, mono, and_then}
use rt.Kalloc.{Kernel}
use rt.Kalloc.Ops.{aligned_lem}
use rt.Paging.{leaf_entry, map_loop, paging_map, paging_map_4K}
use rt.Paging.Tables.{Owner, IsTree}
use rt.Paging.Map4K.{HasPath, Mapped, paging_map_4K-Mapped}
use rt.Paging.Again.{HasPath-near, paging_map_4K_again}
use rt.Paging.Range.{MappedRange, MappedRange-suc_free, MappedRange-zero, both_aligned}

-- The block of an address, and the first one behind `n` pages.
abbrev pub block : ℕ → ℕ
block va = va / 4096 / 512

abbrev pub block_end : (va n : ℕ) → ℕ
block_end va n = (va / 4096 + n + 511) / 512

-- Whether the tables for the block of `va` are there: 1 if they are, inside the block.
abbrev Paid : Kernel → (root va r : ℕ) → Type 0
Paid k root va r = (r ≡ 0) ⊎ ((r ≡ 1) × HasPath k.mem root va × (va / 4096 % 512 ≢ 0))

-- A page costs three frames at most, and none in a block that is paid.
abbrev OnePage : Kernel → List ℕ → (root va e r : ℕ) → Kernel → Type 0
OnePage k fs root va e r k' =
    (m : Mapped k fs root va e k') × (length fs + 3 * r ≤ length m.free' + 3)

one_page :
    (k : Kernel) (fs : List ℕ) (own : Owner) (root va pa flags r : ℕ)
    → IsTree k fs own root
    → Paid k root va r
    → 3 ≤ length fs + 3 * r
    → length fs < 2 ^ 32
    → va % 4096 ≡ 0
    → pa % 4096 ≡ 0
    → pa < 2 ^ 64
    → flags < 4096
    → Returns (λ _. OnePage k fs root va (leaf_entry pa flags) r) (paging_map_4K root va pa flags k)
one_page k fs own root va pa flags r tree (inl e) en few hva hpa top hf =
    mono (paging_map_4K-Mapped k fs own root va pa flags tree (omega arith) few hva hpa top hf)
      λ _ k' m. (m, omega (arith, m.spent))
one_page k fs own root va pa flags r tree (inr h) en few hva hpa top hf =
    mono (paging_map_4K_again k fs own root va pa flags tree h.1 hva hpa top hf)
      λ _ k' m. (m.0, omega (arith, h.0, ap length m.1))

-- The range, and what it has cost.
abbrev pub Cost : Kernel → List ℕ → (root va pa flags n r : ℕ) → Kernel → Type 0
Cost k fs root va pa flags n r k' =
    (m : MappedRange k fs root va pa flags n k') × (length fs + 3 * (block va + r)
      ≤ length m.free' + 3 * block_end va n)

map_loop-eq :
    (n fuel : ℕ) (k : Kernel) (root va pa flags : ℕ)
    → va % 4096 ≡ 0
    → pa % 4096 ≡ 0
    → va + suc n * 4096 < 2 ^ 64
    → pa + suc n * 4096 < 2 ^ 64
    → map_loop (suc fuel) root va pa (suc n * 4096) flags k
      ≡ and_then
          (paging_map_4K root va pa flags k)
          (λ _. map_loop fuel root (va + 4096) (pa + 4096) (n * 4096) flags)
unfolding map_loop
map_loop-eq n fuel k root va pa flags hva hpa top ptop =
    let more : (suc n * 4096 == 0) ≡ false = ground arith in
    let page : leb 4096 (suc n * 4096) ≡ true = ground arith in
    let same_va : (va + 4096) % 2 ^ 64 ≡ va + 4096 = omega arith in
    let same_pa : (pa + 4096) % 2 ^ 64 ≡ pa + 4096 = omega arith in
    let same_sz : suc n * 4096 - 4096 ≡ n * 4096 = omega arith in
    rw (more, page, both_aligned va pa hva hpa, same_va, same_pa, same_sz) refl

no_cost :
    (k : Kernel) (fs : List ℕ) (own : Owner) (root va pa flags r : ℕ) (tree : IsTree k fs own root)
    → Paid k root va r
    → length fs + 3 * (block va + r)
      ≤ length (MappedRange.free' (MappedRange-zero k fs own root va pa flags tree))
        + 3 * block_end va 0
no_cost k fs own root va pa flags r tree (inl e) =
    omega (arith, (MappedRange-zero k fs own root va pa flags tree).spent)
no_cost k fs own root va pa flags r tree (inr h) =
    omega (arith, h.0, h.2, (MappedRange-zero k fs own root va pa flags tree).spent)

map_loop-done :
    (fuel : ℕ) (k : Kernel) (fs : List ℕ) (own : Owner) (root va pa flags r : ℕ)
    → IsTree k fs own root
    → Paid k root va r
    → Returns
        (λ _. Cost k fs root va pa flags 0 r)
        (map_loop (suc fuel) root va pa (0 * 4096) flags k)
unfolding map_loop
map_loop-done fuel k fs own root va pa flags r tree paid =
    returns (
      MappedRange-zero k fs own root va pa flags tree,
      no_cost k fs own root va pa flags r tree paid,
    )

-- What is paid at the next page.
next-Paid :
    (k : Kernel) (root va : ℕ)
    → HasPath k.mem root va
    → (r : ℕ) × (Paid k root (va + 4096) r × (block (va + 4096) + r ≡ block va + 1))
next-Paid k root va h = elim (ℕ_discrete ((va + 4096) / 4096 % 512) 0) [
  | yes e ↦ (0, (inl refl, omega arith))
  | no ne ↦
      (1, (inr (refl, HasPath-near k.mem root va (va + 4096) (omega arith) h, ne), omega arith))
]

map_loop-Cost :
    (n fuel : ℕ) (k : Kernel) (fs : List ℕ) (own : Owner) (root va pa flags r : ℕ)
    → IsTree k fs own root
    → Paid k root va r
    → n < fuel
    → n < 2 ^ 36
    → 3 * block_end va n ≤ length fs + 3 * (block va + r)
    → length fs < 2 ^ 32
    → va % 4096 ≡ 0
    → pa % 4096 ≡ 0
    → va + n * 4096 < 2 ^ 64
    → pa + n * 4096 < 2 ^ 64
    → flags < 4096
    → Returns (λ _. Cost k fs root va pa flags n r) (map_loop fuel root va pa (n * 4096) flags k)
map_loop-Cost n zero k fs own root va pa flags r tree paid lt hn en few hva hpa top ptop hf =
    absurd (omega arith)
map_loop-Cost zero (suc fuel) k fs own root va pa flags r tree paid lt hn en few hva hpa top ptop
      hf =
    map_loop-done fuel k fs own root va pa flags r tree paid
map_loop-Cost (suc n) (suc fuel) k fs own root va pa flags r tree paid lt hn en few hva hpa top ptop
      hf =
    subst (Returns _) (sym (map_loop-eq n fuel k root va pa flags hva hpa top ptop)) (
      bind
        (one_page k fs own root va pa flags r tree paid (omega arith) few hva hpa (omega arith) hf)
        λ _ k' one.
          let next = next-Paid k' root va one.0.path in
          mono
            (map_loop-Cost n fuel k' one.0.free' one.0.own' root (va + 4096) (pa + 4096) flags
              next.0 one.0.tree next.1.0 (omega arith) (omega arith)
              (omega (arith, next.1.1, one.1)) (omega (arith, one.0.fewer)) (omega arith)
              (omega arith) (omega arith) (omega arith) hf)
            λ _ k'' rest.
              let all = MappedRange-suc_free hva (omega arith) one.0 rest.0 in
              (all.0, omega (arith, ap length all.1, rest.1, one.1, next.1.1)))

-- In a tree of page tables with three free frames for each block of 2M that the range touches, the
-- range is mapped, at that cost.
pub paging_map-Cost :
    (k : Kernel) (fs : List ℕ) (own : Owner) (root va pa n flags : ℕ)
    → IsTree k fs own root
    → n < 2 ^ 36
    → 3 * block_end va n ≤ length fs + 3 * block va
    → length fs < 2 ^ 32
    → va % 4096 ≡ 0
    → pa % 4096 ≡ 0
    → va + n * 4096 < 2 ^ 64
    → pa + n * 4096 < 2 ^ 64
    → flags < 4096
    → Returns (λ _. Cost k fs root va pa flags n 0) (paging_map root va pa (pos (n * 4096)) flags k)
unfolding paging_map
paging_map-Cost k fs own root va pa n flags tree hn en few hva hpa top ptop hf =
    rw (aligned_lem va hva, aligned_lem pa hpa, aligned_lem (n * 4096 % 2 ^ 64) (omega arith))
      (map_loop-Cost n (n * 4096 / 4096 + 1) k fs own root va pa flags 0 tree (inl refl)
        (omega arith) hn (omega arith) few hva hpa top ptop hf)
