-- ===== src/Paging/Map4K.antt =====
-- `paging_map_4K`: three steps down the tree and one write to a last-level table.
use mathlib.Core.Path.{subst}
use rt.Prelude.{
  ℕ, suc, ◌+◌, ◌*◌, ◌/◌, ◌%◌, ◌^◌, ◌≤◌, ◌<◌, ◌≡◌, ◌≢◌, refl, sym, ◌∙◌, ◌⊎◌, true, some, List, arith,
  length,
}
use rt.Prelude.Run
use rt.Prelude.Run.{done, panic, Returns, returns}
use rt.Bits.{bit_and-low}
use rt.Memory.{Mem, store64}
use rt.Kalloc.{Kernel}
use rt.Kalloc.Ops.{aligned_lem}
use rt.Paging.{pml4_idx, pdpt_idx, pd_idx, pt_idx, entry, present, leaf_entry, paging_map_4K}
use rt.Paging.Entry.{present-odd, leaf_entry-eq_add}
use rt.Paging.Tables.{Slot, slot, Owner, Leads, IsTree}
use rt.Paging.Step.{Stepped}
use rt.Paging.NextTable.{safe_nextpt_mayalloc-Stepped}
use rt.Paging.Leaf.{set-IsTree, look-set, look-hit, upper_entry}
use rt.Paging.Walk.{pte, pte-eq-look, index-lt, look-Leads, look-Stepped, page-root}

-- The tables that lead to the last table for `va`.
pub record HasPath (m : Mem) (root va : ℕ) : Type 0 where
  pub pdpt : ℕ
  pub pd : ℕ
  pub pt : ℕ
  pub to_pdpt : Leads (entry m root (pml4_idx va)) pdpt
  pub to_pd : Leads (entry m pdpt (pdpt_idx va)) pd
  pub to_pt : Leads (entry m pd (pd_idx va)) pt

-- One page is mapped: `va` is translated by the entry `e`, every other page as before, and at most
-- three frames have become tables.
pub record Mapped (k : Kernel) (fs : List ℕ) (root va e : ℕ) (k' : Kernel) : Type 0 where
  pub free' : List ℕ
  pub own' : Owner
  pub tree : IsTree k' free' own' root
  pub spent : length fs ≤ length free' + 3
  pub fewer : length free' ≤ length fs
  pub hit : pte k'.mem root va ≡ some e
  pub others :
      (va' : ℕ)
      → va' / 4096 % 2 ^ 36 ≢ va / 4096 % 2 ^ 36
      → pte k'.mem root va' ≡ pte k.mem root va'
  pub path : HasPath k'.mem root va

Leads-same : {e e' n : ℕ} → Leads e n → e' ≡ e → Leads e' n
Leads-same {n} l e = subst (λ x. Leads x n) (sym e) l

-- A step keeps the entries that lead somewhere.
Stepped-Leads :
    {k k' : Kernel} {fs : List ℕ} {own : Owner} {root t l p i n : ℕ}
    → Stepped k fs own root t l p i n k'
    → (u j : ℕ) (q : Slot) {x : ℕ} → own u ≡ some q
    → j < 512
    → Leads (entry k.mem u j) x
    → Leads (entry k'.mem u j) x
Stepped-Leads s u j q at hj lead = Leads-same lead (s.kept u j q at hj lead.is_present)

-- After the three steps to `pt`, with the final write of `v`.
module _ (k : Kernel) (fs : List ℕ) (own : Owner) (root va v pdpt pd pt : ℕ) (k' k'' k''' : Kernel)
    (tree : IsTree k fs own root) (lt : v < 2 ^ 64) (pr : present v ≡ true)
    (s : Stepped k fs own root root 2 0 (pml4_idx va) pdpt k')
    (s' : Stepped k' s.free' s.own' root pdpt 1 (0 * 512 + pml4_idx va) (pdpt_idx va) pd k'')
    (s'' : Stepped k'' s'.free' s'.own' root pd 0
      ((0 * 512 + pml4_idx va) * 512 + pdpt_idx va)
      (pd_idx va)
      pt
      k''') where
  abbrev end_mem : Mem
  end_mem = store64 k'''.mem (pt + 8 * pt_idx va) v

  abbrev prefix : ℕ
  prefix = (0 * 512 + pml4_idx va) * 512 + pdpt_idx va

  -- The tables on the way, where they stand in the end.
  root_place : s''.own' root ≡ some (slot 4 0)
  root_place = s''.tree.top

  pdpt_place : s''.own' pdpt ≡ some (slot 3 (0 * 512 + pml4_idx va))
  pdpt_place = s''.owned pdpt _ (s'.owned pdpt _ s.place)

  pd_place : s''.own' pd ≡ some (slot 2 prefix)
  pd_place = s''.owned pd _ s'.place

  at_end :
      (u j l q n : ℕ)
      → s''.own' u ≡ some (slot (suc (suc l)) q)
      → j < 512
      → Leads (entry k'''.mem u j) n
      → Leads (entry end_mem u j) n
  at_end u j l q n h hj lead = Leads-same lead (
      upper_entry k''' s''.free' s''.own' root pt (prefix * 512 + pd_idx va) (pt_idx va) v s''.tree
        s''.place (index-lt 0 va) u j l q h hj)

  lead_pdpt : Leads (entry end_mem root (pml4_idx va)) pdpt
  lead_pdpt = at_end root (pml4_idx va) 2 0 pdpt root_place (index-lt 3 va) (
      Stepped-Leads s'' root _ _ s'.tree.top (index-lt 3 va)
        (Stepped-Leads s' root _ _ s.tree.top (index-lt 3 va) s.leads))

  lead_pd : Leads (entry end_mem pdpt (pdpt_idx va)) pd
  lead_pd =
      at_end pdpt (pdpt_idx va) 1 _ pd pdpt_place (index-lt 2 va)
        (Stepped-Leads s'' pdpt _ _ (s'.owned pdpt _ s.place) (index-lt 2 va) s'.leads)

  lead_pt : Leads (entry end_mem pd (pd_idx va)) pt
  lead_pt = at_end pd (pd_idx va) 0 _ pt pd_place (index-lt 1 va) s''.leads

  hit_end : pte end_mem root va ≡ some v
  hit_end =
      pte-eq-look end_mem root va
      ∙ look-Leads 2 end_mem root va pdpt lead_pdpt
      ∙ look-Leads 1 end_mem pdpt va pd lead_pd
      ∙ look-Leads 0 end_mem pd va pt lead_pt
      ∙ look-hit k''' s''.free' s''.own' root pt (prefix * 512 + pd_idx va) (pt_idx va) v s''.tree
          s''.place (index-lt 0 va) va refl lt pr

  others_end :
      (va' : ℕ)
      → va' / 4096 % 2 ^ 36 ≢ va / 4096 % 2 ^ 36
      → pte end_mem root va' ≡ pte k.mem root va'
  others_end va' ne =
      pte-eq-look end_mem root va'
      ∙ look-set k''' s''.free' s''.own' root pt (prefix * 512 + pd_idx va) (pt_idx va) v s''.tree
          s''.place (index-lt 0 va) 3 root 0 va' root_place
          (λ e. ne (sym (page-root va') ∙ e ∙ page-root va))
      ∙ look-Stepped k'' k''' _ _ root _ _ _ _ pt 3 root 0 va' s'.tree s'' s'.tree.top
      ∙ look-Stepped k' k'' _ _ root _ _ _ _ pd 3 root 0 va' s.tree s' s.tree.top
      ∙ look-Stepped k k' fs own root _ _ _ _ pdpt 3 root 0 va' tree s tree.top
      ∙ sym (pte-eq-look k.mem root va')

  finish : Mapped k fs root va v (record k''' { mem = end_mem })
  finish = record {
    free' = s''.free';
    own' = s''.own';
    tree =
        set-IsTree k''' s''.free' s''.own' root pt _ (pt_idx va) v s''.tree s''.place
          (index-lt 0 va);
    spent = omega (arith, s.spent, s'.spent, s''.spent);
    fewer = omega (arith, s.fewer, s'.fewer, s''.fewer);
    hit = hit_end;
    others = others_end;
    path = record {
      pdpt = pdpt;
      pd = pd;
      pt = pt;
      to_pdpt = lead_pdpt;
      to_pd = lead_pd;
      to_pt = lead_pt;
    };
  }

  -- The free frames are those of the last step.
  pub finish_free :
      (m : Mapped k fs root va v (record k''' { mem = end_mem })) × (m.free' ≡ s''.free')
  unfolding finish
  finish_free = (finish, refl)

pub leaf_entry-present :
    (pa flags : ℕ) → pa % 4096 ≡ 0 → flags < 4096 → present (leaf_entry pa flags) ≡ true
leaf_entry-present pa flags al lt =
    ground (arith, leaf_entry-eq_add pa flags al lt, present-odd (leaf_entry pa flags))

pub leaf_entry-lt :
    (pa flags : ℕ) → pa % 4096 ≡ 0 → flags < 4096 → pa < 2 ^ 64 → leaf_entry pa flags < 2 ^ 64
leaf_entry-lt pa flags al lt h = omega (arith, leaf_entry-eq_add pa flags al lt)

-- In a tree of page tables with at least three free frames (fewer than 2 ^ 32), `paging_map_4K`
-- of page-aligned addresses with flags below 4096 returns. Then the walk for `va` finds `pa |
-- flags | PF_P`, the walk for every address on another page finds what it found before, and the
-- tables still form a tree that stands apart from the free frames, of which at most three have
-- been used.
pub paging_map_4K-Mapped :
    (k : Kernel) (fs : List ℕ) (own : Owner) (root va pa flags : ℕ)
    → IsTree k fs own root
    → 3 ≤ length fs
    → length fs < 2 ^ 32
    → va % 4096 ≡ 0
    → pa % 4096 ≡ 0
    → pa < 2 ^ 64
    → flags < 4096
    → Returns (λ _. Mapped k fs root va (leaf_entry pa flags)) (paging_map_4K root va pa flags k)
unfolding paging_map_4K
paging_map_4K-Mapped k fs own root va pa flags tree enough few hva hpa fits hf =
    rw (aligned_lem va hva, aligned_lem pa hpa)
      (Run.bind
        (safe_nextpt_mayalloc-Stepped k fs own root root 2 0 (pml4_idx va) tree tree.top
          (index-lt 3 va) (omega arith) few)
        λ pdpt k' s.
          Run.bind
            (safe_nextpt_mayalloc-Stepped k' s.free' s.own' root pdpt 1 _ (pdpt_idx va) s.tree
              s.place (index-lt 2 va) (omega (arith, s.spent)) (omega (arith, s.fewer)))
            λ pd k'' s'.
              Run.bind
                (safe_nextpt_mayalloc-Stepped k'' s'.free' s'.own' root pd 0 _ (pd_idx va) s'.tree
                  s'.place (index-lt 1 va) (omega (arith, s.spent, s'.spent))
                  (omega (arith, s.fewer, s'.fewer)))
                λ pt k''' s''. returns (
                  finish k fs own root va (leaf_entry pa flags) pdpt pd pt k' k'' k''' tree
                    (leaf_entry-lt pa flags hpa hf fits) (leaf_entry-present pa flags hpa hf) s s'
                    s''))

-- An address that is not page-aligned is refused.
pub paging_map_4K_unaligned :
    (k : Kernel) (root va pa flags : ℕ)
    → (va % 4096 ≢ 0) ⊎ (pa % 4096 ≢ 0)
    → paging_map_4K root va pa flags k ≡ panic
unfolding paging_map_4K
paging_map_4K_unaligned k root va pa flags h = ground (arith, bit_and-low 12 va, bit_and-low 12 pa)
