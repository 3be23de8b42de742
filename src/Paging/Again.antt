-- ===== src/Paging/Again.antt =====
-- `paging_map_4K` where the tables for the address are there already: no frame is spent.
use mathlib.Core.Path.{subst}
use rt.Prelude.{
  ℕ, suc, ◌+◌, ◌*◌, ◌/◌, ◌%◌, ◌^◌, ◌<◌, ◌≡◌, refl, sym, ap, ◌∙◌, inl, some, List, arith,
}
use rt.Prelude.Run.{done, and_then, Returns, returns, ◌>>=◌}
use rt.Memory.{Mem, store64}
use rt.Kalloc.{Kernel}
use rt.Kalloc.Ops.{aligned_lem}
use rt.Paging.{
  pml4_idx, pdpt_idx, pd_idx, pt_idx, entry, set_entry, safe_nextpt_mayalloc, leaf_entry,
  paging_map_4K,
}
use rt.Paging.Entry.{idx_values}
use rt.Paging.Tables.{slot, Owner, Leads, IsTree}
use rt.Paging.Step.{Stepped}
use rt.Paging.NextTable.{safe_nextpt_mayalloc-Leads}
use rt.Paging.Map4K.{HasPath, Mapped, finish_free, leaf_entry-present, leaf_entry-lt}
use rt.Paging.Walk.{index-lt}

-- The step through an entry that leads to `n` keeps the free frames and the tables.
unfoldable step_through :
    (k : Kernel) (fs : List ℕ) (own : Owner) (root t l p i n : ℕ)
    → IsTree k fs own root
    → own t ≡ some (slot (suc (suc l)) p)
    → i < 512
    → Leads (entry k.mem t i) n
    → Stepped k fs own root t l p i n k
step_through k fs own root t l p i n tree at hi lead = record {
  from_table = at;
  free' = fs;
  own' = own;
  tree = tree;
  spent = omega arith;
  fewer = omega arith;
  place =
      subst (λ x. own x ≡ some (slot (suc l) (p * 512 + i))) lead.target
        (tree.child t l p i at hi lead.is_present).1;
  leads = lead;
  owned = λ u s h. h;
  kept = λ u j s h hj q. refl;
  absent = λ u j s h hj q. inl q;
}

-- A path is that of every page of its block of 2M.
pub HasPath-near :
    (m : Mem) (root va va' : ℕ)
    → va' / 2 ^ 21 ≡ va / 2 ^ 21
    → HasPath m root va
    → HasPath m root va'
HasPath-near m root va va' e h = record {
  pdpt = h.pdpt;
  pd = h.pd;
  pt = h.pt;
  to_pdpt =
      subst (λ i. Leads (entry m root i) h.pdpt) (omega (arith, idx_values va, idx_values va'))
        h.to_pdpt;
  to_pd =
      subst (λ i. Leads (entry m h.pdpt i) h.pd) (omega (arith, idx_values va, idx_values va'))
        h.to_pd;
  to_pt =
      subst (λ i. Leads (entry m h.pd i) h.pt) (omega (arith, idx_values va, idx_values va'))
        h.to_pt;
}

module _ (k : Kernel) (root va pa flags : ℕ) (h : HasPath k.mem root va) where
  again-eq :
      va % 4096 ≡ 0
      → pa % 4096 ≡ 0
      → paging_map_4K root va pa flags k
        ≡ done tt (record k { mem = store64 k.mem (h.pt + 8 * pt_idx va) (leaf_entry pa flags) })
  unfolding paging_map_4K
  again-eq hva hpa =
      rw (aligned_lem va hva, aligned_lem pa hpa)
        (ap
            (λ o. and_then o λ pdpt. safe_nextpt_mayalloc pdpt (pdpt_idx va) >>= λ pd.
              safe_nextpt_mayalloc pd (pd_idx va) >>= λ pt.
              set_entry pt (pt_idx va) (leaf_entry pa flags))
            (safe_nextpt_mayalloc-Leads k root (pml4_idx va) h.pdpt h.to_pdpt)
          ∙ ap
              (λ o. and_then o λ pd. safe_nextpt_mayalloc pd (pd_idx va) >>= λ pt.
                set_entry pt (pt_idx va) (leaf_entry pa flags))
              (safe_nextpt_mayalloc-Leads k h.pdpt (pdpt_idx va) h.pd h.to_pd)
          ∙ ap (λ o. and_then o λ pt. set_entry pt (pt_idx va) (leaf_entry pa flags))
              (safe_nextpt_mayalloc-Leads k h.pd (pd_idx va) h.pt h.to_pt))

-- No frame is spent.
pub paging_map_4K_again :
    (k : Kernel) (fs : List ℕ) (own : Owner) (root va pa flags : ℕ)
    → IsTree k fs own root
    → HasPath k.mem root va
    → va % 4096 ≡ 0
    → pa % 4096 ≡ 0
    → pa < 2 ^ 64
    → flags < 4096
    → Returns
        (λ _ k'. (m : Mapped k fs root va (leaf_entry pa flags) k') × (m.free' ≡ fs))
        (paging_map_4K root va pa flags k)
unfolding step_through
paging_map_4K_again k fs own root va pa flags tree h hva hpa fits hf =
    let s =
      step_through k fs own root root 2 0 (pml4_idx va) h.pdpt tree tree.top (index-lt 3 va)
        h.to_pdpt in
    let s' =
      step_through k fs own root h.pdpt 1 (0 * 512 + pml4_idx va) (pdpt_idx va) h.pd tree s.place
        (index-lt 2 va) h.to_pd in
    let s'' =
      step_through k fs own root h.pd 0 ((0 * 512 + pml4_idx va) * 512 + pdpt_idx va) (pd_idx va)
        h.pt tree s'.place (index-lt 1 va) h.to_pt in
    subst (Returns _) (sym (again-eq k root va pa flags h hva hpa)) (
      returns (
        finish_free k fs own root va (leaf_entry pa flags) h.pdpt h.pd h.pt k k k tree
          (leaf_entry-lt pa flags hpa hf fits) (leaf_entry-present pa flags hpa hf) s s' s''))
