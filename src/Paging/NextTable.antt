-- ===== src/Paging/NextTable.antt =====
-- `safe_nextpt_mayalloc` steps to the table below, and makes it when it is missing.
use mathlib.Core.Path.{subst}
use rt.Prelude.{
  ℕ, suc, ◌+◌, ◌^◌, ◌<◌, ◌≡◌, refl, sym, inl, inr, true, false, some, List, [], ◌∷◌, arith, length,
  Bool-cases,
}
use rt.Prelude.Run
use rt.Prelude.Run.{done, panic, and_then, pure, Returns, returns}
use rt.Layout.{p2v}
use rt.Kalloc.{Kernel}
use rt.Kalloc.Ops.{kalloc-head}
use rt.Paging.{entry, present, huge, pe_addr, table_entry, safe_setent, safe_nextpt_mayalloc}
use rt.Paging.Tables.{slot, Owner, Leads, IsTree}
use rt.Paging.Step.{Stepped}
use rt.Paging.Fresh.{fresh-Stepped, still_gap}

-- An entry that is there leads to its table, and nothing changes.
pub there-Stepped :
    (k : Kernel) (fs : List ℕ) (own : Owner) (root t l p i : ℕ)
    → IsTree k fs own root
    → own t ≡ some (slot (suc (suc l)) p)
    → i < 512
    → present (entry k.mem t i) ≡ true
    → Stepped k fs own root t l p i (p2v (pe_addr (entry k.mem t i))) k
there-Stepped k fs own root t l p i tree at hi pr =
    let (small, next) = tree.child t l p i at hi pr in
    record {
      from_table = at;
      free' = fs;
      own' = own;
      tree = tree;
      spent = omega arith;
      fewer = omega arith;
      place = next;
      leads = record { is_present = pr; not_huge = small; target = refl };
      owned = λ u s h. h;
      kept = λ u j s h hj q. refl;
      absent = λ u j s h hj q. inl q;
    }

-- The run of `safe_nextpt_mayalloc` at an entry that is absent, once `kalloc` has given a frame.
mayalloc_fresh :
    (k : Kernel) (f : ℕ) (fs : List ℕ) (own : Owner) (root t l p i : ℕ)
    → IsTree k (f ∷ fs) own root
    → own t ≡ some (slot (suc (suc l)) p)
    → i < 512
    → length fs + 1 < 2 ^ 32
    → present (entry k.mem t i) ≡ false
    → Returns (Stepped k (f ∷ fs) own root t l p i) (safe_nextpt_mayalloc t i k)
unfolding safe_nextpt_mayalloc
mayalloc_fresh k f fs own root t l p i tree at hi few gap = rw gap (
    Run.bind (kalloc-head tree.is_free few) λ n k' (e, free, zero).
      let gap' = still_gap k k' fs own root t l p i f tree at hi gap free zero in
      subst
        (λ x.
          Returns (Stepped k (f ∷ fs) own root t l p i)
            (and_then (safe_setent t i (table_entry x) k') (λ _. pure x)))
        (sym e)
        (rw gap' (returns (fresh-Stepped k k' fs own root t l p i f tree at hi gap free zero))))

-- And at an entry that is there.
mayalloc_there :
    (k : Kernel) (fs : List ℕ) (own : Owner) (root t l p i : ℕ)
    → IsTree k fs own root
    → own t ≡ some (slot (suc (suc l)) p)
    → i < 512
    → present (entry k.mem t i) ≡ true
    → Returns (Stepped k fs own root t l p i) (safe_nextpt_mayalloc t i k)
unfolding safe_nextpt_mayalloc
mayalloc_there k fs own root t l p i tree at hi pr =
    let (small, next) = tree.child t l p i at hi pr in
    rw (pr, small) (returns (there-Stepped k fs own root t l p i tree at hi pr))

-- In a tree of page tables with a free frame left (fewer than 2 ^ 32), `safe_nextpt_mayalloc` at
-- an entry of a table above the last level returns the table below that entry, which it makes,
-- blank, if the entry is absent; no other entry appears or is lost, at most one free frame is
-- used, and the tables form a tree again.
pub safe_nextpt_mayalloc-Stepped :
    (k : Kernel) (fs : List ℕ) (own : Owner) (root t l p i : ℕ)
    → IsTree k fs own root
    → own t ≡ some (slot (suc (suc l)) p)
    → i < 512
    → 0 < length fs
    → length fs < 2 ^ 32
    → Returns (Stepped k fs own root t l p i) (safe_nextpt_mayalloc t i k)
safe_nextpt_mayalloc-Stepped k [] own root t l p i tree at hi left few = absurd (omega arith)
safe_nextpt_mayalloc-Stepped k (f ∷ fs) own root t l p i tree at hi left few =
    elim (Bool-cases (present (entry k.mem t i))) [
      | inl pr ↦ mayalloc_there k (f ∷ fs) own root t l p i tree at hi pr
      | inr gap ↦ mayalloc_fresh k f fs own root t l p i tree at hi (omega arith) gap
    ]

-- At a huge page it panics.
pub safe_nextpt_mayalloc-huge :
    (k : Kernel) (t i : ℕ)
    → present (entry k.mem t i) ≡ true
    → huge (entry k.mem t i) ≡ true
    → safe_nextpt_mayalloc t i k ≡ panic
unfolding safe_nextpt_mayalloc
safe_nextpt_mayalloc-huge k t i pr hu = rw (pr, hu)

-- A step through an entry that leads somewhere changes nothing.
pub safe_nextpt_mayalloc-Leads :
    (k : Kernel) (t i n : ℕ) → Leads (entry k.mem t i) n → safe_nextpt_mayalloc t i k ≡ done n k
unfolding safe_nextpt_mayalloc
safe_nextpt_mayalloc-Leads k t i n l =
    subst (λ x. safe_nextpt_mayalloc t i k ≡ done x k) l.target (rw (l.is_present, l.not_huge) refl)
