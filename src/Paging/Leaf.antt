-- ===== src/Paging/Leaf.antt =====
-- A write to one entry of a last-level table: the tree stays, and one page is translated anew.
use mathlib.Core.Path.{subst}
use native.Mathlib.Decide.{ℕ_discrete}
use rt.Prelude.{
  ℕ, zero, suc, ◌+◌, ◌*◌, ◌^◌, ◌<◌, ◌≡◌, ◌≢◌, sym, ◌∙◌, ap, ◌⊎◌, inl, inr, true, false, some, List,
  arith, Bool-cases,
}
use rt.Memory.{Mem, store64}
use rt.Memory.Laws.{load-store_self}
use rt.Layout.{p2v}
use rt.Kalloc.{Kernel}
use rt.Paging.{entry, present, huge, pe_addr}
use rt.Paging.Tables.{slot, Owner, Leads, IsTree}
use rt.Paging.Step.{entry-set_other, IsFree-set}
use rt.Paging.Walk.{
  index, index-lt, look, look-Leads, look-absent, look-last, look-eq, Leads-of_child, page,
}

prefix_eq : {a b c d : ℕ} → some (slot a b) ≡ some (slot c d) → b ≡ d
prefix_eq h = ground arith

-- The memory after entry `i` of the last-level table `t` is set to `v`.
module _ (k : Kernel) (fs : List ℕ) (own : Owner) (root t p i v : ℕ) (tree : IsTree k fs own root)
    (at : own t ≡ some (slot 1 p)) (hi : i < 512) where
  abbrev pub set_mem : Mem
  set_mem = store64 k.mem (t + 8 * i) v

  other_table :
      (u j l q : ℕ)
      → own u ≡ some (slot (suc l) q)
      → j < 512
      → (u ≢ t) ⊎ (j ≢ i)
      → entry set_mem u j ≡ entry k.mem u j
  other_table u j l q h hj ne =
      entry-set_other k.mem t i v u j (tree.frame t _ at).aligned (tree.frame u _ h).aligned hi hj
        ne

  upper_ne : (u l q : ℕ) → own u ≡ some (slot (suc (suc l)) q) → u ≢ t
  upper_ne u l q h e = absurd (clash (sym h ∙ ap own e ∙ at))
    where
      clash : some (slot (suc (suc l)) q) ≡ some (slot 1 p) → ⊥
      clash c = ground arith

  pub upper_entry :
      (u j l q : ℕ)
      → own u ≡ some (slot (suc (suc l)) q)
      → j < 512
      → entry set_mem u j ≡ entry k.mem u j
  upper_entry u j l q h hj = other_table u j (suc l) q h hj (inl (upper_ne u l q h))

  -- The tables above are as they were, so the tree is.
  pub set-IsTree : IsTree (record k { mem = set_mem }) fs own root
  set-IsTree = record {
    is_free = IsFree-set fs t i v tree.is_free (tree.frame t _ at).aligned hi (tree.in_use t _ at);
    top = tree.top;
    frame = tree.frame;
    in_use = tree.in_use;
    child = λ u l q j h hj pr.
        let e = upper_entry u j l q h hj in
        subst (λ x. (huge x ≡ false) × (own (p2v (pe_addr x)) ≡ some (slot (suc l) (q * 512 + j))))
          (sym e) (tree.child u l q j h hj (subst (λ x. present x ≡ true) e pr));
  }

  -- No other page is translated differently.
  pub look-set :
      (l u q va : ℕ)
      → own u ≡ some (slot (suc l) q)
      → page l q va ≢ p * 512 + i
      → look l set_mem u va ≡ look l k.mem u va
  look-set zero u q va h ne = elim (ℕ_discrete u t) [
    | no there ↦ look-eq k.mem set_mem u va (other_table u _ 0 q h (index-lt 0 va) (inl there))
    | yes here ↦
        let same : q ≡ p = prefix_eq (sym h ∙ ap own here ∙ at) in
        look-eq k.mem set_mem u va
          (other_table u _ 0 q h (index-lt 0 va) (inr (λ e. ne (ground arith))))
  ]
  look-set (suc l) u q va h ne = elim (Bool-cases (present (entry k.mem u (index (suc l) va)))) [
    | inl pr ↦
        let lead = Leads-of_child k fs own root u l q _ tree h (index-lt (suc l) va) pr in
        let place = (tree.child u l q _ h (index-lt (suc l) va) pr).1 in
        let e = upper_entry u _ l q h (index-lt (suc l) va) in
        look-Leads l set_mem u va (p2v (pe_addr (entry k.mem u (index (suc l) va))))
          (subst (λ x. Leads x (p2v (pe_addr (entry k.mem u (index (suc l) va))))) (sym e) lead)
        ∙ look-set l _ _ va place ne
        ∙ sym (look-Leads l k.mem u va _ lead)
    | inr gap ↦
        look-absent (suc l) set_mem u va
          (ap present (upper_entry u _ l q h (index-lt (suc l) va)) ∙ gap)
        ∙ sym (look-absent (suc l) k.mem u va gap)
  ]

  -- The page itself is translated to the word written.
  pub look-hit :
      (va : ℕ) → index 0 va ≡ i → v < 2 ^ 64 → present v ≡ true → look 0 set_mem t va ≡ some v
  look-hit va it lt pr =
      let e = ap (entry set_mem t) it ∙ load-store_self 8 k.mem (t + 8 * i) v lt in
      look-last set_mem t va (ap present e ∙ pr) ∙ ap some e
