-- ===== src/Paging/Fresh.antt =====
-- A table that is missing is made: `kalloc` gives a frame, and one entry is set to lead to it.
use mathlib.Core.Path.{subst, subst₂}
use native.Mathlib.Decide.{ℕ_discrete}
use rt.Prelude.{
  ℕ, suc, ◌+◌, ◌*◌, ◌<◌, ◌≡◌, ◌≢◌, sym, ◌∙◌, ap, ◌⊎◌, inl, inr, true, false, some, List, ◌∷◌, arith,
}
use rt.Memory.{Mem, store64}
use rt.Memory.Laws.{load-store_self, load-zero}
use rt.Str.Fill.{IsFilled}
use rt.Layout.{p2v}
use rt.Kalloc.{Kernel}
use rt.Kalloc.Chain.{IsFrame, NotIn, IsFree, load_other}
use rt.Paging.{entry, present, huge, pe_addr, table_entry}
use rt.Paging.Tables.{Slot, slot, Owner, Leads, IsTree, IsBlank}
use rt.Paging.Step.{
  table_entry-Leads, present-zero, not_both, table_entry-lt, assign, Stepped, entry-set_other,
  IsFree-set,
}

-- The new table: `f` was the first free frame, `k'` is the kernel after `kalloc`.
module _ (k k' : Kernel) (fs : List ℕ) (own : Owner) (root t l p i f : ℕ)
    (tree : IsTree k (f ∷ fs) own root) (at : own t ≡ some (slot (suc (suc l)) p)) (hi : i < 512)
    (gap : present (entry k.mem t i) ≡ false) (free : IsFree k' fs)
    (zero : IsFilled k.mem f 4096 0 k'.mem) where
  abbrev after : Mem
  after = store64 k'.mem (t + 8 * i) (table_entry f)

  abbrev own_after : Owner
  own_after = assign own f (slot (suc l) (p * 512 + i))

  f_frame : IsFrame f
  f_frame = tree.is_free.frames.0

  t_frame : IsFrame t
  t_frame = tree.frame t _ at

  ne_f : (u : ℕ) (s : Slot) → own u ≡ some s → u ≢ f
  ne_f u s h = (tree.in_use u s h).0

  fresh_blank : (j : ℕ) → j < 512 → entry k'.mem f j ≡ 0
  fresh_blank j hj =
      load-zero 8 k'.mem (f + 8 * j) (λ b q r. zero.inside b (omega arith) (omega arith))

  same_entry :
      (u j : ℕ) (s : Slot)
      → own u ≡ some s
      → j < 512
      → (u ≢ t) ⊎ (j ≢ i)
      → entry after u j ≡ entry k.mem u j
  same_entry u j s h hj ne =
      entry-set_other k'.mem t i _ u j t_frame.aligned (tree.frame u s h).aligned hi hj ne
      ∙ load_other k.mem k'.mem f u (8 * j) f_frame.aligned (tree.frame u s h).aligned
          (λ e. ne_f u s h (sym e)) (omega arith) zero.outside

  new_entry : entry after t i ≡ table_entry f
  new_entry = load-store_self 8 k'.mem (t + 8 * i) _ (table_entry-lt f f_frame)

  IsBlank-after : IsBlank after f
  IsBlank-after j hj =
      entry-set_other k'.mem t i _ f j t_frame.aligned f_frame.aligned hi hj
        (inl (λ e. ne_f t _ at (sym e)))
      ∙ fresh_blank j hj

  owned_after : (u : ℕ) (s : Slot) → own u ≡ some s → own_after u ≡ some s
  owned_after u s h = ground (arith, ne_f u s h)

  Leads-after : Leads (entry after t i) f
  Leads-after = subst (λ e. Leads e f) (sym new_entry) (table_entry-Leads f f_frame)

  blank_absent : (j : ℕ) → j < 512 → present (entry after f j) ≡ false
  blank_absent j hj = ap present (IsBlank-after j hj) ∙ present-zero

  old_owner : (u : ℕ) (s : Slot) → u ≢ f → own_after u ≡ some s → own u ≡ some s
  old_owner u s ne h = ground arith

  -- The child of an entry that was there before.
  old_child :
      (u l' p' j : ℕ)
      → own u ≡ some (slot (suc (suc l')) p')
      → j < 512
      → (u ≢ t) ⊎ (j ≢ i)
      → present (entry after u j) ≡ true
      → (huge (entry after u j) ≡ false)
        × (own_after (p2v (pe_addr (entry after u j))) ≡ some (slot (suc l') (p' * 512 + j)))
  old_child u l' p' j h hj ne pr =
      let e = same_entry u j _ h hj ne in
      let (small, next) = tree.child u l' p' j h hj (subst (λ x. present x ≡ true) e pr) in
      (
        subst (λ x. huge x ≡ false) (sym e) small,
        owned_after _ _
            (subst (λ x. own (p2v (pe_addr x)) ≡ some (slot (suc l') (p' * 512 + j))) (sym e) next),
      )

  -- The child of the new entry.
  new_child :
      (l' p' : ℕ)
      → own t ≡ some (slot (suc (suc l')) p')
      → (huge (entry after t i) ≡ false)
        × (own_after (p2v (pe_addr (entry after t i))) ≡ some (slot (suc l') (p' * 512 + i)))
  new_child l' p' h = (
    Leads-after.not_huge,
    subst (λ x. own_after x ≡ some (slot (suc l') (p' * 512 + i))) (sym Leads-after.target)
        (ground arith),
  )

  child_after :
      (u l' p' j : ℕ)
      → own_after u ≡ some (slot (suc (suc l')) p')
      → j < 512
      → present (entry after u j) ≡ true
      → (huge (entry after u j) ≡ false)
        × (own_after (p2v (pe_addr (entry after u j))) ≡ some (slot (suc l') (p' * 512 + j)))
  child_after u l' p' j h hj pr = elim (ℕ_discrete u f) [
    | yes new ↦
        absurd (
          not_both pr
            (subst (λ x. present (entry after x j) ≡ false) (sym new) (blank_absent j hj)))
    | no old ↦
        let h' = old_owner u _ old h in
        elim (ℕ_discrete u t) [
          | no there ↦ old_child u l' p' j h' hj (inl there) pr
          | yes here ↦ elim (ℕ_discrete j i) [
            | no other ↦ old_child u l' p' j h' hj (inr other) pr
            | yes it ↦
                subst₂
                  (λ x y.
                    (huge (entry after x y) ≡ false)
                    × (own_after (p2v (pe_addr (entry after x y)))
                        ≡ some (slot (suc l') (p' * 512 + y))))
                  (sym here) (sym it)
                  (new_child l' p' (subst (λ x. own x ≡ some (slot (suc (suc l')) p')) here h'))
          ]
        ]
  ]

  frame_after : (u : ℕ) (s : Slot) → own_after u ≡ some s → IsFrame u × NotIn u fs
  frame_after u s h = elim (ℕ_discrete u f) [
    | yes new ↦ subst (λ x. IsFrame x × NotIn x fs) (sym new) (f_frame, tree.is_free.frames.1)
    | no old ↦ let h' = old_owner u s old h in (tree.frame u s h', (tree.in_use u s h').1)
  ]

  -- A present entry is not the one that is set.
  not_set : (u j : ℕ) → present (entry k.mem u j) ≡ true → (u ≢ t) ⊎ (j ≢ i)
  not_set u j pr = elim (ℕ_discrete u t) [
    | no there ↦ inl there
    | yes here ↦ elim (ℕ_discrete j i) [
      | no other ↦ inr other
      | yes it ↦
          absurd (
            not_both pr (subst₂ (λ x y. present (entry k.mem x y) ≡ false) (sym here) (sym it) gap))
    ]
  ]

  still_absent :
      (u j : ℕ) (s : Slot)
      → own u ≡ some s
      → j < 512
      → present (entry k.mem u j) ≡ false
      → (u ≢ t) ⊎ (j ≢ i)
      → present (entry after u j) ≡ false
  still_absent u j s h hj pr ne = ap present (same_entry u j s h hj ne) ∙ pr

  absent_after :
      (u j : ℕ) (s : Slot)
      → own u ≡ some s
      → j < 512
      → present (entry k.mem u j) ≡ false
      → (present (entry after u j) ≡ false) ⊎ ((u ≡ t) × (j ≡ i) × IsBlank after f)
  absent_after u j s h hj pr = elim (ℕ_discrete u t) [
    | no there ↦ inl (still_absent u j s h hj pr (inl there))
    | yes here ↦ elim (ℕ_discrete j i) [
      | no other ↦ inl (still_absent u j s h hj pr (inr other))
      | yes it ↦ inr (here, it, IsBlank-after)
    ]
  ]

  pub fresh-Stepped : Stepped k (f ∷ fs) own root t l p i f (record k' { mem = after })
  fresh-Stepped = record {
    from_table = at;
    free' = fs;
    own' = own_after;
    tree = record {
      is_free = IsFree-set fs t i _ free t_frame.aligned hi (tree.in_use t _ at).1;
      top = owned_after root _ tree.top;
      frame = λ u s h. (frame_after u s h).0;
      in_use = λ u s h. (frame_after u s h).1;
      child = child_after;
    };
    spent = omega arith;
    fewer = omega arith;
    place = ground arith;
    leads = Leads-after;
    owned = owned_after;
    kept = λ u j s h hj pr. same_entry u j s h hj (not_set u j pr);
    absent = absent_after;
  }

  -- The entry is still absent when it is set.
  pub still_gap : present (entry k'.mem t i) ≡ false
  still_gap =
      ap present (
        load_other k.mem k'.mem f t (8 * i) f_frame.aligned t_frame.aligned
          (λ e. ne_f t _ at (sym e)) (omega arith) zero.outside)
      ∙ gap
