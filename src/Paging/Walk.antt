-- ===== src/Paging/Walk.antt =====
-- The walk of `paging_getpteref` level by level, and what leaves it alone.
use mathlib.Core.Option
use mathlib.Core.Path.{subst, subst₂}
use rt.Prelude.{
  ℕ, zero, suc, ◌+◌, ◌*◌, ◌/◌, ◌%◌, ◌^◌, ◌<◌, ◌≡◌, refl, sym, ◌∙◌, ap, inl, inr, true, false, not,
  Option, none, some, List, arith, if◌then◌else◌, Bool-cases,
}
use rt.Memory.{Mem, load64}
use rt.Layout.{p2v}
use rt.Kalloc.{Kernel}
use rt.Paging.{pml4_idx, pdpt_idx, pd_idx, pt_idx, entry, present, huge, pe_addr, paging_getpteref}
use rt.Paging.Entry.{idx_values}
use rt.Paging.Tables.{slot, Owner, Leads, IsTree, IsBlank}
use rt.Paging.Step.{Stepped, present-zero}

-- The entry that maps `va`, as the code finds it: the word at `paging_getpteref`, if there is one.
abbrev pub pte : Mem → ℕ → ℕ → Option ℕ
pte m pml4 va = Option.map (load64 m) (paging_getpteref m pml4 va)

-- The index into a table that has `l` levels below it.
abbrev pub index : ℕ → ℕ → ℕ
index zero va = pt_idx va
index (suc zero) va = pd_idx va
index (suc (suc zero)) va = pdpt_idx va
index (suc (suc (suc l))) va = pml4_idx va

-- The walk from a table with `l` levels below it, to the word found.
unfoldable pub look : ℕ → Mem → ℕ → ℕ → Option ℕ
look zero m t va = let e = entry m t (index 0 va) in if not (present e) then none else some e
look (suc l) m t va =
    let e = entry m t (index (suc l) va) in
    let rest = look l m (p2v (pe_addr e)) va in
    if not (present e) then none else if huge e then some e else rest

pub pte-eq-look : (m : Mem) (pml4 va : ℕ) → pte m pml4 va ≡ look 3 m pml4 va
unfolding look paging_getpteref
pte-eq-look m pml4 va = ground arith

pub index-lt : (l va : ℕ) → index l va < 512
index-lt zero va = omega (arith, idx_values va)
index-lt (suc zero) va = omega (arith, idx_values va)
index-lt (suc (suc zero)) va = omega (arith, idx_values va)
index-lt (suc (suc (suc l))) va = omega (arith, idx_values va)

-- A blank table maps nothing.
pub look-blank : (l : ℕ) (m : Mem) (t va : ℕ) → IsBlank m t → look l m t va ≡ none
unfolding look
look-blank zero m t va h = rw (h (index 0 va) (index-lt 0 va), present-zero)
look-blank (suc l) m t va h = rw (h (index (suc l) va) (index-lt (suc l) va), present-zero)

pub look-absent :
    (l : ℕ) (m : Mem) (t va : ℕ) → present (entry m t (index l va)) ≡ false → look l m t va ≡ none
unfolding look
look-absent zero m t va h = rw h
look-absent (suc l) m t va h = rw h

pub look-Leads :
    (l : ℕ) (m : Mem) (t va n : ℕ)
    → Leads (entry m t (index (suc l) va)) n
    → look (suc l) m t va ≡ look l m n va
unfolding look
look-Leads l m t va n h = rw (h.is_present, h.not_huge, h.target)

pub look-last :
    (m : Mem) (t va : ℕ)
    → present (entry m t (index 0 va)) ≡ true
    → look 0 m t va ≡ some (entry m t (index 0 va))
unfolding look
look-last m t va h = rw h

pub look-eq :
    (m m' : Mem) (t va : ℕ)
    → entry m' t (index 0 va) ≡ entry m t (index 0 va)
    → look 0 m' t va ≡ look 0 m t va
unfolding look
look-eq m m' t va e = rw e

pub Leads-of_child :
    (k : Kernel) (fs : List ℕ) (own : Owner) (root t l p i : ℕ)
    → IsTree k fs own root
    → own t ≡ some (slot (suc (suc l)) p)
    → i < 512
    → present (entry k.mem t i) ≡ true
    → Leads (entry k.mem t i) (p2v (pe_addr (entry k.mem t i)))
Leads-of_child k fs own root t l p i tree at hi pr = record {
  is_present = pr;
  not_huge = (tree.child t l p i at hi pr).0;
  target = refl;
}

last_level : {a p q : ℕ} → some (slot 1 p) ≡ some (slot (suc (suc a)) q) → ⊥
last_level h = ground arith

-- A step down the tree changes no translation: a table that it makes is blank.
pub look-Stepped :
    (k k' : Kernel) (fs : List ℕ) (own : Owner) (root t tl p i n l u q va : ℕ)
    → IsTree k fs own root
    → Stepped k fs own root t tl p i n k'
    → own u ≡ some (slot (suc l) q)
    → look l k'.mem u va ≡ look l k.mem u va
look-Stepped k k' fs own root t tl p i n zero u q va tree st at =
    elim (Bool-cases (present (entry k.mem u (index 0 va)))) [
      | inl pr ↦
          let same = st.kept u _ _ at (index-lt 0 va) pr in
          look-last k'.mem u va (ap present same ∙ pr)
          ∙ ap some same
          ∙ sym (look-last k.mem u va pr)
      | inr gap ↦ elim (st.absent u _ _ at (index-lt 0 va) gap) [
        | inl gap' ↦ look-absent 0 k'.mem u va gap' ∙ sym (look-absent 0 k.mem u va gap)
        | inr (here, it, blank) ↦ absurd (last_level (sym at ∙ ap own here ∙ st.from_table))
      ]
    ]
look-Stepped k k' fs own root t tl p i n (suc l) u q va tree st at =
    elim (Bool-cases (present (entry k.mem u (index (suc l) va)))) [
      | inl pr ↦
          let same = st.kept u _ _ at (index-lt (suc l) va) pr in
          let lead = Leads-of_child k fs own root u l q _ tree at (index-lt (suc l) va) pr in
          let place = (tree.child u l q _ at (index-lt (suc l) va) pr).1 in
          look-Leads l k'.mem u va _ (
            subst (λ e. Leads e (p2v (pe_addr (entry k.mem u (index (suc l) va))))) (sym same) lead)
          ∙ look-Stepped k k' fs own root t tl p i n l _ _ va tree st place
          ∙ sym (look-Leads l k.mem u va _ lead)
      | inr gap ↦ elim (st.absent u _ _ at (index-lt (suc l) va) gap) [
        | inl gap' ↦ look-absent (suc l) k'.mem u va gap' ∙ sym (look-absent (suc l) k.mem u va gap)
        | inr (here, it, blank) ↦
            look-Leads l k'.mem u va n
              (subst₂ (λ x j. Leads (entry k'.mem x j) n) (sym here) (sym it) st.leads)
            ∙ look-blank l k'.mem n va blank
            ∙ sym (look-absent (suc l) k.mem u va gap)
      ]
    ]

-- The number of the page that the walk from a table with prefix `p` asks for.
abbrev pub page : ℕ → ℕ → ℕ → ℕ
page zero p va = p * 512 + index 0 va
page (suc l) p va = page l (p * 512 + index (suc l) va) va

pub page-root : (va : ℕ) → page 3 0 va ≡ va / 4096 % 2 ^ 36
page-root va = omega (arith, idx_values va)
