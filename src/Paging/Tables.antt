-- ===== src/Paging/Tables.antt =====
-- Which frames are page tables, and of what: a table at level `l` with prefix `p` translates the
-- addresses whose upper index digits are `p`. Each table has one place in the tree.
use rt.Prelude.{ℕ, suc, ◌+◌, ◌*◌, ◌<◌, ◌≡◌, true, false, Option, some, List}
use rt.Memory.{Mem}
use rt.Layout.{p2v}
use rt.Kalloc.{Kernel}
use rt.Kalloc.Chain.{IsFrame, NotIn, IsFree}
use rt.Paging.{entry, present, huge, pe_addr}

pub record Slot : Type 0 where
  pub level : ℕ
  pub prefix : ℕ

abbrev pub slot : ℕ → ℕ → Slot
slot l p = record { level = l; prefix = p }

-- The place of each table frame; `none` for every other address.
abbrev pub Owner : Type 0
Owner = ℕ → Option Slot

-- The entry is present, not huge, and points to the table `n`.
pub record Leads (e n : ℕ) : Type 0 where
  pub is_present : present e ≡ true
  pub not_huge : huge e ≡ false
  pub target : p2v (pe_addr e) ≡ n

-- The page tables below `root`: they stand in frames that are not free, and every present entry of
-- a table above the last level points to the table of its place. The kernel makes no huge pages.
pub record IsTree (k : Kernel) (fs : List ℕ) (own : Owner) (root : ℕ) : Type 0 where
  pub is_free : IsFree k fs
  pub top : own root ≡ some (slot 4 0)
  pub frame : (t : ℕ) (s : Slot) → own t ≡ some s → IsFrame t
  pub in_use : (t : ℕ) (s : Slot) → own t ≡ some s → NotIn t fs
  pub child :
      (t l p i : ℕ)
      → own t ≡ some (slot (suc (suc l)) p)
      → i < 512
      → present (entry k.mem t i) ≡ true
      → (huge (entry k.mem t i) ≡ false)
        × (own (p2v (pe_addr (entry k.mem t i))) ≡ some (slot (suc l) (p * 512 + i)))

-- A table with no entry at all.
abbrev pub IsBlank : Mem → ℕ → Type 0
IsBlank m t = (i : ℕ) → i < 512 → entry m t i ≡ 0
