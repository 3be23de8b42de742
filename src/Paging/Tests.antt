-- ===== src/Paging/Tests.antt =====
-- The theorems on page tables: an empty root table in frame 4096, and three free frames.
use rt.Prelude.{ℕ, ◌+◌, ◌*◌, ◌<◌, ◌≡◌, refl, sym, ap, ◌∙◌, none, some, arith, ◌==◌, if◌then◌else◌}
use mathlib.Core.Path.{subst}
use rt.Prelude.Int.{pos}
use rt.Prelude.Run.{Returns}
use rt.Memory.Laws.{load-zero}
use rt.Kalloc.Samples.{linked, three_free, three_frames, three_free-IsFree, frame_4096}
use rt.Kalloc.Chain.{IsFrame}
use rt.Paging.{entry, present, leaf_entry, paging_map_4K, paging_map}
use rt.Paging.Tables.{Slot, slot, Owner, IsTree}
use rt.Paging.Step.{present-zero, not_both}
use rt.Paging.Map4K.{Mapped, paging_map_4K-Mapped}
use rt.Paging.Range.{MappedRange, paging_map-MappedRange}

abbrev root_only : Owner
root_only t = if t == 4096 then some (slot 4 0) else none

root_at : (t : ℕ) (s : Slot) → root_only t ≡ some s → t ≡ 4096
root_at t s h = ground arith

blank_root : (i : ℕ) → i < 512 → entry linked 4096 i ≡ 0
blank_root i h = load-zero 8 linked (4096 + 8 * i) (λ b p q. ground arith)

root_only-IsTree : IsTree three_free three_frames root_only 4096
root_only-IsTree = record {
  is_free = three_free-IsFree;
  top = refl;
  frame = λ t s h. subst IsFrame (sym (root_at t s h)) frame_4096;
  in_use = λ t s h. let e = root_at t s h in (omega arith, (omega arith, (omega arith, tt)));
  child = λ t l p i h lt pr.
      let e = root_at t _ h in
      absurd (
        not_both pr
          (ap (λ u. present (entry linked u i)) e ∙ ap present (blank_root i lt) ∙ present-zero));
}

paging_map_4K-Mapped_example :
    Returns
      (λ _. Mapped three_free three_frames 4096 0x400000 (leaf_entry 0x20000 6))
      (paging_map_4K 4096 0x400000 0x20000 6 three_free)
paging_map_4K-Mapped_example =
    paging_map_4K-Mapped three_free three_frames root_only 4096 0x400000 0x20000 6 root_only-IsTree
      (omega arith) (omega arith) refl refl (omega arith) (omega arith)

paging_map-MappedRange_example :
    Returns
      (λ _. MappedRange three_free three_frames 4096 0x400000 0x20000 6 1)
      (paging_map 4096 0x400000 0x20000 (pos 4096) 6 three_free)
paging_map-MappedRange_example =
    paging_map-MappedRange three_free three_frames root_only 4096 0x400000 0x20000 1 6
      root_only-IsTree (omega arith) (omega arith) refl refl (omega arith) (omega arith)
      (omega arith)
