-- ===== src/Proc/KernelSpace.antt =====
-- kernel/paging.c with kernel/kalloc.c: the address space that the kernel starts in.
use mathlib.Core.Path.{subst}
use rt.Prelude.{
  ℕ, zero, suc, ◌+◌, ◌-◌, ◌*◌, ◌/◌, ◌%◌, ◌^◌, ◌≤◌, ◌<◌, ◌≡◌, ◌≢◌, refl, sym, ap, ◌∙◌, ◌==◌, none,
  some, List, [], ◌∷◌, arith, length, bit_or, if◌then◌else◌,
}
use rt.Prelude.Int.{pos}
use rt.Prelude.Run.{Outcome, Cmd, Returns, returns, bind, ◌>>◌}
use rt.Memory.{Mem}
use rt.Memory.Laws.{load-zero}
use rt.Str.Fill.{IsFilled}
use rt.Layout.{kernbase, devbase, max_phys_mem, pg_sz2m, v2p, p2v, io2v}
use rt.Kalloc.{Kernel, kalloc, kallocinit}
use rt.Kalloc.Chain.{IsFrame, NotIn, IsFree}
use rt.Kalloc.Ops.{kalloc-head}
use rt.Kalloc.Init.{kallocinit-IsFree, length-frames_from, frames_from, page_count, first_page}
use rt.Paging.{entry, present, leaf_entry, pf_w, pf_pwt, pf_pcd, paging_map}
use rt.Paging.Tables.{Slot, slot, Owner, IsTree, IsBlank}
use rt.Paging.Step.{present-zero, not_both}
use rt.Paging.Walk.{pte, pte-eq-look, look-blank}
use rt.Paging.Range.{MappedRange}
use rt.Paging.Blocks.{paging_map-Cost}
use rt.Proc.{Machine, lcr3}
use rt.Proc.Spawn.{lift, on_kernel}
use rt.Proc.Space.{paginginit_bsp, main_memory}

-- An operation on the allocator returns in the machine as it does there.
on_kernel_lem :
    {A : Type 0} {P : A → Kernel → Type 0} (c : Cmd Kernel A) (m : Machine)
    → Returns P (c m.kernel)
    → Returns (λ a m'. (k : Kernel) × (P a k × (m' ≡ record m { kernel = k }))) (on_kernel c m)
on_kernel_lem {A} {P} c m h = from h
  where
    from :
        {o : Outcome Kernel A}
        → Returns P o
        → Returns (λ a m'. (k : Kernel) × (P a k × (m' ≡ record m { kernel = k }))) (lift m o)
    from (returns p) = returns (_, (p, refl))

-- One blank table is a tree.
abbrev root_only : ℕ → Owner
root_only root t = if t == root then some (slot 4 0) else none

root_at : (root t : ℕ) (s : Slot) → root_only root t ≡ some s → t ≡ root
root_at root t s h = ground arith

IsBlank-filled : {m m' : Mem} {f : ℕ} → IsFilled m f 4096 0 m' → IsBlank m' f
IsBlank-filled {m' = m'} {f} z i h =
    load-zero 8 m' (f + 8 * i) (λ b p q. z.inside b (omega arith) (omega arith))

root-IsTree :
    (k : Kernel) (fs : List ℕ) (root : ℕ)
    → IsFree k fs
    → IsFrame root
    → NotIn root fs
    → IsBlank k.mem root
    → IsTree k fs (root_only root) root
root-IsTree k fs root free is new blank = record {
  is_free = free;
  top = ground arith;
  frame = λ t s h. subst IsFrame (sym (root_at root t s h)) is;
  in_use = λ t s h. subst (λ u. NotIn u fs) (sym (root_at root t s h)) new;
  child = λ t l p i h lt pr.
      let e = root_at root t _ h in
      absurd (
        not_both pr
          (ap (λ u. present (entry k.mem u i)) e ∙ ap present (blank i lt) ∙ present-zero));
}

-- Every page of physical memory is writable where `P2V` puts it, every page of the device space is
-- there, without a cache, where `IO2V` puts it, nothing else is mapped, and the processor uses the
-- tables.
pub record IsKernelSpace (root : ℕ) (m : Machine) : Type 0 where
  pub physical :
      (j : ℕ)
      → j < 4096
      → pte m.kernel.mem root (p2v (4096 * j)) ≡ some (leaf_entry (4096 * j) pf_w)
  pub device :
      (j : ℕ)
      → j < 8192
      → pte m.kernel.mem root (io2v (0xFE000000 + 4096 * j))
        ≡ some (leaf_entry (0xFE000000 + 4096 * j) (bit_or pf_pwt pf_pcd))
  pub nothing_else :
      (va : ℕ)
      → ((j : ℕ) → j < 4096 → va / 4096 % 2 ^ 36 ≢ p2v (4096 * j) / 4096 % 2 ^ 36)
      → ((j : ℕ) → j < 8192 → va / 4096 % 2 ^ 36 ≢ io2v (0xFE000000 + 4096 * j) / 4096 % 2 ^ 36)
      → pte m.kernel.mem root va ≡ none
  pub current : (m.cr3 ≡ v2p root) × (m.kpml4 ≡ root)
  pub free' : List ℕ
  pub own' : Owner
  pub tree : IsTree m.kernel free' own' root

-- The machine that uses the tables.
abbrev with_tables : Machine → Kernel → ℕ → Machine
with_tables m k root = record m { kernel = k; kpml4 = root; cr3 = v2p root }

both_ranges :
    (k0 k1 k2 : Kernel) (fs free1 : List ℕ) (root : ℕ) (m : Machine)
    → IsBlank k0.mem root
    → MappedRange k0 fs root kernbase 0 pf_w 4096 k1
    → MappedRange k1 free1 root devbase 0xFE000000 (bit_or pf_pwt pf_pcd) 8192 k2
    → IsKernelSpace root (with_tables m k2 root)
both_ranges k0 k1 k2 fs free1 root m blank r1 r2 = record {
  physical = λ j h.
      let va : p2v (4096 * j) ≡ kernbase + 4096 * j = omega arith in
      r2.others (p2v (4096 * j)) (λ i l e. omega arith)
      ∙ ap (pte k1.mem root) va
      ∙ r1.hit j h
      ∙ ap (λ a. some (leaf_entry a pf_w)) (omega arith);
  device = λ j h.
      let va : io2v (0xFE000000 + 4096 * j) ≡ devbase + 4096 * j = omega arith in
      ap (pte k2.mem root) va ∙ r2.hit j h;
  nothing_else = λ va h1 h2.
      r2.others va (λ j l e. h2 j l (omega arith))
      ∙ r1.others va (λ j l e. h1 j l (omega arith))
      ∙ pte-eq-look k0.mem root va
      ∙ look-blank 3 k0.mem root va blank;
  current = (refl, refl);
  free' = r2.free';
  own' = r2.own';
  tree = r2.tree;
}

-- The two calls of `paging_map`.
abbrev map_physical : ℕ → Cmd Kernel (Unit {0})
map_physical root = paging_map root kernbase 0 (pos max_phys_mem) pf_w

abbrev map_device : ℕ → Cmd Kernel (Unit {0})
map_device root = paging_map root devbase 0xFE000000 (pos (16 * pg_sz2m)) (bit_or pf_pwt pf_pcd)

abbrev Ends : ℕ → Outcome Machine (Unit {0}) → Type 0
Ends root = Returns (λ _ m. IsKernelSpace root m)

map_second :
    (k k1 : Kernel) (fs : List ℕ) (root : ℕ) (m : Machine)
    → IsBlank k.mem root
    → (r1 : MappedRange k fs root kernbase 0 pf_w 4096 k1) → 48 ≤ length r1.free'
    → length r1.free' < 2 ^ 32
    → Ends root
        ((on_kernel (map_device root) >> lcr3 (v2p root)) (record m { kernel = k1; kpml4 = root }))
map_second k k1 fs root m blank r1 en few =
    bind
      (on_kernel_lem (map_device root) (record m { kernel = k1; kpml4 = root })
        (paging_map-Cost k1 r1.free' r1.own' root devbase 0xFE000000 8192 (bit_or pf_pwt pf_pcd)
          r1.tree (omega arith) (omega arith) few (omega arith) (omega arith) (omega arith)
          (omega arith) (omega arith)))
      λ _ m2 h2.
        subst (λ x. Ends root (lcr3 (v2p root) x)) (sym h2.1.1)
          (returns (both_ranges k k1 h2.0 fs r1.free' root m blank r1 h2.1.0.0))

-- They need 72 frames for tables.
map_both :
    (k : Kernel) (fs : List ℕ) (own : Owner) (root : ℕ) (m : Machine)
    → IsTree k fs own root
    → IsBlank k.mem root
    → 72 ≤ length fs
    → length fs < 2 ^ 32
    → Ends root (
        (on_kernel (map_physical root) >> (on_kernel (map_device root) >> lcr3 (v2p root)))
          (record m { kernel = k; kpml4 = root }))
map_both k fs own root m tree blank en few =
    bind
      (on_kernel_lem (map_physical root) (record m { kernel = k; kpml4 = root })
        (paging_map-Cost k fs own root kernbase 0 4096 pf_w tree (omega arith) (omega arith) few
          (omega arith) (omega arith) (omega arith) (omega arith) (omega arith)))
      λ _ m1 h1.
        let r1 = h1.1.0.0 in
        subst (λ x. Ends root ((on_kernel (map_device root) >> lcr3 (v2p root)) x)) (sym h1.1.1)
          (map_second k h1.0 fs root m blank r1 (omega (arith, h1.1.0.1)) (omega (arith, r1.fewer)))

-- What `paginginit_bsp` does once it has the frame of its first table.
abbrev with_root : ℕ → Cmd Machine (Unit {0})
with_root root m =
    (on_kernel (map_physical root) >> (on_kernel (map_device root) >> lcr3 (v2p root)))
      (record m { kpml4 = root })

pub paginginit_bsp-IsKernelSpace :
    (m : Machine) (f : ℕ) (fs : List ℕ)
    → IsFree m.kernel (f ∷ fs)
    → 72 ≤ length fs
    → length fs + 1 < 2 ^ 32
    → Returns (λ _ m'. IsKernelSpace f m') (paginginit_bsp m)
unfolding paginginit_bsp
paginginit_bsp-IsKernelSpace m f fs free en few =
    bind (on_kernel_lem kalloc m (kalloc-head free few)) λ root m1 h.
      let k = h.0 in
      let start : Ends f (with_root f (record m { kernel = k })) =
        map_both k fs (root_only f) f m
          (root-IsTree k fs f h.1.0.1 free.frames.0 free.frames.1 (IsBlank-filled h.1.0.2))
          (IsBlank-filled h.1.0.2) en (omega arith) in
      subst (λ r. Ends f (with_root r m1)) (sym h.1.0.0)
        (subst (λ x. Ends f (with_root f x)) (sym h.1.1) start)

first_frame :
    (n a : ℕ) {k : Kernel}
    → 0 < n
    → IsFree k (frames_from n a)
    → IsFree k (a ∷ frames_from (n - 1) (a + 4096))
first_frame zero a h free = absurd (omega arith)
first_frame (suc n) a {k} h free =
    subst (λ i. IsFree k (a ∷ frames_from i (a + 4096))) (omega arith) free

-- From an empty free list, and for an `end` that leaves 73 pages below the top of the mapped
-- physical memory, `kallocinit` and then `paginginit_bsp` end. In the tables that the processor
-- then uses, which stand from the first page behind `end` on, every page of physical memory (16M,
-- not the 2G of a comment in the source) is mapped writable where `P2V` puts it, every page of
-- the device space without a cache where `IO2V` puts it, and nothing else; they form a tree apart
-- from the free frames.
pub main_memory-IsKernelSpace :
    (end : ℕ) (m : Machine)
    → IsFree m.kernel []
    → p2v 0 ≤ end
    → end + 4096 * 73 ≤ p2v max_phys_mem
    → Returns (λ _ m'. IsKernelSpace (first_page end) m') (main_memory end m)
unfolding main_memory
main_memory-IsKernelSpace end m none_yet low high =
    let n = page_count end in
    bind (on_kernel_lem (kallocinit end) m (kallocinit-IsFree end none_yet low (omega arith)))
      λ _ m1 h.
        let rest = frames_from (n - 1) (first_page end + 4096) in
        let free : IsFree h.0 (first_page end ∷ rest) =
          first_frame n (first_page end) (omega arith) h.1.0.0 in
        let size = length-frames_from (n - 1) (first_page end + 4096) in
        subst (λ x. Ends (first_page end) (paginginit_bsp x)) (sym h.1.1)
          (paginginit_bsp-IsKernelSpace (record m { kernel = h.0 }) (first_page end) rest free
            (omega (arith, size)) (omega (arith, size)))
