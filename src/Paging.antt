-- ===== src/Paging.antt =====
-- kernel/paging.c: four-level page tables in memory, with the entry macros of include/x64consts.h.
-- A page table is the address of its frame; entry `i` is the word at `pt + 8 * i`.
pub mod Entry
pub mod Tables
pub mod Step
pub mod Fresh
pub mod NextTable
pub mod Walk
pub mod Leaf
pub mod Map4K
pub mod Range
pub mod Again
pub mod Blocks
mod Tests
use rt.Prelude.{
  ℕ, zero, suc, ◌+◌, ◌-◌, ◌*◌, ◌/◌, ◌%◌, ◌^◌, bit_and, bit_or, Bool, true, false, not, ◌&&◌, Option,
  none, some, leb, ltb, ◌==◌, if◌then◌else◌,
}
use rt.Prelude.Int.{ℤ, pos, negsuc, pos_part}
use rt.Prelude.Run.{Cmd, panic, out_of_fuel, ◌>>=◌, ◌>>◌, pure, assert, modify, gets}
use rt.Memory.{Mem, load64, store64}
use rt.Str.{memcpy}
use rt.Layout.{pg_sz4k, pg_sz2m, pg_nent, max_phys_mem, kernbase, devbase, v2p, p2v, aligned}
use rt.Kalloc.{Kernel, kalloc}

-- Page table flags: present, writable, user accessible, write through, cache disable, huge page.
abbrev pub pf_p : ℕ
pf_p = 1

abbrev pub pf_w : ℕ
pf_w = 2

abbrev pub pf_u : ℕ
pf_u = 4

abbrev pub pf_pwt : ℕ
pf_pwt = 8

abbrev pub pf_pcd : ℕ
pf_pcd = 16

abbrev pub pf_ps : ℕ
pf_ps = 128

-- `PML4_IDX`, `PDPT_IDX`, `PD_IDX` and `PT_IDX`.
unfoldable pub pml4_idx : ℕ → ℕ
pml4_idx va = bit_and (va / 2 ^ 39) (pg_nent - 1)

unfoldable pub pdpt_idx : ℕ → ℕ
pdpt_idx va = bit_and (va / 2 ^ 30) (pg_nent - 1)

unfoldable pub pd_idx : ℕ → ℕ
pd_idx va = bit_and (va / 2 ^ 21) (pg_nent - 1)

unfoldable pub pt_idx : ℕ → ℕ
pt_idx va = bit_and (va / 2 ^ 12) (pg_nent - 1)

-- `PE_ADDR`, whose mask is an `int` sign-extended to 64 bits, and `PE_FLAGS`.
unfoldable pub pe_addr : ℕ → ℕ
pe_addr ent = bit_and ent (2 ^ 64 - 2 ^ 12)

unfoldable pub pe_flags : ℕ → ℕ
pe_flags ent = bit_and ent (2 ^ 12 - 1)

-- `ent & PF_P` and `ent & PF_PS` as tests.
unfoldable pub present : ℕ → Bool
present ent = not (bit_and ent pf_p == 0)

unfoldable pub huge : ℕ → Bool
huge ent = not (bit_and ent pf_ps == 0)

-- `pt[idx]`.
abbrev pub entry : Mem → ℕ → ℕ → ℕ
entry m pt idx = load64 m (pt + 8 * idx)

-- `pt[idx] = ent`.
abbrev pub set_entry : ℕ → ℕ → ℕ → Cmd Kernel (Unit {0})
set_entry pt idx ent = modify λ k. record k { mem = store64 k.mem (pt + 8 * idx) ent }

unfoldable pub safe_setent : ℕ → ℕ → ℕ → Cmd Kernel (Unit {0})
safe_setent pt idx ent = do
  old ← gets (λ k. entry k.mem pt idx)
  assert (not (present old))
  set_entry pt idx ent

-- `V2P(nextpt) | PF_W | PF_P | PF_U`.
unfoldable pub table_entry : ℕ → ℕ
table_entry nextpt = bit_or (bit_or (bit_or (v2p nextpt) pf_w) pf_p) pf_u

unfoldable pub safe_nextpt_mayalloc : ℕ → ℕ → Cmd Kernel ℕ
unfolding safe_setent
safe_nextpt_mayalloc pt idx = do
  ent ← gets (λ k. entry k.mem pt idx)
  if present ent
      then (do assert (not (huge ent)); pure (p2v (pe_addr ent)))
      else (do nextpt ← kalloc; safe_setent pt idx (table_entry nextpt); pure nextpt)

unfoldable pub safe_nextpt_noalloc : ℕ → ℕ → Cmd Kernel ℕ
safe_nextpt_noalloc pt idx = do
  ent ← gets (λ k. entry k.mem pt idx)
  assert (present ent)
  assert (not (huge ent))
  pure (p2v (pe_addr ent))

-- `pa | flags | PF_P`.
unfoldable pub leaf_entry : ℕ → ℕ → ℕ
leaf_entry pa flags = bit_or (bit_or pa flags) pf_p

unfoldable pub paging_map_4K : (pml4 va pa flags : ℕ) → Cmd Kernel (Unit {0})
paging_map_4K pml4 va pa flags = do
  assert (aligned va pg_sz4k)
  assert (aligned pa pg_sz4k)
  pdpt ← safe_nextpt_mayalloc pml4 (pml4_idx va)
  pd ← safe_nextpt_mayalloc pdpt (pdpt_idx va)
  pt ← safe_nextpt_mayalloc pd (pd_idx va)
  set_entry pt (pt_idx va) (leaf_entry pa flags)

-- The address of the entry that maps `va`; `none` is the `NULL` of an address that is not mapped.
unfoldable pub paging_getpteref : Mem → (pml4 va : ℕ) → Option ℕ
paging_getpteref m pml4 va =
    let e4 = pml4 + 8 * pml4_idx va in
    let pdpt = p2v (pe_addr (load64 m e4)) in
    let e3 = pdpt + 8 * pdpt_idx va in
    let pd = p2v (pe_addr (load64 m e3)) in
    let e2 = pd + 8 * pd_idx va in
    let pt = p2v (pe_addr (load64 m e2)) in
    let e1 = pt + 8 * pt_idx va in
    if not (present (load64 m e4))
    then none
    else if huge (load64 m e4)
    then some e4
    else if not (present (load64 m e3))
    then none
    else if huge (load64 m e3)
    then some e3
    else if not (present (load64 m e2))
    then none
    else if huge (load64 m e2)
    then some e2
    else if not (present (load64 m e1))
    then none
    else some e1

-- The loop of `paging_map`, on the bytes left; none are left once `sz` is not positive.
unfoldable pub map_loop : (fuel pml4 va pa sz flags : ℕ) → Cmd Kernel (Unit {0})
map_loop zero pml4 va pa sz flags = λ _. out_of_fuel
map_loop (suc fuel) pml4 va pa sz flags =
    let rest =
      map_loop fuel pml4 ((va + pg_sz4k) % 2 ^ 64) ((pa + pg_sz4k) % 2 ^ 64) (sz - pg_sz4k) flags in
    if sz == 0
    then pure tt
    else if leb pg_sz4k sz && aligned (bit_or va pa) pg_sz4k
    then paging_map_4K pml4 va pa flags >> rest
    else λ _. panic

-- A signed size as the unsigned word that `ALIGNED` casts it to.
abbrev pub as_u64 : ℤ → ℕ
as_u64 (pos n) = n % 2 ^ 64
as_u64 (negsuc n) = 2 ^ 64 - 1 - n % 2 ^ 64

-- `isize sz`. A round for each page, and one for the last test.
unfoldable pub paging_map : (pml4 va pa : ℕ) → ℤ → (flags : ℕ) → Cmd Kernel (Unit {0})
paging_map pml4 va pa sz flags = do
  assert (aligned va pg_sz4k)
  assert (aligned pa pg_sz4k)
  assert (aligned (as_u64 sz) pg_sz4k)
  map_loop (pos_part sz / pg_sz4k + 1) pml4 va pa (pos_part sz) flags

-- The loop of `pt_deepcopy_level` over the entries from `i`, with `left` rounds to go; `copy` is
-- the recursive call at the next level.
copy_entries : (ℕ → Cmd Kernel ℕ) → (left i pt newpt : ℕ) → Cmd Kernel (Unit {0})
copy_entries copy zero i pt newpt = pure tt
copy_entries copy (suc left) i pt newpt =
    let rest = copy_entries copy left (i + 1) pt newpt in
    do
      ent ← gets (λ k. entry k.mem pt i)
      if not (present ent) then rest else if huge ent then (do set_entry newpt i ent; rest) else (do
        nextpt ← safe_nextpt_noalloc pt i
        newnextpt ← copy nextpt
        ent' ← gets (λ k. entry k.mem pt i)
        safe_setent newpt i (bit_or (v2p newnextpt) (pe_flags ent'))
        rest)

-- `level` runs from 4 to 1; outside that range the assertion fails.
unfoldable pub pt_deepcopy_level : ℕ → ℕ → Cmd Kernel ℕ
unfolding copy_entries
pt_deepcopy_level zero pt = λ _. panic
pt_deepcopy_level (suc zero) pt = do
  newpt ← kalloc
  modify λ k. record k { mem = (memcpy k.mem newpt pt pg_sz4k).1 }
  pure newpt
pt_deepcopy_level (suc (suc level)) pt =
    let copy = pt_deepcopy_level (suc level) in
    do assert (leb (level + 2) 4); newpt ← kalloc; copy_entries copy pg_nent 0 pt newpt; pure newpt

unfoldable pub pt_root_deepcopy : ℕ → Cmd Kernel ℕ
unfolding pt_deepcopy_level
pt_root_deepcopy pt = pt_deepcopy_level 4 pt
