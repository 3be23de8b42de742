-- ===== src/Proc/Space.antt =====
-- kernel/paging.c: the page tables of the kernel and of user processes, in the variables `kpml4` and
-- `upml4` of the machine. `ubegin` and `uend` are symbols of the linker. Messages are left out.
use rt.Prelude.{ℕ, ◌*◌, bit_or, not, ◌==◌}
use rt.Prelude.Int.{pos, sub_ℕ}
use rt.Prelude.Run.{Cmd, ◌>>=◌, ◌>>◌, assert, modify, gets}
use rt.Kalloc.{kalloc, kallocinit}
use rt.Layout.{kernbase, devbase, max_phys_mem, pg_sz2m, v2p}
use rt.Paging.{pf_w, pf_u, pf_pwt, pf_pcd, paging_map, pt_root_deepcopy}
use rt.Proc.{Machine, lcr3}
use rt.Proc.Spawn.{on_kernel}

unfoldable pub paginginit_bsp : Cmd Machine (Unit {0})
paginginit_bsp = do
  root ← on_kernel kalloc
  modify λ m. record m { kpml4 = root }
  on_kernel (paging_map root kernbase 0 (pos max_phys_mem) pf_w)
  on_kernel (paging_map root devbase 0xFE000000 (pos (16 * pg_sz2m)) (bit_or pf_pwt pf_pcd))
  lcr3 (v2p root)

unfoldable pub paginginit_ap : Cmd Machine (Unit {0})
paginginit_ap = do root ← gets (λ m. m.kpml4); assert (not (root == 0)); lcr3 (v2p root)

unfoldable pub uvminit : (ubegin uend : ℕ) → Cmd Machine (Unit {0})
uvminit ubegin uend = do
  root ← gets (λ m. m.kpml4)
  assert (not (root == 0))
  uroot ← on_kernel (pt_root_deepcopy root)
  modify λ m. record m { upml4 = uroot }
  on_kernel (paging_map uroot ubegin (v2p ubegin) (sub_ℕ uend ubegin) (bit_or pf_w pf_u))

-- What `main` does to memory before it looks at the machine: `kallocinit`, then `paginginit_bsp`. `end`
-- is a symbol of the linker.
unfoldable pub main_memory : (end : ℕ) → Cmd Machine (Unit {0})
unfolding paginginit_bsp
main_memory end = on_kernel (kallocinit end) >> paginginit_bsp
