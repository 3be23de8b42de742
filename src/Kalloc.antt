-- ===== src/Kalloc.antt =====
-- kernel/kalloc.c: the page allocator. The list of free frames runs through the frames themselves:
-- the first word of a free frame is the address of the next one. Progress messages are left out.
pub mod Chain
pub mod Ops
pub mod Init
pub mod Held
pub mod History
pub mod Refine
pub mod Samples
mod Tests
use rt.Prelude.{ℕ, zero, suc, ◌+◌, ◌-◌, ◌/◌, ◌%◌, ◌^◌, Bool, not, ◌==◌, leb, if◌then◌else◌}
use rt.Prelude.Run.{Cmd, out_of_fuel, ◌>>=◌, ◌>>◌, pure, assert, modify, gets}
use rt.Memory.{Mem, load64, store64}
use rt.Str.{memset}
use rt.Layout.{pg_sz4k, max_phys_mem, p2v, aligned}

-- Memory and the static `allocator`. `nfreepages` is an `int`, kept as its 32-bit pattern.
pub record Kernel : Type 0 where
  pub mem : Mem
  pub nfreepages : ℕ
  pub freelist : ℕ

unfoldable pub kfree : ℕ → Cmd Kernel (Unit {0})
kfree frame = do
  assert (aligned frame pg_sz4k)
  modify λ k. record k {
    mem = store64 k.mem frame k.freelist;
    freelist = frame;
    nfreepages = (k.nfreepages + 1) % 2 ^ 32;
  }

-- The frame taken off the list, zeroed.
take_frame : ℕ → Kernel → Kernel
take_frame f k = record k {
  freelist = load64 k.mem f;
  nfreepages = (k.nfreepages + 2 ^ 32 - 1) % 2 ^ 32;
  mem = (memset k.mem f 0 pg_sz4k).1;
}

unfoldable pub kalloc : Cmd Kernel ℕ
unfolding take_frame
kalloc = do f ← gets (λ k. k.freelist); assert (not (f == 0)); modify (take_frame f); pure f

-- `for (it = to - PG_SZ4K; it >= from; it -= PG_SZ4K) kfree(it);`
init_loop : (fuel it from : ℕ) → Cmd Kernel (Unit {0})
init_loop zero it from = λ _. out_of_fuel
init_loop (suc fuel) it from =
    let rest = init_loop fuel (it - pg_sz4k) from in
    if leb from it then kfree it >> rest else pure tt

-- One round for each page of the physical memory, and one for the last test. `end` is the
-- linker's symbol.
pub kallocinit : (end : ℕ) → Cmd Kernel (Unit {0})
unfolding init_loop
kallocinit end = init_loop (max_phys_mem / pg_sz4k + 1) (p2v max_phys_mem - pg_sz4k) end
