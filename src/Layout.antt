-- ===== src/Layout.antt =====
-- The numbers of include/mem.h, include/x64consts.h and include/param.h that the kernel computes
-- with, and the address macros. Addresses are 64-bit words.
use rt.Prelude.{ℕ, ◌+◌, ◌-◌, ◌%◌, ◌^◌, ◌≡◌, ◌<◌, bit_and, Bool, ◌==◌, arith}

abbrev pub kernbase : ℕ
kernbase = 0xFFFFFFFF80000000

abbrev pub devbase : ℕ
devbase = 0xFFFFFFFF40000000

abbrev pub devspace : ℕ
devspace = 0xFE000000

-- Size of a 4K page, and number of entries in a page table.
abbrev pub pg_sz4k : ℕ
pg_sz4k = 0x1000

abbrev pub pg_sz2m : ℕ
pg_sz2m = 0x200000

abbrev pub pg_nent : ℕ
pg_nent = 512

abbrev pub max_phys_mem : ℕ
max_phys_mem = 0x1000000

-- `V2P`, `P2V` and `IO2V` on 64-bit words, which wrap.
abbrev pub v2p : ℕ → ℕ
v2p a = (a + 2 ^ 64 - kernbase) % 2 ^ 64

abbrev pub p2v : ℕ → ℕ
p2v a = (a + kernbase) % 2 ^ 64

abbrev pub io2v : ℕ → ℕ
io2v a = ((a + 2 ^ 64 - devspace) % 2 ^ 64 + devbase) % 2 ^ 64

-- `ALIGNED(a, pgsize)`.
abbrev pub aligned : ℕ → ℕ → Bool
aligned a pgsize = bit_and a (pgsize - 1) == 0

p2v-v2p : (a : ℕ) → a < 2 ^ 64 → p2v (v2p a) ≡ a
p2v-v2p a h = omega arith

v2p-p2v : (a : ℕ) → a < 2 ^ 64 → v2p (p2v a) ≡ a
v2p-p2v a h = omega arith
