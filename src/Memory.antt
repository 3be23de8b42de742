-- ===== src/Memory.antt =====
-- Byte-addressed memory as the C code sees it, and little-endian words in it (x86-64).
pub mod Laws
use rt.Prelude.{ℕ, zero, suc, ◌+◌, ◌*◌, ◌/◌, ◌%◌, ◌==◌, if◌then◌else◌}

-- The byte at each address. A pointer is its address.
abbrev pub Mem : Type 0
Mem = ℕ → ℕ

-- `*(u8 *)a = v`.
unfoldable pub write : Mem → ℕ → ℕ → Mem
write m a v b = if b == a then v % 256 else m b

-- A word of `n` bytes at `a`, least significant byte first.
unfoldable pub load : ℕ → Mem → ℕ → ℕ
load zero m a = 0
load (suc n) m a = m a + 256 * load n m (a + 1)

unfoldable pub store : ℕ → Mem → ℕ → ℕ → Mem
store zero m a v = m
store (suc n) m a v = store n (write m a v) (a + 1) (v / 256)

-- `*(u32 *)a` and `*(u64 *)a`.
abbrev pub load32 : Mem → ℕ → ℕ
load32 = load 4

abbrev pub store32 : Mem → ℕ → ℕ → Mem
store32 = store 4

abbrev pub load64 : Mem → ℕ → ℕ
load64 = load 8

abbrev pub store64 : Mem → ℕ → ℕ → Mem
store64 = store 8
