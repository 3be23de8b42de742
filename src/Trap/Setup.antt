-- ===== src/Trap/Setup.antt =====
-- kernel/trap.c: `trapinit`, which fills the tables through which a processor enters the kernel, and
-- points the processor to them. The table of entry points is generated and is a parameter.
use rt.Prelude.{
  Bool, false, ℕ, zero, suc, ◌+◌, ◌-◌, ◌*◌, ◌/◌, ◌%◌, ◌^◌, bit_and, bit_or, Option, none, some,
  List, get_elem?, ◌==◌, if◌then◌else◌,
}
use rt.Prelude.Run.{Cmd, panic, modify}
use rt.Memory.{Mem, store32, store64}
use rt.Trap.{mkgate, t_syscall}

-- The address and the limit of a table, as `lgdt` and `lidt` set them.
pub record Table : Type 0 where
  pub base : ℕ
  pub limit : ℕ

-- Memory, the registers that are set, and `curcpu` with its `tls`.
pub record Processor : Type 0 where
  pub mem : Mem
  pub idtr : Table
  pub gdtr : Table
  pub task : ℕ
  pub fs_base : ℕ
  pub curcpu : Option ℕ
  pub cpu_tls : ℕ

abbrev pub seg_kcode : ℕ
seg_kcode = 1

abbrev pub seg_kdata : ℕ
seg_kdata = 2

abbrev pub seg_kcpu : ℕ
seg_kcpu = 3

abbrev pub seg_ucode : ℕ
seg_ucode = 4

abbrev pub seg_udata : ℕ
seg_udata = 5

abbrev pub seg_tss : ℕ
seg_tss = 6

-- `lgdt` and `lidt`.
abbrev pub table_at : (p size : ℕ) → Table
table_at p size = record { base = p; limit = (size - 1) % 2 ^ 16 }

-- `lapic_id == cpus[i].index`, with the identity as a `u8`; a slot outside the array is nobody's.
abbrev pub is_own : ℕ → Option ℕ → Bool
is_own lapic_id none = false
is_own lapic_id (some index) = lapic_id % 256 == index

-- The search for the processor in the field `index` of the first `left` slots from `i`.
unfoldable pub find_cpu : List ℕ → (lapic_id left i : ℕ) → Option ℕ
find_cpu indices lapic_id zero i = none
find_cpu indices lapic_id (suc left) i =
    let rest = find_cpu indices lapic_id left (i + 1) in
    if is_own lapic_id (get_elem? indices i) then some i else rest

-- `for (int n = 0; n < 256; n++) mkgate(n, vectors[n], 0, 0);`, with `left` rounds to go.
unfoldable pub mkgates : (vectors : ℕ → ℕ) (idt : ℕ) → (left n : ℕ) → Mem → Mem
mkgates vectors idt zero n m = m
mkgates vectors idt (suc left) n m =
    mkgates vectors idt left (n + 1) (mkgate m idt n (vectors n) 0 0)

-- The interrupt table.
unfoldable pub set_idt : (vectors : ℕ → ℕ) (idt : ℕ) → Mem → Mem
unfolding mkgates
set_idt vectors idt m = mkgate (mkgates vectors idt 256 0 m) idt t_syscall (vectors t_syscall) 3 1

-- The two words of the descriptor of the task state at `addr`.
abbrev pub tss_low : ℕ → ℕ
tss_low addr =
    bit_or (bit_or (bit_or 0x67 (bit_and addr 0xFFFFFF * 2 ^ 16)) (0xE9 * 2 ^ 40))
      (bit_and (addr / 2 ^ 24) 0xFF * 2 ^ 56)

abbrev pub tss_high : ℕ → ℕ
tss_high addr = addr / 2 ^ 32

-- The segment descriptors, and the end of the task state.
unfoldable pub set_gdt : (gdt tss : ℕ) → Mem → Mem
set_gdt gdt tss m =
    let m = store32 m (tss + 4 * 16) 0x00680000 in
    let m = store64 m (gdt + 8 * 0) 0 in
    let m = store64 m (gdt + 8 * seg_kcode) 0x0020980000000000 in
    let m = store64 m (gdt + 8 * seg_ucode) 0x0020F80000000000 in
    let m = store64 m (gdt + 8 * seg_kdata) 0x0000920000000000 in
    let m = store64 m (gdt + 8 * seg_kcpu) 0 in
    let m = store64 m (gdt + 8 * seg_udata) 0x0000F20000000000 in
    let m = store64 m (gdt + 8 * seg_tss) (tss_low tss) in
    store64 m (gdt + 8 * (seg_tss + 1)) (tss_high tss)

-- What follows the search, for the processor `cpuid`.
unfoldable pub set_tables : (vectors : ℕ → ℕ) (idt tls cpuid : ℕ) → Processor → Processor
unfolding set_idt set_gdt
set_tables vectors idt tls cpuid s =
    let tls_local = tls + 4096 * cpuid in
    record {
      mem = set_gdt tls_local (tls_local + 1024) (set_idt vectors idt s.mem);
      idtr = table_at idt 4096;
      gdtr = table_at tls_local (8 * 8);
      task = seg_tss * 2 ^ 3;
      fs_base = tls_local + 2048;
      curcpu = some cpuid;
      cpu_tls = tls_local;
    }

-- `ASSERT(cpuid != -1)`, and the rest.
abbrev pub set_up : (vectors : ℕ → ℕ) (idt tls : ℕ) → Option ℕ → Cmd Processor (Unit {0})
set_up vectors idt tls none = λ _. panic
set_up vectors idt tls (some cpuid) = modify (set_tables vectors idt tls cpuid)

-- `lapic_id` is what `lapicid` returns, `indices` the fields `index` of `cpus`.
unfoldable pub trapinit :
    (vectors : ℕ → ℕ) (idt tls : ℕ) (indices : List ℕ) (ncpu lapic_id : ℕ)
    → Cmd Processor (Unit {0})
unfolding find_cpu set_tables
trapinit vectors idt tls indices ncpu lapic_id =
    set_up vectors idt tls (find_cpu indices lapic_id ncpu 0)
