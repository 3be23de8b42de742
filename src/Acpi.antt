-- ===== src/Acpi.antt =====
-- kernel/acpi.c: the search for the root pointer and the walk over the MADT, on tables in memory.
-- The tables are packed; sizes and offsets are those of the structures. Messages are left out, and
-- the build with `CONFIG_DUMMY_ACPI` is not modelled.
pub mod Scan
pub mod Madt
pub mod Root
pub mod Start
mod Tests
use rt.Prelude.{
  ℕ, zero, suc, ◌+◌, ◌-◌, ◌*◌, ◌/◌, ◌%◌, ◌^◌, bit_and, Bool, true, false, not, ◌&&◌, Option, none,
  some, List, set, length, ltb, leb, ◌==◌, if◌then◌else◌,
}
use rt.Prelude.Int.{ℤ, pos, negsuc}
use rt.Prelude.Run.{Cmd, panic, out_of_fuel, undefined, ◌>>=◌, ◌>>◌, pure, assert, modify, gets}
use rt.Memory.{Mem, load, load32}
use rt.Str.{memcmp}
use rt.Layout.{p2v, max_phys_mem}

-- `struct percpu`, as far as it is filled here.
pub record Cpu : Type 0 where
  pub index : ℕ
  pub lapicid : ℕ

-- The array `cpus`, `ncpu` and `ioapicid`.
pub record Apics : Type 0 where
  pub cpus : List Cpu
  pub ncpu : ℕ
  pub ioapicid : ℕ

-- `sizeof(struct acpi_rdsp)`, and the same of the MADT and its entries.
abbrev pub rdsp_size : ℕ
rdsp_size = 36

abbrev pub madt_size : ℕ
madt_size = 44

abbrev pub lapic_size : ℕ
lapic_size = 8

abbrev pub ioapic_size : ℕ
ioapic_size = 12

abbrev pub default_lapic_paddr : ℕ
default_lapic_paddr = 0xFEE00000

abbrev pub default_ioapic_paddr : ℕ
default_ioapic_paddr = 0xFEC00000

abbrev pub is_same : ℤ → Bool
is_same (pos n) = n == 0
is_same (negsuc n) = false

-- The sum of `n` bytes.
pub byte_sum : Mem → (p n : ℕ) → ℕ
byte_sum m p zero = 0
byte_sum m p (suc n) = m p + byte_sum m (p + 1) n

-- The test inside `scan_rdsp`; `sig` is the address of the literal `"RSD PTR "`.
unfoldable pub is_rdsp : Mem → (sig p : ℕ) → Bool
unfolding byte_sum
is_rdsp m sig p = is_same (memcmp m p sig 8) && (bit_and (byte_sum m p 20) 0xff == 0)

-- The loop of `scan_rdsp`; a `NULL` result is `none`.
unfoldable pub scan_loop : Mem → (sig fuel p len : ℕ) → Option ℕ
scan_loop m sig zero p len = none
scan_loop m sig (suc fuel) p len =
    let rest = scan_loop m sig fuel (p + 4) (len - 4) in
    if not (leb rdsp_size len) then none else if is_rdsp m sig p then some p else rest

-- A round for each four bytes is enough.
unfoldable pub scan_rdsp : Mem → (sig base len : ℕ) → Option ℕ
unfolding scan_loop
scan_rdsp m sig base len = scan_loop m sig (len + 1) (p2v base) len

abbrev or_else : Option ℕ → Option ℕ → Option ℕ
or_else none b = b
or_else (some a) b = some a

unfoldable pub find_rdsp : Mem → (sig : ℕ) → Option ℕ
unfolding scan_rdsp
find_rdsp m sig =
    let pa = load 2 m (p2v 0x40E) * 2 ^ 4 in
    let rest = scan_rdsp m sig 0xE0000 0x20000 in
    if pa == 0 then rest else or_else (scan_rdsp m sig pa 1024) rest

-- `cpus[ncpu]` has to be a slot of the array.
unfoldable pub add_cpu : (apic_id : ℕ) → Cmd Apics (Unit {0})
add_cpu apic_id s =
    if ltb s.ncpu (length s.cpus)
    then modify
        (λ t. record t {
          cpus = set t.cpus t.ncpu (record { index = t.ncpu % 256; lapicid = apic_id });
          ncpu = t.ncpu + 1;
        })
        s
    else undefined

-- One entry of the MADT; the number of I/O APICs seen so far is passed on.
unfoldable pub madt_entry : Mem → (p len nioapic : ℕ) → Cmd Apics ℕ
madt_entry m p len nioapic =
    if m p == 0
    then (if ltb len lapic_size
        then pure nioapic
        else if bit_and (load32 m (p + 4)) 1 == 0
        then pure nioapic
        else (do add_cpu (m (p + 3)); pure nioapic))
    else if m p == 1
    then (if ltb len ioapic_size
        then pure nioapic
        else if not (load32 m (p + 4) == default_ioapic_paddr)
        then (λ _. panic)
        else if not (nioapic == 0)
        then (λ _. panic)
        else (do modify (λ t. record t { ioapicid = m (p + 2) }); pure (nioapic + 1)))
    else pure nioapic

-- `while (p < e)`, on the bytes left.
unfoldable pub madt_loop : Mem → (fuel p left nioapic : ℕ) → Cmd Apics (Unit {0})
unfolding madt_entry
madt_loop m zero p left nioapic = λ _. out_of_fuel
madt_loop m (suc fuel) p left nioapic =
    let rest = λ (n : ℕ). madt_loop m fuel (p + m (p + 1)) (left - m (p + 1)) n in
    if left == 0
    then pure tt
    else if ltb left 2
    then pure tt
    else if ltb left (m (p + 1))
    then pure tt
    else madt_entry m p (m (p + 1)) nioapic >>= rest

-- One round for each byte of the table, and one for the last test.
unfoldable pub acpi_config_smp : Mem → (madt : ℕ) → Cmd Apics (Unit {0})
unfolding madt_loop
acpi_config_smp m madt = do
  assert (not (madt == 0))
  let size = load32 m (madt + 4)
  assert (leb madt_size size)
  assert (load32 m (madt + 36) == default_lapic_paddr)
  madt_loop m (size - madt_size + 1) (madt + madt_size) (size - madt_size) 0
  n ← gets (λ s. s.ncpu)
  assert (not (n == 0))

-- `sizeof(struct acpi_rsdt)`: a header, before the entries.
abbrev pub rsdt_size : ℕ
rsdt_size = 36

-- `rsdt->entry[n]`.
abbrev pub rsdt_entry : Mem → (rsdt n : ℕ) → ℕ
rsdt_entry m rsdt n = load32 m (rsdt + rsdt_size + 4 * n)

-- `!memcmp(hdr->signature, SIG_MADT, 4)`; `sig` is the address of the literal `"APIC"`.
unfoldable pub is_madt : Mem → (sig rsdt n : ℕ) → Bool
is_madt m sig rsdt n = is_same (memcmp m (p2v (rsdt_entry m rsdt n)) sig 4)

-- The loop over the entries, with `left` entries to go; `none` is the jump to `notmapped`.
unfoldable pub find_madt : Mem → (sig rsdt left n madt : ℕ) → Option ℕ
unfolding is_madt
find_madt m sig rsdt zero n madt = some madt
find_madt m sig rsdt (suc left) n madt =
    let next = if is_madt m sig rsdt n then p2v (rsdt_entry m rsdt n) else madt in
    let rest = find_madt m sig rsdt left (n + 1) next in
    if ltb max_phys_mem (rsdt_entry m rsdt n) then none else rest

-- The number of entries: the length is subtracted from as a 64-bit number.
abbrev pub rsdt_count : Mem → (rsdt : ℕ) → ℕ
rsdt_count m rsdt = (load32 m (rsdt + 4) + 2 ^ 64 - rsdt_size) % 2 ^ 64 / 4 % 2 ^ 32

-- What follows the loop.
unfoldable pub with_madt : Mem → Option ℕ → Cmd Apics (Unit {0})
unfolding acpi_config_smp
with_madt m none = λ _. panic
with_madt m (some madt) = acpi_config_smp m madt

-- What follows the search for the root pointer, which nothing tests for `NULL`.
unfoldable pub with_rdsp : Mem → (sig : ℕ) → Option ℕ → Cmd Apics (Unit {0})
unfolding find_madt with_madt
with_rdsp m sig none = λ _. undefined
with_rdsp m sig (some rdsp) =
    let rsdt = p2v (load32 m (rdsp + 16)) in
    let found = with_madt m (find_madt m sig rsdt (rsdt_count m rsdt) 0 0) in
    if ltb max_phys_mem (load32 m (rdsp + 16)) then (λ _. panic) else found

-- `sig_rdsp` and `sig_madt` are the addresses of the two signatures.
unfoldable pub acpiinit : Mem → (sig_rdsp sig_madt : ℕ) → Cmd Apics (Unit {0})
unfolding find_rdsp with_rdsp
acpiinit m sig_rdsp sig_madt = with_rdsp m sig_madt (find_rdsp m sig_rdsp)
