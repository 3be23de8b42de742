-- ===== src/Acpi/Tests.antt =====
-- The theorems on the ACPI tables at small memories.
use rt.Prelude.{
  ℕ, ◌*◌, ◌%◌, ◌<◌, none, ◌+◌, ◌-◌, ltb, get_or, length, List, [], ◌∷◌, ◌≡◌, ◌≢◌, refl, replicate,
  arith, ◌==◌, if◌then◌else◌,
}
use rt.Prelude.Run.{out_of_fuel, done}
use rt.Memory.{Mem, load}
use rt.Layout.{p2v, v2p}
use rt.Str.{memcmp}
use rt.Acpi.{Apics, is_rdsp, byte_sum, add_cpu, scan_rdsp, madt_loop, find_madt, acpiinit}
use rt.Acpi.Root.{LastMadt, find_madt-LastMadt}
use rt.Acpi.Start.{indices, acpiinit-trapinit}
use rt.Trap.Setup.{Processor, trapinit}
use rt.Trap.Ready.{Outcomes}
use rt.Acpi.Scan.{Searched, scan_rdsp-Searched}
use rt.Acpi.Madt.{Advances, short, entry, IsIndexed, madt_loop-ends, madt_loop-stuck}

-- One entry at 256 for a processor: type 0, length 8, APIC number 5, enabled.
abbrev one_lapic : Mem
one_lapic a = if a == 257 then 8 else if a == 259 then 5 else if a == 260 then 1 else 0

abbrev no_cpu : Apics
no_cpu = record { cpus = replicate 8 (record { index = 0; lapicid = 0 }); ncpu = 0; ioapicid = 0 }

no_cpu-IsIndexed : IsIndexed no_cpu
no_cpu-IsIndexed = record { room = omega arith; index = λ i lt. absurd (omega arith) }

scan_rdsp-Searched_example :
    Searched one_lapic 512 (p2v 0xE0000) 64 (scan_rdsp one_lapic 512 0xE0000 64)
scan_rdsp-Searched_example = scan_rdsp-Searched one_lapic 512 0xE0000 64

one_lapic-Advances : Advances one_lapic 256 8
one_lapic-Advances = entry (omega arith) (short (omega arith))

madt_loop-ends_example : madt_loop one_lapic 9 256 8 0 no_cpu ≢ out_of_fuel
madt_loop-ends_example = madt_loop-ends one_lapic 9 256 8 0 no_cpu one_lapic-Advances (omega arith)

madt_loop-stuck_example : madt_loop one_lapic 100 300 8 0 no_cpu ≡ out_of_fuel
madt_loop-stuck_example = madt_loop-stuck one_lapic 100 300 8 0 no_cpu refl (omega arith)

-- A machine with a root pointer at 0x500, a root table at 0x600 and an MADT at 0x700, which has the
-- processor 5. The signatures lie at 0x800 and 0x810.
abbrev machine_tables : List (ℕ × List ℕ)
machine_tables =
    (0x40E, 0x50 ∷ [])
    ∷ (
      0x500,
      82 ∷ 83 ∷ 68 ∷ 32 ∷ 80 ∷ 84 ∷ 82 ∷ 32 ∷ 219 ∷ 0 ∷ 0 ∷ 0 ∷ 0 ∷ 0 ∷ 0 ∷ 0 ∷ 0 ∷ 6 ∷ 0 ∷ 0 ∷ [],
    )
    ∷ (
      0x600,
      82 ∷ 83 ∷ 68 ∷ 84 ∷ 40 ∷ 0 ∷ 0 ∷ 0 ∷ 0 ∷ 0 ∷ 0 ∷ 0 ∷ 0 ∷ 0 ∷ 0 ∷ 0 ∷ 0 ∷ 0 ∷ 0 ∷ 0 ∷ 0 ∷ 0 ∷ 0
          ∷ 0 ∷ 0 ∷ 0 ∷ 0 ∷ 0 ∷ 0 ∷ 0 ∷ 0 ∷ 0 ∷ 0 ∷ 0 ∷ 0 ∷ 0 ∷ 0 ∷ 7 ∷ 0 ∷ 0 ∷ [],
    )
    ∷ (
      0x700,
      65 ∷ 80 ∷ 73 ∷ 67 ∷ 52 ∷ 0 ∷ 0 ∷ 0 ∷ 0 ∷ 0 ∷ 0 ∷ 0 ∷ 0 ∷ 0 ∷ 0 ∷ 0 ∷ 0 ∷ 0 ∷ 0 ∷ 0 ∷ 0 ∷ 0 ∷ 0
          ∷ 0 ∷ 0 ∷ 0 ∷ 0 ∷ 0 ∷ 0 ∷ 0 ∷ 0 ∷ 0 ∷ 0 ∷ 0 ∷ 0 ∷ 0 ∷ 0 ∷ 0 ∷ 224 ∷ 254 ∷ 0 ∷ 0 ∷ 0 ∷ 0
          ∷ 0 ∷ 8 ∷ 1 ∷ 5 ∷ 1 ∷ 0 ∷ 0 ∷ 0 ∷ [],
    )
    ∷ (0x800, 82 ∷ 83 ∷ 68 ∷ 32 ∷ 80 ∷ 84 ∷ 82 ∷ 32 ∷ [])
    ∷ (0x810, 65 ∷ 80 ∷ 73 ∷ 67 ∷ [])
    ∷ []

abbrev byte_at : List (ℕ × List ℕ) → ℕ → ℕ
byte_at [] a = 0
byte_at (t ∷ ts) a =
    if ltb a t.0
    then byte_at ts a
    else if ltb a (t.0 + length t.1)
    then get_or t.1 (a - t.0) 0
    else byte_at ts a

abbrev machine : Mem
machine a = byte_at machine_tables (v2p a)

abbrev one_cpu : Apics
one_cpu = record no_cpu {
  cpus = record { index = 0; lapicid = 5 } ∷ replicate 7 (record { index = 0; lapicid = 0 });
  ncpu = 1;
}

machine_lem : acpiinit machine (p2v 0x800) (p2v 0x810) no_cpu ≡ done tt one_cpu
unfolding acpiinit is_rdsp memcmp load byte_sum add_cpu
machine_lem = refl

abbrev entry_point : ℕ → ℕ
entry_point j = 0xFFFFFFFF80100000 + 16 * (j % 256)

abbrev bare : Processor
bare = record {
  mem = λ _. 0;
  idtr = record { base = 0; limit = 0 };
  gdtr = record { base = 0; limit = 0 };
  task = 0;
  fs_base = 0;
  curcpu = none;
  cpu_tls = 0;
}

acpiinit-trapinit_example :
    (0 < 1)
    × Outcomes entry_point 0x10000 0x20000 1 0x500 bare
        (trapinit entry_point 0x10000 0x20000 (indices one_cpu) 1 0x500 bare)
acpiinit-trapinit_example =
    acpiinit-trapinit machine (p2v 0x800) (p2v 0x810) no_cpu one_cpu entry_point 0x10000 0x20000
      0x500 bare refl (omega arith) machine_lem (λ j. omega arith) (omega arith) (omega arith)

find_madt-LastMadt_example :
    LastMadt machine (p2v 0x810) (p2v 0x600) 1 0 0 (find_madt machine (p2v 0x810) (p2v 0x600) 1 0 0)
find_madt-LastMadt_example = find_madt-LastMadt machine (p2v 0x810) (p2v 0x600) 1 0 0
