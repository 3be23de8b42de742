-- ===== src/Boot/Tests.antt =====
-- Runs of boot/bootmain.c on small drives.
use rt.Prelude.{
  ℕ, zero, suc, ◌+◌, ◌-◌, ◌*◌, ◌/◌, ◌%◌, ◌^◌, ◌<◌, ◌≡◌, refl, none, some, ◌==◌, if◌then◌else◌,
  arith, true, false, bit_and,
}
use rt.Prelude.{get_or, ◌≢◌}
use rt.Prelude.{List, [], ◌∷◌}
use rt.Prelude.Run.{Returns}
use rt.Memory.{load}
use rt.Memory.Laws.{load-zero}
use rt.Boot.{Drive, Loader, bootmain, is_header, find_header, flags, is_ready, word, entry_addr}
use rt.Boot.Disk.{IsAta, IsPrompt, lba}
use rt.Boot.Image.{image, IsBootable, IsKernel, bootmain-IsKernel, bootmain_no_header}

-- A multiboot image with its header at word 1: the words of the first 48 bytes.
abbrev words : List ℕ
words =
    7 ∷ 0x1BADB002 ∷ 0x10000 ∷ 0xE4514FFE ∷ 0x100004 ∷ 0x100000 ∷ 0x100030 ∷ 0x100040 ∷ 0x100020
    ∷ 11 ∷ []

abbrev boot_disk : ℕ → ℕ
boot_disk b = get_or words ((b - 512) / 4) 0 / 256 ^ (b % 4) % 256

-- A drive that answers the commands, and is ready at every third read.
abbrev drive : (ℕ → ℕ) → Drive
drive disk = record {
  status = λ n. if n % 3 == 2 then 0x50 else 0xD0;
  sector = λ ports i. disk (512 * lba ports + i);
}

abbrev started : Loader
started = record { mem = λ _. 0; ports = λ _. 0; reads = 0 }

drive-IsAta : (disk : ℕ → ℕ) → IsAta (drive disk) disk
drive-IsAta disk ports i a b c d = refl

drive-IsPrompt : (disk : ℕ → ℕ) → IsPrompt (drive disk) 3
drive-IsPrompt disk n = (2 - n % 3, (omega arith, ready))
  where
    third : (n + (2 - n % 3)) % 3 ≡ 2
    third = omega arith

    ready : is_ready ((drive disk).status (n + (2 - n % 3))) ≡ true
    ready = rw (third) refl

first : (j : ℕ) → j < 1 → is_header (image boot_disk) j ≡ false
unfolding is_header load
first zero l = refl
first (suc j) l = absurd (omega arith)

has_bit : bit_and (flags (image boot_disk) 1) 0x10000 ≢ 0
unfolding load
has_bit e = omega arith

boot_disk-IsBootable : IsBootable (image boot_disk) 1
unfolding is_header load
boot_disk-IsBootable = record {
  within = omega arith;
  header = refl;
  first = first;
  has_addresses = has_bit;
  load_before_header = omega arith;
  header_offset = omega arith;
  load_before_end = omega arith;
  end_in_word = omega arith;
  above_scratch = omega arith;
}

bootmain-IsKernel_example :
    Returns
      (λ r s'. (r ≡ some (entry_addr (image boot_disk) 1)) × IsKernel boot_disk 1 s')
      (bootmain (drive boot_disk) 3 started)
bootmain-IsKernel_example =
    bootmain-IsKernel (drive boot_disk) boot_disk (drive-IsAta boot_disk) 3
      (drive-IsPrompt boot_disk) 1 started boot_disk-IsBootable

abbrev blank : ℕ → ℕ
blank _ = 0

without_magic : (j : ℕ) → j < 2048 → word (image blank) j ≢ 0x1BADB002
without_magic j h e = omega (arith, load-zero 4 (image blank) (65536 + 4 * j) (λ b p q. refl))

bootmain_no_header_example : Returns (λ r _. r ≡ none) (bootmain (drive blank) 3 started)
bootmain_no_header_example =
    bootmain_no_header (drive blank) blank (drive-IsAta blank) 3 (drive-IsPrompt blank) started
      without_magic

found_at_one : find_header (image boot_disk) 3 0 ≡ some 1
unfolding find_header load
found_at_one = refl
