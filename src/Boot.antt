-- ===== src/Boot.antt =====
-- boot/bootmain.c with include/rt64boot.h: the boot loader. It runs in 32-bit mode, where `usize` and
-- pointers are 32-bit words. The drive is a parameter: what its status register reads and what it
-- delivers, from the bytes last written to its ports.
pub mod Disk
pub mod Segment
pub mod Header
pub mod Image
mod Tests
use rt.Prelude.{
  ℕ, zero, suc, ◌+◌, ◌-◌, ◌*◌, ◌/◌, ◌%◌, ◌^◌, bit_and, bit_or, Bool, not, ◌&&◌, Option, none, some,
  ltb, leb, ◌==◌, if◌then◌else◌,
}
use rt.Prelude.Run.{Outcome, Cmd, out_of_fuel, ◌>>=◌, ◌>>◌, pure, modify, gets}
use rt.Memory.{Mem, write, load32}
use rt.Str.{stosb}

-- `status n` is what the `n`-th read of port 0x1F7 gives; `sector ports i` is the `i`-th byte that
-- port 0x1F0 gives after the bytes `ports` have been written.
pub record Drive : Type 0 where
  pub status : ℕ → ℕ
  pub sector : (ℕ → ℕ) → ℕ → ℕ

-- Memory, the byte last written to each port, and the number of status reads.
pub record Loader : Type 0 where
  pub mem : Mem
  pub ports : ℕ → ℕ
  pub reads : ℕ

abbrev pub sectsize : ℕ
sectsize = 512

-- `outb(port, data)`.
abbrev pub set_port : (ℕ → ℕ) → ℕ → ℕ → ℕ → ℕ
set_port ports port v p = if p == port then v % 256 else ports p

unfoldable pub outb : (port v : ℕ) → Cmd Loader (Unit {0})
outb port v = modify λ s. record s { ports = set_port s.ports port v }

-- `n` bytes that arrive one by one, from byte `i`, at the addresses from `a`.
pub copy_in : (ℕ → ℕ) → (i n : ℕ) → (a : ℕ) → Mem → Mem
copy_in src i zero a m = m
copy_in src i (suc n) a m = copy_in src (suc i) n (a + 1) (write m a (src i))

-- `insl(0x1F0, addr, cnt)`.
unfoldable pub insl : Drive → (addr cnt : ℕ) → Cmd Loader (Unit {0})
unfolding copy_in
insl d addr cnt = modify λ s. record s { mem = copy_in (d.sector s.ports) 0 (4 * cnt) addr s.mem }

-- `(inb(0x1F7) & 0xC0) == 0x40`.
abbrev pub is_ready : ℕ → Bool
is_ready st = bit_and st 0xC0 == 0x40

unfoldable pub waitdisk : Drive → (fuel : ℕ) → Cmd Loader (Unit {0})
waitdisk d zero = λ _. out_of_fuel
waitdisk d (suc fuel) =
    let rest = waitdisk d fuel in
    do
      n ← gets (λ s. s.reads)
      modify λ s. record s { reads = s.reads + 1 }
      if is_ready (d.status n) then pure tt else rest

-- The command that asks for sector `offset`.
unfoldable pub ask : (offset : ℕ) → Cmd Loader (Unit {0})
unfolding outb
ask offset = do
  outb 0x1F2 1
  outb 0x1F3 offset
  outb 0x1F4 (offset / 2 ^ 8)
  outb 0x1F5 (offset / 2 ^ 16)
  outb 0x1F6 (bit_or (offset / 2 ^ 24) 0xE0)
  outb 0x1F7 0x20

unfoldable pub readsect : Drive → (fuel dst offset : ℕ) → Cmd Loader (Unit {0})
unfolding waitdisk ask insl
readsect d fuel dst offset = do
  waitdisk d fuel
  ask offset
  waitdisk d fuel
  insl d dst (sectsize / 4)

-- The loop of `readseg`; `rounds` bounds it, `fuel` bounds each wait.
unfoldable pub seg_loop : Drive → (fuel rounds pa epa offset : ℕ) → Cmd Loader (Unit {0})
unfolding readsect
seg_loop d fuel zero pa epa offset = λ _. out_of_fuel
seg_loop d fuel (suc rounds) pa epa offset =
    let rest = seg_loop d fuel rounds ((pa + sectsize) % 2 ^ 32) epa ((offset + 1) % 2 ^ 32) in
    if ltb pa epa then readsect d fuel pa offset >> rest else pure tt

-- A round for each sector that the bytes can touch, and one for the last test.
unfoldable pub readseg : Drive → (fuel pa count offset : ℕ) → Cmd Loader (Unit {0})
unfolding seg_loop
readseg d fuel pa count offset =
    seg_loop d fuel (count / sectsize + 3) ((pa + 2 ^ 32 - offset % sectsize) % 2 ^ 32)
      ((pa + count) % 2 ^ 32) (offset / sectsize + 1)

abbrev pub scratch : ℕ
scratch = 0x10000

-- `x[n]`.
abbrev pub word : Mem → ℕ → ℕ
word m n = load32 m (scratch + 4 * n)

-- The test for a multiboot header at word `n`.
unfoldable pub is_header : Mem → ℕ → Bool
is_header m n =
    (word m n == 0x1BADB002) && ((word m n + word m (n + 1) + word m (n + 2)) % 2 ^ 32 == 0)

-- The loop over the words, with `left` words to go.
unfoldable pub find_header : Mem → (left n : ℕ) → Option ℕ
unfolding is_header
find_header m zero n = none
find_header m (suc left) n =
    let rest = find_header m left (n + 1) in if is_header m n then some n else rest

-- The fields of the header at word `n`.
abbrev pub flags : Mem → ℕ → ℕ
flags m n = word m (n + 1)

abbrev pub header_addr : Mem → ℕ → ℕ
header_addr m n = word m (n + 3)

abbrev pub load_addr : Mem → ℕ → ℕ
load_addr m n = word m (n + 4)

abbrev pub load_end_addr : Mem → ℕ → ℕ
load_end_addr m n = word m (n + 5)

abbrev pub bss_end_addr : Mem → ℕ → ℕ
bss_end_addr m n = word m (n + 6)

abbrev pub entry_addr : Mem → ℕ → ℕ
entry_addr m n = word m (n + 7)

-- `stosb((void *)hdr->load_end_addr, 0, hdr->bss_end_addr - hdr->load_end_addr)`, where it is needed.
-- A count from 2 ^ 31 on is no positive `int`; the instruction takes it as a 32-bit number.
unfoldable pub clear_bss : (n : ℕ) → Cmd Loader (Unit {0})
clear_bss n = modify λ s.
    let from = load_end_addr s.mem n in
    let to = bss_end_addr s.mem n in
    if ltb from to then record s { mem = stosb s.mem from 0 (to - from) } else s

-- What follows `found_it`; the result is the address jumped to.
unfoldable pub load_image : Drive → (fuel n : ℕ) → Cmd Loader (Option ℕ)
unfolding readseg clear_bss
load_image d fuel n = do
  m ← gets (λ s. s.mem)
  if bit_and (flags m n) 0x10000 == 0
      then pure none
      else if ltb (header_addr m n) (load_addr m n)
      then pure none
      else if ltb (load_end_addr m n) (load_addr m n)
      then pure none
      else (do
        readseg d fuel (load_addr m n) (load_end_addr m n - load_addr m n)
            ((n * 4 + 2 ^ 32 - (header_addr m n - load_addr m n)) % 2 ^ 32)
        clear_bss n
        entry ← gets (λ s. entry_addr s.mem n)
        pure (some entry))

-- What follows the loop: a return, or a jump to `found_it`.
unfoldable pub after_search : Drive → (fuel : ℕ) → Option ℕ → Cmd Loader (Option ℕ)
after_search d fuel none = pure none
after_search d fuel (some n) = load_image d fuel n

-- `none` where `bootmain` returns to bootasm.S.
unfoldable pub bootmain : Drive → (fuel : ℕ) → Cmd Loader (Option ℕ)
unfolding readseg after_search
bootmain d fuel = do
  readseg d fuel scratch 8192 0
  m ← gets (λ s. s.mem)
  after_search d fuel (find_header m (8192 / 4) 0)
