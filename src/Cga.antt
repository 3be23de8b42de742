-- ===== src/Cga.antt =====
-- kernel/cga.c: the text screen. The position of the cursor is in two registers of the controller,
-- and the cells are 16-bit words in memory.
pub mod Cells
mod Tests
use rt.Prelude.{ℕ, ◌+◌, ◌-◌, ◌*◌, ◌/◌, ◌%◌, ◌^◌, bit_and, bit_or, Bool, leb, ◌==◌, if◌then◌else◌}
use rt.Memory.{Mem, store}
use rt.Str.{memmove, memset}
use rt.Layout.{p2v}

-- Memory and the cursor registers 14 and 15, as one 16-bit number.
pub record Screen : Type 0 where
  pub mem : Mem
  pub cursor : ℕ

abbrev pub backspace : ℕ
backspace = 0x100

abbrev pub crt : ℕ
crt = p2v 0xb8000

-- `crt[pos] = v`.
abbrev pub set_cell : Mem → (pos v : ℕ) → Mem
set_cell m pos v = store 2 m (crt + 2 * pos) v

-- The cell written by the character `c`, and the position after it.
unfoldable pub put_char : (c : ℕ) → Screen → Mem × ℕ
put_char c s =
    if c == b'\n'
    then (s.mem, s.cursor + (80 - s.cursor % 80))
    else if c == backspace
    then (s.mem, s.cursor - 1)
    else (set_cell s.mem s.cursor (bit_or (bit_and c 0xff) 0x0700), s.cursor + 1)

-- `memset` takes the number of bytes below the text, in the arithmetic of `sizeof`.
unfoldable pub scroll_up : Mem × ℕ → Mem × ℕ
scroll_up (m, pos) =
    let rest = pos - 80 in
    let moved = (memmove m crt (crt + 2 * 80) (2 * 23 * 80)).1 in
    ((memset moved (crt + 2 * rest) 0 (2 * ((24 * 80 + 2 ^ 64 - rest) % 2 ^ 64) % 2 ^ 64)).1, rest)

-- The cursor is set, and the cell under it is blank.
unfoldable pub cgaputc : (c : ℕ) → Screen → Screen
unfolding put_char scroll_up
cgaputc c s =
    let after = put_char c s in
    let shown = if leb 24 (after.1 / 80) then scroll_up after else after in
    record { mem = set_cell (shown.0) (shown.1) (bit_or b' ' 0x0700); cursor = shown.1 % 2 ^ 16 }
