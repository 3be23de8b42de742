-- ===== src/Cga/Cells.antt =====
-- kernel/cga.c: `cgaputc` stays on the screen, and scrolls.
use mathlib.Core.Path.{subst}
use native.Mathlib.Decide.{dec_lt}
use rt.Prelude.{
  ℕ, ◌≢◌, bit_and, if◌then◌else◌, ◌+◌, ◌-◌, ◌*◌, ◌/◌, ◌%◌, ◌^◌, ◌≤◌, ◌<◌, ◌≡◌, refl, sym, ap, ◌∙◌,
  ◌⊎◌, inl, inr, true, false, bit_or, leb, ◌==◌, arith, Bool-cases,
}
use rt.Memory.{Mem, write, store}
use rt.Memory.Laws.{IsBytes, SameBut, store_frame, store-IsBytes, write_self, write_ne}
use rt.Bits.{bit_and-low, bit_or_above}
use rt.Str.{memmove}
use rt.Str.Fill.{memset-IsFilled}
use rt.Str.Move.{memmove-IsCopied}
use rt.Cga.{Screen, crt, set_cell, put_char, scroll_up, cgaputc}

-- From memory `m` to `m'` with a cursor at `pos`: the cells of the screen, 24 rows of 80, are all
-- that may have changed, and the cursor is at most one behind the last.
record IsWithin (m : Mem) (m' : Mem) (pos : ℕ) : Type 0 where
  pub last : pos ≤ 1920
  pub outside : SameBut crt 3840 m m'
  pub bytes : IsBytes m'

put_char-IsWithin :
    (c : ℕ) (s : Screen)
    → s.cursor < 1920
    → IsBytes s.mem
    → IsWithin s.mem ((put_char c s).0) ((put_char c s).1)
unfolding put_char
put_char-IsWithin c s h bytes = elim (Bool-cases (c == b'\n')) [
  | inl line ↦ rw line (record { last = omega arith; outside = λ b o. refl; bytes = bytes })
  | inr other ↦ elim (Bool-cases (c == 256)) [
    | inl back ↦
        rw (other, back) (record { last = omega arith; outside = λ b o. refl; bytes = bytes })
    | inr char ↦
        rw (other, char)
          (record {
            last = omega arith;
            outside = λ b o. store_frame 2 s.mem (crt + 2 * s.cursor) _ b (omega arith);
            bytes = store-IsBytes 2 s.mem (crt + 2 * s.cursor) _ bytes;
          })
  ]
]

-- Memory after the screen has moved up by a row and its last row has been cleared.
pub record IsScrolled (m m' : Mem) : Type 0 where
  pub moved : (i : ℕ) → i < 3680 → m' (crt + i) ≡ m (crt + 160 + i)
  pub cleared : (i : ℕ) → i < 160 → m' (crt + 3680 + i) ≡ 0
  pub outside : SameBut crt 3840 m m'

scroll_up-IsScrolled : (m : Mem) → IsBytes m → IsScrolled m ((scroll_up (m, 1920)).0)
unfolding scroll_up
scroll_up-IsScrolled m bytes =
    let moved = (memmove-IsCopied m crt (crt + 160) 3680 bytes).1 in
    let cleared =
      (memset-IsFilled ((memmove m crt (crt + 160) 3680).1) (crt + 3680) 0 160 (omega arith)).1 in
    record {
      moved = λ i h. cleared.outside (crt + i) (omega arith) ∙ moved.inside i h;
      cleared = λ i h. cleared.inside (crt + 3680 + i) (omega arith) (omega arith);
      outside = λ b o. cleared.outside b (omega arith) ∙ moved.outside b (omega arith);
    }

below_sym : {a b : ℕ} → a ≡ b → b < 256 → a < 256
below_sym e h = omega arith

IsScrolled-IsBytes : (m m' : Mem) → IsScrolled m m' → IsBytes m → IsBytes m'
IsScrolled-IsBytes m m' up bytes b = elim (dec_lt b crt) [
  | yes below ↦ below_sym (up.outside b (omega arith)) (bytes b)
  | no above ↦ elim (dec_lt b (crt + 3680)) [
    | yes row ↦
        let at : crt + (b - crt) ≡ b = omega arith in
        below_sym (ap m' (sym at) ∙ up.moved (b - crt) (omega arith)) (bytes _)
    | no beyond ↦ elim (dec_lt b (crt + 3840)) [
      | yes last ↦
          let at : crt + 3680 + (b - (crt + 3680)) ≡ b = omega arith in
          below_sym (ap m' (sym at) ∙ up.cleared (b - (crt + 3680)) (omega arith)) (omega arith)
      | no behind ↦ below_sym (up.outside b (omega arith)) (bytes b)
    ]
  ]
]

-- The cell at `pos` shows the byte `ch`, black on white.
abbrev pub HasCell : Mem → (pos ch : ℕ) → Type 0
HasCell m pos ch = (m (crt + 2 * pos) ≡ ch) × (m (crt + 2 * pos + 1) ≡ 7)

-- The position behind a character: the start of the next row, one back, or one on.
abbrev pub behind : (c pos : ℕ) → ℕ
behind c pos = if c == 10 then 80 * (pos / 80 + 1) else if c == 256 then pos - 1 else pos + 1

-- The character has gone into the cell under the cursor, or into none.
pub record IsTyped (c : ℕ) (s : Screen) (m' : Mem) : Type 0 where
  pub character : c ≢ 10 → c ≢ 256 → HasCell m' s.cursor (c % 256)
  pub others : SameBut (crt + 2 * s.cursor) 2 s.mem m'
  pub newline : c ≡ 10 → (b : ℕ) → m' b ≡ s.mem b
  pub backspace : c ≡ 256 → (b : ℕ) → m' b ≡ s.mem b

-- What one character leaves on the screen.
pub record IsShown (c : ℕ) (s s' : Screen) : Type 0 where
  pub typed : Mem
  pub is_typed : IsTyped c s typed
  pub cursor_in : s'.cursor < 1920
  pub outside : SameBut crt 3840 s.mem s'.mem
  pub bytes : IsBytes s'.mem
  -- The cell under the cursor is blank.
  pub blank : HasCell s'.mem s'.cursor 32
  -- No scrolling: nothing else changes.
  pub kept :
      behind c s.cursor < 1920
      → (s'.cursor ≡ behind c s.cursor) × SameBut (crt + 2 * behind c s.cursor) 2 typed s'.mem
  -- Scrolling: each row takes the place of the one above, and the last one is left empty.
  pub scrolled :
      behind c s.cursor ≡ 1920
      → (s'.cursor ≡ 1840)
        × ((i : ℕ) → i < 3680 → s'.mem (crt + i) ≡ typed (crt + 160 + i))
        × ((i : ℕ) → 2 ≤ i → i < 160 → s'.mem (crt + 3680 + i) ≡ 0)

-- A cell of the colours 0x07 as its two bytes.
stored_cell :
    (m : Mem) (pos ch v : ℕ) → ch < 256 → v ≡ 7 * 2 ^ 8 + ch → HasCell (set_cell m pos v) pos ch
unfolding store
stored_cell m pos ch v h e =
    let a = crt + 2 * pos in
    (
      write_ne (write m a v) (a + 1) (v / 256) a (omega arith) ∙ write_self m a v ∙ omega arith,
      write_self (write m a v) (a + 1) (v / 256) ∙ omega arith,
    )

cell_value : (c : ℕ) → bit_or (bit_and c 0xff) 0x0700 ≡ 7 * 2 ^ 8 + c % 256
cell_value c =
    ap (λ x. bit_or x 0x0700) (bit_and-low 8 c) ∙ bit_or_above 8 7 (c % 256) (omega arith)

put_char-behind : (c : ℕ) (s : Screen) → s.cursor < 1920 → (put_char c s).1 ≡ behind c s.cursor
unfolding put_char
put_char-behind c s h = elim (Bool-cases (c == 10)) [
  | inl line ↦ rw (line) (omega arith)
  | inr other ↦ elim (Bool-cases (c == 256)) [
    | inl back ↦ rw (other, back) refl
    | inr char ↦ rw (other, char) refl
  ]
]

put_char-IsTyped : (c : ℕ) (s : Screen) → IsTyped c s (put_char c s).0
unfolding put_char
put_char-IsTyped c s = elim (Bool-cases (c == 10)) [
  | inl line ↦ rw line record {
    character = λ a b. absurd (ground arith);
    others = λ b o. refl;
    newline = λ e b. refl;
    backspace = λ e b. refl;
  }
  | inr other ↦ elim (Bool-cases (c == 256)) [
    | inl back ↦
        rw (other, back)
          record {
            character = λ a b. absurd (ground arith);
            others = λ b o. refl;
            newline = λ e b. refl;
            backspace = λ e b. refl;
          }
    | inr char ↦
        rw (other, char)
          record {
            character = λ a b. stored_cell s.mem s.cursor (c % 256) _ (omega arith) (cell_value c);
            others = λ b o. store_frame 2 s.mem (crt + 2 * s.cursor) _ b o;
            newline = λ e b. absurd (ground arith);
            backspace = λ e b. absurd (ground arith);
          }
  ]
]

-- The last step: the cursor is set and its cell blanked.
abbrev placed : Mem → ℕ → Screen
placed m pos = record { mem = set_cell m pos (bit_or b' ' 0x0700); cursor = pos % 2 ^ 16 }

cgaputc_still :
    (c : ℕ) (s : Screen)
    → (put_char c s).1 < 1920
    → cgaputc c s ≡ placed ((put_char c s).0) ((put_char c s).1)
unfolding cgaputc
cgaputc_still c s h = let low : leb 24 ((put_char c s).1 / 80) ≡ false = ground arith in rw low refl

cgaputc_scrolls :
    (c : ℕ) (s : Screen)
    → (put_char c s).1 ≡ 1920
    → cgaputc c s ≡ placed ((scroll_up ((put_char c s).0, 1920)).0) 1840
unfolding cgaputc scroll_up
cgaputc_scrolls c s h =
    let high : leb 24 ((put_char c s).1 / 80) ≡ true = ground arith in rw (high, h) refl

-- With the cursor on the screen and a memory of bytes, `cgaputc` writes the low byte of a
-- character, with the colours 7, into the cell under the cursor, and into no cell for a newline
-- or a backspace. The position behind it is the start of the next row for a newline, one back
-- (but not below 0) for a backspace, and the next one otherwise. If that is still on the screen,
-- the cursor goes there; otherwise the screen moves up by one row, the last row is cleared, and
-- the cursor goes to its start. The cell under the cursor is then blank, no other cell and
-- nothing outside the screen's 24 rows of 80 cells has changed, and memory still holds bytes.
pub cgaputc-IsShown :
    (c : ℕ) (s : Screen) → s.cursor < 1920 → IsBytes s.mem → IsShown c s (cgaputc c s)
cgaputc-IsShown c s h bytes =
    let w = put_char-IsWithin c s h bytes in
    elim (dec_lt ((put_char c s).1) 1920) [
      | yes still ↦ subst (IsShown c s) (sym (cgaputc_still c s still)) (stays w still)
      | no full ↦
          let at_end : (put_char c s).1 ≡ 1920 = omega (arith, w.last) in
          subst (IsShown c s) (sym (cgaputc_scrolls c s at_end)) (moves w at_end)
    ]
  where
    blank :
        (m : Mem) (pos b : ℕ)
        → (b < crt + 2 * pos) ⊎ (crt + 2 * pos + 2 ≤ b)
        → (placed m pos).mem b ≡ m b
    blank m pos b o = store_frame 2 m (crt + 2 * pos) (bit_or b' ' 0x0700) b (omega arith)

    pos_eq : (put_char c s).1 ≡ behind c s.cursor
    pos_eq = put_char-behind c s h

    placed_blank :
        (m : Mem) (pos : ℕ) → pos < 1920 → HasCell (placed m pos).mem (placed m pos).cursor 32
    placed_blank m pos lt =
        let same : pos % 2 ^ 16 ≡ pos = omega arith in
        rw same (stored_cell m pos 32 (bit_or b' ' 0x0700) (omega arith) refl)

    stays :
        IsWithin s.mem ((put_char c s).0) ((put_char c s).1)
        → (put_char c s).1 < 1920
        → IsShown c s (placed ((put_char c s).0) ((put_char c s).1))
    stays w still = record {
      cursor_in = omega arith;
      outside = λ b o. blank _ ((put_char c s).1) b (omega arith) ∙ w.outside b o;
      bytes = store-IsBytes 2 _ (crt + 2 * (put_char c s).1) _ w.bytes;
      typed = (put_char c s).0;
      is_typed = put_char-IsTyped c s;
      blank = placed_blank _ ((put_char c s).1) (omega arith);
      kept = λ lt.
          (omega (arith, pos_eq), λ b o. blank _ ((put_char c s).1) b (omega (arith, pos_eq)));
      scrolled = λ e. absurd (omega (arith, pos_eq));
    }

    moves :
        IsWithin s.mem ((put_char c s).0) ((put_char c s).1)
        → (put_char c s).1 ≡ 1920
        → IsShown c s (placed ((scroll_up ((put_char c s).0, 1920)).0) 1840)
    moves w at_end =
        let up = scroll_up-IsScrolled ((put_char c s).0) w.bytes in
        record {
          cursor_in = omega arith;
          outside = λ b o. blank _ 1840 b (omega arith) ∙ up.outside b o ∙ w.outside b o;
          bytes = store-IsBytes 2 _ (crt + 2 * 1840) _ (IsScrolled-IsBytes _ _ up w.bytes);
          typed = (put_char c s).0;
          is_typed = put_char-IsTyped c s;
          blank = placed_blank _ 1840 (omega arith);
          kept = λ lt. absurd (omega (arith, pos_eq));
          scrolled = λ e. (
            refl,
            λ i lt. blank _ 1840 (crt + i) (omega arith) ∙ up.moved i lt,
            λ i low lt. blank _ 1840 (crt + 3680 + i) (omega arith) ∙ up.cleared i lt,
          );
        }
