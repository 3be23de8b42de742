-- ===== src/Console/Shown.antt =====
-- kernel/console.c with its devices: what `vcprintf` leaves on the serial port and on the screen.
use mathlib.Core.Path.{subst}
use rt.Prelude.{
  ℕ, ◌<◌, ◌≤◌, ◌≡◌, ◌≢◌, refl, sym, ◌∙◌, ap, false, List, [], ◌∷◌, ◌++◌, ◌%◌, map, if◌then◌else◌,
  ◌==◌,
}
use rt.Prelude.Run.{Outcome, done, Returns, returns, and_then, ◌>>◌}
use rt.Memory.{Mem}
use rt.Memory.Laws.{IsBytes, SameBut}
use rt.Uart.{Serial, put_text}
use rt.Uart.Output.{sent, put_text_lem}
use rt.Cga.{Screen, crt, cgaputc}
use rt.Cga.Cells.{IsShown, cgaputc-IsShown}
use rt.Console.{Console, consputc, vcprintf}
use rt.Console.Render.{Directive, format, arguments, render, IsFormat, rounds, IsStored}
use rt.Console.Rendered.{vcprintf-Rendered}
use rt.Console.Played.{play-append}
use rt.Console.Devices.{Devices, with_serial, on_serial, on_screen, cga_text, play}

-- A text on the screen, one character after another.
abbrev pub AreShown : List ℕ → Screen → Screen → Type 0
AreShown [] s s' = s' ≡ s
AreShown (c ∷ cs) s s' = (one : Screen) × (IsShown c s one × AreShown cs one s')

-- The devices from `d` to `d'`, for the bytes `bs` and the characters `cs`: the port gets the bytes,
-- the screen the characters, and the memory outside the screen keeps its bytes.
pub record HasShown (bs cs : List ℕ) (d d' : Devices) : Type 0 where
  pub sent_eq : d'.serial.outs ≡ d.serial.outs ++ map (λ b. (0x3F8, b % 256)) bs
  pub found : d'.serial.uart ≡ d.serial.uart
  pub shown : AreShown cs d.screen d'.screen
  pub cursor_in : d'.screen.cursor < 1920
  pub outside : SameBut crt 3840 d.screen.mem d'.screen.mem

-- A text on the screen.
record IsOnScreen (cs : List ℕ) (s s' : Screen) : Type 0 where
  pub shown : AreShown cs s s'
  pub cursor_in : s'.cursor < 1920
  pub outside : SameBut crt 3840 s.mem s'.mem

cga_text-IsOnScreen :
    (cs : List ℕ) (s : Screen) → s.cursor < 1920 → IsBytes s.mem → IsOnScreen cs s (cga_text cs s)
unfolding cga_text
cga_text-IsOnScreen [] s h bytes = record { shown = refl; cursor_in = h; outside = λ b o. refl }
cga_text-IsOnScreen (c ∷ cs) s h bytes =
    let one = cgaputc-IsShown c s h bytes in
    let more = cga_text-IsOnScreen cs (cgaputc c s) one.cursor_in one.bytes in
    record {
      shown = (cgaputc c s, (one, more.shown));
      cursor_in = more.cursor_in;
      outside = λ b o. more.outside b o ∙ one.outside b o;
    }

-- The bytes on the serial line for a character: a backspace wipes out the one before it.
abbrev pub line_bytes : ℕ → List ℕ
line_bytes c = if c == 256 then 8 ∷ 32 ∷ 8 ∷ [] else c ∷ []

module _ (status : ℕ → ℕ) where
  texts-HasShown :
      (bs cs : List ℕ) (d : Devices)
      → d.serial.uart ≢ 0
      → d.screen.cursor < 1920
      → IsBytes d.screen.mem
      → Returns
          (λ _ d'. HasShown bs cs d d')
          ((on_serial (put_text status bs) >> on_screen (cga_text cs)) d)
  texts-HasShown bs cs d found on bytes = from (put_text_lem status bs d.serial found)
    where
      from :
          {r : Outcome Serial (Unit {0})}
          → Returns
              (λ _ s'. (s'.outs ≡ d.serial.outs ++ sent status bs) × (s'.uart ≡ d.serial.uart))
              r
          → Returns
              (λ _ d'. HasShown bs cs d d')
              (and_then (with_serial d r) (λ _. on_screen (cga_text cs)))
      from (returns p) =
          let w = cga_text-IsOnScreen cs d.screen on bytes in
          returns record {
            sent_eq = p.0;
            found = p.1;
            shown = w.shown;
            cursor_in = w.cursor_in;
            outside = w.outside;
          }

  -- From a console that has not panicked and whose characters have brought the devices to `d`,
  -- with a port found, the cursor on the screen and memories of bytes, `vcprintf` of any format
  -- of the directives of `IsFormat` ends, with fuel for the characters of the format and of its
  -- strings. The devices then come from `d` to a state in which the text of the format has been
  -- sent over the port, byte for byte, and put on the screen: one character after another goes
  -- into the cell under the cursor, or starts a row, with the cursor and the scrolling of
  -- `IsShown`. The cursor stays on the screen and nothing outside the screen's cells changes.
  pub vcprintf-HasShown :
      (m : Mem) (fuel fmt : ℕ) (fs : List Directive) (extra : List ℕ) (out : Console)
      (start d : Devices)
      → IsBytes m
      → out.panicked ≡ false
      → 0 < fmt
      → IsStored m fmt 0 (format fs)
      → IsFormat m fs
      → rounds fs ≤ fuel
      → play status out start ≡ done tt d
      → d.serial.uart ≢ 0
      → d.screen.cursor < 1920
      → IsBytes d.screen.mem
      → Returns
          (λ _ out'.
            Returns (λ _ d'. HasShown (render m fs) (render m fs) d d') (play status out' start))
          (vcprintf m fuel fmt (arguments fs extra) out)
  vcprintf-HasShown m fuel fmt fs extra out start d bytes live some_fmt st is h at found on screen =
      subst (Returns _)
        (sym (vcprintf-Rendered m fuel fmt fs extra out bytes live some_fmt st is h))
        (returns (
          subst (Returns _)
            (sym (
              play-append status out (render m fs) (render m fs) out.panicked start
              ∙ ap
                  (λ r. and_then r (λ _.
                    on_serial (put_text status (render m fs))
                    >> on_screen (cga_text (render m fs))))
                  at))
            (texts-HasShown (render m fs) (render m fs) d found on screen)))

  -- From a console that has not panicked and whose characters have brought the devices to `d`,
  -- with a port found, the cursor on the screen and a memory of bytes, `consputc` returns. The
  -- devices then come from `d` to a state in which the port has got the character's low byte, or
  -- the three bytes 8, 32, 8 for a backspace, and the screen shows the character as `IsShown`
  -- says: in the cell under the cursor, as a new row, or as one step back onto a blank cell.
  pub consputc-HasShown :
      (c : ℕ) (out : Console) (start d : Devices)
      → out.panicked ≡ false
      → play status out start ≡ done tt d
      → d.serial.uart ≢ 0
      → d.screen.cursor < 1920
      → IsBytes d.screen.mem
      → Returns
          (λ _ out'.
            Returns (λ _ d'. HasShown (line_bytes c) (c ∷ []) d d') (play status out' start))
          (consputc c out)
  unfolding consputc play
  consputc-HasShown c out start d live at found on screen = rw live (
      returns (
        subst (Returns _)
          (sym (
            play-append status out (line_bytes c) (c ∷ []) out.panicked start
            ∙ ap
                (λ r. and_then r (λ _.
                  on_serial (put_text status (line_bytes c)) >> on_screen (cga_text (c ∷ []))))
                at))
          (texts-HasShown (line_bytes c) (c ∷ []) d found on screen)))
