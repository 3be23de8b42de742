-- ===== src/Console/Tests.antt =====
-- The theorems on the console at small inputs.
use rt.Prelude.{
  ◌%◌, ℕ, ◌<◌, ◌≤◌, ◌≢◌, ◌+◌, refl, inl, true, false, List, [], ◌∷◌, ◌≡◌, ◌&&◌, arith, leb, ltb,
  if◌then◌else◌, ◌==◌,
}
use rt.Prelude.Int.{negsuc}
use rt.Memory.{Mem}
use rt.Memory.Laws.{IsBytes}
use rt.Prelude.Run.{done, Returns}
use rt.Uart.{put_text}
use rt.Console.Devices.{Devices, cga_text, play}
use rt.Console.Shown.{HasShown, consputc-HasShown, vcprintf-HasShown}
use rt.Console.{consputc, Console, number_buf, digit_loop, isdigit, vcprintf}
use rt.Console.Render.{Directive, render, char, convert, int, string, other, IsFormat, Fits}
use rt.Console.Rendered.{vcprintf-Rendered}
use rt.Console.Number.{IsNumber, number_buf-IsNumber}
use rt.Console.Format.{IsText, printed}

abbrev empty_console : Console
empty_console = record { uart = []; cga = []; panicked = false }

-- The text "abc" at 16, and zeros.
abbrev abc : Mem
abc a = if leb 16 a && ltb a 19 then a + 81 else 0

abc-IsBytes : IsBytes abc
abc-IsBytes a = ground arith

abc-IsText : IsText abc 16 3
abc-IsText = record { text = λ i h. ground arith; nul = refl }

-- The number -42 with a width of 6.
number_buf-IsNumber_example :
    IsNumber (negsuc 41) 10 true 6 b' ' (number_buf (negsuc 41) 10 true 6 b' ')
number_buf-IsNumber_example =
    number_buf-IsNumber (negsuc 41) 10 true 6 b' ' (omega arith) (inl refl) (omega arith)

-- The format "n=%5d:%s%z" at 64, and the text at 16.
abbrev told : Mem
told a =
    if a == 64
    then b'n'
    else if a == 65
    then b'='
    else if a == 66
    then b'%'
    else if a == 67
    then b'5'
    else if a == 68
    then b'd'
    else if a == 69
    then b':'
    else if a == 70
    then b'%'
    else if a == 71
    then b's'
    else if a == 72
    then b'%'
    else if a == 73
    then b'z'
    else abc a

told-IsBytes : IsBytes told
told-IsBytes a = ground arith

told-IsText : IsText told 16 3
told-IsText = record { text = λ i h. ground arith; nul = refl }

abbrev told_format : List Directive
told_format =
    char b'n'
    ∷ char b'='
    ∷ convert (b'5' ∷ []) (int 4294967254)
    ∷ char b':'
    ∷ convert [] (string 16 3)
    ∷ convert [] (other b'z')
    ∷ []

told_format-IsFormat : IsFormat told told_format
unfolding isdigit
told_format-IsFormat =
    let plain : (c : ℕ) → Type 0 = λ c. (c ≢ 0) × (c ≢ b'%') in
    let n : plain b'n' = ground arith in
    let equals : plain b'=' = ground arith in
    let colon : plain b':' = ground arith in
    let z : Fits told (other b'z') 0 = (ground arith, omega arith, refl) in
    let there : 0 < 16 = omega arith in
    let narrow : 5 ≤ 33 = omega arith in
    (n, (equals, (((refl, tt), narrow), (colon, ((tt, (there, told-IsText)), ((tt, z), tt))))))

-- The arguments are -42, the text and a number that is not looked at.
vcprintf-Rendered_example :
    vcprintf told 20 64 (4294967254 ∷ 16 ∷ 7 ∷ []) empty_console
    ≡ done tt (
        printed empty_console (
          b'n' ∷ b'=' ∷ b'-' ∷ b' ' ∷ b' ' ∷ b'4' ∷ b'2' ∷ b':' ∷ b'a' ∷ b'b' ∷ b'c' ∷ b'%' ∷ b'z'
          ∷ []))
unfolding digit_loop
vcprintf-Rendered_example =
    vcprintf-Rendered told 20 64 told_format (7 ∷ []) empty_console told-IsBytes refl (omega arith)
      (ground arith) told_format-IsFormat (omega arith)

-- A port that is busy at first and a screen with the cursor at its last cell.
abbrev slow : ℕ → ℕ
slow n = if ltb n 5 then 0x40 else 0x60

abbrev ramp : Mem
ramp a = a % 256

ramp-IsBytes : IsBytes ramp
ramp-IsBytes a = omega arith

abbrev devices : Devices
devices = record {
  serial = record { uart = 1; outs = []; reads = 0 };
  screen = record { mem = ramp; cursor = 1919 };
}

nothing_played : play slow empty_console devices ≡ done tt devices
unfolding play put_text cga_text
nothing_played = refl

vcprintf-HasShown_example :
    Returns
      (λ _ out'.
        Returns
          (λ _ d'. HasShown (render told told_format) (render told told_format) devices d')
          (play slow out' devices))
      (vcprintf told 20 64 (4294967254 ∷ 16 ∷ 7 ∷ []) empty_console)
vcprintf-HasShown_example =
    vcprintf-HasShown slow told 20 64 told_format (7 ∷ []) empty_console devices devices
      told-IsBytes refl (omega arith) (ground arith) told_format-IsFormat (omega arith)
      nothing_played (λ e. omega arith) (omega arith) ramp-IsBytes

-- A backspace in the middle of the last row.
abbrev mid_devices : Devices
mid_devices = record devices { screen = record { mem = ramp; cursor = 1900 } }

nothing_played_mid : play slow empty_console mid_devices ≡ done tt mid_devices
unfolding play put_text cga_text
nothing_played_mid = refl

consputc-HasShown_example :
    Returns
      (λ _ out'.
        Returns
          (λ _ d'. HasShown (8 ∷ 32 ∷ 8 ∷ []) (256 ∷ []) mid_devices d')
          (play slow out' mid_devices))
      (consputc 256 empty_console)
consputc-HasShown_example =
    consputc-HasShown slow 256 empty_console mid_devices mid_devices refl nothing_played_mid
      (λ e. omega arith) (omega arith) ramp-IsBytes
