-- ===== src/Console/Devices.antt =====
-- kernel/console.c with the devices of kernel/uart.c and kernel/cga.c: what the devices
-- make of the characters that the console has handed over.
use rt.Prelude.{ℕ, List, [], ◌∷◌}
use rt.Prelude.Run.{Cmd, Outcome, done, panic, out_of_fuel, undefined, ◌>>◌, modify}
use rt.Uart.{Serial, put_text}
use rt.Cga.{Screen, cgaputc}
use rt.Console.{Console}

-- The serial port and the screen share no state.
pub record Devices : Type 0 where
  pub serial : Serial
  pub screen : Screen

abbrev pub with_serial : Devices → Outcome Serial (Unit {0}) → Outcome Devices (Unit {0})
with_serial d (done a s) = done a (record d { serial = s })
with_serial d panic = panic
with_serial d out_of_fuel = out_of_fuel
with_serial d undefined = undefined

abbrev pub on_serial : Cmd Serial (Unit {0}) → Cmd Devices (Unit {0})
on_serial c d = with_serial d (c d.serial)

abbrev pub on_screen : (Screen → Screen) → Cmd Devices (Unit {0})
on_screen f = modify λ d. record d { screen = f d.screen }

-- The screen after the characters `cs`.
unfoldable pub cga_text : List ℕ → Screen → Screen
cga_text [] s = s
cga_text (c ∷ cs) s = cga_text cs (cgaputc c s)

-- The devices after what a console has handed over, from where they stood before.
unfoldable pub play : (ℕ → ℕ) → Console → Cmd Devices (Unit {0})
unfolding put_text cga_text
play status out = on_serial (put_text status out.uart) >> on_screen (cga_text out.cga)
