-- ===== src/Cga/Tests.antt =====
-- The theorem on the screen with the cursor at its last cell.
use rt.Prelude.{◌%◌, arith}
use rt.Memory.{Mem}
use rt.Memory.Laws.{IsBytes}
use rt.Cga.{Screen, cgaputc}
use rt.Cga.Cells.{IsShown, cgaputc-IsShown}

abbrev ramp : Mem
ramp a = a % 256

ramp-IsBytes : IsBytes ramp
ramp-IsBytes a = omega arith

abbrev full_screen : Screen
full_screen = record { mem = ramp; cursor = 1919 }

cgaputc-IsShown_example : IsShown 65 full_screen (cgaputc 65 full_screen)
cgaputc-IsShown_example = cgaputc-IsShown 65 full_screen (omega arith) ramp-IsBytes
