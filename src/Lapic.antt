-- ===== src/Lapic.antt =====
-- kernel/lapic.c: the local interrupt controller of a processor. What it answers is a parameter: a
-- function of what has happened so far and of the register that is read.
pub mod Registers
pub mod Init
pub mod Start
mod Tests
use rt.Prelude.{
  ℕ, zero, suc, ◌+◌, ◌*◌, ◌/◌, ◌%◌, ◌^◌, bit_and, bit_or, List, [], ◌∷◌, Bool, not, leb, ◌==◌,
  if◌then◌else◌,
}
use rt.Prelude.Run.{Cmd, Outcome, panic, out_of_fuel, ◌>>=◌, ◌>>◌, pure, modify, gets}
use rt.Memory.{Mem, store}
use rt.Layout.{p2v}
use rt.Trap.{t_irq0, irq_timer}

-- An access of a register or a port, or the number that `lapicinit` prints.
pub data Event : Type 0 where
  set_reg : (index value : ℕ) → Event
  get_reg : (index : ℕ) → Event
  out : (port value : ℕ) → Event
  print_id : (id : ℕ) → Event

-- Memory, the events with the last one first, and the flags register.
pub record Local : Type 0 where
  pub mem : Mem
  pub trace : List Event
  pub eflags : ℕ

abbrev pub Device : Type 0
Device = List Event → ℕ → ℕ

-- The registers, as indices of 32-bit words.
abbrev pub id_reg : ℕ
id_reg = 0x20 / 4

abbrev pub ver : ℕ
ver = 0x30 / 4

abbrev pub tpr : ℕ
tpr = 0x80 / 4

abbrev pub eoi : ℕ
eoi = 0xB0 / 4

abbrev pub svr : ℕ
svr = 0xF0 / 4

abbrev pub esr : ℕ
esr = 0x280 / 4

abbrev pub icrlo : ℕ
icrlo = 0x300 / 4

abbrev pub icrhi : ℕ
icrhi = 0x310 / 4

abbrev pub timer_reg : ℕ
timer_reg = 0x320 / 4

abbrev pub pcint : ℕ
pcint = 0x340 / 4

abbrev pub lint0 : ℕ
lint0 = 0x350 / 4

abbrev pub lint1 : ℕ
lint1 = 0x360 / 4

abbrev pub error : ℕ
error = 0x370 / 4

abbrev pub ticr : ℕ
ticr = 0x380 / 4

abbrev pub tdcr : ℕ
tdcr = 0x3E0 / 4

-- Bits of their values.
abbrev pub enable : ℕ
enable = 0x100

abbrev pub init : ℕ
init = 0x500

abbrev pub startup : ℕ
startup = 0x600

abbrev pub delivs : ℕ
delivs = 0x1000

abbrev pub lapic_assert : ℕ
lapic_assert = 0x4000

abbrev pub level : ℕ
level = 0x8000

abbrev pub bcast : ℕ
bcast = 0x80000

abbrev pub periodic : ℕ
periodic = 0x20000

abbrev pub masked : ℕ
masked = 0x10000

abbrev pub irq_error : ℕ
irq_error = 19

abbrev pub irq_spurious : ℕ
irq_spurious = 31

abbrev pub lapic_timer_period : ℕ
lapic_timer_period = 10000000

unfoldable pub happens : Event → Cmd Local (Unit {0})
happens e = modify λ s. record s { trace = e ∷ s.trace }

-- `lapic[index]` as a value.
unfoldable pub lapicr : Device → (index : ℕ) → Cmd Local ℕ
unfolding happens
lapicr dev index = do v ← gets (λ s. dev s.trace index % 2 ^ 32); happens (get_reg index); pure v

-- A write, and a read of the identity that waits for it.
unfoldable pub lapicw : (index value : ℕ) → Cmd Local (Unit {0})
unfolding happens
lapicw index value = do happens (set_reg index (value % 2 ^ 32)); happens (get_reg id_reg)

-- `if (readeflags() & FL_IF) panic(...)`, and the identity.
unfoldable pub lapicid : Device → Cmd Local ℕ
unfolding lapicr
lapicid dev =
    let identity = (do v ← lapicr dev id_reg; pure (v / 2 ^ 24)) in
    do flags ← gets (λ s. s.eflags); if bit_and flags 0x200 == 0 then identity else (λ _. panic)

unfoldable pub lapiceoi : Cmd Local (Unit {0})
unfolding lapicw
lapiceoi = lapicw eoi 0

-- `while (lapic[ICRLO] & DELIVS);`
unfoldable pub wait_sent : Device → (fuel : ℕ) → Cmd Local (Unit {0})
unfolding lapicr
wait_sent dev zero = λ _. out_of_fuel
wait_sent dev (suc fuel) =
    let rest = wait_sent dev fuel in
    do v ← lapicr dev icrlo; if bit_and v delivs == 0 then pure tt else rest

-- `lapicinit` up to the test of the version.
unfoldable pub set_timer : Cmd Local (Unit {0})
unfolding lapicw
set_timer = do
  lapicw svr (bit_or enable (t_irq0 + irq_spurious))
  lapicw tdcr 0xB
  lapicw timer_reg (bit_or periodic (t_irq0 + irq_timer))
  lapicw ticr lapic_timer_period
  lapicw lint0 masked
  lapicw lint1 masked

-- The performance counter is masked where there is one.
unfoldable pub mask_counter : Device → Cmd Local (Unit {0})
unfolding lapicw lapicr
mask_counter dev = do
  v ← lapicr dev ver
  if leb 4 (v / 2 ^ 16 % 256) then lapicw pcint masked else pure tt

-- From there to the broadcast.
unfoldable pub clear_errors : Cmd Local (Unit {0})
unfolding lapicw
clear_errors = do
  lapicw error (t_irq0 + irq_error)
  lapicw esr 0
  lapicw esr 0
  lapicw eoi 0
  lapicw icrhi 0
  lapicw icrlo (bit_or (bit_or bcast init) level)

-- The last write, and the identity printed.
unfoldable pub open_up : Device → Cmd Local (Unit {0})
unfolding lapicw lapicid happens
open_up dev = do lapicw tpr 0; id ← lapicid dev; happens (print_id id)

unfoldable pub lapicinit : Device → (fuel : ℕ) → Cmd Local (Unit {0})
unfolding set_timer mask_counter clear_errors wait_sent open_up
lapicinit dev fuel = do set_timer; mask_counter dev; clear_errors; wait_sent dev fuel; open_up dev

-- The body of the loop that sends the startup interrupts.
unfoldable pub send_startup : (apicid addr : ℕ) → Cmd Local (Unit {0})
unfolding lapicw
send_startup apicid addr = do
  lapicw icrhi (apicid * 2 ^ 24)
  lapicw icrlo (bit_or startup (addr / 2 ^ 12))

-- The physical address of the warm reset vector.
abbrev pub reset_vector : ℕ
reset_vector = 0x467

unfoldable pub lapicstartap : (apicid addr : ℕ) → Cmd Local (Unit {0})
unfolding happens lapicw send_startup
lapicstartap apicid addr = do
  happens (out 0x70 0xF)
  happens (out 0x71 0xA)
  modify λ s. record s { mem = store 2 s.mem (p2v reset_vector) 0 }
  modify λ s. record s { mem = store 2 s.mem (p2v reset_vector + 2) (addr / 2 ^ 4) }
  lapicw icrhi (apicid * 2 ^ 24)
  lapicw icrlo (bit_or (bit_or init level) lapic_assert)
  lapicw icrlo (bit_or init level)
  send_startup apicid addr
  send_startup apicid addr
