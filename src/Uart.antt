-- ===== src/Uart.antt =====
-- kernel/uart.c: the serial port. The device is a parameter: what the `n`-th read of its status
-- register gives, whatever has been written.
pub mod Output
mod Tests
use rt.Prelude.{
  ℕ, zero, suc, ◌+◌, ◌*◌, ◌/◌, ◌%◌, ◌<◌, bit_and, List, [], ◌∷◌, ◌++◌, Bool, not, ◌==◌,
  if◌then◌else◌,
}
use rt.Prelude.Run.{Cmd, ◌>>=◌, ◌>>◌, pure, modify, gets}

-- `uart`, the writes of ports in order, and the number of status reads.
pub record Serial : Type 0 where
  pub uart : ℕ
  pub outs : List (ℕ × ℕ)
  pub reads : ℕ

abbrev pub com1 : ℕ
com1 = 0x3F8

-- `outb` on the port's registers.
unfoldable pub outb : (port v : ℕ) → Cmd Serial (Unit {0})
outb port v = modify λ s. record s { outs = s.outs ++ (port, v % 256) ∷ [] }

-- `inb(COM1 + 5)`.
unfoldable pub in_status : (ℕ → ℕ) → Cmd Serial ℕ
in_status status = do
  n ← gets (λ s. s.reads)
  modify λ s. record s { reads = s.reads + 1 }
  pure (status n % 256)

-- `inb(COM1 + 5) & 0x20`: the port takes a byte.
abbrev pub is_empty : ℕ → Bool
is_empty st = not (bit_and st 0x20 == 0)

-- The loop of `uartputc`, with `left` rounds to go.
unfoldable pub poll : (ℕ → ℕ) → (left : ℕ) → Cmd Serial (Unit {0})
unfolding in_status
poll status zero = pure tt
poll status (suc left) =
    let rest = poll status left in do st ← in_status status; if is_empty st then pure tt else rest

unfoldable pub uartputc : (ℕ → ℕ) → (c : ℕ) → Cmd Serial (Unit {0})
unfolding poll outb
uartputc status c =
    let send = poll status 128 >> outb (com1 + 0) c in
    do there ← gets (λ s. s.uart); if there == 0 then pure tt else send

-- The loop over the text of `uartearlyinit`, up to its final zero.
unfoldable pub put_text : (ℕ → ℕ) → List ℕ → Cmd Serial (Unit {0})
unfolding uartputc
put_text status [] = pure tt
put_text status (c ∷ cs) = uartputc status c >> put_text status cs

-- "\nuart: earlyinit\n"
abbrev pub greeting : List ℕ
greeting =
    10 ∷ b'u' ∷ b'a' ∷ b'r' ∷ b't' ∷ b':' ∷ b' ' ∷ b'e' ∷ b'a' ∷ b'r' ∷ b'l' ∷ b'y' ∷ b'i' ∷ b'n'
    ∷ b'i' ∷ b't' ∷ 10 ∷ []

-- The registers that are set before the test.
unfoldable pub set_line : Cmd Serial (Unit {0})
unfolding outb
set_line = do
  outb (com1 + 2) 0
  outb (com1 + 3) 0x80
  outb (com1 + 0) (115200 / 9600)
  outb (com1 + 1) 0
  outb (com1 + 3) 0x03
  outb (com1 + 4) 0
  outb (com1 + 1) 0x01

-- The test for a port, and the greeting.
unfoldable pub detect : (ℕ → ℕ) → Cmd Serial (Unit {0})
unfolding in_status put_text
detect status =
    let announce = modify (λ s. record s { uart = 1 }) >> put_text status greeting in
    do st ← in_status status; if st == 0xFF then pure tt else announce

unfoldable pub uartearlyinit : (ℕ → ℕ) → Cmd Serial (Unit {0})
unfolding set_line detect
uartearlyinit status = set_line >> detect status
