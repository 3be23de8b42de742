-- ===== src/Uart/Tests.antt =====
-- Runs of kernel/uart.c on small ports.
use rt.Prelude.{ℕ, ◌≡◌, [], ◌∷◌, if◌then◌else◌, arith, ltb}
use rt.Prelude.Run.{Returns}
use rt.Uart.{Serial, com1, uartputc, uartearlyinit}
use rt.Uart.Output.{HasPolled, IsDetected, uartputc-HasSent, uartearlyinit-IsDetected}

-- A port that is busy at first.
abbrev slow : ℕ → ℕ
slow n = if ltb n 5 then 0x40 else 0x60

abbrev found : Serial
found = record { uart = 1; outs = []; reads = 0 }

uartputc-HasSent_example :
    Returns
      (λ _ s'. (s'.outs ≡ (com1, 65) ∷ []) × HasPolled slow 128 found (record s' { outs = [] }))
      (uartputc slow 321 found)
uartputc-HasSent_example = uartputc-HasSent slow 321 found (λ e. omega arith)

abbrev unknown : Serial
unknown = record { uart = 0; outs = []; reads = 0 }

uartearlyinit-IsDetected_example :
    Returns (λ _ s'. IsDetected slow unknown s') (uartearlyinit slow unknown)
uartearlyinit-IsDetected_example = uartearlyinit-IsDetected slow unknown
