-- ===== src/Str/Tests.antt =====
-- The theorems on strings at small memories.
use rt.Prelude.{◌%◌, ◌≡◌, arith}
use rt.Memory.{Mem}
use rt.Memory.Laws.{IsBytes}
use rt.Str.{stosb, memset, memmove}
use rt.Str.Fill.{memset-stosb}
use rt.Str.Move.{IsCopied, memmove-IsCopied}

-- Each byte is the low byte of its address.
abbrev ramp : Mem
ramp a = a % 256

ramp-IsBytes : IsBytes ramp
ramp-IsBytes a = omega arith

memmove-IsCopied_example : ((memmove ramp 4 2 5).0 ≡ 4) × IsCopied ramp 4 2 5 (memmove ramp 4 2 5).1
memmove-IsCopied_example = memmove-IsCopied ramp 4 2 5 ramp-IsBytes

memset-stosb_example : memset ramp 8 300 12 ≡ (8, stosb ramp 8 300 12)
memset-stosb_example = memset-stosb ramp 8 300 12 (omega arith)
