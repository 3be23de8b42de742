-- ===== src/Console.antt =====
-- kernel/console.c: numbers, strings and formats to characters. The characters handed to the two
-- devices are kept in order; the devices are those of kernel/uart.c and kernel/cga.c.
pub mod Number
pub mod Print
pub mod Text
pub mod Format
pub mod Render
pub mod Letter
pub mod Rendered
pub mod Devices
pub mod Played
pub mod Shown
mod Tests
use rt.Prelude.{
  ℕ, zero, suc, ◌+◌, ◌-◌, ◌*◌, ◌/◌, ◌%◌, ◌^◌, Bool, true, false, not, ◌&&◌, ◌||◌, List, [], ◌∷◌,
  ◌++◌, leb, ltb, ◌==◌, if◌then◌else◌, length, get_or, set, replicate,
}
use rt.Prelude.Int.{ℤ, pos, negsuc, pos_part, neg_part, ltb_ℤ}
use rt.Prelude.Run.{Cmd, panic, out_of_fuel, undefined, ◌>>=◌, ◌>>◌, pure, assert, modify}
use rt.Memory.{Mem}

-- What has been handed to `uartputc` and to `cgaputc`, and whether a panic has been printed.
pub record Console : Type 0 where
  pub uart : List ℕ
  pub cga : List ℕ
  pub panicked : Bool

abbrev pub backspace : ℕ
backspace = 0x100

-- After a panic every further call spins.
unfoldable pub consputc : ℕ → Cmd Console (Unit {0})
consputc c s =
    if s.panicked
    then out_of_fuel
    else modify
        (λ t. record t {
          uart = t.uart ++ (if c == backspace then 8 ∷ 32 ∷ 8 ∷ [] else c ∷ []);
          cga = t.cga ++ c ∷ [];
        })
        s

-- A list of characters, in order.
pub put_all : List ℕ → Cmd Console (Unit {0})
put_all [] = pure tt
put_all (c ∷ cs) = do consputc c; put_all cs

-- `digits`: "0123456789abcdef".
abbrev pub digits : List ℕ
digits =
    b'0' ∷ b'1' ∷ b'2' ∷ b'3' ∷ b'4' ∷ b'5' ∷ b'6' ∷ b'7' ∷ b'8' ∷ b'9' ∷ b'a' ∷ b'b' ∷ b'c' ∷ b'd'
    ∷ b'e' ∷ b'f' ∷ []

-- `do buf[i++] = digits[x % base]; while ((x /= base) != 0);`, least significant digit first.
-- A 64-bit number has at most 64 digits.
unfoldable pub digit_loop : (fuel x base : ℕ) → List ℕ
digit_loop zero x base = []
digit_loop (suc fuel) x base =
    let rest = digit_loop fuel (x / base) base in
    get_or digits (x % base) 0 ∷ (if x / base == 0 then [] else rest)

-- The number printed: the magnitude if a sign is asked for, the 64-bit word otherwise.
abbrev pub magnitude : ℤ → Bool → ℕ
magnitude (pos n) sign = n
magnitude (negsuc n) true = n + 1
magnitude (negsuc n) false = 2 ^ 64 - 1 - n

abbrev pub negative : ℤ → Bool → Bool
negative xx sign = sign && ltb_ℤ xx (pos 0)

-- `buf` as it stands before the final loop prints it backwards.
unfoldable pub number_buf : (xx : ℤ) (base : ℕ) (sign : Bool) (len pre : ℕ) → List ℕ
number_buf xx base sign len pre =
    let buf = digit_loop 64 (magnitude xx sign) base in
    let i = length buf in
    if not (len == 0) && ltb i len
    then (if negative xx sign
        then set (buf ++ replicate (len - i) pre) (len - 1) b'-'
        else buf ++ replicate (len - i) pre)
    else if negative xx sign
    then buf ++ b'-' ∷ []
    else buf

-- `while (--i >= 0) consputc(buf[i]);`
abbrev pub backwards : List ℕ → List ℕ
backwards [] = []
backwards (c ∷ cs) = backwards cs ++ c ∷ []

-- A pad is needed only where the assertion on `prefix` stands.
unfoldable pub printint : (xx : ℤ) (base : ℕ) (sign : Bool) (len pre : ℕ) → Cmd Console (Unit {0})
unfolding put_all number_buf
printint xx base sign len pre = do
  assert (leb len 33)
  assert (
      not (not (len == 0) && ltb (length (digit_loop 64 (magnitude xx sign) base)) len)
      || not (pre == 0))
  put_all (backwards (number_buf xx base sign len pre))

-- 64-bit and 32-bit words as signed numbers.
abbrev pub as_long : ℕ → ℤ
as_long w = if ltb w (2 ^ 63) then pos w else negsuc (2 ^ 64 - 1 - w)

abbrev pub as_int : ℕ → ℤ
as_int w = let v = w % 2 ^ 32 in if ltb v (2 ^ 31) then pos v else negsuc (2 ^ 32 - 1 - v)

unfoldable pub printptr : ℕ → Cmd Console (Unit {0})
unfolding printint
printptr ptr = printint (as_long ptr) 16 false 16 b'0'

unfoldable pub isdigit : ℕ → Bool
isdigit x = leb b'0' x && leb x b'9'

-- A `char` as the `int` that is passed on: bytes from 128 on are negative.
abbrev pub char_arg : ℕ → ℕ
char_arg b = if ltb b 128 then b else b + 2 ^ 32 - 256

-- `for (; *s; s++) consputc(*s);`
unfoldable pub print_string : Mem → (fuel s : ℕ) → Cmd Console (Unit {0})
print_string m zero s = λ _. out_of_fuel
print_string m (suc fuel) s =
    let rest = print_string m fuel (s + 1) in
    if m s == 0 then pure tt else (do consputc (char_arg (m s)); rest)

-- The width after a `%`: its value and the index behind it.
unfoldable pub width : Mem → (fuel fmt i minwidth : ℕ) → ℕ × ℕ
unfolding isdigit
width m zero fmt i minwidth = (minwidth, i)
width m (suc fuel) fmt i minwidth =
    let rest = width m fuel fmt (i + 1) (minwidth * 10 + m (fmt + i) - b'0') in
    if not (m (fmt + i) == 0) && isdigit (m (fmt + i)) then rest else (minwidth, i)

-- `va_arg`: the next word, which has to be there.
abbrev pub next_arg : List ℕ → Cmd Console (ℕ × List ℕ)
next_arg [] = λ _. undefined
next_arg (a ∷ as') = pure (a, as')

-- The characters of the literal "(null)".
abbrev pub null_text : List ℕ
null_text = b'(' ∷ b'n' ∷ b'u' ∷ b'l' ∷ b'l' ∷ b')' ∷ []

-- One conversion; what is left of the arguments is returned.
unfoldable pub conversion : Mem → (fuel c minwidth : ℕ) → List ℕ → Cmd Console (List ℕ)
unfolding put_all printint printptr print_string
conversion m fuel c minwidth args =
    if c == b'd'
    then (do (a, rest) ← next_arg args; printint (as_int a) 10 true minwidth b' '; pure rest)
    else if c == b'l'
    then (do (a, rest) ← next_arg args; printint (as_long a) 10 true minwidth b' '; pure rest)
    else if c == b'x'
    then (do (a, rest) ← next_arg args; printint (as_int a) 16 false minwidth b' '; pure rest)
    else if c == b'y'
    then (do (a, rest) ← next_arg args; printint (as_long a) 16 false minwidth b' '; pure rest)
    else if c == b'p'
    then (do (a, rest) ← next_arg args; printptr a; pure rest)
    else if c == b's'
    then (do
      (a, rest) ← next_arg args
      if a == 0 then put_all null_text else print_string m fuel a
      pure rest)
    else if c == b'%'
    then (do consputc b'%'; pure args)
    else (do consputc b'%'; consputc c; pure args)

-- The loop of `vcprintf` from index `i`; `fuel` bounds it and the loops inside.
format_loop : Mem → (fuel fmt i : ℕ) → List ℕ → Cmd Console (Unit {0})
format_loop m zero fmt i args = λ _. out_of_fuel
format_loop m (suc fuel) fmt i args =
    let c = m (fmt + i) in
    let (w, j) = width m fuel fmt (i + 1) 0 in
    let c' = m (fmt + j) in
    let plain = format_loop m fuel fmt (i + 1) args in
    let converted = λ (rest : List ℕ). format_loop m fuel fmt (j + 1) rest in
    if c == 0
    then pure tt
    else if not (c == b'%')
    then (do consputc c; plain)
    else if c' == 0
    then pure tt
    else conversion m fuel c' w args >>= converted

unfoldable pub vcprintf : Mem → (fuel fmt : ℕ) → List ℕ → Cmd Console (Unit {0})
unfolding format_loop conversion width
vcprintf m fuel fmt args = if fmt == 0 then (λ _. panic) else format_loop m fuel fmt 0 args
