-- ===== src/Console/Letter.antt =====
-- kernel/console.c: one conversion of `vcprintf`, for every letter.
use rt.Prelude.{
  ℕ, zero, suc, ◌-◌, ◌≤◌, ◌<◌, ◌≡◌, ◌≢◌, refl, sym, ◌∙◌, ap, Bool, true, false, List, [], ◌∷◌, ◌++◌,
  arith, ◌==◌, length, replicate,
}
use rt.Prelude.Int.{ℤ}
use rt.Prelude.Run.{done, and_then, pure}
use rt.Memory.{Mem}
use rt.Memory.Laws.{IsBytes}
use rt.Console.{
  Console, backwards, digit_loop, magnitude, number_buf, printint, printptr, as_int, as_long,
  conversion,
}
use rt.Console.Number.{sign_text, number_buf-shape}
use rt.Console.Print.{printint-printed}
use rt.Console.Format.{
  printed, put_all-printed, append_assoc, append_nil, print_string-text, consputc-plain,
  printed_cons,
}
use rt.Console.Render.{
  Kind, int, long, hex, long_hex, pointer, string, null_string, percent, other, letter, with_arg,
  numeral, shown, Fits, inner,
}

backwards-append : (xs ys : List ℕ) → backwards (xs ++ ys) ≡ backwards ys ++ backwards xs
backwards-append [] ys = sym (append_nil (backwards ys))
backwards-append (x ∷ xs) ys =
    ap (λ l. l ++ x ∷ []) (backwards-append xs ys)
    ∙ append_assoc (backwards ys) (backwards xs) (x ∷ [])

replicate-last : (n c : ℕ) → replicate n c ++ c ∷ [] ≡ c ∷ replicate n c
replicate-last zero c = refl
replicate-last (suc n) c = ap (λ l. c ∷ l) (replicate-last n c)

backwards-replicate : (n c : ℕ) → backwards (replicate n c) ≡ replicate n c
backwards-replicate zero c = refl
backwards-replicate (suc n) c = ap (λ l. l ++ c ∷ []) (backwards-replicate n c) ∙ replicate-last n c

backwards-sign_text : (xx : ℤ) (sign : Bool) → backwards (sign_text xx sign) ≡ sign_text xx sign
backwards-sign_text xx sign = ground arith

-- The buffer read backwards is the number as text.
backwards-numeral :
    (xx : ℤ) (base : ℕ) (sign : Bool) (len pre : ℕ)
    → backwards (number_buf xx base sign len pre) ≡ numeral xx base sign len pre
backwards-numeral xx base sign len pre =
    let ds = digit_loop 64 (magnitude xx sign) base in
    let k = len - length ds - length (sign_text xx sign) in
    ap backwards (number_buf-shape xx base sign len pre)
    ∙ backwards-append ds (replicate k pre ++ sign_text xx sign)
    ∙ ap (λ l. l ++ backwards ds) (backwards-append (replicate k pre) (sign_text xx sign))
    ∙ ap (λ l. (l ++ backwards (replicate k pre)) ++ backwards ds) (backwards-sign_text xx sign)
    ∙ ap (λ l. (sign_text xx sign ++ l) ++ backwards ds) (backwards-replicate k pre)
    ∙ append_assoc (sign_text xx sign) (replicate k pre) (backwards ds)

printint-numeral :
    (xx : ℤ) (base : ℕ) (sign : Bool) (len pre : ℕ) (out : Console)
    → out.panicked ≡ false
    → len ≤ 33
    → pre ≢ 0
    → pre ≢ 256
    → printint xx base sign len pre out ≡ done tt (printed out (numeral xx base sign len pre))
printint-numeral xx base sign len pre out live small pad char =
    printint-printed xx base sign len pre out live small pad char
    ∙ ap (λ l. done tt (printed out l)) (backwards-numeral xx base sign len pre)

printptr-numeral :
    (a : ℕ) (out : Console)
    → out.panicked ≡ false
    → printptr a out ≡ done tt (printed out (numeral (as_long a) 16 false 16 b'0'))
unfolding printptr
printptr-numeral a out live =
    printint-numeral (as_long a) 16 false 16 b'0' out live (omega arith) (omega arith) (omega arith)

-- A number with the pad of `%d`, `%l`, `%x` and `%y`.
spaced-numeral :
    (xx : ℤ) (base : ℕ) (sign : Bool) (len : ℕ) (rest : List ℕ) (out : Console)
    → out.panicked ≡ false
    → len ≤ 33
    → and_then (printint xx base sign len b' ' out) (λ _. pure rest)
      ≡ done rest (printed out (numeral xx base sign len b' '))
spaced-numeral xx base sign len rest out live small =
    ap (λ r. and_then r (λ _. pure rest))
      (printint-numeral xx base sign len b' ' out live small (omega arith) (omega arith))

string_arg :
    (m : Mem) (fuel a k w : ℕ) (rest : List ℕ) (out : Console)
    → IsBytes m
    → out.panicked ≡ false
    → Fits m (string a k) w
    → k < fuel
    → conversion m fuel b's' w (a ∷ rest) out ≡ done rest (printed out (shown m (string a k) w))
unfolding conversion
string_arg m fuel a k w rest out bytes live fits h =
    let there : (a == 0) ≡ false = ground (arith, fits.0) in
    rw (there, print_string-text m a k fuel out bytes live fits.1 h) refl

other_letter :
    (m : Mem) (fuel c w : ℕ) (rest : List ℕ) (out : Console)
    → out.panicked ≡ false
    → c ≢ 256
    → Fits m (other c) w
    → conversion m fuel c w rest out ≡ done rest (printed out (shown m (other c) w))
unfolding conversion
other_letter m fuel c w rest out live char fits =
    let ne = fits.0 in
    let d : (c == b'd') ≡ false = ground (arith, ne.0) in
    let l : (c == b'l') ≡ false = ground (arith, ne.1.0) in
    let x : (c == b'x') ≡ false = ground (arith, ne.1.1.0) in
    let y : (c == b'y') ≡ false = ground (arith, ne.1.1.1.0) in
    let p : (c == b'p') ≡ false = ground (arith, ne.1.1.1.1.0) in
    let s : (c == b's') ≡ false = ground (arith, ne.1.1.1.1.1.0) in
    let r : (c == b'%') ≡ false = ground (arith, ne.1.1.1.1.1.1.0) in
    rw
      (
        d,
        l,
        x,
        y,
        p,
        s,
        r,
        consputc-plain out b'%' live (omega arith),
        consputc-plain (printed out (b'%' ∷ [])) c live char,
      )
      (ap (done rest) (printed_cons out b'%' (c ∷ [])))

-- The conversion of a letter takes its argument, prints the text it stands for and leaves the
-- other arguments.
pub conversion-shown :
    (m : Mem) (fuel : ℕ) (kind : Kind) (w : ℕ) (rest : List ℕ) (out : Console)
    → IsBytes m
    → out.panicked ≡ false
    → letter kind ≢ 256
    → Fits m kind w
    → inner kind < fuel
    → conversion m fuel (letter kind) w (with_arg kind rest) out
      ≡ done rest (printed out (shown m kind w))
unfolding conversion
conversion-shown m fuel (int a) w rest out bytes live char fits h =
    spaced-numeral (as_int a) 10 true w rest out live fits
conversion-shown m fuel (long a) w rest out bytes live char fits h =
    spaced-numeral (as_long a) 10 true w rest out live fits
conversion-shown m fuel (hex a) w rest out bytes live char fits h =
    spaced-numeral (as_int a) 16 false w rest out live fits
conversion-shown m fuel (long_hex a) w rest out bytes live char fits h =
    spaced-numeral (as_long a) 16 false w rest out live fits
conversion-shown m fuel (pointer a) w rest out bytes live char fits h =
    ap (λ r. and_then r (λ _. pure rest)) (printptr-numeral a out live)
conversion-shown m fuel (string a k) w rest out bytes live char fits h =
    string_arg m fuel a k w rest out bytes live fits h
conversion-shown m fuel null_string w rest out bytes live char fits h =
    ap (λ r. and_then r (λ _. pure rest))
      (put_all-printed (shown m null_string w) out live (ground arith))
conversion-shown m fuel percent w rest out bytes live char fits h =
    ap (λ r. and_then r (λ _. pure rest)) (consputc-plain out b'%' live (omega arith))
conversion-shown m fuel (other c) w rest out bytes live char fits h =
    other_letter m fuel c w rest out live char fits
