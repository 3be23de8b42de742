-- ===== src/Console/Rendered.antt =====
-- kernel/console.c: `vcprintf` on a format of any directives.
use mathlib.Core.Path.{subst}
use rt.Prelude.{
  ℕ, zero, suc, ◌+◌, ◌-◌, ◌*◌, ◌≤◌, ◌<◌, ◌≡◌, ◌≢◌, refl, sym, ◌∙◌, ap, true, false, not, ◌&&◌, List,
  [], ◌∷◌, ◌++◌, arith, ◌==◌, length,
}
use rt.Prelude.Run.{done, and_then}
use rt.Memory.{Mem}
use rt.Memory.Laws.{IsBytes}
use rt.Console.{Console, isdigit, width, conversion, format_loop, vcprintf}
use rt.Console.Format.{printed, printed_cons, printed_nil, append_assoc, consputc-plain}
use rt.Console.Letter.{conversion-shown}
use rt.Console.Render.{
  Kind, Directive, int, long, hex, long_hex, pointer, string, null_string, percent, other, char,
  convert, letter, format, with_arg, arguments, width_of, shown, render, Fits, AreDigits, IsFormat,
  rounds, IsStored,
}

printed_append : (s : Console) (xs ys : List ℕ) → printed (printed s xs) ys ≡ printed s (xs ++ ys)
printed_append s xs ys = rw (append_assoc s.uart xs ys, append_assoc s.cga xs ys) refl

-- A letter is not a digit and does not end the format.
letter-nonzero : (m : Mem) (kind : Kind) (w : ℕ) → Fits m kind w → letter kind ≢ 0
letter-nonzero m (int a) w h = omega arith
letter-nonzero m (long a) w h = omega arith
letter-nonzero m (hex a) w h = omega arith
letter-nonzero m (long_hex a) w h = omega arith
letter-nonzero m (pointer a) w h = omega arith
letter-nonzero m (string a k) w h = omega arith
letter-nonzero m null_string w h = omega arith
letter-nonzero m percent w h = omega arith
letter-nonzero m (other c) w h = h.1

letter-stops : (m : Mem) (kind : Kind) (w : ℕ) → Fits m kind w → isdigit (letter kind) ≡ false
unfolding isdigit
letter-stops m (int a) w h = refl
letter-stops m (long a) w h = refl
letter-stops m (hex a) w h = refl
letter-stops m (long_hex a) w h = refl
letter-stops m (pointer a) w h = refl
letter-stops m (string a k) w h = refl
letter-stops m null_string w h = refl
letter-stops m percent w h = refl
letter-stops m (other c) w h = h.2

digit-goes : (d : ℕ) → isdigit d ≡ true → (not (d == 0) && isdigit d) ≡ true
unfolding isdigit
digit-goes d h = ground arith

other-stops : (c : ℕ) → isdigit c ≡ false → (not (c == 0) && isdigit c) ≡ false
other-stops c h = rw h (ground arith)

-- The width behind a `%` is read to its last digit.
width-value :
    (m : Mem) (fmt i fuel w c : ℕ) (ds cs : List ℕ)
    → AreDigits ds
    → isdigit c ≡ false
    → IsStored m fmt i (ds ++ c ∷ cs)
    → length ds ≤ fuel
    → width m fuel fmt i w ≡ (width_of w ds, i + length ds)
unfolding width
width-value m fmt i zero w c [] cs are stop st h = ap (λ j. (w, j)) (omega arith)
width-value m fmt i (suc fuel) w c [] cs are stop st h =
    let stops = ap (λ b. not (b == 0) && isdigit b) st.0 ∙ other-stops c stop in
    rw stops (ap (λ j. (w, j)) (omega arith))
width-value m fmt i zero w c (d ∷ ds) cs are stop st h = absurd (omega arith)
width-value m fmt i (suc fuel) w c (d ∷ ds) cs are stop st h =
    let goes = ap (λ b. not (b == 0) && isdigit b) st.0 ∙ digit-goes d are.0 in
    rw (goes, st.0)
      (width-value m fmt (i + 1) fuel (w * 10 + d - b'0') c ds cs are.1 stop st.1 (omega arith)
        ∙ ap (λ j. (width_of (w * 10 + d - b'0') ds, j)) (omega arith))

-- What stands behind the digits.
IsStored-behind :
    (m : Mem) (fmt i : ℕ) (ds cs : List ℕ)
    → IsStored m fmt i (ds ++ cs)
    → IsStored m fmt (i + length ds) cs
IsStored-behind m fmt i [] cs st = subst (λ j. IsStored m fmt j cs) (omega arith) st
IsStored-behind m fmt i (d ∷ ds) cs st =
    subst (λ j. IsStored m fmt j cs) (omega arith) (IsStored-behind m fmt (i + 1) ds cs st.1)

-- One round of the loop: the end, a character, a conversion.
loop_end :
    (m : Mem) (fuel fmt i : ℕ) (args : List ℕ) (out : Console)
    → m (fmt + i) ≡ 0
    → format_loop m (suc fuel) fmt i args out ≡ done tt out
unfolding format_loop
loop_end m fuel fmt i args out e = rw e refl

loop_char :
    (m : Mem) (fuel fmt i c : ℕ) (args : List ℕ) (out : Console)
    → out.panicked ≡ false
    → m (fmt + i) ≡ c
    → c < 256
    → c ≢ 0
    → c ≢ b'%'
    → format_loop m (suc fuel) fmt i args out
      ≡ format_loop m fuel fmt (i + 1) args (printed out (c ∷ []))
unfolding format_loop
loop_char m fuel fmt i c args out live e byte on plain =
    let on' : (c == 0) ≡ false = ground arith in
    let plain' : (c == b'%') ≡ false = ground arith in
    rw (e, on', plain', consputc-plain out c live (omega arith)) refl

loop_convert :
    (m : Mem) (fuel fmt i w j c : ℕ) (args : List ℕ) (out : Console)
    → m (fmt + i) ≡ b'%'
    → width m fuel fmt (i + 1) 0 ≡ (w, j)
    → m (fmt + j) ≡ c
    → c ≢ 0
    → format_loop m (suc fuel) fmt i args out
      ≡ and_then (conversion m fuel c w args out) (λ rest. format_loop m fuel fmt (j + 1) rest)
unfolding format_loop
loop_convert m fuel fmt i w j c args out e to letter on =
    let on' : (c == 0) ≡ false = ground arith in rw (e, to, letter, on') refl

-- A byte is not the code of a backspace.
letter-plain :
    (m : Mem) (fmt j : ℕ) (kind : Kind) → IsBytes m → m (fmt + j) ≡ letter kind → letter kind ≢ 256
letter-plain m fmt j kind bytes e =
    let below : letter kind < 256 = subst (λ b. b < 256) e (bytes (fmt + j)) in omega arith

rounds-pos : (fs : List Directive) → 0 < rounds fs
rounds-pos [] = omega arith
rounds-pos (char c ∷ fs) = omega arith
rounds-pos (convert ds kind ∷ fs) = omega arith

-- The loop takes a format from index `i` to its end.
format_loop-Rendered :
    (m : Mem) (fuel fmt i : ℕ) (fs : List Directive) (extra : List ℕ) (out : Console)
    → IsBytes m
    → out.panicked ≡ false
    → IsStored m fmt i (format fs)
    → IsFormat m fs
    → rounds fs ≤ fuel
    → format_loop m fuel fmt i (arguments fs extra) out ≡ done tt (printed out (render m fs))
format_loop-Rendered m zero fmt i [] extra out bytes live st is h = absurd (omega arith)
format_loop-Rendered m zero fmt i (char c ∷ fs) extra out bytes live st is h = absurd (omega arith)
format_loop-Rendered m zero fmt i (convert ds kind ∷ fs) extra out bytes live st is h =
    absurd (omega arith)
format_loop-Rendered m (suc fuel) fmt i [] extra out bytes live st is h =
    loop_end m fuel fmt i extra out st.0 ∙ ap (done tt) (sym (printed_nil out))
format_loop-Rendered m (suc fuel) fmt i (char c ∷ fs) extra out bytes live st is h =
    loop_char m fuel fmt i c (arguments fs extra) out live st.0
      (subst (λ b. b < 256) st.0 (bytes (fmt + i))) is.0.0 is.0.1
    ∙ format_loop-Rendered m fuel fmt (i + 1) fs extra (printed out (c ∷ [])) bytes live st.1 is.1
        (omega arith)
    ∙ ap (done tt) (printed_cons out c (render m fs))
format_loop-Rendered m (suc fuel) fmt i (convert ds kind ∷ fs) extra out bytes live st is h =
    let w = width_of 0 ds in
    let c = letter kind in
    let j = i + 1 + length ds in
    let fits = is.0.1 in
    let there = IsStored-behind m fmt (i + 1) ds (c ∷ format fs) st.1 in
    let rest = arguments fs extra in
    let text = shown m kind w in
    loop_convert m fuel fmt i w j c (with_arg kind rest) out st.0
      (width-value m fmt (i + 1) fuel 0 c ds (format fs) is.0.0 (letter-stops m kind w fits) st.1
        (omega arith))
      there.0 (letter-nonzero m kind w fits)
    ∙ ap (λ r. and_then r (λ rest. format_loop m fuel fmt (j + 1) rest))
        (conversion-shown m fuel kind w rest out bytes live
          (letter-plain m fmt j kind bytes there.0) fits (omega (arith, rounds-pos fs)))
    ∙ format_loop-Rendered m fuel fmt (j + 1) fs extra (printed out text) bytes live there.1 is.1
        (omega arith)
    ∙ ap (done tt) (printed_append out text (render m fs))

-- On a memory of bytes and a console that has not panicked, `vcprintf` takes any format:
-- characters other than `%`, and conversions with widths whose letters are `d`, `l`, `x`, `y`,
-- `p`, `s`, `%` or not known. It prints, in order and on both devices, the text that each stands
-- for: itself, the signed number or the 64-bit word (a 32-bit argument with its sign extended)
-- with its sign, the padding to its width (of at most 33) and its digits, the 16 digits of a
-- pointer, the bytes of a string or `(null)`, a `%`, or a `%` and the unknown letter. Each
-- conversion takes its own argument, arguments that are left over are not looked at, and
-- `vcprintf` ends with fuel for the characters of the format and of its strings.
pub vcprintf-Rendered :
    (m : Mem) (fuel fmt : ℕ) (fs : List Directive) (extra : List ℕ) (out : Console)
    → IsBytes m
    → out.panicked ≡ false
    → 0 < fmt
    → IsStored m fmt 0 (format fs)
    → IsFormat m fs
    → rounds fs ≤ fuel
    → vcprintf m fuel fmt (arguments fs extra) out ≡ done tt (printed out (render m fs))
unfolding vcprintf
vcprintf-Rendered m fuel fmt fs extra out bytes live some_fmt st is h =
    let there : (fmt == 0) ≡ false = ground arith in
    rw there (format_loop-Rendered m fuel fmt 0 fs extra out bytes live st is h)
