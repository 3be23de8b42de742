-- ===== src/Console/Print.antt =====
-- kernel/console.c: `printint` prints its buffer backwards, and panics on a bad width or pad.
use rt.Prelude.{
  ℕ, zero, suc, ◌-◌, ◌/◌, ◌%◌, ◌≤◌, ◌<◌, ◌≡◌, ◌≢◌, Bool, true, false, not, ◌&&◌, ◌||◌, List, [],
  ◌∷◌, ◌++◌, arith, ltb, leb, ◌==◌, length, set, get_or, replicate, Bool-cases, inl, inr,
}
use rt.Prelude.Run.{done, panic}
use rt.Prelude.Int.{ℤ}
use rt.Console.{Console, digits, backwards, digit_loop, magnitude, negative, number_buf, printint}
use rt.Console.Format.{printed, IsPlain, put_all-printed}

IsPlain-append : (xs ys : List ℕ) → IsPlain xs → IsPlain ys → IsPlain (xs ++ ys)
IsPlain-append [] ys h k = k
IsPlain-append (x ∷ xs) ys h k = (h.0, IsPlain-append xs ys h.1 k)

IsPlain-replicate : (n c : ℕ) → c ≢ 256 → IsPlain (replicate n c)
IsPlain-replicate zero c h = tt
IsPlain-replicate (suc n) c h = (h, IsPlain-replicate n c h)

IsPlain-set : (xs : List ℕ) (i c : ℕ) → IsPlain xs → c ≢ 256 → IsPlain (set xs i c)
IsPlain-set [] i c h k = tt
IsPlain-set (x ∷ xs) zero c h k = (k, h.1)
IsPlain-set (x ∷ xs) (suc i) c h k = (h.0, IsPlain-set xs i c h.1 k)

IsPlain-backwards : (xs : List ℕ) → IsPlain xs → IsPlain (backwards xs)
IsPlain-backwards [] h = tt
IsPlain-backwards (x ∷ xs) h =
    IsPlain-append (backwards xs) (x ∷ []) (IsPlain-backwards xs h.1) (h.0, tt)

-- No digit is a backspace.
get_or-plain : (xs : List ℕ) (i : ℕ) → IsPlain xs → get_or xs i 0 ≢ 256
get_or-plain [] i h = omega arith
get_or-plain (x ∷ xs) zero h = h.0
get_or-plain (x ∷ xs) (suc i) h = get_or-plain xs i h.1

digits-IsPlain : IsPlain digits
digits-IsPlain = ground arith

digit_loop-IsPlain : (fuel x base : ℕ) → IsPlain (digit_loop fuel x base)
unfolding digit_loop
digit_loop-IsPlain zero x base = tt
digit_loop-IsPlain (suc fuel) x base = (
  get_or-plain digits (x % base) digits-IsPlain,
  elim (Bool-cases (x / base == 0)) [
    | inl e ↦ rw e tt
    | inr e ↦ rw e (digit_loop-IsPlain fuel (x / base) base)
  ],
)

number_buf-IsPlain :
    (xx : ℤ) (base : ℕ) (sign : Bool) (len pre : ℕ)
    → pre ≢ 256
    → IsPlain (number_buf xx base sign len pre)
unfolding number_buf
number_buf-IsPlain xx base sign len pre h =
    let ds = digit_loop 64 (magnitude xx sign) base in
    let here = digit_loop-IsPlain 64 (magnitude xx sign) base in
    let more = IsPlain-append ds _ here (IsPlain-replicate (len - length ds) pre h) in
    elim (Bool-cases (not (len == 0) && ltb (length ds) len)) [
      | inl pad ↦ elim (Bool-cases (negative xx sign)) [
        | inl neg ↦ rw (pad, neg) (IsPlain-set _ (len - 1) b'-' more (omega arith))
        | inr non ↦ rw (pad, non) more
      ]
      | inr full ↦ elim (Bool-cases (negative xx sign)) [
        | inl neg ↦ rw (full, neg) (IsPlain-append ds (b'-' ∷ []) here (omega arith, tt))
        | inr non ↦ rw (full, non) here
      ]
    ]

-- With a width of at most 33 and a pad that is neither 0 nor the code of a backspace, on a
-- console that has not panicked, `printint` prints its buffer from the last character to the
-- first, on both devices.
pub printint-printed :
    (xx : ℤ) (base : ℕ) (sign : Bool) (len pre : ℕ) (out : Console)
    → out.panicked ≡ false
    → len ≤ 33
    → pre ≢ 0
    → pre ≢ 256
    → printint xx base sign len pre out
      ≡ done tt (printed out (backwards (number_buf xx base sign len pre)))
unfolding printint
printint-printed xx base sign len pre out live small pad char =
    let fits : leb len 33 ≡ true = ground arith in
    let given : (not (not (len == 0) && ltb (length (digit_loop 64 (magnitude xx sign) base)) len)
          || not (pre == 0))
        ≡ true =
      ground arith in
    rw (fits, given)
      (put_all-printed (backwards (number_buf xx base sign len pre)) out live
        (IsPlain-backwards _ (number_buf-IsPlain xx base sign len pre char)))

-- A width over 33 panics.
pub printint_too_wide :
    (xx : ℤ) (base : ℕ) (sign : Bool) (len pre : ℕ) (out : Console)
    → 33 < len
    → printint xx base sign len pre out ≡ panic
unfolding printint
printint_too_wide xx base sign len pre out h =
    let wide : leb len 33 ≡ false = ground arith in rw wide
