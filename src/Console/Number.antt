-- ===== src/Console/Number.antt =====
-- kernel/console.c: the characters that `printint` puts into its buffer.
use mathlib.Core.Path.{subst}
use rt.Prelude.{
  ℕ, zero, suc, ◌+◌, ◌-◌, ◌*◌, ◌/◌, ◌%◌, ◌^◌, ◌≤◌, ◌<◌, ◌≡◌, refl, sym, ◌∙◌, ap, ◌⊎◌, inl, inr,
  Bool, true, false, not, ◌&&◌, List, [], ◌∷◌, ◌++◌, arith, ltb, leb, ◌==◌, if◌then◌else◌, length,
  length-append, set, get_or, replicate, length-replicate, Bool-cases,
}
use native.Mathlib.Decide.{ℕ_discrete}
use rt.Prelude.Int.{ℤ, pos, negsuc}
use rt.Console.{digits, digit_loop, magnitude, negative, number_buf}

-- The value of a digit, and of a number whose digits are given from the lowest.
abbrev pub digit_value : ℕ → ℕ
digit_value c = if leb c b'9' then c - b'0' else c - b'a' + 10

abbrev pub read : ℕ → List ℕ → ℕ
read base [] = 0
read base (c ∷ cs) = digit_value c + base * read base cs

-- `printint` is called with the bases 10 and 16 only.
abbrev pub IsBase : ℕ → Type 0
IsBase base = (base ≡ 10) ⊎ (base ≡ 16)

-- A test of the numbers below a bound.
abbrev all_below : ℕ → (ℕ → Bool) → Bool
all_below zero test = true
all_below (suc n) test = test n && all_below n test

all_below-holds :
    (n : ℕ) (test : ℕ → Bool) → all_below n test ≡ true → (d : ℕ) → d < n → test d ≡ true
all_below-holds zero test h d lt = absurd (omega arith)
all_below-holds (suc n) test h d lt = elim (ℕ_discrete d n) [
  | yes e ↦ ap test e ∙ (ground arith)
  | no ne ↦ all_below-holds n test (ground arith) d (omega arith)
]

digit_value-digit : (d : ℕ) → d < 16 → digit_value (get_or digits d 0) ≡ d
digit_value-digit d h =
    let same = all_below-holds 16 (λ d. digit_value (get_or digits d 0) == d) refl d h in
    ground arith

read-loop_ten : (fuel x : ℕ) → x < 2 ^ fuel → read 10 (digit_loop fuel x 10) ≡ x
unfolding digit_loop
read-loop_ten zero x h = omega arith
read-loop_ten (suc fuel) x h =
    ground (arith, digit_value-digit (x % 10), read-loop_ten fuel (x / 10))

read-loop_sixteen : (fuel x : ℕ) → x < 2 ^ fuel → read 16 (digit_loop fuel x 16) ≡ x
unfolding digit_loop
read-loop_sixteen zero x h = omega arith
read-loop_sixteen (suc fuel) x h =
    ground (arith, digit_value-digit (x % 16), read-loop_sixteen fuel (x / 16))

length-loop_ten : (fuel x k : ℕ) → x < 10 ^ suc k → length (digit_loop fuel x 10) ≤ suc k
unfolding digit_loop
length-loop_ten zero x k h = omega arith
length-loop_ten (suc fuel) x zero h = ground arith
length-loop_ten (suc fuel) x (suc k) h = ground (arith, length-loop_ten fuel (x / 10) k)

length-loop_sixteen : (fuel x k : ℕ) → x < 16 ^ suc k → length (digit_loop fuel x 16) ≤ suc k
unfolding digit_loop
length-loop_sixteen zero x k h = omega arith
length-loop_sixteen (suc fuel) x zero h = ground arith
length-loop_sixteen (suc fuel) x (suc k) h = ground (arith, length-loop_sixteen fuel (x / 16) k)

-- The digits of a 64-bit number: they read back as it, and there are at most twenty of them.
record IsDigits (x base : ℕ) (ds : List ℕ) : Type 0 where
  pub value : read base ds ≡ x
  pub few : length ds ≤ 20

digit_loop-IsDigits :
    (x base : ℕ) → IsBase base → x < 2 ^ 64 → IsDigits x base (digit_loop 64 x base)
digit_loop-IsDigits x base (inl e) h =
    subst (λ b. IsDigits x b (digit_loop 64 x b)) (sym e)
      (record { value = read-loop_ten 64 x h; few = length-loop_ten 64 x 19 (omega arith) })
digit_loop-IsDigits x base (inr e) h =
    let few = length-loop_sixteen 64 x 15 (omega arith) in
    subst (λ b. IsDigits x b (digit_loop 64 x b)) (sym e)
      (record { value = read-loop_sixteen 64 x h; few = omega arith })

-- Writing the last pad, from any index: the sum is spelled so that the recursion meets it.
set-last :
    (ds : List ℕ) (k pre c i : ℕ)
    → i ≡ length ds + k
    → set (ds ++ replicate (suc k) pre) i c ≡ ds ++ (replicate k pre ++ c ∷ [])
set-last [] zero pre c zero e = refl
set-last [] zero pre c (suc i) e = absurd (omega arith)
set-last [] (suc k) pre c zero e = absurd (omega arith)
set-last [] (suc k) pre c (suc i) e = ap (λ l. pre ∷ l) (set-last [] k pre c i (omega arith))
set-last (d ∷ ds) k pre c zero e = absurd (omega arith)
set-last (d ∷ ds) k pre c (suc i) e = ap (λ l. d ∷ l) (set-last ds k pre c i (omega arith))

-- The sign that is printed, and the text in the order of the buffer, from its last character to
-- its first: digits, padding, sign.
abbrev pub sign_text : ℤ → Bool → List ℕ
sign_text xx sign = if negative xx sign then b'-' ∷ [] else []

pub record IsNumber (xx : ℤ) (base : ℕ) (sign : Bool) (len pre : ℕ) (buf : List ℕ) : Type 0 where
  pub ds : List ℕ
  pub value : read base ds ≡ magnitude xx sign
  pub shape :
      buf
      ≡ ds ++ (replicate (len - length ds - length (sign_text xx sign)) pre ++ sign_text xx sign)
  pub fits : length buf ≤ 34
  pub wide : len ≤ length buf

-- A signed 64-bit number.
abbrev pub IsLong : ℤ → Type 0
IsLong (pos n) = n < 2 ^ 63
IsLong (negsuc n) = n < 2 ^ 63

magnitude-lt : (xx : ℤ) (sign : Bool) → IsLong xx → magnitude xx sign < 2 ^ 64
magnitude-lt (pos n) sign h = omega arith
magnitude-lt (negsuc n) true h = omega arith
magnitude-lt (negsuc n) false h = omega arith

length-shape :
    (ds ts : List ℕ) (k pre : ℕ)
    → length (ds ++ (replicate k pre ++ ts)) ≡ length ds + k + length ts
length-shape ds ts k pre = omega (
  arith,
  length-append ds (replicate k pre ++ ts),
  length-append (replicate k pre) ts,
  length-replicate k pre,
)

length-sign_text : (xx : ℤ) (sign : Bool) → length (sign_text xx sign) ≤ 1
length-sign_text xx sign = ground arith

IsNumber-shape :
    (xx : ℤ) (base : ℕ) (sign : Bool) (len pre : ℕ) (ds buf : List ℕ)
    → IsDigits (magnitude xx sign) base ds
    → len ≤ 33
    → buf
      ≡ ds ++ (replicate (len - length ds - length (sign_text xx sign)) pre ++ sign_text xx sign)
    → IsNumber xx base sign len pre buf
IsNumber-shape xx base sign len pre ds buf d small e =
    let size =
      ap length e
      ∙ length-shape ds (sign_text xx sign) (len - length ds - length (sign_text xx sign)) pre in
    record {
      ds = ds;
      value = d.value;
      shape = e;
      fits = omega (arith, size, d.few, length-sign_text xx sign);
      wide = omega (arith, size);
    }

-- The buffer in the four cases: with or without padding, with or without a sign.
padded_negative :
    (ds : List ℕ) (len pre : ℕ)
    → length ds < len
    → set (ds ++ replicate (len - length ds) pre) (len - 1) b'-'
      ≡ ds ++ (replicate (len - length ds - 1) pre ++ b'-' ∷ [])
padded_negative ds len pre h =
    let more : len - length ds ≡ suc (len - length ds - 1) = omega arith in
    ap (λ n. set (ds ++ replicate n pre) (len - 1) b'-') more
    ∙ set-last ds (len - length ds - 1) pre b'-' (len - 1) (omega arith)

append_nil : (xs : List ℕ) → xs ≡ xs ++ []
append_nil [] = refl
append_nil (x ∷ xs) = ap (λ l. x ∷ l) (append_nil xs)

all_room : (n pre : ℕ) → replicate n pre ≡ replicate (n - 0) pre ++ []
all_room n pre = ap (λ k. replicate k pre) (omega arith) ∙ append_nil (replicate (n - 0) pre)

no_room : (n : ℕ) (pre : ℕ) (ts : List ℕ) → n ≡ 0 → ts ≡ replicate n pre ++ ts
no_room n pre ts e = rw e refl

-- The buffer of `printint` holds the digits, then the padding that the width still asks for, then
-- the sign.
pub number_buf-shape :
    (xx : ℤ) (base : ℕ) (sign : Bool) (len pre : ℕ)
    → number_buf xx base sign len pre
      ≡ digit_loop 64 (magnitude xx sign) base
        ++ (replicate
              (len - length (digit_loop 64 (magnitude xx sign) base) - length (sign_text xx sign))
              pre
            ++ sign_text xx sign)
unfolding number_buf
number_buf-shape xx base sign len pre =
    let ds = digit_loop 64 (magnitude xx sign) base in
    elim (Bool-cases (not (len == 0) && ltb (length ds) len)) [
      | inl pad ↦ elim (Bool-cases (negative xx sign)) [
        | inl neg ↦ rw (pad, neg) (padded_negative ds len pre (ground arith))
        | inr non ↦ rw (pad, non) (ap (λ l. ds ++ l) (all_room (len - length ds) pre))
      ]
      | inr full ↦ elim (Bool-cases (negative xx sign)) [
        | inl neg ↦
            rw (full, neg)
              (ap (λ l. ds ++ l) (no_room (len - length ds - 1) pre (b'-' ∷ []) (ground arith)))
        | inr non ↦
            rw (full, non)
              (append_nil ds
                ∙ ap (λ l. ds ++ l) (no_room (len - length ds - 0) pre [] (ground arith)))
      ]
    ]

-- For every signed 64-bit number, base 10 or 16 and a width of at most 33, the buffer of
-- `printint` holds digits that read back as the number's magnitude (its 64-bit pattern if no sign
-- is asked for), then the padding that the width still asks for, then a minus sign if the number
-- is printed as negative; it is at least as long as the width and fits the 34 bytes of `buf`.
pub number_buf-IsNumber :
    (xx : ℤ) (base : ℕ) (sign : Bool) (len pre : ℕ)
    → IsLong xx
    → IsBase base
    → len ≤ 33
    → IsNumber xx base sign len pre (number_buf xx base sign len pre)
number_buf-IsNumber xx base sign len pre long is small =
    IsNumber-shape xx base sign len pre (digit_loop 64 (magnitude xx sign) base) _
      (digit_loop-IsDigits (magnitude xx sign) base is (magnitude-lt xx sign long)) small
      (number_buf-shape xx base sign len pre)
