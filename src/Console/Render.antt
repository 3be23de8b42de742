-- ===== src/Console/Render.antt =====
-- kernel/console.c: what a format of `vcprintf` means: its directives, the bytes that spell them,
-- the arguments they take and the text they stand for.
use rt.Prelude.{
  ℕ, ◌+◌, ◌-◌, ◌*◌, ◌≤◌, ◌<◌, ◌≡◌, ◌≢◌, Bool, true, false, List, [], ◌∷◌, ◌++◌, length, replicate,
}
use rt.Prelude.Int.{ℤ}
use rt.Memory.{Mem}
use rt.Console.{digit_loop, magnitude, backwards, isdigit, as_int, as_long, null_text}
use rt.Console.Number.{sign_text}
use rt.Console.Format.{IsText, text_at}

-- The letter behind a `%` and the argument it takes; a string comes with its length.
pub data Kind : Type 0 where
  int : (a : ℕ) → Kind
  long : (a : ℕ) → Kind
  hex : (a : ℕ) → Kind
  long_hex : (a : ℕ) → Kind
  pointer : (a : ℕ) → Kind
  string : (a k : ℕ) → Kind
  null_string : Kind
  percent : Kind
  other : (c : ℕ) → Kind

-- A character, or a `%` with the digits of a width and a letter.
pub data Directive : Type 0 where
  char : (c : ℕ) → Directive
  convert : (ds : List ℕ) (kind : Kind) → Directive

abbrev pub letter : Kind → ℕ
letter (int a) = b'd'
letter (long a) = b'l'
letter (hex a) = b'x'
letter (long_hex a) = b'y'
letter (pointer a) = b'p'
letter (string a k) = b's'
letter null_string = b's'
letter percent = b'%'
letter (other c) = c

-- The bytes of a format, with the one that ends it.
abbrev pub format : List Directive → List ℕ
format [] = 0 ∷ []
format (char c ∷ fs) = c ∷ format fs
format (convert ds kind ∷ fs) = b'%' ∷ (ds ++ letter kind ∷ format fs)

-- The argument of a letter, before the others.
abbrev pub with_arg : Kind → List ℕ → List ℕ
with_arg (int a) rest = a ∷ rest
with_arg (long a) rest = a ∷ rest
with_arg (hex a) rest = a ∷ rest
with_arg (long_hex a) rest = a ∷ rest
with_arg (pointer a) rest = a ∷ rest
with_arg (string a k) rest = a ∷ rest
with_arg null_string rest = 0 ∷ rest
with_arg percent rest = rest
with_arg (other c) rest = rest

-- The arguments of a format; more of them may follow.
abbrev pub arguments : List Directive → List ℕ → List ℕ
arguments [] extra = extra
arguments (char c ∷ fs) extra = arguments fs extra
arguments (convert ds kind ∷ fs) extra = with_arg kind (arguments fs extra)

-- The width that digits spell, behind the value `w`.
abbrev pub width_of : (w : ℕ) → List ℕ → ℕ
width_of w [] = w
width_of w (d ∷ ds) = width_of (w * 10 + d - b'0') ds

-- A number as text: its sign, then the padding, then its digits
-- from the highest.
abbrev pub numeral : (xx : ℤ) (base : ℕ) (sign : Bool) (len pre : ℕ) → List ℕ
numeral xx base sign len pre =
    let ds = digit_loop 64 (magnitude xx sign) base in
    sign_text xx sign
    ++ (replicate (len - length ds - length (sign_text xx sign)) pre ++ backwards ds)

abbrev pub shown : Mem → Kind → (w : ℕ) → List ℕ
shown m (int a) w = numeral (as_int a) 10 true w b' '
shown m (long a) w = numeral (as_long a) 10 true w b' '
shown m (hex a) w = numeral (as_int a) 16 false w b' '
shown m (long_hex a) w = numeral (as_long a) 16 false w b' '
shown m (pointer a) w = numeral (as_long a) 16 false 16 b'0'
shown m (string a k) w = text_at m a k
shown m null_string w = null_text
shown m percent w = b'%' ∷ []
shown m (other c) w = b'%' ∷ c ∷ []

abbrev pub render : Mem → List Directive → List ℕ
render m [] = []
render m (char c ∷ fs) = c ∷ render m fs
render m (convert ds kind ∷ fs) = shown m kind (width_of 0 ds) ++ render m fs

-- The letters that `vcprintf` knows.
abbrev pub known : List ℕ
known = b'd' ∷ b'l' ∷ b'x' ∷ b'y' ∷ b'p' ∷ b's' ∷ b'%' ∷ []

-- A byte is none of a list's.
abbrev pub IsNoneOf : ℕ → List ℕ → Type 0
IsNoneOf c [] = Unit {0}
IsNoneOf c (x ∷ xs) = (c ≢ x) × IsNoneOf c xs

-- What a letter asks of its width and its argument: numbers have a width of at most 33, a string
-- stands in memory, and a letter that is not known is neither the end nor a digit.
abbrev pub Fits : Mem → Kind → (w : ℕ) → Type 0
Fits m (int a) w = w ≤ 33
Fits m (long a) w = w ≤ 33
Fits m (hex a) w = w ≤ 33
Fits m (long_hex a) w = w ≤ 33
Fits m (pointer a) w = Unit {0}
Fits m (string a k) w = (0 < a) × IsText m a k
Fits m null_string w = Unit {0}
Fits m percent w = Unit {0}
Fits m (other c) w = IsNoneOf c known × (c ≢ 0) × (isdigit c ≡ false)

abbrev pub AreDigits : List ℕ → Type 0
AreDigits [] = Unit {0}
AreDigits (d ∷ ds) = (isdigit d ≡ true) × AreDigits ds

abbrev pub IsFormat : Mem → List Directive → Type 0
IsFormat m [] = Unit {0}
IsFormat m (char c ∷ fs) = ((c ≢ 0) × (c ≢ b'%')) × IsFormat m fs
IsFormat m (convert ds kind ∷ fs) = (AreDigits ds × Fits m kind (width_of 0 ds)) × IsFormat m fs

-- The tests a loop inside needs, and those of the whole format.
abbrev pub inner : Kind → ℕ
inner (int a) = 0
inner (long a) = 0
inner (hex a) = 0
inner (long_hex a) = 0
inner (pointer a) = 0
inner (string a k) = k
inner null_string = 0
inner percent = 0
inner (other c) = 0

abbrev pub rounds : List Directive → ℕ
rounds [] = 1
rounds (char c ∷ fs) = 1 + rounds fs
rounds (convert ds kind ∷ fs) = 1 + length ds + inner kind + rounds fs

-- The bytes `cs` stand from index `i` of the array at `a`.
abbrev pub IsStored : Mem → (a i : ℕ) → List ℕ → Type 0
IsStored m a i [] = Unit {0}
IsStored m a i (c ∷ cs) = (m (a + i) ≡ c) × IsStored m a (i + 1) cs
