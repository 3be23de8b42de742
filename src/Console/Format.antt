-- ===== src/Console/Format.antt =====
-- kernel/console.c: what `consputc`, `printint` and `vcprintf` hand to the devices, in order.
use rt.Prelude.{
  ℕ, zero, suc, ◌+◌, ◌<◌, ◌≡◌, ◌≢◌, refl, sym, ◌∙◌, ap, true, false, List, [], ◌∷◌, ◌++◌, arith,
  ◌==◌,
}
use rt.Prelude.Run.{done}
use rt.Memory.{Mem}
use rt.Memory.Laws.{IsBytes}
use rt.Console.{Console, consputc, put_all, char_arg, print_string}

-- The console after the characters of `cs`, in this order, on both devices.
abbrev pub printed : Console → List ℕ → Console
printed s cs = record s { uart = s.uart ++ cs; cga = s.cga ++ cs }

-- No character is the code of a backspace, which takes three characters on the serial line.
abbrev pub IsPlain : List ℕ → Type 0
IsPlain [] = Unit {0}
IsPlain (c ∷ cs) = (c ≢ 256) × IsPlain cs

pub append_assoc : (xs ys zs : List ℕ) → (xs ++ ys) ++ zs ≡ xs ++ (ys ++ zs)
append_assoc [] ys zs = refl
append_assoc (x ∷ xs) ys zs = ap (λ l. x ∷ l) (append_assoc xs ys zs)

pub append_nil : (xs : List ℕ) → xs ++ [] ≡ xs
append_nil [] = refl
append_nil (x ∷ xs) = ap (λ l. x ∷ l) (append_nil xs)

pub printed_nil : (s : Console) → printed s [] ≡ s
printed_nil s = rw (append_nil s.uart, append_nil s.cga) refl

pub printed_cons :
    (s : Console) (c : ℕ) (cs : List ℕ) → printed (printed s (c ∷ [])) cs ≡ printed s (c ∷ cs)
printed_cons s c cs = rw (append_assoc s.uart (c ∷ []) cs, append_assoc s.cga (c ∷ []) cs) refl

pub consputc-plain :
    (s : Console) (c : ℕ)
    → s.panicked ≡ false
    → c ≢ 256
    → consputc c s ≡ done tt (printed s (c ∷ []))
unfolding consputc
consputc-plain s c live ne = ground arith

pub put_all-printed :
    (cs : List ℕ) (s : Console)
    → s.panicked ≡ false
    → IsPlain cs
    → put_all cs s ≡ done tt (printed s cs)
unfolding put_all
put_all-printed [] s live plain = ap (done tt) (sym (printed_nil s))
put_all-printed (c ∷ cs) s live plain =
    rw (consputc-plain s c live plain.0)
      (put_all-printed cs (printed s (c ∷ [])) live plain.1 ∙ ap (done tt) (printed_cons s c cs))

-- The bytes of a string as the characters passed on.
abbrev pub text_at : Mem → ℕ → ℕ → List ℕ
text_at m s zero = []
text_at m s (suc k) = char_arg (m s) ∷ text_at m (s + 1) k

-- The string at `s` has `k` bytes.
pub record IsText (m : Mem) (s k : ℕ) : Type 0 where
  pub text : (i : ℕ) → i < k → m (s + i) ≢ 0
  pub nul : m (s + k) ≡ 0

char_arg-plain : (b : ℕ) → b < 256 → char_arg b ≢ 256
char_arg-plain b h = ground arith

IsText-suc : (m : Mem) (s k : ℕ) → IsText m s (suc k) → IsText m (s + 1) k
IsText-suc m s k t = record {
  text = λ i h. ground (arith, t.text (suc i));
  nul = ground (arith, t.nul);
}

-- On a console that has not panicked and a memory of bytes, the loop of `%s` prints a string of
-- `k` bytes as those bytes, in order, on both devices, and ends with fuel for `k + 1` tests.
pub print_string-text :
    (m : Mem) (s k fuel : ℕ) (out : Console)
    → IsBytes m
    → out.panicked ≡ false
    → IsText m s k
    → k < fuel
    → print_string m fuel s out ≡ done tt (printed out (text_at m s k))
unfolding print_string
print_string-text m s k zero out bytes live t h = absurd (omega arith)
print_string-text m s zero (suc fuel) out bytes live t h =
    let stop : (m s == 0) ≡ true = ground (arith, t.nul) in
    rw stop (ap (done tt) (sym (printed_nil out)))
print_string-text m s (suc k) (suc fuel) out bytes live t h =
    let on : (m s == 0) ≡ false = ground (arith, t.text 0) in
    rw (on, consputc-plain out (char_arg (m s)) live (char_arg-plain (m s) (bytes s)))
      (print_string-text m (s + 1) k fuel (printed out (char_arg (m s) ∷ [])) bytes live
          (IsText-suc m s k t) (omega arith)
        ∙ ap (done tt) (printed_cons out (char_arg (m s)) (text_at m (s + 1) k)))
