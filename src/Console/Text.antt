-- ===== src/Console/Text.antt =====
-- kernel/console.c: `cprintf("%s", s)` as a whole.
use rt.Prelude.{ℕ, zero, suc, ◌+◌, ◌≤◌, ◌<◌, ◌≡◌, refl, ◌∙◌, ap, false, List, [], ◌∷◌, arith, ◌==◌}
use rt.Prelude.Run.{done, and_then, ◌>>=◌}
use rt.Memory.{Mem}
use rt.Memory.Laws.{IsBytes}
use rt.Console.{Console, isdigit, width, conversion, format_loop, vcprintf}
use rt.Console.Format.{printed, IsText, text_at, print_string-text}

-- The literal `"%s"` stands at `fmt`.
pub record IsPercentS (m : Mem) (fmt : ℕ) : Type 0 where
  pub not_null : 0 < fmt
  pub percent : m fmt ≡ b'%'
  pub letter : m (fmt + 1) ≡ b's'
  pub nul : m (fmt + 2) ≡ 0

-- No width stands before the letter.
no_width : (m : Mem) (fmt fuel : ℕ) → IsPercentS m fmt → width m fuel fmt 1 0 ≡ (0, 1)
unfolding width isdigit
no_width m fmt zero l = refl
no_width m fmt (suc fuel) l = rw (l.letter) refl

end_of_format :
    (m : Mem) (fmt fuel : ℕ) (out : Console)
    → IsPercentS m fmt
    → format_loop m (suc fuel) fmt 2 [] out ≡ done tt out
unfolding format_loop
end_of_format m fmt fuel out l = rw (l.nul) refl

string_conversion :
    (m : Mem) (fuel a k : ℕ) (out : Console)
    → IsBytes m
    → out.panicked ≡ false
    → 0 < a
    → IsText m a k
    → k < fuel
    → conversion m fuel b's' 0 (a ∷ []) out ≡ done [] (printed out (text_at m a k))
unfolding conversion
string_conversion m fuel a k out bytes live some_text t h =
    let there : (a == 0) ≡ false = ground arith in
    rw (there, print_string-text m a k fuel out bytes live t h) refl

-- The round of the loop that meets the conversion.
convert :
    (m : Mem) (fmt fuel : ℕ) (args : List ℕ) (out : Console)
    → IsPercentS m fmt
    → format_loop m (suc fuel) fmt 0 args out
      ≡ (conversion m fuel b's' 0 args >>= (λ rest. format_loop m fuel fmt 2 rest)) out
unfolding format_loop
convert m fmt fuel args out l =
    let first : fmt + 0 ≡ fmt = omega arith in
    rw (first, l.percent, no_width m fmt fuel l, l.letter) refl

-- On a memory of bytes and a console that has not panicked, `vcprintf` with the format `%s` and a
-- string of `k` bytes, at an address that is not null, prints exactly those bytes on both devices
-- and ends, with fuel for `k + 2` rounds.
pub vcprintf-text :
    (m : Mem) (fmt a k fuel : ℕ) (out : Console)
    → IsBytes m
    → IsPercentS m fmt
    → out.panicked ≡ false
    → 0 < a
    → IsText m a k
    → k + 2 ≤ fuel
    → vcprintf m fuel fmt (a ∷ []) out ≡ done tt (printed out (text_at m a k))
unfolding vcprintf
vcprintf-text m fmt a k zero out bytes l live some_text t h = absurd (omega arith)
vcprintf-text m fmt a k (suc zero) out bytes l live some_text t h = absurd (omega arith)
vcprintf-text m fmt a k (suc (suc fuel)) out bytes l live some_text t h =
    let there : (fmt == 0) ≡ false = ground (arith, l.not_null) in
    rw there (
      convert m fmt (suc fuel) (a ∷ []) out l
      ∙ ap (λ r. and_then r (λ rest. format_loop m (suc fuel) fmt 2 rest))
          (string_conversion m (suc fuel) a k out bytes live some_text t (omega arith))
      ∙ end_of_format m fmt fuel (printed out (text_at m a k)) l)
