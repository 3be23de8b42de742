-- ===== src/Str/Length.antt =====
-- `strlen` finds the first zero byte.
use rt.Prelude.{ℕ, zero, suc, ◌+◌, ◌<◌, ◌≡◌, ◌≢◌, ◌∙◌, some, arith, ap}
use rt.Memory.{Mem}
use rt.Str.{strlen_from, strlen}

strlen_from-first :
    (k : ℕ) (m : Mem) (s n fuel : ℕ)
    → ((i : ℕ) → i < k → m (s + n + i) ≢ 0)
    → m (s + n + k) ≡ 0
    → k < fuel
    → strlen_from m s n fuel ≡ some (n + k)
unfolding strlen_from
strlen_from-first k m s n zero text nul h = absurd (omega arith)
strlen_from-first zero m s n (suc fuel) text nul h = ground arith
strlen_from-first (suc k) m s n (suc fuel) text nul h = ground (
  arith,
  text 0,
  strlen_from-first k m s (n + 1) fuel (λ i lt. ground (arith, text (suc i))) (ground arith),
)

-- `strlen` of a string whose first zero byte is at `k` returns `k`, with fuel for `k + 1` reads.
pub strlen-first :
    (m : Mem) (s k fuel : ℕ)
    → ((i : ℕ) → i < k → m (s + i) ≢ 0)
    → m (s + k) ≡ 0
    → k < fuel
    → strlen m s fuel ≡ some k
unfolding strlen
strlen-first m s k fuel text nul h =
    strlen_from-first k m s 0 fuel (λ i lt. ground (arith, text i)) (ground arith) h
    ∙ ap some (omega arith)
