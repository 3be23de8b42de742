-- ===== src/Kapp/Tests.antt =====
-- The measuring programs on small inputs.
use rt.Prelude.Int.{negsuc}
use rt.Prelude.{ℕ, ◌≡◌, ◌^◌, refl, List, [], ◌∷◌, arith}
use rt.Prelude.Run.{Returns}
use rt.Kapp.{Cyclic, cleared_stats, timer_rounds, cyclic_round, sleep_ticks, tsc_to_lapic}
use rt.Kapp.Latency.{IsMeasured, IsRegular, measured, timer_rounds-IsMeasured}
use rt.Kapp.Deadline.{IsCounted, cyclic_round-IsCounted}
use rt.Kapp.Sleep.{IsSlept, sleep_ticks-IsBracketed}

abbrev wakes : List (ℕ × ℕ)
wakes = (9999000, 8) ∷ (9998000, 9) ∷ []

wakes-IsRegular : IsRegular 7 wakes
wakes-IsRegular =
    IsRegular.wake (omega arith) (omega arith)
      (IsRegular.wake (omega arith) (omega arith) IsRegular.end)

none_yet : IsMeasured [] (cleared_stats 0)
none_yet = measured [] (cleared_stats 0) refl refl refl refl

timer_rounds-IsMeasured_example :
    Returns (λ _ s'. IsMeasured (2000 ∷ 1000 ∷ []) s') (timer_rounds 7 wakes (cleared_stats 0))
timer_rounds-IsMeasured_example =
    timer_rounds-IsMeasured [] (cleared_stats 0) wakes-IsRegular (omega arith) (omega arith)
      none_yet

abbrev waiting : Cyclic
waiting = record { next = 5000; max = 0; min = 100000; act = 0; sum = 0; cycles = 0 }

cyclic_round-IsCounted_example :
    Returns (λ _ s'. IsCounted 13000 2600 waiting s') (cyclic_round 13001 13000 2600 waiting)
cyclic_round-IsCounted_example =
    cyclic_round-IsCounted 13000 2600 (omega arith) (omega arith) waiting (omega arith)
      (omega arith) (omega arith)

sleep_ticks-IsBracketed_example :
    IsSlept (tsc_to_lapic 65000000) 4000000 (sleep_ticks 70000000 5000000 4000000)
sleep_ticks-IsBracketed_example =
    sleep_ticks-IsBracketed 70000000 5000000 4000000 (omega arith) (omega arith) (omega arith)

-- The ticks to a deadline 2 ^ 56 clock cycles ahead do not fit an `int`: `sleep` gets a negative
-- number.
sleep_ticks_far : sleep_ticks (2 ^ 56) 0 0 ≡ negsuc 1523521370
sleep_ticks_far = refl
