-- ===== src/Kapp.antt =====
-- kapp/rt.h, kapp/kernctest.c and kapp/minctest.c: the programs that measure how late a sleeping
-- thread wakes. Clocks and timers are read as arguments. A signed number that is never negative is a
-- natural number; a sum that leaves its type is `undefined`.
pub mod Latency
pub mod Deadline
pub mod Sleep
mod Tests
use rt.Prelude.{
  ℕ, zero, suc, ◌+◌, ◌-◌, ◌*◌, ◌/◌, ◌%◌, ◌^◌, Bool, true, false, not, ◌||◌, List, [], ◌∷◌, ltb, leb,
  ◌==◌, if◌then◌else◌,
}
use rt.Prelude.Run.{
  Cmd, Outcome, panic, out_of_fuel, undefined, ◌>>=◌, ◌>>◌, pure, assert, modify, gets,
}
use rt.Lapic.{lapic_timer_period}
use rt.Prelude.Int.{ℤ}
use rt.Console.{as_int}

-- `min`, `max`, `sum`, `act` and `cycles` of minctest.c.
pub record Stats : Type 0 where
  pub min : ℕ
  pub max : ℕ
  pub sum : ℕ
  pub act : ℕ
  pub cycles : ℕ

unfoldable pub updatestats : (diff : ℕ) → Cmd Stats (Unit {0})
updatestats diff = modify λ s. record {
  min = if ltb diff s.min then diff else s.min;
  max = if ltb s.max diff then diff else s.max;
  sum = (s.sum + diff) % 2 ^ 64;
  act = diff;
  cycles = (s.cycles + 1) % 2 ^ 64;
}

-- What `timerthread` of minctest.c starts from; `act` is not set there.
abbrev pub cleared_stats : (act : ℕ) → Stats
cleared_stats act = record { min = 1000000; max = 0; sum = 0; act = act; cycles = 0 }

-- A round of its loop, after the sleep: the timer's count and the ticks are read. The result is
-- `lastticks`.
unfoldable pub timer_round : (lastticks nowcct nowticks : ℕ) → Cmd Stats ℕ
unfolding updatestats
timer_round lastticks nowcct nowticks = do
  assert (nowticks == (lastticks + 1) % 2 ^ 64)
  updatestats ((lapic_timer_period + 2 ^ 64 - nowcct) % 2 ^ 64)
  pure nowticks

-- The rounds of the loop, on what is read in each.
unfoldable pub timer_rounds : (lastticks : ℕ) → List (ℕ × ℕ) → Cmd Stats ℕ
unfolding timer_round
timer_rounds lastticks [] = pure lastticks
timer_rounds lastticks (r ∷ rs) = timer_round lastticks r.0 r.1 >>= λ t. timer_rounds t rs

-- `struct thread_stat` of kernctest.c without `tid`, and the time `next` of its thread.
pub record Cyclic : Type 0 where
  pub next : ℕ
  pub max : ℕ
  pub min : ℕ
  pub act : ℕ
  pub sum : ℕ
  pub cycles : ℕ

-- `tssetus(&ts, us)`, for a number of microseconds that an `int` holds.
abbrev pub tssetus : ℕ → ℕ
tssetus us = us * 2600000000 / 1000000

-- `tsinc(&next, &interval)`.
unfoldable pub tsinc : (interval : ℕ) → Cmd Cyclic (Unit {0})
tsinc interval = do
  next ← gets (λ s. s.next)
  assert (ltb next ((next + interval) % 2 ^ 64))
  modify λ s. record s { next = (s.next + interval) % 2 ^ 64 }

-- `tsdelta` from the difference on: it is read as signed, and divided upwards.
unfoldable pub delta_us : (d : ℕ) → Cmd Cyclic ℕ
delta_us d =
    let up = (d + 2600 - 1) / 2600 in
    let checked = assert (not (up == 0)) >> pure up in
    if (d == 0) || leb (2 ^ 63) d
    then (λ _. panic)
    else if leb (2 ^ 63) (d + 2600)
    then (λ _. undefined)
    else checked

unfoldable pub tsdelta : (t1 t2 : ℕ) → Cmd Cyclic ℕ
unfolding delta_us
tsdelta t1 t2 = delta_us ((t1 + 2 ^ 64 - t2) % 2 ^ 64)

abbrev pub tsgreater : (a b : ℕ) → Bool
tsgreater a b = ltb b a

-- The statistics of one round.
unfoldable pub count_diff : (diff : ℕ) → Cmd Cyclic (Unit {0})
count_diff diff s =
    if leb (2 ^ 63) (s.sum + diff)
    then undefined
    else if leb (2 ^ 31) (s.cycles + 1)
    then undefined
    else modify
        (λ s. record s {
          min = if ltb diff s.min then diff else s.min;
          max = if ltb s.max diff then diff else s.max;
          act = diff;
          sum = s.sum + diff;
          cycles = s.cycles + 1;
        })
        s

-- `while (tsgreater(&now, &next)) tsinc(&next, &interval);`
unfoldable pub catch_up : (fuel now interval : ℕ) → Cmd Cyclic (Unit {0})
unfolding tsinc
catch_up zero now interval = λ _. out_of_fuel
catch_up (suc fuel) now interval =
    let rest = tsinc interval >> catch_up fuel now interval in
    do next ← gets (λ s. s.next); if tsgreater now next then rest else pure tt

-- A round of the loop of `timerthread`, after the sleep, when the clock reads `now`.
unfoldable pub cyclic_round : (fuel now interval : ℕ) → Cmd Cyclic (Unit {0})
unfolding tsdelta count_diff tsinc catch_up
cyclic_round fuel now interval = do
  next ← gets (λ s. s.next)
  diff ← tsdelta now next
  assert (not (diff == 0))
  count_diff diff
  tsinc interval
  catch_up fuel now interval

-- `TSC_TO_LAPIC(i)`.
abbrev pub tsc_to_lapic : ℕ → ℕ
tsc_to_lapic i = i * 5 % 2 ^ 64 / 13

-- The timer counts that `tssleepto` is to sleep: `d` is the time to wake at, `now` is what the clock
-- reads and `count` what the timer reads.
abbrev pub sleep_lapic : (d now count : ℕ) → ℕ
sleep_lapic d now count =
    let rem = (tsc_to_lapic ((d + 2 ^ 64 - now) % 2 ^ 64) + 2 ^ 64 - count) % 2 ^ 64 in
    if leb (2 ^ 63) rem then 1 else rem

-- The ticks that it passes to `sleep`: an `int` takes the low 32 bits of the count.
abbrev pub sleep_ticks : (d now count : ℕ) → ℤ
sleep_ticks d now count =
    as_int ((sleep_lapic d now count + lapic_timer_period - 1) % 2 ^ 64 / lapic_timer_period)
