-- ===== src/Kapp/Sleep.antt =====
-- kapp/rt.h: how many ticks `tssleepto` sleeps, against the counts of the timer. A tick comes when the
-- timer has counted down from what it reads to zero, and then after every period.
use native.Mathlib.Decide.{dec_lt}
use rt.Prelude.{
  ℕ, ◌+◌, ◌-◌, ◌*◌, ◌/◌, ◌%◌, ◌^◌, ◌<◌, ◌≤◌, ◌≡◌, refl, true, false, leb, arith, if◌then◌else◌,
}
use rt.Lapic.{lapic_timer_period}
use rt.Prelude.Int.{ℤ, pos}
use rt.Console.{as_int}
use rt.Kapp.{tssetus, tsc_to_lapic, sleep_ticks}

-- `lapic` counts are left to the deadline, `count` to the next tick. A deadline behind the next tick
-- lies between the tick that ends the sleep and the tick after that.
pub record IsBracketed (lapic count ticks : ℕ) : Type 0 where
  pub behind :
      count < lapic
      → (1 ≤ ticks) × (count + (ticks - 1) * 10000000 < lapic) × (lapic ≤ count + ticks * 10000000)
  pub before : lapic < count → ticks ≡ 1
  pub at_tick : lapic ≡ count → ticks ≡ 0

-- `sleep_lapic` on the counts to the deadline.
abbrev rest : (lapic count : ℕ) → ℕ
rest lapic count =
    let rem = (lapic + 2 ^ 64 - count) % 2 ^ 64 in if leb (2 ^ 63) rem then 1 else rem

bracket :
    (lapic count : ℕ)
    → lapic < 2 ^ 62
    → count ≤ 10000000
    → IsBracketed lapic count ((rest lapic count + lapic_timer_period - 1) / lapic_timer_period)
bracket lapic count h k = elim (dec_lt lapic count) [
  | yes l ↦
      let a : (lapic + 2 ^ 64 - count) % 2 ^ 64 ≡ lapic + 2 ^ 64 - count = ground arith in
      let b : leb (2 ^ 63) (lapic + 2 ^ 64 - count) ≡ true = ground arith in
      rw (a, b)
        record {
          behind = λ g. absurd (omega arith);
          before = λ _. refl;
          at_tick = λ e. absurd (omega arith);
        }
  | no n ↦
      let a : (lapic + 2 ^ 64 - count) % 2 ^ 64 ≡ lapic - count = ground arith in
      let b : leb (2 ^ 63) (lapic - count) ≡ false = ground arith in
      rw (a, b)
        record {
          behind = λ g. (ground arith, ground arith, ground arith);
          before = λ g. absurd (omega arith);
          at_tick = λ e. ground arith;
        }
]

-- A count of ticks that fits an `int` is passed on as it is.
as_int-small : (n : ℕ) → n < 2 ^ 31 → as_int n ≡ pos n
as_int-small n h = ground arith

-- The counts to sleep are not more than those to the deadline, but for the one at least.
rest-le : (lapic count : ℕ) → lapic < 2 ^ 54 → count ≤ 10000000 → rest lapic count ≤ 2 ^ 54
rest-le lapic count h k = ground arith

-- What `tssleepto` passes to `sleep`, as a number of ticks.
pub record IsSlept (lapic count : ℕ) (passed : ℤ) : Type 0 where
  pub ticks : ℕ
  pub passed_eq : passed ≡ pos ticks
  pub bracketed : IsBracketed lapic count ticks

-- For a deadline not before the clock, below 2 ^ 55, and a timer count within its period, the
-- number of ticks that `tssleepto` passes to `sleep` fits its `int`. The tick at which it wakes
-- is the last one before the deadline if that lies behind the next tick, and the next tick if the
-- deadline lies before it; if the deadline is the next tick, it does not sleep.
pub sleep_ticks-IsBracketed :
    (d now count : ℕ)
    → now ≤ d
    → d < 2 ^ 55
    → count ≤ 10000000
    → IsSlept (tsc_to_lapic (d - now)) count (sleep_ticks d now count)
sleep_ticks-IsBracketed d now count h k l =
    let e : (d + 2 ^ 64 - now) % 2 ^ 64 ≡ d - now = ground arith in
    let lapic = tsc_to_lapic (d - now) in
    let below : lapic < 2 ^ 54 = omega arith in
    let small = rest-le lapic count below l in
    let whole : (rest lapic count + lapic_timer_period - 1) % 2 ^ 64
        ≡ rest lapic count + lapic_timer_period - 1 =
      omega (arith, small) in
    rw (e, whole)
      (record {
        ticks = (rest lapic count + lapic_timer_period - 1) / lapic_timer_period;
        passed_eq = as_int-small _ (omega (arith, small));
        bracketed = bracket lapic count (omega (arith, below)) l;
      })

pub tssetus_exact : (us : ℕ) → us < 2 ^ 31 → (tssetus us ≡ 2600 * us) × (tssetus us < 2 ^ 63)
tssetus_exact us h = (omega arith, omega arith)
