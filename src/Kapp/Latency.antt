-- ===== src/Kapp/Latency.antt =====
-- kapp/minctest.c: the statistics of the wake-ups of its timer thread.
use Prim.Native.Nat.{min, max}
use mathlib.Core.Path.{subst}
use native.Mathlib.Nat.{le-div_iff_mul-le, div-le_of_le-mul}
use rt.Prelude.{
  ℕ, ◌+◌, ◌-◌, ◌*◌, ◌/◌, ◌%◌, ◌^◌, ◌<◌, ◌≤◌, ◌≡◌, refl, sym, true, List, [], ◌∷◌, ◌==◌, length,
  arith,
}
use rt.Prelude.Run.{Returns, returns, bind, and_then, ◌>>=◌, pure}
use rt.Kapp.{Stats, updatestats, timer_round, timer_rounds}

-- The smallest and the largest of some latencies, counting the value that the minimum starts with,
-- and their sum.
abbrev pub least : List ℕ → ℕ
least [] = 1000000
least (d ∷ ds) = min d (least ds)

abbrev pub greatest : List ℕ → ℕ
greatest [] = 0
greatest (d ∷ ds) = max d (greatest ds)

abbrev pub total : List ℕ → ℕ
total [] = 0
total (d ∷ ds) = d + total ds

-- The statistics are those of the latencies `ds`, and the average that is printed lies between the
-- smallest and the largest.
pub record IsMeasured (ds : List ℕ) (s : Stats) : Type 0 where
  pub min_eq : s.min ≡ least ds
  pub max_eq : s.max ≡ greatest ds
  pub sum_eq : s.sum ≡ total ds
  pub cycles_eq : s.cycles ≡ length ds
  pub average : 0 < s.cycles → (s.min ≤ s.sum / s.cycles) × (s.sum / s.cycles ≤ s.max)

-- The latencies of the wake-ups, added in front of earlier ones.
abbrev pub seen : List (ℕ × ℕ) → List ℕ → List ℕ
seen [] ds = ds
seen (r ∷ rs) ds = seen rs ((10000000 - r.0) ∷ ds)

-- Each wake-up is one tick after the last one, and the timer's count is no more than its period.
pub data IsRegular : ℕ → List (ℕ × ℕ) → Type 0 where
  end : {t : ℕ} → IsRegular t []
  wake :
      {t count : ℕ} {rs : List (ℕ × ℕ)}
      → count ≤ 10000000
      → t + 1 < 2 ^ 64
      → IsRegular (t + 1) rs
      → IsRegular t ((count, t + 1) ∷ rs)

total_from : (m : ℕ) (ds : List ℕ) → m ≤ least ds → m * length ds ≤ total ds
total_from m [] h = ground arith
total_from m (d ∷ ds) h = ground (arith, total_from m ds (omega arith))

total_to : (m : ℕ) (ds : List ℕ) → greatest ds ≤ m → total ds ≤ length ds * m
total_to m [] h = ground arith
total_to m (d ∷ ds) h = ground (arith, total_to m ds (omega arith))

pub measured :
    (ds : List ℕ) (s : Stats)
    → s.min ≡ least ds
    → s.max ≡ greatest ds
    → s.sum ≡ total ds
    → s.cycles ≡ length ds
    → IsMeasured ds s
measured ds s a b c d = record {
  min_eq = a;
  max_eq = b;
  sum_eq = c;
  cycles_eq = d;
  average = λ h. (
    (le-div_iff_mul-le h).1 (
        subst (λ n. s.min * n ≤ s.sum) (sym d)
          (subst (λ n. s.min * length ds ≤ n) (sym c) (total_from s.min ds (omega arith)))),
    div-le_of_le-mul s.cycles (
        subst (λ n. s.sum ≤ n * s.max) (sym d)
          (subst (λ n. n ≤ length ds * s.max) (sym c) (total_to s.max ds (omega arith)))),
  );
}

-- All of the sums fit.
abbrev pub Fits : List ℕ → Type 0
Fits ds = (greatest ds ≤ 10000000) × (length ds < 2 ^ 40)

updatestats-IsMeasured :
    (d : ℕ) (ds : List ℕ) (s : Stats)
    → d ≤ 10000000
    → Fits ds
    → IsMeasured ds s
    → Returns (λ _ s'. IsMeasured (d ∷ ds) s') (updatestats d s)
unfolding updatestats
updatestats-IsMeasured d ds s h f m =
    let t = total_to 10000000 ds f.0 in
    let l = f.1 in
    returns (
      measured (d ∷ ds) _ (ground (arith, m.min_eq)) (ground (arith, m.max_eq))
        (ground (arith, m.sum_eq, t, l)) (ground (arith, m.cycles_eq, l)))

-- A wake-up at the right tick passes the assertion.
timer_round-eq :
    (t count : ℕ) (s : Stats)
    → count ≤ 10000000
    → t + 1 < 2 ^ 64
    → timer_round t count (t + 1) s ≡ (updatestats (10000000 - count) >>= λ _. pure (t + 1)) s
unfolding timer_round
timer_round-eq t count s h k =
    let a : (t + 1 == (t + 1) % 2 ^ 64) ≡ true = ground arith in
    let b : (10000000 + 2 ^ 64 - count) % 2 ^ 64 ≡ 10000000 - count = ground arith in rw (a, b) refl

-- From statistics of earlier latencies of at most 10,000,000, for wake-ups one tick apart with
-- counts within the timer's period (fewer than 2 ^ 40 in all), the loop of the timer thread meets
-- no failing assertion; the minimum is then the least of 1,000,000 and the latencies, the maximum
-- the greatest, sum and number are theirs, and the average that is printed lies between minimum
-- and maximum.
pub timer_rounds-IsMeasured :
    {t : ℕ} {rs : List (ℕ × ℕ)} (ds : List ℕ) (s : Stats)
    → IsRegular t rs
    → greatest ds ≤ 10000000
    → length ds + length rs ≤ 2 ^ 40
    → IsMeasured ds s
    → Returns (λ _ s'. IsMeasured (seen rs ds) s') (timer_rounds t rs s)
unfolding timer_rounds
timer_rounds-IsMeasured ds s end g l m = returns m
timer_rounds-IsMeasured {t} ds s (wake {count} {rs} h k rest) g l m =
    subst
      (λ o.
        Returns (λ _ s'. IsMeasured (seen rs ((10000000 - count) ∷ ds)) s')
          (and_then o (λ u. timer_rounds u rs)))
      (sym (timer_round-eq t count s h k))
      (bind (updatestats-IsMeasured (10000000 - count) ds s (omega arith) (g, omega arith) m)
        λ _ s1 m1.
          timer_rounds-IsMeasured ((10000000 - count) ∷ ds) s1 rest (omega arith) (omega arith) m1)
