-- ===== src/Kapp/Deadline.antt =====
-- kapp/kernctest.c: a round of its timer thread counts how late it woke, and moves the deadline on to
-- the first one that has not passed.
use mathlib.Core.Path.{subst}
use native.Mathlib.Decide.{dec_lt}
use rt.Prelude.{
  ℕ, zero, suc, ◌+◌, ◌-◌, ◌*◌, ◌/◌, ◌%◌, ◌^◌, ◌<◌, ◌≤◌, ◌≡◌, refl, sym, ap, ◌∙◌, true, false, ltb,
  leb, ◌==◌, not, arith, if◌then◌else◌,
}
use rt.Prelude.Run.{Outcome, Returns, returns, assert, mono, and_then, ◌>>◌}
use rt.Kapp.{Cyclic, tsinc, delta_us, tsdelta, count_diff, catch_up, cyclic_round}

-- The deadline moved by whole intervals to the first one that is not before `now`; nothing else
-- changed.
pub record IsNext (now interval : ℕ) (s s' : Cyclic) : Type 0 where
  pub steps : ℕ
  pub next_eq : s'.next ≡ s.next + steps * interval
  pub not_before : now ≤ s'.next
  pub first : 0 < steps → s'.next < now + interval
  pub rest : s' ≡ record s { next = s'.next }

enough : (a b c : ℕ) → 0 < c → a ≤ b + a * c
enough zero b c h = omega arith
enough (suc a) b c h = ground (arith, enough a b c h)

module _ (now interval : ℕ) (pos : 0 < interval) (fits : now + interval < 2 ^ 64) where
  tsinc_lem :
      (s : Cyclic)
      → s.next ≤ now
      → tsinc interval s ≡ Outcome.done tt (record s { next = s.next + interval })
  unfolding tsinc
  tsinc_lem s h =
      let a : (s.next + interval) % 2 ^ 64 ≡ s.next + interval = ground arith in
      let b : ltb s.next ((s.next + interval) % 2 ^ 64) ≡ true = ground arith in
      (rw (b) refl) ∙ ap (λ n. Outcome.done tt (record s { next = n })) a

  catch-stops :
      (fuel : ℕ) (s : Cyclic)
      → now ≤ s.next
      → catch_up (suc fuel) now interval s ≡ Outcome.done tt s
  unfolding catch_up
  catch-stops fuel s h = let a : ltb s.next now ≡ false = ground arith in rw (a) refl

  catch-goes :
      (fuel : ℕ) (s : Cyclic)
      → s.next < now
      → catch_up (suc fuel) now interval s ≡ (tsinc interval >> catch_up fuel now interval) s
  unfolding catch_up
  catch-goes fuel s h = let a : ltb s.next now ≡ true = ground arith in rw (a) refl

  stays : (s : Cyclic) → now ≤ s.next → IsNext now interval s s
  stays s h = record {
    steps = 0;
    next_eq = ground arith;
    not_before = h;
    first = λ p. absurd (omega arith);
    rest = refl;
  }

  -- One interval, and then those after it.
  moved :
      (s s' : Cyclic)
      → s.next < now
      → IsNext now interval (record s { next = s.next + interval }) s'
      → IsNext now interval s s'
  moved s s' l n = record {
    steps = suc n.steps;
    next_eq = ground (arith, n.next_eq);
    not_before = n.not_before;
    first = λ _. elim (dec_lt 0 n.steps) [
      | yes p ↦ n.first p
      | no p ↦
          let z : n.steps ≡ 0 = omega arith in
          let e : s'.next ≡ s.next + interval + 0 * interval =
            n.next_eq ∙ ap (λ k. s.next + interval + k * interval) z in
          ground (arith, e)
    ];
    rest = n.rest;
  }

  catch_up-IsNext :
      (fuel : ℕ) (s : Cyclic)
      → now ≤ s.next + fuel * interval
      → Returns (λ _ s'. IsNext now interval s s') (catch_up (suc fuel) now interval s)
  catch_up-IsNext zero s h =
      subst (Returns _) (sym (catch-stops 0 s (ground arith))) (returns (stays s (ground arith)))
  catch_up-IsNext (suc fuel) s h = elim (dec_lt s.next now) [
    | no n ↦
        subst (Returns _) (sym (catch-stops (suc fuel) s (omega arith)))
          (returns (stays s (omega arith)))
    | yes l ↦
        subst (Returns _)
          (sym (
            catch-goes (suc fuel) s l
            ∙ ap (λ o. and_then o (λ _. catch_up (suc fuel) now interval))
                (tsinc_lem s (omega arith))))
          (mono (catch_up-IsNext fuel (record s { next = s.next + interval }) (ground arith))
            λ _ s' n. moved s s' l n)
  ]

-- A round: the lateness in microseconds, rounded up, is counted, and the deadline is the first one
-- after the last, by whole intervals, that is not before `now`.
pub record IsCounted (now interval : ℕ) (s s' : Cyclic) : Type 0 where
  pub late : s'.act ≡ (now - s.next + 2599) / 2600
  pub late_pos : 0 < s'.act
  pub min_le : (s'.min ≤ s.min) × (s'.min ≤ s'.act)
  pub max_ge : (s.max ≤ s'.max) × (s'.act ≤ s'.max)
  pub sum_eq : s'.sum ≡ s.sum + s'.act
  pub cycles_eq : s'.cycles ≡ s.cycles + 1
  pub steps : ℕ
  pub next_eq : s'.next ≡ s.next + suc steps * interval
  pub not_before : now ≤ s'.next
  pub first : 0 < steps → s'.next < now + interval

module _ (now interval : ℕ) (pos : 0 < interval) (fits : now + interval < 2 ^ 62) where
  delta_lem :
      (s : Cyclic) (d : ℕ) → 0 < d → d < 2 ^ 62 → delta_us d s ≡ Outcome.done ((d + 2599) / 2600) s
  unfolding delta_us
  delta_lem s d h k =
      let a : (d == 0) ≡ false = ground arith in
      let b : leb (2 ^ 63) d ≡ false = ground arith in
      let c : leb (2 ^ 63) (d + 2600) ≡ false = ground arith in
      let e : ((d + 2600 - 1) / 2600 == 0) ≡ false = ground arith in
      let f : d + 2600 - 1 ≡ d + 2599 = omega arith in
      subst (λ n. delta_us d s ≡ Outcome.done (n / 2600) s) f (rw (a, b, c, e) refl)

  tsdelta_lem :
      (s : Cyclic) (next : ℕ)
      → next < now
      → tsdelta now next s ≡ Outcome.done ((now - next + 2599) / 2600) s
  unfolding tsdelta
  tsdelta_lem s next h =
      let a : (now + 2 ^ 64 - next) % 2 ^ 64 ≡ now - next = ground arith in
      ap (λ d. delta_us d s) a ∙ delta_lem s (now - next) (omega arith) (omega arith)

  -- The statistics after a difference.
  abbrev noted : ℕ → Cyclic → Cyclic
  noted diff s = record s {
    min = if ltb diff s.min then diff else s.min;
    max = if ltb s.max diff then diff else s.max;
    act = diff;
    sum = s.sum + diff;
    cycles = s.cycles + 1;
  }

  count_lem :
      (s : Cyclic) (diff : ℕ)
      → s.sum + diff < 2 ^ 63
      → s.cycles + 1 < 2 ^ 31
      → count_diff diff s ≡ Outcome.done tt (noted diff s)
  unfolding count_diff
  count_lem s diff h k =
      let a : leb (2 ^ 63) (s.sum + diff) ≡ false = ground arith in
      let b : leb (2 ^ 31) (s.cycles + 1) ≡ false = ground arith in rw (a, b) refl

  counted :
      (s s' : Cyclic) (diff : ℕ)
      → diff ≡ (now - s.next + 2599) / 2600
      → s.next < now
      → IsNext now interval (record (noted diff s) { next = s.next + interval }) s'
      → IsCounted now interval s s'
  counted s s' diff e h n = record {
    late = act ∙ e;
    late_pos = omega (arith, act);
    min_le = (ground (arith, least), ground (arith, least, act));
    max_ge = (ground (arith, greatest), ground (arith, greatest, act));
    sum_eq = omega (arith, act, ap (λ (c : Cyclic). c.sum) n.rest);
    cycles_eq = ap (λ (c : Cyclic). c.cycles) n.rest;
    steps = n.steps;
    next_eq = ground (arith, n.next_eq);
    not_before = n.not_before;
    first = n.first;
  }
    where
      act : s'.act ≡ diff
      act = ap (λ (c : Cyclic). c.act) n.rest

      least : s'.min ≡ (if ltb diff s.min then diff else s.min)
      least = ap (λ (c : Cyclic). c.min) n.rest

      greatest : s'.max ≡ (if ltb s.max diff then diff else s.max)
      greatest = ap (λ (c : Cyclic). c.max) n.rest

  round-eq :
      (fuel : ℕ) (s : Cyclic)
      → s.next < now
      → s.sum + (now - s.next + 2599) / 2600 < 2 ^ 63
      → s.cycles + 1 < 2 ^ 31
      → cyclic_round fuel now interval s
        ≡ catch_up fuel now interval
            (record (noted ((now - s.next + 2599) / 2600) s) { next = s.next + interval })
  unfolding cyclic_round
  round-eq fuel s h k l =
      let diff = (now - s.next + 2599) / 2600 in
      let e : (diff == 0) ≡ false = ground arith in
      let loop = catch_up fuel now interval in
      ap (λ o. and_then o λ d. assert (not (d == 0)) >> (count_diff d >> (tsinc interval >> loop)))
        (tsdelta_lem s s.next h)
      ∙ ap (λ b. (assert (not b) >> (count_diff diff >> (tsinc interval >> loop))) s) e
      ∙ ap (λ o. and_then o λ _. tsinc interval >> loop) (count_lem s diff k l)
      ∙ ap (λ o. and_then o λ _. loop)
          (tsinc_lem now interval pos (omega arith) (noted diff s) (omega arith))

  -- In a round that wakes after its deadline, for an interval that is not 0, times below 2 ^ 62
  -- and counters that do not overflow, the thread meets no failing assertion and ends its
  -- catching up within `now` + 1 tests. The lateness in microseconds, rounded up, is positive and
  -- is counted, and the new deadline is the old one moved by one interval or more, as few as
  -- reach `now`.
  pub cyclic_round-IsCounted :
      (s : Cyclic)
      → s.next < now
      → s.sum + (now - s.next + 2599) / 2600 < 2 ^ 63
      → s.cycles + 1 < 2 ^ 31
      → Returns (λ _ s'. IsCounted now interval s s') (cyclic_round (suc now) now interval s)
  cyclic_round-IsCounted s h k l = subst (Returns _) (sym (round-eq (suc now) s h k l)) (
      mono
        (catch_up-IsNext now interval pos (omega arith) now
          (record (noted ((now - s.next + 2599) / 2600) s) { next = s.next + interval })
          (enough now (s.next + interval) interval pos))
        λ _ s' n. counted s s' _ refl h n)
