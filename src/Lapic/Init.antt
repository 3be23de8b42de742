-- ===== src/Lapic/Init.antt =====
-- kernel/lapic.c: the registers after `lapicinit`, and that it ends.
use mathlib.Core.Path.{subst}
use rt.Prelude.{
  ℕ, zero, suc, ◌+◌, ◌/◌, ◌%◌, ◌^◌, ◌<◌, ◌≤◌, ◌≡◌, ◌≢◌, refl, sym, ap, ◌∙◌, Bool, true, false, List,
  ◌∷◌, arith, bit_and, ◌==◌, leb, Bool-cases, inl, inr,
}
use rt.Prelude.Run.{Outcome, Returns, returns, bind, mono, and_then}
use rt.Lapic.{
  Event, get_reg, print_id, Local, Device, happens, lapicr, lapicw, lapicid, wait_sent, set_timer,
  mask_counter, clear_errors, open_up, lapicinit, delivs, id_reg, ver, tpr, svr, esr, icrlo,
  timer_reg, pcint, lint0, lint1, error, ticr, tdcr,
}
use rt.Lapic.Registers.{ipi, ipis, last, IsQuiet}

-- `k` reads of the command word on top of a trace.
abbrev pub asked : ℕ → List Event → List Event
asked zero es = es
asked (suc k) es = asked k (get_reg icrlo ∷ es)

-- The delivery ends: the status bit is clear at one of the next `fuel` reads.
abbrev pub IsDelivered : Device → (fuel : ℕ) → Type 0
IsDelivered dev fuel =
    (es : List Event)
    → (k : ℕ) × ((k < fuel) × (bit_and (dev (asked k es) icrlo % 2 ^ 32) delivs ≡ 0))

module _ (dev : Device) where
  abbrev now : Local → Bool
  now s = bit_and (dev s.trace icrlo % 2 ^ 32) delivs == 0

  abbrev after : Local → Local
  after s = record s { trace = get_reg icrlo ∷ s.trace }

  wait-ready :
      (fuel : ℕ) (s : Local) → now s ≡ true → wait_sent dev (suc fuel) s ≡ Outcome.done tt (after s)
  unfolding wait_sent lapicr happens
  wait-ready fuel s e = rw (e) refl

  wait-again :
      (fuel : ℕ) (s : Local)
      → now s ≡ false
      → wait_sent dev (suc fuel) s ≡ wait_sent dev fuel (after s)
  unfolding wait_sent lapicr happens
  wait-again fuel s e = rw (e) refl

  wait_within :
      (k fuel : ℕ) (s : Local)
      → k < fuel
      → bit_and (dev (asked k s.trace) icrlo % 2 ^ 32) delivs ≡ 0
      → Returns (λ _ s'. IsQuiet s s') (wait_sent dev fuel s)
  wait_within k zero s h r = absurd (omega arith)
  wait_within zero (suc fuel) s h r =
      subst (Returns _) (sym (wait-ready fuel s (ground arith)))
        (returns record { mem_eq = refl; flags_eq = refl; last_eq = λ _. refl; ipis_eq = refl })
  wait_within (suc k) (suc fuel) s h r = elim (Bool-cases (now s)) [
    | inl e ↦
        subst (Returns _) (sym (wait-ready fuel s e))
          (returns record { mem_eq = refl; flags_eq = refl; last_eq = λ _. refl; ipis_eq = refl })
    | inr e ↦ subst (Returns _) (sym (wait-again fuel s e)) (
        mono (wait_within k fuel (after s) (omega arith) r) λ _ s' q. record {
          mem_eq = q.mem_eq;
          flags_eq = q.flags_eq;
          last_eq = q.last_eq;
          ipis_eq = q.ipis_eq;
        })
  ]

-- The unit is enabled with vector 63 for spurious interrupts, its timer counts down from 10,000,000
-- again and again at bus frequency with vector 32, the lines and, where there is one, the performance
-- counter are masked, errors have vector 51, and no priority is masked.
pub record IsReady (dev : Device) (s s' : Local) : Type 0 where
  pub spurious : last s'.trace svr ≡ 0x100 + 63
  pub divide : last s'.trace tdcr ≡ 11
  pub timer : last s'.trace timer_reg ≡ 2 ^ 17 + 32
  pub count : last s'.trace ticr ≡ 10000000
  pub line0 : last s'.trace lint0 ≡ 2 ^ 16
  pub line1 : last s'.trace lint1 ≡ 2 ^ 16
  pub errors : last s'.trace error ≡ 51
  pub status : last s'.trace esr ≡ 0
  pub priority : last s'.trace tpr ≡ 0
  pub sent :
      ipis s'.trace
      ≡ record { mode = 5; vector = 0; asserted = false; everyone = true; dest = 0 } ∷ ipis s.trace
  pub memory : s'.mem ≡ s.mem
  pub counter :
      (v : ℕ)
      → ((es : List Event) → dev es ver % 2 ^ 32 / 2 ^ 16 % 256 ≡ v)
      → ((4 ≤ v) → last s'.trace pcint ≡ 2 ^ 16)
        × ((v < 4) → last s'.trace pcint ≡ last s.trace pcint)

-- The test of the version writes one register at most.
record IsMasked (dev : Device) (s s' : Local) : Type 0 where
  mem_eq : s'.mem ≡ s.mem
  flags_eq : s'.eflags ≡ s.eflags
  last_eq : (r : ℕ) → r ≢ pcint → last s'.trace r ≡ last s.trace r
  ipis_eq : ipis s'.trace ≡ ipis s.trace
  with_counter : 4 ≤ dev s.trace ver % 2 ^ 32 / 2 ^ 16 % 256 → last s'.trace pcint ≡ 2 ^ 16
  without : dev s.trace ver % 2 ^ 32 / 2 ^ 16 % 256 < 4 → last s'.trace pcint ≡ last s.trace pcint

module _ (dev : Device) where
  abbrev has_counter : Local → Bool
  has_counter s = leb 4 (dev s.trace ver % 2 ^ 32 / 2 ^ 16 % 256)

  mask_done :
      (s : Local)
      → has_counter s ≡ true
      → mask_counter dev s ≡ lapicw pcint 0x10000 (record s { trace = get_reg ver ∷ s.trace })
  unfolding mask_counter lapicr happens
  mask_done s e = rw (e) refl

  mask_skipped :
      (s : Local)
      → has_counter s ≡ false
      → mask_counter dev s ≡ Outcome.done tt (record s { trace = get_reg ver ∷ s.trace })
  unfolding mask_counter lapicr happens
  mask_skipped s e = rw (e) refl

  mask_counter-IsMasked : (s : Local) → Returns (λ _ s'. IsMasked dev s s') (mask_counter dev s)
  unfolding lapicw happens
  mask_counter-IsMasked s = elim (Bool-cases (has_counter s)) [
    | inl e ↦ subst (Returns _) (sym (mask_done s e)) (
        returns record {
          mem_eq = refl;
          flags_eq = refl;
          last_eq = λ r n. let a : (pcint == r) ≡ false = ground arith in rw (a) refl;
          ipis_eq = refl;
          with_counter = λ _. refl;
          without = λ l. absurd (ground arith);
        })
    | inr e ↦ subst (Returns _) (sym (mask_skipped s e)) (
        returns record {
          mem_eq = refl;
          flags_eq = refl;
          last_eq = λ r n. refl;
          ipis_eq = refl;
          with_counter = λ l. absurd (ground arith);
          without = λ _. refl;
        })
  ]

  lapicid_off :
      (s : Local)
      → bit_and s.eflags 0x200 ≡ 0
      → lapicid dev s
        ≡ Outcome.done
            (dev s.trace id_reg % 2 ^ 32 / 2 ^ 24)
            (record s { trace = get_reg id_reg ∷ s.trace })
  unfolding lapicid lapicr happens
  lapicid_off s h = let a : (bit_and s.eflags 0x200 == 0) ≡ true = ground arith in rw (a) refl

  -- The last step after the wait.
  abbrev opened : Local → List Event
  opened s = get_reg id_reg ∷ Event.set_reg tpr 0 ∷ s.trace

  open_up_lem :
      (s : Local)
      → bit_and s.eflags 0x200 ≡ 0
      → open_up dev s
        ≡ Outcome.done tt (record s {
          trace = print_id (dev (opened s) id_reg % 2 ^ 32 / 2 ^ 24) ∷ get_reg id_reg ∷ opened s;
        })
  unfolding open_up lapicw happens
  open_up_lem s h =
      ap (λ o. and_then o (λ id. happens (print_id id)))
        (lapicid_off (record s { trace = opened s }) h)

  -- With interrupts off and a controller that clears its delivery status within `fuel` reads at
  -- any time, `lapicinit` ends. The unit is then enabled with vector 63, its timer is periodic
  -- with vector 32 and count 10,000,000, the two lines are masked, and so is the performance
  -- counter from version 4 on and only then; errors have vector 51, no priority is masked, one
  -- INIT was broadcast, and memory has not changed.
  pub lapicinit-IsReady :
      (fuel : ℕ) (s : Local)
      → IsDelivered dev fuel
      → bit_and s.eflags 0x200 ≡ 0
      → Returns (λ _ s'. IsReady dev s s') (lapicinit dev fuel s)
  unfolding lapicinit set_timer clear_errors lapicw happens
  lapicinit-IsReady fuel s sends off = bind (mask_counter-IsMasked _) λ _ s2 m.
      bind (wait_within dev (sends _).0 fuel _ (sends _).1.0 (sends _).1.1) λ _ s4 q.
        subst (Returns _) (sym (open_up_lem s4 (rw (q.flags_eq, m.flags_eq) off))) (
          returns record {
            spurious = q.last_eq svr ∙ m.last_eq svr (λ e. omega arith);
            divide = q.last_eq tdcr ∙ m.last_eq tdcr (λ e. omega arith);
            timer = q.last_eq timer_reg ∙ m.last_eq timer_reg (λ e. omega arith);
            count = q.last_eq ticr ∙ m.last_eq ticr (λ e. omega arith);
            line0 = q.last_eq lint0 ∙ m.last_eq lint0 (λ e. omega arith);
            line1 = q.last_eq lint1 ∙ m.last_eq lint1 (λ e. omega arith);
            errors = q.last_eq error;
            status = q.last_eq esr;
            priority = refl;
            sent = q.ipis_eq ∙ ap (λ l. ipi 0 0x88500 ∷ l) m.ipis_eq;
            memory = q.mem_eq ∙ m.mem_eq;
            counter = λ v h. (
              λ l. q.last_eq pcint ∙ m.with_counter (subst (λ n. 4 ≤ n) (sym (h _)) l),
              λ l. q.last_eq pcint ∙ m.without (subst (λ n. n < 4) (sym (h _)) l),
            );
          })
