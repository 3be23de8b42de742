-- ===== src/Trap/Timer.antt =====
-- kernel/trap.c: the tick of the timer and the processes that sleep on it.
use rt.Prelude.{
  ℕ, zero, suc, ◌+◌, ◌%◌, ◌^◌, ◌≤◌, ◌<◌, ◌≡◌, ◌≢◌, refl, sym, ◌∙◌, ap, ◌⊎◌, inl, inr, true, false,
  Option, none, some, ◌∷◌, ◌/◌, arith, length, length-set, ◌==◌, Bool-cases, get_elem?,
  get_elem?-set_self, get_elem?-set_ne, set,
}
use mathlib.Core.Option
use native.Mathlib.Decide.{ℕ_discrete, dec_lt}
use mathlib.Core.Path.{subst}
use rt.Prelude.Int.{ℤ, negsuc, pos, ◌-ℤ◌}
use rt.Prelude.Run
use rt.Prelude.Run.{Outcome, done, Returns, returns, modify}
use rt.Proc.{ProcState, Proc, Machine, Statics, put_proc, is_running}
use rt.Proc.Invariant.{IsCounted, Every, IsSound}
use rt.Proc.Table.{get_elem?-lt}
use rt.Trap.{is_sleeping, is_zero, end_interrupt, tick_proc, tick_procs, timer, TrapFrame, trap}

-- The table after the ticks of the slots from `i` up to `i + left`.
pub record IsTicked (i left : ℕ) (m m' : Machine) : Type 0 where
  pub size : length m'.procs ≡ length m.procs
  pub inside :
      (j : ℕ)
      → i ≤ j
      → j < i + left
      → get_elem? m'.procs j ≡ Option.map tick_proc (get_elem? m.procs j)
  pub outside : (j : ℕ) → (j < i) ⊎ (i + left ≤ j) → get_elem? m'.procs j ≡ get_elem? m.procs j
  pub rest : m' ≡ record m { procs = m'.procs }

map-some :
    (o : Option Proc) (p : Proc)
    → Option.map tick_proc o ≡ some p
    → (q : Proc) × (o ≡ some q) × (tick_proc q ≡ p)
map-some none p e = absurd (ground arith)
map-some (some q) p e = (q, refl, cc)

module _ (left i : ℕ) (m m' : Machine) (p : Proc) (at : get_elem? m.procs i ≡ some p)
    (lt : i < length m.procs) (t : IsTicked (i + 1) left (put_proc i (tick_proc p) m) m') where
  ticked_here : (j : ℕ) → i ≡ j → get_elem? m'.procs j ≡ Option.map tick_proc (get_elem? m.procs j)
  ticked_here j e =
      t.outside j (inl (omega arith))
      ∙ ap (get_elem? (set m.procs i (tick_proc p))) (sym e)
      ∙ get_elem?-set_self m.procs i (tick_proc p) lt
      ∙ sym (ap (Option.map tick_proc) (ap (get_elem? m.procs) (sym e) ∙ at))

  IsTicked-suc : IsTicked i (suc left) m m'
  IsTicked-suc = record {
    size = t.size ∙ length-set m.procs i (tick_proc p);
    inside = λ j p' q. elim (ℕ_discrete i j) [
      | yes e ↦ ticked_here j e
      | no ne ↦
          t.inside j (omega arith) (omega arith)
          ∙ ap (Option.map tick_proc) (get_elem?-set_ne m.procs (tick_proc p) ne)
    ];
    outside =
        λ j o. t.outside j (omega arith) ∙ get_elem?-set_ne m.procs (tick_proc p) (omega arith);
    rest = t.rest;
  }

tick_procs-IsTicked :
    (left i : ℕ) (m : Machine)
    → i + left ≤ length m.procs
    → Returns (λ _ m'. IsTicked i left m m') (tick_procs left i m)
unfolding tick_procs
tick_procs-IsTicked zero i m h = returns (record {
  size = refl;
  inside = λ j p q. absurd (omega arith);
  outside = λ j p. refl;
  rest = refl;
})
tick_procs-IsTicked (suc left) i m h =
    let (p, at) = get_elem?-lt m.procs i (omega arith) in
    let long = length-set m.procs i (tick_proc p) in
    rw (at, at)
      (Run.mono
        (tick_procs-IsTicked left (i + 1) (put_proc i (tick_proc p) m) (omega (arith, long)))
        λ _ m' t. IsTicked-suc left i m m' p at (omega arith) t)

-- One tick beside the table: the counter, and the end of the interrupt.
abbrev pub counted_tick : Machine → Machine
counted_tick m = record m { ticks = (m.ticks + 1) % 2 ^ 32; lapic = (0xB0 / 4, 0) ∷ m.lapic }

abbrev counted_only : Machine → Machine
counted_only m = record m { ticks = (m.ticks + 1) % 2 ^ 32 }

-- The write to the controller behind the loop.
abbrev ended_interrupt : Machine → Machine
ended_interrupt m = record m { lapic = (0xB0 / 4, 0) ∷ m.lapic }

end_interrupt-IsTicked :
    (n : ℕ) (m m' : Machine)
    → IsTicked 0 n (counted_only m) m'
    → IsTicked 0 n (counted_tick m) (ended_interrupt m')
end_interrupt-IsTicked n m m' t = record {
  size = t.size;
  inside = t.inside;
  outside = t.outside;
  rest = ap ended_interrupt t.rest;
}

pub timer-IsTicked :
    (m : Machine)
    → m.nproc ≤ length m.procs
    → Returns (λ _ m'. IsTicked 0 m.nproc (counted_tick m) m') (timer m)
unfolding timer end_interrupt
timer-IsTicked m h =
    Run.bind (tick_procs-IsTicked m.nproc 0 (counted_only m) (omega (arith, h)))
      λ _ m' t. returns (end_interrupt-IsTicked m.nproc m m' t)

-- What a tick keeps of each process holds of every slot after it.
Every-ticked :
    (P : ℕ → Proc → Type 0) (n : ℕ) (m m' : Machine)
    → IsTicked 0 n m m'
    → ((j : ℕ) (p : Proc) → P j p → P j (tick_proc p))
    → Every P m.procs
    → Every P m'.procs
Every-ticked P n m m' t keep all j p at = elim (dec_lt j n) [
  | yes lt ↦
      let (q, at_q, same) =
        map-some (get_elem? m.procs j) p (sym (t.inside j (omega arith) (omega arith)) ∙ at) in
      subst (P j) same (keep j q (all j q at_q))
  | no ge ↦ all j p (sym (t.outside j (omega arith)) ∙ at)
]

tick_proc-running : (p : Proc) → is_running (tick_proc p).state ≡ is_running p.state
unfolding tick_proc
tick_proc-running p = ground arith

-- What a tick does to a process that sleeps for `n + 1` ticks, and to one that does not sleep.
abbrev pub slept : ℕ → Proc → Proc
slept zero p = record p { sleeprem = pos 0; state = ProcState.runnable }
slept (suc n) p = record p { sleeprem = pos (suc n) }

one_less : (n : ℕ) → pos (suc n) -ℤ pos 1 ≡ pos n
unfolding ◌-ℤ◌
one_less n = ground arith

pub tick_proc-slept :
    (p : Proc) (n : ℕ)
    → p.state ≡ ProcState.sleeping
    → p.sleeprem ≡ pos (suc n)
    → tick_proc p ≡ slept n p
unfolding tick_proc
tick_proc-slept p zero sl e = rw (sl, e, one_less 0) refl
tick_proc-slept p (suc n) sl e =
    let on : (suc n == 0) ≡ false = ground arith in rw (sl, e, one_less (suc n), on) refl

tick_proc-awake : (p : Proc) → is_sleeping p.state ≡ false → tick_proc p ≡ p
unfolding tick_proc
tick_proc-awake p h = rw h refl

sleeping-state : (x : ProcState) → is_sleeping x ≡ true → x ≡ ProcState.sleeping
sleeping-state x h = ground arith

tick_proc-IsCounted : (p : Proc) → IsCounted p → IsCounted (tick_proc p)
tick_proc-IsCounted p h = elim (Bool-cases (is_sleeping p.state)) [
  | inl asleep ↦
      let sl = sleeping-state p.state asleep in
      let (n, e) = h sl in from_slept n (tick_proc-slept p n sl e)
  | inr awake ↦ subst IsCounted (sym (tick_proc-awake p awake)) h
]
  where
    from_slept : (n : ℕ) → tick_proc p ≡ slept n p → IsCounted (tick_proc p)
    from_slept zero same st = absurd (wakes (sym (ap (λ x. x.state) same) ∙ st))
      where
        wakes : ProcState.runnable ≡ ProcState.sleeping → ⊥
        wakes e = ground arith
    from_slept (suc n) same st = (n, ap (λ x. x.sleeprem) same)

not_sleeping : (x : ProcState) → x ≢ ProcState.sleeping → is_sleeping x ≡ false
not_sleeping x ne = elim (Bool-cases (is_sleeping x)) [
  | inl e ↦ absurd (ne (sleeping-state x e))
  | inr e ↦ e
]

-- A tick keeps the scheduler's invariant, counts one tick, modulo 2 ^ 32, and reaches each of the
-- `nproc` processes once and nothing else.
pub timer-IsSound :
    (i c : ℕ) (m : Machine)
    → IsSound i c m
    → Returns (λ _ m'. IsSound i c m' × IsTicked 0 m.nproc (counted_tick m) m') (timer m)
timer-IsSound i c m s = Run.mono (timer-IsTicked m s.table) λ _ m' t. (
  subst (IsSound i c) (sym t.rest) (record {
    idle = s.idle;
    idle_ctx = s.idle_ctx;
    cur = s.cur;
    table = omega (arith, s.table, t.size);
    idle_in = s.idle_in;
    cur_in = s.cur_in;
    next_in = s.next_in;
    idle_runs =
        keep m' t (λ j p. j ≡ i → is_running p.state ≡ true) (λ j p h e. tick_proc-running p ∙ h e)
          s.idle_runs;
    cur_runs =
        keep m' t (λ j p. j ≡ c → is_running p.state ≡ true) (λ j p h e. tick_proc-running p ∙ h e)
          s.cur_runs;
    stopped =
        keep m' t (λ j p. j ≢ i → j ≢ c → is_running p.state ≡ false)
          (λ j p h d d'. tick_proc-running p ∙ h d d') s.stopped;
    counted = keep m' t (λ j p. IsCounted p) (λ j p h. tick_proc-IsCounted p h) s.counted;
  }),
  t,
)
  where
    keep :
        (m' : Machine)
        → IsTicked 0 m.nproc (counted_tick m) m'
        → (P : ℕ → Proc → Type 0) → ((j : ℕ) (p : Proc) → P j p → P j (tick_proc p))
        → Every P m.procs
        → Every P m'.procs
    keep m' t P f all = Every-ticked P m.nproc (counted_tick m) m' t f all

-- What a tick makes of a process: one that sleeps has a tick less to wait and is runnable once none
-- is left, and any other stays as it is.
pub record AfterTick (p p' : Proc) : Type 0 where
  pub last :
      p.state ≡ ProcState.sleeping
      → p.sleeprem ≡ pos 1
      → p' ≡ record p { sleeprem = pos 0; state = ProcState.runnable }
  pub waits :
      p.state ≡ ProcState.sleeping
      → p.sleeprem ≢ pos 1
      → p' ≡ record p { sleeprem = p.sleeprem -ℤ pos 1 }
  pub awake : p.state ≢ ProcState.sleeping → p' ≡ p

is_zero-one : (z : ℤ) → z ≢ pos 1 → is_zero (z -ℤ pos 1) ≡ false
unfolding ◌-ℤ◌
is_zero-one (pos zero) ne = refl
is_zero-one (pos (suc zero)) ne = absurd (ne refl)
is_zero-one (pos (suc (suc n))) ne = ground arith
is_zero-one (negsuc n) ne = ground arith

tick_proc-AfterTick : (p : Proc) → AfterTick p (tick_proc p)
unfolding tick_proc
tick_proc-AfterTick p = record {
  last = λ sl one. rw (sl, one, one_less 0) refl;
  waits = λ sl ne. rw (sl, is_zero-one p.sleeprem ne) refl;
  awake = λ ne. rw (not_sleeping p.state ne) refl;
}

-- The machine after a timer interrupt.
pub record IsTimed (m m' : Machine) : Type 0 where
  pub slots :
      (j : ℕ) (p : Proc)
      → j < m.nproc
      → get_elem? m.procs j ≡ some p
      → (p' : Proc) × (get_elem? m'.procs j ≡ some p') × AfterTick p p'
  pub behind : (j : ℕ) → m.nproc ≤ j → get_elem? m'.procs j ≡ get_elem? m.procs j
  pub rest : m' ≡ record m {
    procs = m'.procs;
    ticks = (m.ticks + 1) % 2 ^ 32;
    lapic = (0xB0 / 4, 0) ∷ m.lapic;
  }

IsTicked-IsTimed : (m m' : Machine) → IsTicked 0 m.nproc (counted_tick m) m' → IsTimed m m'
IsTicked-IsTimed m m' t = record {
  slots = λ j p lt at. (
    tick_proc p,
    t.inside j (omega arith) (omega arith) ∙ ap (Option.map tick_proc) at,
    tick_proc-AfterTick p,
  );
  behind = λ j le. t.outside j (inr (omega arith));
  rest = t.rest;
}

-- With a table of at least `nproc` slots, a timer interrupt returns the frame as it came, counts
-- one tick, modulo 2 ^ 32, and writes the end of the interrupt to the local APIC. Each of the
-- `nproc` processes that sleeps has one tick less to wait, and is runnable if none is left; every
-- other process, every slot behind them and the rest of the machine stay as they were.
pub trap_timer :
    (st : Statics) (fuel : ℕ) (tf : TrapFrame) (m : Machine)
    → tf.trapno ≡ 32
    → m.nproc ≤ length m.procs
    → Returns (λ r m'. (r ≡ some tf) × IsTimed m m') (trap st fuel tf m)
unfolding trap
trap_timer st fuel tf m it h =
    rw it (Run.bind (timer-IsTicked m h) λ _ m' t. returns (refl, IsTicked-IsTimed m m' t))
