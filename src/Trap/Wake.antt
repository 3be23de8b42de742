-- ===== src/Trap/Wake.antt =====
-- kernel/proc.c and kernel/trap.c: a process that sleeps through any history of the scheduler.
use mathlib.Core.Path.{subst}
use mathlib.Core.Option
use rt.Prelude.{
  ℕ, suc, ◌+◌, ◌-◌, ◌≤◌, ◌<◌, ◌≡◌, ◌≢◌, refl, sym, ◌∙◌, ap, true, some, arith, get_elem?,
}
use rt.Prelude.Int.{pos}
use rt.Prelude.Run
use rt.Prelude.Run.{done}
use rt.Proc.{ProcState, Proc, Machine, Statics, is_running, is_runnable}
use rt.Proc.Switch.{yield, exit, sleep, dispatch}
use rt.Proc.Search.{can_run, runnable_at}
use rt.Proc.Invariant.{IsSound, IsPassed}
use rt.Proc.GiveUp.{yield-IsPassed, exit-IsPassed, sleep-SleepsFor}
use rt.Proc.Dispatch.{dispatch-IsTaken}
use rt.Proc.Table.{get_elem?-lt}
use rt.Trap.{timer, tick_proc}
use rt.Trap.Timer.{slept, tick_proc-slept, timer-IsSound}

-- Process `j` sleeps, for `n` more ticks.
pub record Sleeps (n j : ℕ) (m : Machine) : Type 0 where
  pub proc : Proc
  pub at : get_elem? m.procs j ≡ some proc
  pub asleep : proc.state ≡ ProcState.sleeping
  pub left : proc.sleeprem ≡ pos n
  pub in_use : j < m.nproc

-- What happens between two ticks, with the current process before and after it.
pub data Happens (st : Statics) (i : ℕ) : ℕ → Machine → ℕ → Machine → Type 0 where
  yields : {c : ℕ} {m m' : Machine} → c ≢ i → yield m ≡ done tt m' → Happens st i c m i m'
  exits : {c : ℕ} {m m' : Machine} (v : ℕ) → c ≢ i → exit v m ≡ done tt m' → Happens st i c m i m'
  sleeps :
      {c : ℕ} {m m' : Machine} (n : ℕ)
      → c ≢ i
      → sleep (pos (suc n)) m ≡ done tt m'
      → Happens st i c m i m'
  dispatches :
      {m m' : Machine} (j k fuel : ℕ)
      → j < m.nproc
      → runnable_at m.procs j ≡ true
      → m.nproc ≤ fuel
      → dispatch st fuel m ≡ done tt m'
      → m'.curproc ≡ some k
      → Happens st i i m k m'

-- A history with its number of ticks.
pub data History (st : Statics) (i c : ℕ) (m : Machine) : ℕ → ℕ → Machine → Type 0 where
  here : History st i c m 0 c m
  event :
      {t d e : ℕ} {m' m'' : Machine}
      → History st i c m t d m'
      → Happens st i d m' e m''
      → History st i c m t e m''
  tick :
      {t d : ℕ} {m' m'' : Machine}
      → History st i c m t d m'
      → timer m' ≡ done tt m''
      → History st i c m (suc t) d m''

-- A slot that is running does not sleep.
not_running :
    (n j c : ℕ) (m : Machine)
    → ((p : Proc) → get_elem? m.procs j ≡ some p → j ≡ c → is_running p.state ≡ true)
    → Sleeps n j m
    → j ≢ c
not_running n j c m runs s e = absurd (clash s.proc.state s.asleep (runs s.proc s.at e))
  where
    clash : (x : ProcState) → x ≡ ProcState.sleeping → is_running x ≡ true → ⊥
    clash x h k = ground arith

not_runnable : (n j k : ℕ) (m : Machine) → runnable_at m.procs k ≡ true → Sleeps n j m → j ≢ k
not_runnable n j k m can s e =
    absurd
      (clash s.proc.state s.asleep (sym (ap can_run (ap (get_elem? m.procs) (sym e) ∙ s.at)) ∙ can))
  where
    clash : (x : ProcState) → x ≡ ProcState.sleeping → is_runnable x ≡ true → ⊥
    clash x h k = ground arith

kept :
    (n j : ℕ) (m m' : Machine)
    → Sleeps n j m
    → get_elem? m'.procs j ≡ get_elem? m.procs j
    → m'.nproc ≡ m.nproc
    → Sleeps n j m'
kept n j m m' s same slots = record {
  proc = s.proc;
  at = same ∙ s.at;
  asleep = s.asleep;
  left = s.left;
  in_use = omega (arith, s.in_use, slots);
}

module _ (st : Statics) (i c j n : ℕ) (m : Machine) (s : IsSound i c m) (sl : Sleeps n j m) where
  off_cur : j ≢ c
  off_cur = not_running n j c m (s.cur_runs j) sl

  off_idle : j ≢ i
  off_idle = not_running n j i m (s.idle_runs j) sl

  after_passed : (p : Proc) (m' : Machine) → IsPassed m c i p m' → IsSound i i m' × Sleeps n j m'
  after_passed p m' h = (h.sound, kept n j m m' sl (h.others j off_cur) h.places.0)

  slot_of_cur : (p : Proc) × (get_elem? m.procs c ≡ some p)
  slot_of_cur = get_elem?-lt m.procs c (omega (arith, s.cur_in, s.table))

pub Happens-Sleeps :
    {st : Statics} {i c d j n : ℕ} {m m' : Machine}
    → IsSound i c m
    → Sleeps n j m
    → Happens st i c m d m'
    → IsSound i d m' × Sleeps n j m'
Happens-Sleeps {st} {i} {c} {j = j} {n = n} {m = m} s sl (yields ne e) =
    let (p, at) = slot_of_cur st i c j n m s sl in
    after_passed st i c j n m s sl _ _ (Run.outcome (yield-IsPassed m c i p s at ne) e)
Happens-Sleeps {st} {i} {c} {j = j} {n = n} {m = m} s sl (exits v ne e) =
    let (p, at) = slot_of_cur st i c j n m s sl in
    after_passed st i c j n m s sl _ _ (Run.outcome (exit-IsPassed m c i p v s at ne) e)
Happens-Sleeps {st} {i} {c} {j = j} {n = n} {m = m} s sl (sleeps k ne e) =
    let (p, at) = slot_of_cur st i c j n m s sl in
    after_passed st i c j n m s sl _ _
      (Run.outcome (sleep-SleepsFor (pos (suc k)) m c i p s at ne) e)
Happens-Sleeps {st} {i} {j = j} {n = n} {m = m} {m' = m'} s sl
      (dispatches a k fuel lt run enough e cur) =
    let (d, near, first, r) = dispatch-IsTaken st m i a fuel s lt run enough in
    let t = Run.outcome r e in
    let same = same_cur (sym cur ∙ t.sound.cur) in
    (
      subst (λ x. IsSound i x m') (sym same) t.sound,
      kept n j m m' sl (t.others j (not_runnable n j _ m first.hit sl) (off_idle st i i j n m s sl))
          t.slots,
    )
  where
    same_cur : {a b : ℕ} → some a ≡ some b → a ≡ b
    same_cur h = ground arith

-- A tick takes one from the count.
tick-slept :
    (i c j n : ℕ) (m m' : Machine)
    → IsSound i c m
    → (sl : Sleeps (suc n) j m) → timer m ≡ done tt m'
    → IsSound i c m' × (get_elem? m'.procs j ≡ some (slept n sl.proc)) × (j < m'.nproc)
tick-slept i c j n m m' s sl e =
    let (sound, t) = Run.outcome (timer-IsSound i c m s) e in
    (
      sound,
      t.inside j (omega arith) (omega (arith, sl.in_use))
          ∙ ap (Option.map tick_proc) sl.at
          ∙ ap some (tick_proc-slept sl.proc n sl.asleep sl.left),
      omega (arith, sl.in_use, ap (λ x. x.nproc) t.rest),
    )

tick-Sleeps :
    (i c j n : ℕ) (m m' : Machine)
    → IsSound i c m
    → Sleeps (suc (suc n)) j m
    → timer m ≡ done tt m'
    → IsSound i c m' × Sleeps (suc n) j m'
tick-Sleeps i c j n m m' s sl e =
    let (sound, at, lt) = tick-slept i c j (suc n) m m' s sl e in
    (sound, record { proc = _; at = at; asleep = sl.asleep; left = refl; in_use = lt })

fewer : (t k : ℕ) → suc t + suc k ≡ t + suc (suc k)
fewer t k = omega arith

-- Through a history with fewer ticks than it has to wait for, a process sleeps on.
History-Sleeps :
    {st : Statics} {i c j : ℕ} {m : Machine} {t d : ℕ} {m' : Machine}
    → (k : ℕ) → IsSound i c m
    → Sleeps (t + suc k) j m
    → History st i c m t d m'
    → IsSound i d m' × Sleeps (suc k) j m'
History-Sleeps {j} {m} k s sl here = (s, subst (λ n. Sleeps n j m) (omega arith) sl)
History-Sleeps k s sl (event h e) =
    let (s', sl') = History-Sleeps k s sl h in Happens-Sleeps s' sl' e
History-Sleeps {i} {j} {m} k s sl (tick {t} {d} {m'} {m'' = m''} h e) =
    let (s', sl') = History-Sleeps (suc k) s (subst (λ n. Sleeps n j m) (fewer t k) sl) h in
    tick-Sleeps i d j k m' m'' s' sl' e

-- In a machine with the scheduler's invariant, a process that sleeps for `n` ticks is still
-- asleep, with the rest of them to go, after any history of yields, exits, sleeps, dispatches and
-- ticks with `t < n` ticks, and the invariant then holds; and if one more tick completes the `n`,
-- it makes the process runnable.
pub sleep-exact :
    (st : Statics) (i c j n t d : ℕ) (m m' : Machine)
    → IsSound i c m
    → Sleeps n j m
    → t < n
    → History st i c m t d m'
    → IsSound i d m'
      × Sleeps (n - t) j m'
      × ((m'' : Machine)
          → timer m' ≡ done tt m''
          → suc t ≡ n
          → Option.map (λ p. p.state) (get_elem? m''.procs j) ≡ some ProcState.runnable)
sleep-exact st i c j n t d m m' s sl lt h =
    let more : n - t ≡ suc (n - t - 1) = omega arith in
    let whole : n ≡ t + suc (n - t - 1) = omega arith in
    let (s', sl') = History-Sleeps (n - t - 1) s (subst (λ k. Sleeps k j m) whole sl) h in
    (
      s',
      subst (λ k. Sleeps k j m') (sym more) sl',
      λ m'' e last.
          let one : suc (n - t - 1) ≡ 1 = omega arith in
          let woken = tick-slept i d j 0 m' m'' s' (subst (λ k. Sleeps k j m') one sl') e in
          ap (Option.map (λ p. p.state)) (woken.1),
    )
