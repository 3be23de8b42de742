-- ===== src/Proc/Dispatch.antt =====
-- kernel/proc.c: a round of `idlemain` takes up the first runnable process.
use rt.Prelude.{
  ℕ, zero, suc, ◌+◌, ◌%◌, ◌≤◌, ◌<◌, ◌≡◌, ◌≢◌, refl, sym, ◌∙◌, ap, true, false, some, List, [], ◌∷◌,
  arith, length, length-set, get_elem?, get_elem?-set_self, get_elem?-set_ne, set,
}
use native.Mathlib.Nat.{mod-lt}
use mathlib.Core.Path.{subst}
use rt.Prelude.Run.{Returns, returns}
use rt.Proc.{ProcState, Proc, Machine, Statics, is_running, is_runnable}
use rt.Proc.Table.{get_elem?-lt}
use rt.Proc.Switch.{saved, dispatch}
use rt.Proc.Sched.{ready, switched_to, dispatch-eq}
use rt.Proc.Search.{runnable_at, nth_after, CanSearch, FirstAt, picked}
use rt.Proc.RoundRobin.{distance, find_runnable_proc-first}
use rt.Proc.Invariant.{IsCounted, Every, IsStopped, IsSound, Every-set}

-- The idle loop of slot `i` has taken up the process of slot `k`.
pub record IsTaken (m : Machine) (i k : ℕ) (m' : Machine) : Type 0 where
  pub sound : IsSound i k m'
  pub slot :
      (p : Proc)
      → get_elem? m.procs k ≡ some p
      → get_elem? m'.procs k ≡ some (record p { state = ProcState.running })
  pub others : (j : ℕ) → j ≢ k → j ≢ i → get_elem? m'.procs j ≡ get_elem? m.procs j
  pub behind : m'.next ≡ (k + 1) % m.nproc
  pub slots : m'.nproc ≡ m.nproc

same_slot : {a b : Proc} → some a ≡ some b → a ≡ b
same_slot e = cc

-- A runnable process is not marked as running.
not_running : (p : Proc) → is_runnable p.state ≡ true → is_running p.state ≡ false
not_running p h = ground arith

module _ (st : Statics) (m : Machine) (k i : ℕ) (p r : Proc) (s : IsSound i i m) (ne : k ≢ i)
    (lt : k < m.nproc) (at_k : get_elem? m.procs k ≡ some p)
    (at_i : get_elem? m.procs i ≡ some r) where
  abbrev runs : Proc
  runs = record p { state = ProcState.running }

  abbrev after_search : Machine
  after_search = record m { irq = true; next = (k + 1) % m.nproc }

  abbrev idles : Proc
  idles = record r { ctx = saved (ready st after_search k p) i }

  in_table : k < length m.procs
  in_table = omega (arith, lt, s.table)

  idle_in_table : i < length (set m.procs k runs)
  idle_in_table = omega (arith, length-set m.procs k runs, s.idle_in, s.table)

  both :
      (P Q R : ℕ → Proc → Type 0)
      → Every P m.procs
      → ((j : ℕ) (x : Proc) → j ≢ k → P j x → Q j x)
      → Q k runs
      → ((j : ℕ) (x : Proc) → j ≢ i → Q j x → R j x)
      → R i idles
      → Every R (set (set m.procs k runs) i idles)
  both P Q R all first new second new' =
      Every-set Q R (set m.procs k runs) i idles idle_in_table
        (Every-set P Q m.procs k runs in_table all first new) second new'

  taken : IsTaken m i k (switched_to (ready st after_search k p) k i p r)
  taken = record {
    sound = record {
      idle = s.idle;
      idle_ctx = s.idle_ctx;
      cur = refl;
      table =
          omega
            (arith, s.table, length-set m.procs k runs, length-set (set m.procs k runs) i idles);
      idle_in = s.idle_in;
      cur_in = lt;
      next_in = mod-lt (k + 1) (omega (arith, lt));
      idle_runs =
          both (λ j x. j ≡ i → is_running x.state ≡ true) (λ j x. j ≡ i → is_running x.state ≡ true)
            (λ j x. j ≡ i → is_running x.state ≡ true) s.idle_runs (λ j x d h. h)
            (λ e. absurd (ne e)) (λ j x d h. h) (λ e. s.idle_runs i r at_i refl);
      cur_runs =
          both (λ j x. Unit {0}) (λ j x. j ≡ k → is_running x.state ≡ true)
            (λ j x. j ≡ k → is_running x.state ≡ true) (λ j x at. tt) (λ j x d h e. absurd (d e))
            (λ e. refl) (λ j x d h. h) (λ e. absurd (ne (sym e)));
      stopped =
          both (IsStopped i i) (IsStopped i k) (IsStopped i k) s.stopped (λ j x d h a b. h a a)
            (λ a b. absurd (b refl)) (λ j x d h. h) (λ a b. absurd (a refl));
      counted =
          both (λ j x. IsCounted x) (λ j x. IsCounted x) (λ j x. IsCounted x) s.counted
            (λ j x d h. h) (λ e. ground arith) (λ j x d h. h) (s.counted i r at_i);
    };
    slot = λ p' e.
        get_elem?-set_ne (set m.procs k runs) idles (λ e. ne (sym e))
        ∙ get_elem?-set_self m.procs k runs in_table
        ∙ ap {A = Proc} (λ x. some (record x { state = ProcState.running }))
            (same_slot (sym at_k ∙ e));
    others = λ j d d'.
        get_elem?-set_ne (set m.procs k runs) idles (λ e. d' (sym e))
        ∙ get_elem?-set_ne m.procs runs (λ e. d (sym e));
    behind = refl;
    slots = refl;
  }

runnable-slot :
    (ps : List Proc) (k : ℕ)
    → runnable_at ps k ≡ true
    → (p : Proc) × (get_elem? ps k ≡ some p) × (is_runnable p.state ≡ true)
runnable-slot [] k h = absurd (ground arith)
runnable-slot (p ∷ ps) zero h = (p, refl, h)
runnable-slot (p ∷ ps) (suc k) h = runnable-slot ps k h

runnable_ne_running :
    (p r : Proc) (k i : ℕ) (ps : List Proc)
    → get_elem? ps k ≡ some p
    → get_elem? ps i ≡ some r
    → is_runnable p.state ≡ true
    → is_running r.state ≡ true
    → k ≢ i
runnable_ne_running p r k i ps at_k at_i can runs e =
    let same = same_slot (sym at_k ∙ ap (get_elem? ps) e ∙ at_i) in
    absurd (true-ne-false (sym runs ∙ ap (λ x. is_running x.state) (sym same) ∙ not_running p can))
  where
    true-ne-false : true ≡ false → ⊥
    true-ne-false h = ground arith

-- With the scheduler's invariant, the idle process current, some runnable process in slot `j` and
-- fuel for `nproc` tests, a round of the idle loop meets no failing assertion. It takes up the
-- first runnable slot in cyclic order from the index where the last search ended, at most as far
-- as `j`; that process is now running and the current one, no slot but its own and the idle one
-- has changed, and the invariant holds.
pub dispatch-IsTaken :
    (st : Statics) (m : Machine) (i j fuel : ℕ)
    → IsSound i i m
    → j < m.nproc
    → runnable_at m.procs j ≡ true
    → m.nproc ≤ fuel
    → (d : ℕ) × (d ≤ distance m j)
      × FirstAt m d
      × Returns (λ _ m'. IsTaken m i (nth_after m.nproc m.next d) m') (dispatch st fuel m)
dispatch-IsTaken st m i j fuel s lt run enough =
    let can : CanSearch (record m { irq = true }) = record {
      next_in = s.next_in;
      table = s.table;
    } in
    let (d, near, first, found) =
      find_runnable_proc-first (record m { irq = true }) j fuel can lt run enough in
    let k = nth_after m.nproc m.next d in
    let below : k < m.nproc = mod-lt (m.next + d) (omega (arith, lt)) in
    let (p, at_k, ok) = runnable-slot m.procs k first.hit in
    let (r, at_i) = get_elem?-lt m.procs i (omega (arith, s.idle_in, s.table)) in
    let ne = runnable_ne_running p r k i m.procs at_k at_i ok (s.idle_runs i r at_i refl) in
    (
      d,
      near,
      record { hit = first.hit; before = first.before },
      subst (Returns _)
          (sym (
            dispatch-eq st fuel m (picked (record m { irq = true }) k) k i p r found s.idle
              s.idle_ctx at_k at_i (omega (arith, below, s.table)) ne))
          (returns (taken st m k i p r s ne below at_k at_i)),
    )
