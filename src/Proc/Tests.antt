-- ===== src/Proc/Tests.antt =====
-- The theorems on the scheduler at the sample machines.
use mathlib.Core.Path.{subst}
use rt.Memory.{Mem}
use rt.Prelude.{
  false, ℕ, zero, suc, some, inr, ◌==◌, if◌then◌else◌, replicate, ◌≤◌, ◌<◌, ◌≡◌, refl, ◌⊎◌, arith,
}
use rt.Prelude.Int.{pos}
use rt.Prelude.Run.{done, Returns, ◌>>◌}
use rt.Proc.Idle.{IsUnused, HasFirst, procinit-spawn}
use rt.Proc.{Proc, zero_proc, is_running, ProcState, Machine, NewProcDesc}
use rt.Proc.Switch.{yield, find_runnable_proc, dispatch}
use rt.Proc.Search.{CanSearch, FirstAt, nth_after, picked}
use rt.Proc.RoundRobin.{distance, find_runnable_proc-first, find_runnable_proc-nearer}
use rt.Proc.Invariant.{IsPassed, Every, IsCounted}
use rt.Proc.GiveUp.{yield-IsPassed, SleepsFor, sleep-SleepsFor}
use rt.Proc.Dispatch.{IsTaken, dispatch-IsTaken}
use rt.Proc.Spawn.{spawn, procinit}
use rt.Proc.Create.{IsSpawned, spawn-IsSpawned}
use rt.Proc.Space.{main_memory}
use rt.Proc.KernelSpace.{IsKernelSpace, main_memory-IsKernelSpace}
use rt.Kalloc.Samples.{none_free, none_free-IsFree}
use rt.Kalloc.Init.{first_page}
use rt.Layout.{p2v}
use rt.Proc.Samples.{busy_slot, sample, addresses, busy-IsSound, idle-IsSound}

abbrev busy : Machine
busy = sample ProcState.running 1

abbrev idling : Machine
idling = sample ProcState.runnable 0

idling-CanSearch : CanSearch idling
idling-CanSearch = record { next_in = omega arith; table = omega arith }

find_runnable_proc-first_example :
    (k : ℕ) × (k ≤ distance idling 1)
    × FirstAt idling k
    × (find_runnable_proc 3 idling ≡ done (nth_after 3 2 k) (picked idling (nth_after 3 2 k)))
find_runnable_proc-first_example =
    find_runnable_proc-first idling 1 3 idling-CanSearch (omega arith) refl (omega arith)

search_from_two : find_runnable_proc 3 idling ≡ done 1 (picked idling 1)
unfolding find_runnable_proc
search_from_two = refl

abbrev first_pick : ℕ
first_pick = 1

find_runnable_proc-nearer_example :
    (first_pick ≡ 1) ⊎ (distance (picked idling 1) 1 < distance idling 1)
find_runnable_proc-nearer_example =
    find_runnable_proc-nearer idling (picked idling 1) 1 1 3 idling-CanSearch (omega arith) refl
      (omega arith) search_from_two

yield-IsPassed_example :
    Returns (λ _ m. IsPassed busy 1 0 (busy_slot ProcState.runnable) m) (yield busy)
yield-IsPassed_example =
    yield-IsPassed busy 1 0 (busy_slot ProcState.running) busy-IsSound refl (omega arith)

sleep-SleepsFor_example : SleepsFor (pos 5) busy 1 0 (busy_slot ProcState.running)
sleep-SleepsFor_example =
    sleep-SleepsFor (pos 5) busy 1 0 (busy_slot ProcState.running) busy-IsSound refl (omega arith)

dispatch-IsTaken_example :
    (d : ℕ) × (d ≤ distance idling 1)
    × FirstAt idling d
    × Returns (λ _ m. IsTaken idling 0 (nth_after 3 2 d) m) (dispatch addresses 3 idling)
dispatch-IsTaken_example =
    dispatch-IsTaken addresses idling 0 1 3 idle-IsSound (omega arith) refl (omega arith)

-- A description with a priority in range.
abbrev desc : NewProcDesc
desc = record { name = 16; func = 4096; initarg = 7; prio = pos 10 }

spawn-IsSpawned_example :
    Returns
      (λ slot m. (slot ≡ busy.nproc) × IsSpawned addresses desc 0 1 busy m)
      (spawn addresses desc busy)
spawn-IsSpawned_example = spawn-IsSpawned addresses desc busy 0 1 busy-IsSound refl (omega arith)

-- A kernel that ends at 2M.
main_memory-IsKernelSpace_example :
    Returns
      (λ _ m'. IsKernelSpace (first_page (p2v 0x200000)) m')
      (main_memory (p2v 0x200000) (sample ProcState.running 1))
main_memory-IsKernelSpace_example =
    main_memory-IsKernelSpace (p2v 0x200000) (sample ProcState.running 1) none_free-IsFree
      (omega arith) (omega arith)

abbrev idle_text : Mem
idle_text a =
    if a == 16
    then b'i'
    else if a == 17
    then b'd'
    else if a == 18
    then b'l'
    else if a == 19
    then b'e'
    else 0

Every-replicate : (P : Proc → Type 0) (n : ℕ) (p : Proc) → P p → Every (λ j q. P q) (replicate n p)
Every-replicate P zero p h j q at = absurd (ground arith)
Every-replicate P (suc n) p h zero q at = subst P (same at) h
  where
    same : {a b : Proc} → some a ≡ some b → a ≡ b
    same e = cc
Every-replicate P (suc n) p h (suc j) q at = Every-replicate P n p h j q at

-- An empty table, and the text "idle" at 16.
abbrev empty : Machine
empty = record (sample ProcState.running 0) {
  kernel = record none_free { mem = idle_text };
  procs = replicate 4 zero_proc;
  nproc = 0;
  next = 0;
}

empty-IsUnused : IsUnused empty
empty-IsUnused = record {
  none_yet = refl;
  start = refl;
  room = omega arith;
  idle =
      Every-replicate (λ q. (is_running q.state ≡ false) × IsCounted q) 4 zero_proc
        (refl, λ e. absurd (ground arith));
}

procinit-spawn_example :
    Returns
      (λ slot m. HasFirst addresses 16 desc empty slot m)
      ((procinit addresses 16 0 >> spawn addresses desc) empty)
procinit-spawn_example =
    procinit-spawn addresses 16 0 empty desc empty-IsUnused (omega arith) (λ a. ground arith)
      (inr (omega arith))
      (record { bound = omega arith; text = λ i h. ground arith; ends = λ h. refl }) refl
