-- ===== src/Proc/Create.antt =====
-- kernel/proc.c: `spawn` takes the next slot of the table.
use mathlib.Core.Path.{subst}
use rt.Prelude.{
  ℕ, zero, suc, ◌+◌, ◌-◌, ◌*◌, ◌<◌, ◌≡◌, ◌≢◌, refl, sym, ◌∙◌, ap, true, false, none, some, List, [],
  ◌∷◌, arith, length, length-set, get_elem?, get_elem?-set_self, get_elem?-set_ne, set,
}
use rt.Prelude.Int.{pos}
use rt.Prelude.Run.{done, panic, undefined, Returns, returns}
use rt.Memory.{Mem, store64}
use rt.Str.{safestrcpy}
use rt.Proc.{ProcState, zero_context, Proc, NewProcDesc, Machine, Statics, name_at, is_running}
use rt.Proc.Table.{get_elem?-lt}
use rt.Proc.Spawn.{prio_ok, spawn}
use rt.Proc.Invariant.{IsCounted, Every, IsStopped, IsSound, Every-set}

-- The process of slot `n`, in place of what the slot held.
abbrev pub fresh : Statics → NewProcDesc → (kpml4 n : ℕ) → Proc → Proc
fresh st desc kpml4 n p =
    let kstack = st.kstacks + 4096 * n in
    record p {
      state = ProcState.runnable;
      pid = n;
      kstack = kstack;
      pt_root = kpml4;
      prio = desc.prio;
      ctx = record {
        r15 = 0;
        r14 = 0;
        r13 = 0;
        r12 = 0;
        rbx = 0;
        rbp = kstack + 4096;
        rip = desc.func;
        rsp = kstack + 4096 - 16;
        rdi = desc.initarg;
      };
    }

-- The slot while it is reserved.
abbrev reserved : Statics → ℕ → Proc → Proc
reserved st n p = record p {
  state = ProcState.reserve;
  pid = n;
  ctx = zero_context;
  kstack = st.kstacks + 4096 * n;
}

-- Memory with the name, and with the return address on top of the kernel stack.
abbrev pub spawned_mem : Statics → NewProcDesc → ℕ → Mem → Mem
spawned_mem st desc n m =
    store64 ((safestrcpy m (name_at st n) desc.name (pos 16)).1) (st.kstacks + 4096 * n + 4096 - 8)
      st.spawnret

-- `spawn` has filled the slot behind the last.
pub record IsSpawned (st : Statics) (desc : NewProcDesc) (i c : ℕ) (m m' : Machine) : Type 0 where
  pub sound : IsSound i c m'
  pub slot :
      (p : Proc)
      → get_elem? m.procs m.nproc ≡ some p
      → get_elem? m'.procs m.nproc ≡ some (fresh st desc m.kpml4 m.nproc p)
  pub others : (j : ℕ) → j ≢ m.nproc → get_elem? m'.procs j ≡ get_elem? m.procs j
  pub count : m'.nproc ≡ m.nproc + 1
  pub memory : m'.kernel.mem ≡ spawned_mem st desc m.nproc m.kernel.mem

-- The machine after `spawn`, with what the slot held.
abbrev spawned : Statics → NewProcDesc → Machine → Proc → Machine
spawned st desc m p = record m {
  procs =
      set (set m.procs m.nproc (reserved st m.nproc p)) m.nproc (fresh st desc m.kpml4 m.nproc p);
  nproc = m.nproc + 1;
  kernel = record m.kernel { mem = spawned_mem st desc m.nproc m.kernel.mem };
}

get_elem?-end : (ps : List Proc) (n : ℕ) → n ≡ length ps → get_elem? ps n ≡ none
get_elem?-end [] n e = refl
get_elem?-end (p ∷ ps) zero e = absurd (omega arith)
get_elem?-end (p ∷ ps) (suc n) e = get_elem?-end ps n (omega arith)

spawn-eq :
    (st : Statics) (desc : NewProcDesc) (m : Machine) (p : Proc)
    → prio_ok desc.prio ≡ true
    → get_elem? m.procs m.nproc ≡ some p
    → m.nproc < length m.procs
    → spawn st desc m ≡ done m.nproc (spawned st desc m p)
unfolding spawn
spawn-eq st desc m p ok at lt =
    let again = get_elem?-set_self m.procs m.nproc (reserved st m.nproc p) lt in
    rw (ok, at, at, again, again) refl

module _ (st : Statics) (desc : NewProcDesc) (m : Machine) (i c : ℕ) (p : Proc) (s : IsSound i c m)
    (lt : m.nproc < length m.procs) (at : get_elem? m.procs m.nproc ≡ some p)
    (quiet : IsCounted (fresh st desc m.kpml4 m.nproc p)) where
  abbrev first : List Proc
  first = set m.procs m.nproc (reserved st m.nproc p)

  abbrev new : Proc
  new = fresh st desc m.kpml4 m.nproc p

  in_first : m.nproc < length first
  in_first = omega (arith, lt, length-set m.procs m.nproc (reserved st m.nproc p))

  filled :
      (P : ℕ → Proc → Type 0)
      → Every P m.procs
      → P m.nproc (reserved st m.nproc p)
      → P m.nproc new
      → Every P (set first m.nproc new)
  filled P all h h' =
      Every-set P P first m.nproc new in_first
        (Every-set P P m.procs m.nproc (reserved st m.nproc p) lt all (λ j x d k. k) h)
        (λ j x d k. k) h'

  spawned-IsSpawned : IsSpawned st desc i c m (spawned st desc m p)
  spawned-IsSpawned = record {
    sound = record {
      idle = s.idle;
      idle_ctx = s.idle_ctx;
      cur = s.cur;
      table = omega (arith, lt, in_first, length-set first m.nproc new);
      idle_in = omega (arith, s.idle_in);
      cur_in = omega (arith, s.cur_in);
      next_in = omega (arith, s.next_in);
      idle_runs =
          filled (λ j x. j ≡ i → is_running x.state ≡ true) s.idle_runs
            (λ e. absurd (omega (arith, s.idle_in))) (λ e. absurd (omega (arith, s.idle_in)));
      cur_runs =
          filled (λ j x. j ≡ c → is_running x.state ≡ true) s.cur_runs
            (λ e. absurd (omega (arith, s.cur_in))) (λ e. absurd (omega (arith, s.cur_in)));
      stopped = filled (IsStopped i c) s.stopped (λ a b. refl) (λ a b. refl);
      counted = filled (λ j x. IsCounted x) s.counted (λ e. absurd (ground arith)) quiet;
    };
    slot = λ q e.
        get_elem?-set_self first m.nproc new in_first
        ∙ ap {A = Proc} (λ x. some (fresh st desc m.kpml4 m.nproc x)) (same_slot (sym at ∙ e));
    others = λ j d.
        get_elem?-set_ne first new (λ e. d (sym e))
        ∙ get_elem?-set_ne m.procs (reserved st m.nproc p) (λ e. d (sym e));
    count = refl;
    memory = refl;
  }
    where
      same_slot : {a b : Proc} → some a ≡ some b → a ≡ b
      same_slot e = cc

-- With the scheduler's invariant, a priority in range and a free slot in the table, `spawn`
-- returns the slot `nproc` and counts it. The slot then holds a runnable process with its number,
-- the kernel's page table, the priority, and a context of zeros but for the function as the place
-- to go on, its argument, and the two stack registers, at the top of a fresh kernel stack and two
-- words below it; memory has changed by the name and by the return address on top of that stack;
-- no other slot has changed, and the invariant holds.
pub spawn-IsSpawned :
    (st : Statics) (desc : NewProcDesc) (m : Machine) (i c : ℕ)
    → IsSound i c m
    → prio_ok desc.prio ≡ true
    → m.nproc < length m.procs
    → Returns (λ slot m'. (slot ≡ m.nproc) × IsSpawned st desc i c m m') (spawn st desc m)
spawn-IsSpawned st desc m i c s ok lt =
    let (p, at) = get_elem?-lt m.procs m.nproc lt in
    subst (Returns _) (sym (spawn-eq st desc m p ok at lt))
      (returns (refl, spawned-IsSpawned st desc m i c p s lt at (λ e. absurd (ground arith))))

-- With a priority in range and as many processes as slots, `spawn` goes outside the table: there
-- is no test for it.
pub spawn_full :
    (st : Statics) (desc : NewProcDesc) (m : Machine)
    → prio_ok desc.prio ≡ true
    → m.nproc ≡ length m.procs
    → spawn st desc m ≡ undefined
unfolding spawn
spawn_full st desc m ok full = rw (ok, get_elem?-end m.procs m.nproc full) refl

pub spawn_bad_prio :
    (st : Statics) (desc : NewProcDesc) (m : Machine)
    → prio_ok desc.prio ≡ false
    → spawn st desc m ≡ panic
unfolding spawn
spawn_bad_prio st desc m bad = rw bad refl
