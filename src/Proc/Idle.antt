-- ===== src/Proc/Idle.antt =====
-- kernel/proc.c: `procinit` makes the machine that the scheduler starts from, and the first `spawn`.
use mathlib.Core.Path.{subst}
use rt.Prelude.{
  ℕ, ◌+◌, ◌<◌, ◌≡◌, ◌≢◌, refl, sym, ◌∙◌, ap, true, false, some, arith, length, length-set,
  get_elem?, get_elem?-set_self, get_elem?-set_ne, set,
}
use rt.Prelude.Int.{pos}
use rt.Prelude.Run.{done, Returns, returns, bind, mono, ◌>>◌}
use rt.Memory.{Mem, write}
use rt.Memory.Laws.{IsBytes, SameBut, write_ne}
use rt.Str.{safestrcpy}
use rt.Str.Copy.{Apart, TextLen, safestrcpy-IsTerminated}
use rt.Proc.{ProcState, Proc, NewProcDesc, Machine, Statics, name_at, is_running}
use rt.Proc.Table.{get_elem?-lt}
use rt.Proc.Spawn.{prio_ok, procinit, spawn}
use rt.Proc.Invariant.{IsCounted, Every, IsSound, Every-set}
use rt.Proc.Create.{IsSpawned, spawn-IsSpawned}

-- The idle process in its slot.
abbrev pub idle_proc : (kpml4 : ℕ) → Proc → Proc
idle_proc kpml4 p = record p { state = ProcState.running; kstack = 0; pt_root = kpml4; pid = 1 }

abbrev named : Statics → (text index : ℕ) → Mem → Mem
named st text index m =
    let at = name_at st 0 in
    write (write (safestrcpy m at text (pos 16)).1 (at + 5) (b'0' + index)) (at + 6) 0

-- The bytes of the number come behind the end of the text.
named-rest :
    (st : Statics) (text index : ℕ) (m : Mem) (b : ℕ)
    → b ≢ name_at st 0 + 5
    → b ≢ name_at st 0 + 6
    → named st text index m b ≡ (safestrcpy m (name_at st 0) text (pos 16)).1 b
named-rest st text index m b ne5 ne6 =
    let copied = (safestrcpy m (name_at st 0) text (pos 16)).1 in
    write_ne (write copied (name_at st 0 + 5) (b'0' + index)) (name_at st 0 + 6) 0 b (omega arith)
    ∙ write_ne copied (name_at st 0 + 5) (b'0' + index) b (omega arith)

-- The table before the first process: no slot is in use.
pub record IsUnused (m : Machine) : Type 0 where
  pub none_yet : m.nproc ≡ 0
  pub start : m.next ≡ 0
  pub room : 0 < length m.procs
  pub idle : Every (λ j p. (is_running p.state ≡ false) × IsCounted p) m.procs

-- The machine after `procinit`: the invariant holds with the idle process current, and the name in
-- its slot is the text, ended where the text ends.
pub record IsIdle (st : Statics) (text : ℕ) (m m' : Machine) : Type 0 where
  pub sound : IsSound 0 0 m'
  pub count : m'.nproc ≡ 1
  pub slot :
      (p : Proc) → get_elem? m.procs 0 ≡ some p → get_elem? m'.procs 0 ≡ some (idle_proc m.kpml4 p)
  pub others : (j : ℕ) → j ≢ 0 → get_elem? m'.procs j ≡ get_elem? m.procs j
  pub size : length m'.procs ≡ length m.procs
  pub name : (i : ℕ) → i < 4 → m'.kernel.mem (name_at st 0 + i) ≡ m.kernel.mem (text + i)
  pub name_end : m'.kernel.mem (name_at st 0 + 4) ≡ 0
  pub outside : SameBut (name_at st 0) 16 m.kernel.mem m'.kernel.mem

-- The idle process and then one more, in slot 1.
pub record HasFirst (st : Statics) (text : ℕ) (desc : NewProcDesc) (m : Machine) (slot : ℕ)
    (m' : Machine) : Type 0 where
  pub started : Machine
  pub idle : IsIdle st text m started
  pub slot_one : slot ≡ 1
  pub spawned : IsSpawned st desc 0 0 started m'
  pub pids :
      (p q : Proc)
      → get_elem? m'.procs 0 ≡ some p
      → get_elem? m'.procs 1 ≡ some q
      → (p.pid ≡ 1) × (q.pid ≡ 1)

module _ (st : Statics) (text index : ℕ) (m : Machine) where
  abbrev started : Proc → Machine
  started p = record m {
    procs = set m.procs 0 (idle_proc m.kpml4 p);
    nproc = 1;
    curproc = some 0;
    idlectx = some 0;
    idleproc = some 0;
    kernel = record m.kernel { mem = named st text index m.kernel.mem };
  }

  procinit-eq :
      (p : Proc)
      → m.nproc ≡ 0
      → get_elem? m.procs 0 ≡ some p
      → procinit st text index m ≡ done tt (started p)
  unfolding procinit
  procinit-eq p none_yet at = rw (none_yet, at, at) refl

  some-proc : {a b : Proc} → some a ≡ some b → a ≡ b
  some-proc e = cc

  started-IsSound : (p : Proc) → IsUnused m → IsSound 0 0 (started p)
  started-IsSound p un =
      let idle_runs =
        Every-set (λ j q. (is_running q.state ≡ false) × IsCounted q)
          (λ j q. j ≡ 0 → is_running q.state ≡ true) m.procs 0 (idle_proc m.kpml4 p) un.room un.idle
          (λ j q ne h e. absurd (ne e)) (λ e. refl) in
      record {
        idle = refl;
        idle_ctx = refl;
        cur = refl;
        table = omega (arith, un.room, length-set m.procs 0 (idle_proc m.kpml4 p));
        idle_in = omega arith;
        cur_in = omega arith;
        next_in = omega (arith, un.start);
        idle_runs = idle_runs;
        cur_runs = idle_runs;
        stopped =
            Every-set _ _ m.procs 0 (idle_proc m.kpml4 p) un.room un.idle (λ j q ne h a b. h.0)
              (λ a b. absurd (a refl));
        counted =
            Every-set _ _ m.procs 0 (idle_proc m.kpml4 p) un.room un.idle (λ j q ne h. h.1)
              (λ e. absurd (ground arith));
      }

  -- Before the first process, with the text `idle` apart from the slot's name: `procinit` ends, the
  -- scheduler's invariant holds with the idle process in slot 0 and current.
  procinit-IsIdle :
      IsUnused m
      → IsBytes m.kernel.mem
      → Apart (name_at st 0) 16 text 16
      → TextLen m.kernel.mem text 15 4
      → Returns (λ _ m'. IsIdle st text m m') (procinit st text index m)
  procinit-IsIdle un bytes apart t =
      let (p, at) = get_elem?-lt m.procs 0 un.room in
      let copied =
        (safestrcpy-IsTerminated m.kernel.mem (name_at st 0) text 16 4 (omega arith) bytes apart
          t).1 in
      subst (Returns _) (sym (procinit-eq p un.none_yet at)) (
        returns record {
          sound = started-IsSound p un;
          count = refl;
          slot = λ q e.
              get_elem?-set_self m.procs 0 (idle_proc m.kpml4 p) un.room
              ∙ ap {A = Proc} (λ x. some (idle_proc m.kpml4 x)) (some-proc (sym at ∙ e));
          others = λ j d. get_elem?-set_ne m.procs (idle_proc m.kpml4 p) (λ e. d (sym e));
          size = length-set m.procs 0 (idle_proc m.kpml4 p);
          name = λ i h.
              named-rest st text index m.kernel.mem (name_at st 0 + i) (λ e. omega arith)
                (λ e. omega arith)
              ∙ copied.text i h;
          name_end =
              named-rest st text index m.kernel.mem (name_at st 0 + 4) (λ e. omega arith)
                (λ e. omega arith)
              ∙ copied.nul;
          outside = λ b h.
              named-rest st text index m.kernel.mem b (λ e. omega arith) (λ e. omega arith)
              ∙ copied.outside b h;
        })

  -- Both have the number 1.
  first-pids :
      (desc : NewProcDesc) (m1 m2 : Machine)
      → IsUnused m
      → 1 < length m.procs
      → IsIdle st text m m1
      → IsSpawned st desc 0 0 m1 m2
      → (p q : Proc) → get_elem? m2.procs 0 ≡ some p
      → get_elem? m2.procs 1 ≡ some q
      → (p.pid ≡ 1) × (q.pid ≡ 1)
  first-pids desc m1 m2 un two r w p q at0 at1 =
      let (p', in0) = get_elem?-lt m.procs 0 un.room in
      let (q', in1) = get_elem?-lt m1.procs m1.nproc (omega (arith, r.count, r.size)) in
      let idle_is =
        some-proc (sym at0 ∙ w.others 0 (λ e. omega (arith, r.count)) ∙ r.slot p' in0) in
      let new_is = some-proc (sym at1 ∙ ap (get_elem? m2.procs) (sym r.count) ∙ w.slot q' in1) in
      (ap {A = Proc} (λ x. x.pid) idle_is, ap {A = Proc} (λ x. x.pid) new_is ∙ r.count)

  -- Before the first process, with no slot running, in a table of at least two slots, a memory of
  -- bytes and the four letters of `idle` apart from the name of slot 0: `procinit` and then
  -- `spawn`, with a priority in range, end. After `procinit` the scheduler's invariant holds with
  -- the idle process in slot 0 and current, and its name is the four letters with a zero behind
  -- them, whatever the processor's number; `spawn` then fills slot 1 and keeps the invariant.
  -- Both processes have the `pid` 1.
  pub procinit-spawn :
      (desc : NewProcDesc)
      → IsUnused m
      → 1 < length m.procs
      → IsBytes m.kernel.mem
      → Apart (name_at st 0) 16 text 16
      → TextLen m.kernel.mem text 15 4
      → prio_ok desc.prio ≡ true
      → Returns
          (λ slot m'. HasFirst st text desc m slot m')
          ((procinit st text index >> spawn st desc) m)
  procinit-spawn desc un two bytes apart t ok = bind (procinit-IsIdle un bytes apart t) λ _ m1 r.
      mono (spawn-IsSpawned st desc m1 0 0 r.sound ok (omega (arith, r.count, r.size))) λ slot m2 w.
        record {
          started = m1;
          idle = r;
          slot_one = w.0 ∙ r.count;
          spawned = w.1;
          pids = first-pids desc m1 m2 un two r w.1;
        }
