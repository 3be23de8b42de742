-- ===== src/Proc/Sched.antt =====
-- kernel/proc.c: `sched` and `dispatch` as single changes of the machine.
use rt.Prelude.{
  ℕ, ◌+◌, ◌%◌, ◌/◌, ◌^◌, ◌≡◌, ◌≢◌, ◌<◌, refl, sym, ◌∙◌, true, false, some, ◌==◌, arith, length,
  get_elem?, get_elem?-set_self, get_elem?-set_ne, set,
}
use rt.Prelude.Run.{done}
use rt.Memory.{Mem, store64, store32}
use rt.Layout.{v2p}
use rt.Proc.{ProcState, Proc, Machine, Statics, is_running}
use rt.Proc.Switch.{saved, resumed, swtch, sched, find_runnable_proc, set_task_kstack, dispatch}

-- The machine once the thread of slot `c` has given up the processor to that of slot `i`.
abbrev pub gave_up : (m : Machine) (c i : ℕ) (p q : Proc) → Machine
gave_up m c i p q = record m {
  procs = set m.procs c (record p { ctx = saved m c });
  curproc = some i;
  cr3 = v2p q.pt_root;
  regs = resumed q.ctx;
  kernel = record m.kernel { mem = store64 m.kernel.mem q.ctx.rsp q.ctx.rip };
}

self_eq : (i : ℕ) → (i == i) ≡ true
self_eq i = ground arith

pub sched-eq :
    (m : Machine) (c i : ℕ) (p q : Proc)
    → m.curproc ≡ some c
    → m.idleproc ≡ some i
    → m.idlectx ≡ some i
    → m.irq ≡ false
    → get_elem? m.procs c ≡ some p
    → get_elem? m.procs i ≡ some q
    → c ≢ i
    → is_running p.state ≡ false
    → sched m ≡ done tt (gave_up m c i p q)
unfolding sched
sched-eq m c i p q cur idl ctx irq at_c at_i ne stopped =
    rw
      (
        cur,
        at_c,
        stopped,
        irq,
        idl,
        at_i,
        ctx,
        at_c,
        get_elem?-set_ne m.procs (record p { ctx = saved m c }) ne,
        at_i,
      )
      (rw (self_eq i) refl)

-- The top of the kernel stack in the task state segment.
abbrev pub kstack_set : Statics → ℕ → Mem → Mem
kstack_set st rsp mem =
    store32 (store32 mem (st.tls + 1024 + 4) (rsp % 2 ^ 32)) (st.tls + 1024 + 8) (rsp / 2 ^ 32)

swtch-eq :
    (m : Machine) (old new : ℕ) (p q : Proc)
    → get_elem? m.procs old ≡ some p
    → get_elem? m.procs new ≡ some q
    → old ≢ new
    → swtch old new m
      ≡ done tt (record m {
        procs = set m.procs old (record p { ctx = saved m old });
        regs = resumed q.ctx;
        kernel = record m.kernel { mem = store64 m.kernel.mem q.ctx.rsp q.ctx.rip };
      })
unfolding swtch
swtch-eq m old new p q at_old at_new ne =
    rw (at_old, get_elem?-set_ne m.procs (record p { ctx = saved m old }) ne, at_new)

-- The machine of the idle loop, from the state behind the search, as it switches to slot `k`, and
-- once it has.
abbrev pub ready : (st : Statics) (m : Machine) (k : ℕ) (p : Proc) → Machine
ready st m k p = record m {
  procs = set m.procs k (record p { state = ProcState.running });
  curproc = some k;
  cr3 = v2p p.pt_root;
  kernel = record m.kernel { mem = kstack_set st ((p.kstack + 4096) % 2 ^ 64) m.kernel.mem };
}

abbrev pub switched_to : (m : Machine) (k i : ℕ) (p r : Proc) → Machine
switched_to m k i p r = record m {
  procs = set m.procs i (record r { ctx = saved m i });
  regs = resumed p.ctx;
  kernel = record m.kernel { mem = store64 m.kernel.mem p.ctx.rsp p.ctx.rip };
}

pub dispatch-eq :
    (st : Statics) (fuel : ℕ) (m m' : Machine) (k i : ℕ) (p r : Proc)
    → find_runnable_proc fuel (record m { irq = true }) ≡ done k m'
    → m'.idleproc ≡ some i
    → m'.idlectx ≡ some i
    → get_elem? m'.procs k ≡ some p
    → get_elem? m'.procs i ≡ some r
    → k < length m'.procs
    → k ≢ i
    → dispatch st fuel m ≡ done tt (switched_to (ready st m' k p) k i p r)
unfolding dispatch set_task_kstack
dispatch-eq st fuel m m' k i p r found idl ctx at_k at_i lt ne =
    let differ : (k == i) ≡ false = ground arith in
    let p' : Proc = record p { state = ProcState.running } in
    rw (found, at_k, at_k, idl, differ, get_elem?-set_self m'.procs k p' lt, ctx)
      (swtch-eq (record (ready st m' k p) { idleproc = some i; idlectx = some i }) i k r p'
        (get_elem?-set_ne m'.procs p' ne ∙ at_i) (get_elem?-set_self m'.procs k p' lt)
        (λ e. ne (sym e)))
