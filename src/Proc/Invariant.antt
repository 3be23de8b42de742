-- ===== src/Proc/Invariant.antt =====
-- kernel/proc.c: what holds of the scheduler between any two of its operations, and that the switch
-- to the idle loop keeps it.
use mathlib.Core.Path.{subst}
use native.Mathlib.Decide.{ℕ_discrete}
use rt.Prelude.{
  ℕ, suc, ◌+◌, ◌*◌, ◌%◌, ◌^◌, ◌≤◌, ◌<◌, ◌≡◌, ◌≢◌, refl, sym, ◌∙◌, ap, true, false, some, List,
  arith, length, length-set, get_elem?, get_elem?-set_self, get_elem?-set_ne, set,
}
use rt.Prelude.Int.{pos}
use rt.Prelude.Run.{Returns, returns}
use rt.Memory.{load64}
use rt.Proc.{ProcState, Context, Proc, Machine, is_running}
use rt.Proc.Switch.{saved, sched}
use rt.Proc.Sched.{gave_up, sched-eq}

-- A process that sleeps has ticks to wait.
abbrev pub IsCounted : Proc → Type 0
IsCounted p = p.state ≡ ProcState.sleeping → (n : ℕ) × (p.sleeprem ≡ pos (suc n))

-- `P` holds of every slot.
abbrev pub Every : (ℕ → Proc → Type 0) → List Proc → Type 0
Every P ps = (j : ℕ) (p : Proc) → get_elem? ps j ≡ some p → P j p

-- A slot is marked as running only if it is that of the idle process or of the current one.
abbrev pub IsStopped : (i c j : ℕ) → Proc → Type 0
IsStopped i c j p = j ≢ i → j ≢ c → is_running p.state ≡ false

-- The idle process is in slot `i` and the current one in slot `c`.
pub record IsSound (i c : ℕ) (m : Machine) : Type 0 where
  pub idle : m.idleproc ≡ some i
  pub idle_ctx : m.idlectx ≡ some i
  pub cur : m.curproc ≡ some c
  pub table : m.nproc ≤ length m.procs
  pub idle_in : i < m.nproc
  pub cur_in : c < m.nproc
  pub next_in : m.next < m.nproc
  pub idle_runs : Every (λ j p. j ≡ i → is_running p.state ≡ true) m.procs
  pub cur_runs : Every (λ j p. j ≡ c → is_running p.state ≡ true) m.procs
  pub stopped : Every (IsStopped i c) m.procs
  pub counted : Every (λ j p. IsCounted p) m.procs

some-injective : {a b : Proc} → some a ≡ some b → a ≡ b
some-injective e = cc

-- What holds of every slot and of the new value holds of every slot once it is written.
pub Every-set :
    (P Q : ℕ → Proc → Type 0) (ps : List Proc) (c : ℕ) (x : Proc)
    → c < length ps
    → Every P ps
    → ((j : ℕ) (p : Proc) → j ≢ c → P j p → Q j p)
    → Q c x
    → Every Q (set ps c x)
Every-set P Q ps c x lt all weaken new j p at = elim (ℕ_discrete c j) [
  | yes e ↦
      let same =
        some-injective (sym (get_elem?-set_self ps c x lt) ∙ ap (get_elem? (set ps c x)) e ∙ at) in
      subst (λ k. Q k p) e (subst (Q c) same new)
  | no ne ↦ weaken j p (λ e. ne (sym e)) (all j p (sym (get_elem?-set_ne ps x ne) ∙ at))
]

-- The registers that the process of slot `c` goes on with: those it has, the address that its call
-- returns to, and the address of its own context as the first argument.
abbrev pub kept_registers : Machine → (c : ℕ) → Context
kept_registers m c = record {
  r15 = m.regs.r15;
  r14 = m.regs.r14;
  r13 = m.regs.r13;
  r12 = m.regs.r12;
  rbx = m.regs.rbx;
  rbp = m.regs.rbp;
  rip = load64 m.kernel.mem m.regs.rsp;
  rsp = m.regs.rsp;
  rdi = m.procs_at + 144 * c + 72;
}

-- The registers of a context that has been taken up: its stack is one word shorter.
abbrev pub loaded_registers : Context → Context
loaded_registers x = record {
  r15 = x.r15;
  r14 = x.r14;
  r13 = x.r13;
  r12 = x.r12;
  rbx = x.rbx;
  rbp = x.rbp;
  rip = x.rip;
  rsp = (x.rsp + 8) % 2 ^ 64;
  rdi = x.rdi;
}

-- The current process `c` has left the processor to the idle loop, and its slot holds `p`.
pub record IsPassed (m : Machine) (c i : ℕ) (p : Proc) (m' : Machine) : Type 0 where
  pub sound : IsSound i i m'
  pub slot : get_elem? m'.procs c ≡ some (record p { ctx = kept_registers m c })
  pub resumes : (q : Proc) → get_elem? m.procs i ≡ some q → m'.regs ≡ loaded_registers q.ctx
  pub others : (j : ℕ) → j ≢ c → get_elem? m'.procs j ≡ get_elem? m.procs j
  pub places : (m'.nproc ≡ m.nproc) × (m'.next ≡ m.next)
  pub irq_off : m'.irq ≡ false

-- Interrupts are off and slot `c` holds `p`.
abbrev pub stopping : Machine → ℕ → Proc → Machine
stopping m c p = record m { irq = false; procs = set m.procs c p }

module _ (m : Machine) (c i : ℕ) (p p' q : Proc) (s : IsSound i c m) (ne : c ≢ i)
    (at_c : get_elem? m.procs c ≡ some p) (at_i : get_elem? m.procs i ≡ some q)
    (off : is_running p'.state ≡ false) (ready : IsCounted p') where
  abbrev last : Proc
  last = record p' { ctx = saved m c }

  abbrev marked : Machine
  marked = stopping m c p'

  in_table : c < length m.procs
  in_table = omega (arith, s.cur_in, s.table)

  in_marked : c < length (set m.procs c p')
  in_marked = omega (arith, in_table, length-set m.procs c p')

  -- Two writes to the slot.
  twice :
      (P Q : ℕ → Proc → Type 0)
      → Every P m.procs
      → ((j : ℕ) (r : Proc) → j ≢ c → P j r → Q j r)
      → Q c p'
      → Q c last
      → Every Q (set (set m.procs c p') c last)
  twice P Q all weaken new new' =
      Every-set Q Q (set m.procs c p') c last in_marked
        (Every-set P Q m.procs c p' in_table all weaken new) (λ j r d h. h) new'

  passed-IsSound : IsSound i i (gave_up marked c i p' q)
  passed-IsSound = record {
    idle = s.idle;
    idle_ctx = s.idle_ctx;
    cur = refl;
    table = omega (arith, s.table, length-set m.procs c p', length-set (set m.procs c p') c last);
    idle_in = s.idle_in;
    cur_in = s.idle_in;
    next_in = s.next_in;
    idle_runs = idle_stays;
    cur_runs = idle_stays;
    stopped =
        twice (IsStopped i c) (IsStopped i i) s.stopped (λ j r d h a b. h a d) (λ a b. off)
          (λ a b. off);
    counted = twice (λ j r. IsCounted r) (λ j r. IsCounted r) s.counted (λ j r d h. h) ready ready;
  }
    where
      idle_stays : Every (λ j r. j ≡ i → is_running r.state ≡ true) (set (set m.procs c p') c last)
      idle_stays =
          twice (λ j r. j ≡ i → is_running r.state ≡ true)
            (λ j r. j ≡ i → is_running r.state ≡ true) s.idle_runs (λ j r d h. h)
            (λ e. absurd (ne e)) (λ e. absurd (ne e))

  pub sched-IsPassed : Returns (λ _ m'. IsPassed m c i p' m') (sched (stopping m c p'))
  sched-IsPassed =
      rw
        (sched-eq marked c i p' q s.cur s.idle s.idle_ctx refl
          (get_elem?-set_self m.procs c p' in_table) (get_elem?-set_ne m.procs p' ne ∙ at_i) ne off)
        (returns (record {
          sound = passed-IsSound;
          slot = get_elem?-set_self (set m.procs c p') c last in_marked;
          resumes =
              λ x at. ap {A = Proc} (λ y. loaded_registers y.ctx) (some-injective (sym at_i ∙ at));
          others = λ j d.
              get_elem?-set_ne (set m.procs c p') last (λ e. d (sym e))
              ∙ get_elem?-set_ne m.procs p' (λ e. d (sym e));
          places = (refl, refl);
          irq_off = refl;
        }))
