-- ===== src/Proc/Switch.antt =====
-- kernel/proc.c: giving up the processor and getting it, with `swtch` of kernel/switch.S. A function
-- that switches away ends, in the model, where the processor goes on in the other thread: `sched`
-- in the idle loop, and a round of the idle loop in the thread that it picks.
use rt.Prelude.{ℕ, zero, suc, ◌+◌, ◌/◌, ◌%◌, ◌^◌, not, some, ◌==◌, if◌then◌else◌}
use rt.Prelude.Int.{ℤ, pos, ltb_ℤ, pos_part}
use rt.Prelude.Run.{
  Cmd, panic, out_of_fuel, undefined, ◌>>=◌, ◌>>◌, pure, assert, modify, gets, the,
}
use rt.Memory.{load64, store64, store32}
use rt.Layout.{v2p}
use rt.Proc.{
  ctx_at, ProcState, Context, Machine, Statics, kstack_sz, proc_at, put_proc, set_proc, current,
  idle, cli, sti, lcr3, is_running, is_runnable,
}

-- The registers saved in `old->ctx`: `rip` is what stands on top of the stack, and `rdi` holds the
-- first argument, which is the address of `old->ctx`.
abbrev pub saved : Machine → ℕ → Context
saved m old = record m.regs { rip = load64 m.kernel.mem m.regs.rsp; rdi = ctx_at m old }

-- The registers once those of `new` are loaded and `ret` has taken the address off the stack.
abbrev pub resumed : Context → Context
resumed c = record c { rsp = (c.rsp + 8) % 2 ^ 64 }

-- Slots `old` and `new` of the table hold the two contexts.
unfoldable pub swtch : (old new : ℕ) → Cmd Machine (Unit {0})
swtch old new = do
  p ← proc_at old
  c ← gets (λ m. saved m old)
  modify (put_proc old (record p { ctx = c }))
  q ← proc_at new
  modify λ m. record m {
    regs = resumed q.ctx;
    kernel = record m.kernel { mem = store64 m.kernel.mem q.ctx.rsp q.ctx.rip };
  }

-- As far as the switch, and then the assertion that the idle loop makes behind its own switch.
unfoldable pub sched : Cmd Machine (Unit {0})
unfolding swtch
sched = do
  old ← current
  p ← proc_at old
  assert (not (is_running p.state))
  irq ← gets (λ m. m.irq)
  assert (not irq)
  i ← idle
  modify λ m. record m { curproc = some i }
  q ← proc_at i
  lcr3 (v2p q.pt_root)
  ctx ← gets (λ m. m.idlectx)
  to ← the ctx
  swtch old to
  cur ← current
  i' ← idle
  assert (cur == i')

unfoldable pub yield : Cmd Machine (Unit {0})
unfolding sched
yield = do
  cur ← current
  p ← proc_at cur
  assert (is_running p.state)
  cli
  set_proc cur (record p { state = ProcState.runnable })
  sched

-- `exit(retval)`: nothing runs behind `sched`, since an exited process is not picked again.
unfoldable pub exit : (retval : ℕ) → Cmd Machine (Unit {0})
unfolding sched
exit retval = do
  cur ← current
  p ← proc_at cur
  assert (is_running p.state)
  cli
  set_proc cur (record p { state = ProcState.exited; retval = retval })
  sched

unfoldable pub sleep : (nticks : ℤ) → Cmd Machine (Unit {0})
unfolding sched
sleep nticks =
    if ltb_ℤ nticks (pos 0) then (λ _. panic) else if pos_part nticks == 0 then pure tt else do
      cur ← current
      p ← proc_at cur
      assert (is_running p.state)
      cli
      set_proc cur (record p { state = ProcState.sleeping; sleeprem = nticks })
      sched

-- One round of the search looks at slot `next` and moves on; `i % 0` would be a division fault.
abbrev pub advance : Machine → Machine
advance m = record m { next = (m.next + 1) % m.nproc }

unfoldable pub find_runnable_proc : (fuel : ℕ) → Cmd Machine ℕ
find_runnable_proc zero = λ _. out_of_fuel
find_runnable_proc (suc fuel) =
    let rest = find_runnable_proc fuel in
    do
      i ← gets (λ m. m.next)
      p ← proc_at i
      n ← gets (λ m. m.nproc)
      if n == 0
          then (λ _. undefined)
          else do modify advance; if is_runnable p.state then pure i else rest

-- `tss[1]` and `tss[2]` take the two halves of the top of the kernel stack.
unfoldable pub set_task_kstack : Statics → Cmd Machine (Unit {0})
set_task_kstack st = do
  cur ← current
  i ← idle
  assert (not (cur == i))
  p ← proc_at cur
  let rsp = (p.kstack + kstack_sz) % 2 ^ 64
  modify λ m. record m {
    kernel = record m.kernel {
      mem =
          store32 (store32 m.kernel.mem (st.tls + 1024 + 4) (rsp % 2 ^ 32)) (st.tls + 1024 + 8)
            (rsp / 2 ^ 32);
    };
  }

-- A round of `idlemain` that finds a process, as far as the switch to it.
unfoldable pub dispatch : Statics → (fuel : ℕ) → Cmd Machine (Unit {0})
unfolding find_runnable_proc set_task_kstack swtch
dispatch st fuel = do
  sti
  i ← find_runnable_proc fuel
  modify λ m. record m { curproc = some i }
  p ← proc_at i
  set_proc i (record p { state = ProcState.running })
  lcr3 (v2p p.pt_root)
  set_task_kstack st
  ctx ← gets (λ m. m.idlectx)
  from ← the ctx
  swtch from i
