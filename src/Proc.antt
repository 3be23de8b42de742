-- ===== src/Proc.antt =====
-- kernel/proc.c with the types of include/ktypes.h and include/x64types.h: the process table, the
-- machine that the scheduler works on, and the helpers that its functions share. One processor runs
-- processes: the others stop in `mpenter`.
pub mod Switch
pub mod Spawn
pub mod Table
pub mod Search
pub mod RoundRobin
pub mod Sched
pub mod Invariant
pub mod GiveUp
pub mod Dispatch
pub mod Create
pub mod Space
pub mod Idle
pub mod KernelSpace
pub mod Samples
mod Tests
use rt.Prelude.{ℕ, suc, ◌+◌, ◌*◌, Bool, true, false, Option, none, some, List, get_elem?, set, ◌==◌}
use rt.Prelude.Int.{ℤ, pos}
use rt.Prelude.Run.{Cmd, ◌>>=◌, ◌>>◌, pure, modify, gets, the}
use rt.Memory.{load64, store64}
use rt.Kalloc.{Kernel}
use rt.Console.{Console}

-- `enum procstate`.
pub data ProcState : Type 0 where
  uninit runnable running exited sleeping reserve : ProcState

-- `struct context`: the registers that a switch between kernel threads saves.
pub record Context : Type 0 where
  pub r15 : ℕ
  pub r14 : ℕ
  pub r13 : ℕ
  pub r12 : ℕ
  pub rbx : ℕ
  pub rbp : ℕ
  pub rip : ℕ
  pub rsp : ℕ
  pub rdi : ℕ

abbrev pub zero_context : Context
zero_context = record {
  r15 = 0;
  r14 = 0;
  r13 = 0;
  r12 = 0;
  rbx = 0;
  rbp = 0;
  rip = 0;
  rsp = 0;
  rdi = 0;
}

-- `struct proc`, but for the name, which stands in memory. Pointers are addresses, and `NULL` is 0.
pub record Proc : Type 0 where
  pub state : ProcState
  pub pid : ℕ
  pub kstack : ℕ
  pub pt_root : ℕ
  pub prio : ℤ
  pub retval : ℕ
  pub sleeprem : ℤ
  pub tf : ℕ
  pub ctx : Context

-- A slot of the zeroed table.
abbrev pub zero_proc : Proc
zero_proc = record {
  state = ProcState.uninit;
  pid = 0;
  kstack = 0;
  pt_root = 0;
  prio = pos 0;
  retval = 0;
  sleeprem = pos 0;
  tf = 0;
  ctx = zero_context;
}

-- `struct newprocdesc`; `name` is the address of its text.
pub record NewProcDesc : Type 0 where
  pub name : ℕ
  pub func : ℕ
  pub initarg : ℕ
  pub prio : ℤ

abbrev pub max_proc : ℕ
max_proc = 8

abbrev pub kstack_sz : ℕ
kstack_sz = 4096

abbrev pub ustack_sz : ℕ
ustack_sz = 4096

-- Addresses that the linker chooses: static arrays, code, this processor's TLS page, and
-- the literal `"%s"`.
pub record Statics : Type 0 where
  pub procs : ℕ
  pub kstacks : ℕ
  pub ustacks : ℕ
  pub spawnret : ℕ
  pub trapret : ℕ
  pub spawnuserret : ℕ
  pub tls : ℕ
  pub percent_s : ℕ

-- The kernel's variables and the processor. `curproc`, `idleproc` and `idlectx` name a slot of the
-- table, `none` for `NULL`; `irq` is the interrupt flag; `next` is the static index of
-- `find_runnable_proc`; `ticks` is an `int`, kept as its 32-bit pattern;
-- `procs_at` is the address of the table; `lapic` holds the registers of the local APIC that have
-- been written, with their values, the last one first.
pub record Machine : Type 0 where
  pub kernel : Kernel
  pub procs : List Proc
  pub nproc : ℕ
  pub curproc : Option ℕ
  pub idleproc : Option ℕ
  pub idlectx : Option ℕ
  pub next : ℕ
  pub regs : Context
  pub irq : Bool
  pub cr3 : ℕ
  pub kpml4 : ℕ
  pub upml4 : ℕ
  pub ticks : ℕ
  pub console : Console
  pub procs_at : ℕ
  pub lapic : List (ℕ × ℕ)

-- `&procs[i].name[0]`, in an array of structures of 144 bytes.
abbrev pub name_at : Statics → ℕ → ℕ
name_at st i = st.procs + 144 * i + 4

-- `&procs[i].ctx`, at the end of the structure.
abbrev pub ctx_at : Machine → ℕ → ℕ
ctx_at m i = m.procs_at + 144 * i + 72

-- Reading and writing a slot: outside the array there is none.
abbrev pub proc_at : ℕ → Cmd Machine Proc
proc_at i m = the (get_elem? m.procs i) m

abbrev pub put_proc : ℕ → Proc → Machine → Machine
put_proc i p m = record m { procs = set m.procs i p }

abbrev pub set_proc : ℕ → Proc → Cmd Machine (Unit {0})
set_proc i p = do proc_at i; modify (put_proc i p)

-- The slot that `curproc` or `idleproc` points to.
abbrev pub current : Cmd Machine ℕ
current m = the m.curproc m

abbrev pub idle : Cmd Machine ℕ
idle m = the m.idleproc m

abbrev pub cli : Cmd Machine (Unit {0})
cli = modify λ m. record m { irq = false }

abbrev pub sti : Cmd Machine (Unit {0})
sti = modify λ m. record m { irq = true }

abbrev pub lcr3 : ℕ → Cmd Machine (Unit {0})
lcr3 a = modify λ m. record m { cr3 = a }

abbrev pub is_running : ProcState → Bool
is_running ProcState.running = true
is_running _ = false

abbrev pub is_runnable : ProcState → Bool
is_runnable ProcState.runnable = true
is_runnable _ = false
