-- ===== src/Proc/Spawn.antt =====
-- kernel/proc.c: making processes. `procinit` enters the running thread as the idle process; `spawn`
-- and `spawnuser` take the next slot of the table, which is never given back.
use rt.Prelude.{ℕ, ◌+◌, ◌-◌, ◌*◌, ◌^◌, bit_or, Bool, true, false, ◌&&◌, some}
use rt.Prelude.Int.{ℤ, pos, ltb_ℤ}
use rt.Prelude.Run.{
  Outcome, done, panic, out_of_fuel, undefined, Cmd, ◌>>=◌, ◌>>◌, pure, assert, modify, gets,
}
use rt.Memory.{Mem, write, store64}
use rt.Str.{memset, safestrcpy}
use rt.Layout.{pg_sz4k, v2p}
use rt.Kalloc.{Kernel}
use rt.Paging.{pf_u, pf_w, paging_map}
use rt.Proc.{
  ProcState, Context, zero_context, NewProcDesc, kstack_sz, ustack_sz, Statics, Machine, name_at,
  proc_at, set_proc,
}

-- An operation on memory and the page allocator, as one of the machine.
abbrev pub lift : {A : Type 0} → Machine → Outcome Kernel A → Outcome Machine A
lift m (done a k) = done a (record m { kernel = k })
lift m panic = panic
lift m out_of_fuel = out_of_fuel
lift m undefined = undefined

abbrev pub on_kernel : {A : Type 0} → Cmd Kernel A → Cmd Machine A
on_kernel c m = lift m (c m.kernel)

abbrev pub on_mem : (Mem → Mem) → Cmd Machine (Unit {0})
on_mem f = modify λ m. record m { kernel = record m.kernel { mem = f m.kernel.mem } }

-- `MINPRIO <= prio && prio <= MAXPRIO`.
abbrev pub prio_ok : ℤ → Bool
prio_ok prio = not_below && not_above
  where
    not_below : Bool
    not_below = elim (ltb_ℤ prio (pos 0)) [ true ↦ false | false ↦ true ]

    not_above : Bool
    not_above = elim (ltb_ℤ (pos 255) prio) [ true ↦ false | false ↦ true ]

-- `allocproc` returns the slot; it does not test whether the table is full, so that `procs[nproc]`
-- may lie outside it.
unfoldable pub allocproc : Statics → Cmd Machine ℕ
allocproc st = do
  n ← gets (λ m. m.nproc)
  p ← proc_at n
  modify λ m. record m { nproc = n + 1 }
  set_proc n (record p {
    state = ProcState.reserve;
    pid = n;
    ctx = zero_context;
    kstack = st.kstacks + kstack_sz * n;
  })
  pure n

-- Entry into `func` on a fresh kernel stack whose top holds the return address `ret`.
abbrev pub start_context : (func top initarg : ℕ) → Context
start_context func top initarg = record zero_context {
  rip = func;
  rsp = top - 16;
  rbp = top;
  rdi = initarg;
}

unfoldable pub spawn : Statics → NewProcDesc → Cmd Machine ℕ
unfolding allocproc
spawn st desc = do
  assert (prio_ok desc.prio)
  i ← allocproc st
  on_mem (λ mem. (safestrcpy mem (name_at st i) desc.name (pos 16)).1)
  kpml4 ← gets (λ m. m.kpml4)
  p ← proc_at i
  let top = p.kstack + kstack_sz
  on_mem (λ mem. store64 mem (top - 8) st.spawnret)
  set_proc i (record p {
    prio = desc.prio;
    pt_root = kpml4;
    ctx = start_context desc.func top desc.initarg;
    state = ProcState.runnable;
  })
  pure i

-- Offsets in `struct trapframe`, and its size.
abbrev pub tf_rdi : ℕ
tf_rdi = 48

abbrev pub tf_rip : ℕ
tf_rip = 136

abbrev pub tf_cs : ℕ
tf_cs = 144

abbrev pub tf_rflags : ℕ
tf_rflags = 152

abbrev pub tf_rsp : ℕ
tf_rsp = 160

abbrev pub tf_ss : ℕ
tf_ss = 168

abbrev pub trapframe_size : ℕ
trapframe_size = 176

-- The trap frame at `tf` from which `trapret` enters `func` in user mode, and the return address on
-- the user stack.
abbrev pub user_frame : Statics → (tf ustack func initarg : ℕ) → Mem → Mem
user_frame st tf ustack func initarg m =
    let sp = ustack + pg_sz4k - 8 in
    let m' = store64 m (tf + tf_ss) (bit_or (5 * 2 ^ 3) 3) in
    let m' = store64 m' (tf + tf_rsp) sp in
    let m' = store64 m' sp st.spawnuserret in
    let m' = store64 m' (tf + tf_rflags) 0x200 in
    let m' = store64 m' (tf + tf_cs) (bit_or (4 * 2 ^ 3) 3) in
    let m' = store64 m' (tf + tf_rip) func in store64 m' (tf + tf_rdi) initarg

unfoldable pub spawnuser : Statics → NewProcDesc → Cmd Machine ℕ
unfolding allocproc
spawnuser st desc = do
  assert (prio_ok desc.prio)
  i ← allocproc st
  on_mem (λ mem. (safestrcpy mem (name_at st i) desc.name (pos 16)).1)
  upml4 ← gets (λ m. m.upml4)
  p ← proc_at i
  let top = p.kstack + kstack_sz
  let tf = top - trapframe_size
  let ustack = st.ustacks + ustack_sz * p.pid
  on_mem (λ mem. (memset mem tf 0 trapframe_size).1)
  on_kernel (paging_map upml4 ustack (v2p ustack) (pos ustack_sz) (bit_or pf_u pf_w))
  on_mem (user_frame st tf ustack desc.func desc.initarg)
  set_proc i (record p {
    prio = desc.prio;
    pt_root = upml4;
    tf = tf;
    ctx = record zero_context { rip = st.trapret; rsp = tf - 8; rbp = top };
    state = ProcState.runnable;
  })
  pure i

-- The idle process of this processor; `text` is the address of the literal `"idle"`, and `index` is
-- the processor's number, which becomes the sixth letter of the name.
unfoldable pub procinit : Statics → (text index : ℕ) → Cmd Machine (Unit {0})
procinit st text index = do
  i ← gets (λ m. m.nproc)
  p ← proc_at i
  modify λ m. record m { nproc = i + 1; curproc = some i }
  on_mem (λ mem. (safestrcpy mem (name_at st i) text (pos 16)).1)
  on_mem (λ mem. write (write mem (name_at st i + 5) (b'0' + index)) (name_at st i + 6) 0)
  kpml4 ← gets (λ m. m.kpml4)
  n ← gets (λ m. m.nproc)
  set_proc i (record p { state = ProcState.running; kstack = 0; pt_root = kpml4; pid = n })
  modify λ m. record m { idlectx = some i; idleproc = some i }
