-- ===== src/Lib.antt =====
-- rt64, a small real-time kernel for x86-64: its memory, string, paging, console, process and trap
-- code as functions, and what they do.
--
-- The kernel boots from src/boot, learns of the processors from the ACPI tables (src/kernel/acpi.c),
-- frees the physical pages behind its image (src/kernel/kalloc.c), builds page tables from them
-- (src/kernel/paging.c), and runs a fixed table of processes round robin on one processor
-- (src/kernel/proc.c). Interrupts, system calls and faults enter at `trap` (src/kernel/trap.c), which
-- counts the ticks of the timer for sleeping processes, serves the calls of src/kernel/syscall.c, and
-- ends a process that faults. All of them print through src/kernel/console.c and move bytes with
-- src/klib/string.c.
--
-- Which file models what, with the C names kept:
--   Prelude: names shared by all. Prelude/Run: an operation is a function from a state to an outcome,
--     which is a result and a state, a panic (`ASSERT` and `panic`), fuel that has run out, or
--     undefined behaviour of C. Prelude/Int: signed numbers. Bits: masks and shifts as arithmetic.
--   Memory: bytes at 64-bit addresses, and little-endian words. A pointer is its address.
--   Layout: src/include/mem.h, src/include/param.h and the page sizes of src/include/x64consts.h.
--   Str: src/klib/string.c, with `stosb` and `stosl` of src/include/x64defs.h.
--   Kalloc: src/kernel/kalloc.c. The state is memory with the static list head and counter.
--     Kalloc/Chain says which list of frames the links stand for; Kalloc/History closes the
--     operations under any sequence of calls and writes of clients.
--   Paging: src/kernel/paging.c; the three functions that set up `kpml4` and `upml4` stand in
--     Proc/Space, with what src/kernel/main.c does to memory first. Paging/Tables says that the frames
--     in use form a tree; Paging/Walk is the walk of `paging_getpteref` level by level;
--     Paging/Blocks counts the frames that a range costs.
--   Acpi: src/kernel/acpi.c: the search for the root pointer (Acpi/Scan), the choice of a table
--     (Acpi/Root) and the walk over the MADT (Acpi/Madt). Acpi/Start joins it to `trapinit`.
--   Cga: src/kernel/cga.c, on memory and the cursor registers.
--   Console: the printing of src/kernel/console.c. The state holds the characters handed to the two
--     devices, in order, and whether a panic has been printed. Console/Render is what a format
--     means, as directives and the text they stand for; Console/Devices plays the characters on
--     the port of Uart and the screen of Cga.
--   Proc: src/kernel/proc.c, `swtch` of src/kernel/switch.S and `set_task_kstack` of
--     src/kernel/trap.c. The state `Machine` is the table of processes, the processor's pointers and
--     registers, memory and the console. A function that switches away ends where the processor goes
--     on in the other thread. Proc/Invariant is the invariant of the
--     scheduler, and Proc/Idle the machine that it starts from.
--   Trap: src/kernel/trap.c and src/kernel/syscall.c on the same machine; Trap/Setup is `trapinit`,
--     on memory and the registers that point to the tables.
--   Boot: src/boot/bootmain.c. The state is memory, the byte last written to each port, and the number
--     of status reads; the drive is a parameter, and Boot/Disk says what is asked of it.
--   Uart: src/kernel/uart.c, on the writes of ports in order; what the status reads is a parameter.
--   Lapic: src/kernel/lapic.c, on the accesses of registers and ports; what the controller answers is a
--     parameter. Lapic/Registers reads a trace as register values and interrupts sent.
--   Kapp: the measuring programs src/kapp/minctest.c, src/kapp/kernctest.c and src/kapp/rt.h: the
--     statistics of both, the deadlines and the ticks slept; clocks are read as arguments.
--
-- Numbers are native, and a word of w bits wraps at 2 ^ w where the code relies on it. Loops that
-- are not bounded by a number have fuel: the string loops one more than the length of the text,
-- `vcprintf` one more than the characters of its format and of its strings, `paging_map` one more
-- than the number of pages, `kallocinit` one more than the pages of physical memory, `scan_rdsp`
-- and the walk over the MADT one more than the bytes, `find_runnable_proc` the number of processes,
-- `readseg` three more than the sectors in its count, the catching up of a deadline one more than
-- the clock reads. The waits for the drive and for the controller have as many rounds as the device
-- is assumed to need at most. Results on these loops say how much fuel they ask for. `digit_loop`
-- has 64 rounds, one for each binary digit.
--
-- Not modelled: progress and debugging messages (but the printing itself is), interrupts that
-- arrive inside an operation (the code turns them off before it touches the table), other
-- processors, which halt after their start, `main`, which calls the other parts one after another,
-- the build with `CONFIG_DUMMY_ACPI`, the loops of the test programs that print and spawn, the clock
-- `test_tsc` that `trap` keeps for one of them, and assembly but for `swtch`.
mod Prelude
pub mod Bits
pub mod Memory
pub mod Str
pub mod Layout
pub mod Kalloc
pub mod Paging
pub mod Acpi
pub mod Cga
pub mod Boot
pub mod Uart
pub mod Lapic
pub mod Console
pub mod Proc
pub mod Trap
pub mod Kapp
