-- ===== src/Lib.antt =====
-- The simulated operating system of ossim_lamiaatrium: a multi-level queue scheduler, paged memory
-- with one RAM and one active swap device, system calls and the CPU that runs a program's
-- instructions. The configuration is the repository's own (include/os-cfg.h): MLQ_SCHED, MM_PAGING
-- and MM64. Each definition is a function on explicit states, by clauses, so that it can be run.
--
-- How the parts interact. A CPU takes a process from the scheduler (get_proc), runs one
-- instruction of it at a time (run), and puts it back or finishes it; between two instructions it
-- waits for the timer, which lets all threads into the next slot together. The loader thread reads
-- the programs of the configuration and adds their processes when they are due. An instruction
-- calls the memory library (liballoc, libfree, libread, libwrite), which keeps the regions and the
-- page table of the process and asks the kernel by system call 17 to grow an area, to copy a frame
-- to the swap, or to read or write a byte of the RAM. The kernel finds the process by its pid in
-- the scheduler's queues.
--
-- The files.
--   Base.antt: Boolean tests, lists, machine words and the arithmetic of bit operations.
--   Queue.antt: ossim_lamiaatrium/src/queue.c. Queue is queue_t; enqueue, dequeue, purgequeue, empty.
--     Queue/Refine.antt relates the array to the list of the processes in it.
--   Sched.antt: ossim_lamiaatrium/src/sched.c. Sched is the static variables; get_mlq_proc is
--     `dispatch` (its loop), `serve` (the test and the dequeue), `charge` (the slot) and `refill`.
--     Sched/Invariant.antt has the well-formed states, Sched/Fairness the waiting measure.
--   SingleQueue.antt: the functions of sched.c and queue.c that are compiled without MLQ_SCHED.
--   FlatTable.antt: ossim_lamiaatrium/src/mm.c, which is compiled without MM64; `flat_` marks its
--     functions.
--   Memphy.antt: ossim_lamiaatrium/src/mm-memphy.c. Memphy is memphy_struct, the MEMPHY_ prefix is left
--     out of the names.
--   Pte.antt: the masks and fields of a page table entry (include/mm.h, include/bitops.h, init_pte).
--   Mm.antt: mm_struct and what hangs on it (include/os-mm.h).
--   PageTable.antt, Mapping.antt, Vm.antt: ossim_lamiaatrium/src/mm64.c and mm-vm.c, the entries of the
--     table, the mapping of ranges and the growth of areas; `grow_vma` is the body of inc_vma_limit.
--   Region.antt, Libmem.antt, Libmem/Calls.antt: ossim_lamiaatrium/src/libmem.c. `fault`, `evict`,
--     `evict_to` and `swap_in` are the branches of pg_getpage; `alloc`, `free`, `region_read` and
--     `region_write` are __alloc, __free, __read and __write.
--   Kernel.antt: ossim_lamiaatrium/src/syscall.c, sys_mem.c, libstd.c. Krnl is krnl_t with the memory
--     structure of every process; `memmap_op` is the switch of __sys_memmap.
--   Cpu.antt: ossim_lamiaatrium/src/cpu.c, `run` and its switch `execute`.
--   Loader.antt: ossim_lamiaatrium/src/loader.c. `load` and its loop `scan_code`, on the text of the
--     file as scanf sees it; Loader/Print.antt prints a program.
--   Timer.antt: ossim_lamiaatrium/src/timer.c. `timer_step` is timer_routine up to its next lock,
--     `enter_slot` and `leave_slot` are the halves of next_slot, and `Step` is a step of any thread.
--   Os.antt: ossim_lamiaatrium/src/os.c. `cpu_slot` is one round of the loop of cpu_routine and
--     `ld_slot` one of ld_routine, each up to its next_slot. Os/Rule.antt has a proof rule for the
--     former, and Os/Slots.antt the four ways in which the latter ends.
--   System.antt: main of ossim_lamiaatrium/src/os.c. `boot` is what it sets up, `Turn` is a slot of any
--     thread, and `Reach` any sequence of such slots; System/Invariant.antt and System/Settled.antt
--     have what holds in all of them.
--   PageTable/Ownership.antt and the files named Ownership.antt below Mapping, Vm, Kernel, Libmem and
--     Cpu, with Os/Frames.antt and System/Frames.antt: which page holds which frame of the RAM.
--   Config.antt: ossim_lamiaatrium/src/os.c, read_config; Config/Print.antt prints a configuration.
--   FixedMem.antt: ossim_lamiaatrium/src/mem.c, and the functions of cpu.c that only the configuration
--     without MM_PAGING calls; `legacy_read` is its read. Libmem/Teardown.antt: free_pcb_memph.
--   Examples.antt, MemExamples.antt, LoadExamples.antt, OsExamples.antt, FrameExamples.antt,
--     Sched/Examples.antt, System/Examples.antt, System/FrameExamples.antt,
--     System/InterleavingExamples.antt, SingleQueue/Examples.antt, FlatTable/Examples.antt: the theorems at concrete
--     states.
--
-- Conventions. A C number is a natural number with its wrap-around written out; an `int` is its
-- 32-bit pattern. A call that returns 0 or -1 returns true or false, or an option where it also
-- stores a result. A linked list is a list, an array that is only read in range a function of the
-- index. An index past the end that the code lets through (a register from 10 on, symbol 30)
-- overwrites a neighbouring field in the code and has a place of its own here. What the code reads
-- uninitialised is an argument (`uninit`, `junk`). Mutexes make each function atomic. `malloc` and
-- `calloc` are taken to succeed.
--
-- Loops. Those over an array or a list are structural, and `for` loops count their rounds down. The
-- search of get_mlq_proc has at most 140 rounds, which is the bound in the code. The loop of
-- MEMPHY_mv_csr runs on as many rounds of fuel as the device has bytes, and its own test stops it by
-- then. The loop of cpu_routine runs on fuel, with a round for each instruction left and one more
-- enough for a CPU that is alone with its process.
--
-- Not modelled: joining the threads and the usage message of main; printing; the functions of mm.c
-- that only print that they are deprecated, where no caller would see a result. In System.antt a slot
-- of a CPU is one step, without other CPUs in between; System/Interleaving.antt has the calls of the
-- scheduler as the steps. What two CPUs do to the memory at the same time has no model: the memory
-- library has a lock for it, which libsyscall does not take. The steps take place at any times, with
-- no timer to line them up.
pub mod Base
pub mod Pte
pub mod Mm
pub mod PageTable
pub mod Mapping
pub mod Vm
pub mod Memphy
pub mod Queue
pub mod Sched
pub mod Examples
pub mod FrameExamples
pub mod Region
pub mod Kernel
pub mod Libmem
pub mod Cpu
pub mod Loader
pub mod Config
pub mod FixedMem
pub mod Timer
pub mod Os
pub mod System
pub mod SingleQueue
pub mod FlatTable
pub mod MemExamples
pub mod LoadExamples
pub mod OsExamples
