-- ===== src/Kernel.antt =====
-- ossim_lamiaatrium/src/syscall.c, sys_mem.c, sys_listsyscall.c and libstd.c: the system calls, on the
-- state that the kernel structure and the process blocks reach. The memory structure of a process
-- is found by its pid, since the loader gives every process a pid of its own. A result is whether
-- the code returned 0; every error is -1. Reading an uninitialised byte gives `junk`.
pub mod Ownership
pub mod Memmap
pub mod Isolation
use os_assignment_nhom.Base.{
  ℕ, zero, suc, ◌+◌, ◌-◌, ◌%◌, ◌^◌, Bool, true, false, Option, none, some, ◌==◌, ltb, if◌then◌else◌,
  update,
}
use os_assignment_nhom.Base.Word.{u32, int, rounds}
use os_assignment_nhom.Memphy
use os_assignment_nhom.Memphy.{Memphy}
use os_assignment_nhom.Mm.{Mm}
use os_assignment_nhom.Mapping.{vmap_pgd_memset}
use os_assignment_nhom.Queue.{Proc}
use os_assignment_nhom.Sched.{Sched, find_process_by_pid}
use os_assignment_nhom.Vm.{inc_vma_limit, mm_swap_page}

-- `krnl_t`, with the memory structure of each process.
pub record Krnl : Type 0 where
  pub sched : Sched
  pub mm : ℕ → Mm
  pub mram : Memphy
  pub active_mswp : Memphy

-- The three argument registers that the calls use.
pub record ScRegs : Type 0 where
  pub a1 : ℕ
  pub a2 : ℕ
  pub a3 : ℕ

-- `(unsigned int)value` of a `char`, which is signed.
pub extend_byte : ℕ → ℕ
extend_byte v = if ltb v 128 then v else v + (2 ^ 32 - 256)

-- The cases of the `switch` in `__sys_memmap`.
pub memmap_op : (ℕ → ℕ) → Krnl → ℕ → ScRegs → Bool × ScRegs × Krnl
unfolding extend_byte
memmap_op junk krnl pid regs =
    let memop : ℕ = int regs.a1 in
    let mm : Mm = krnl.mm pid in
    let (set, mm1) = vmap_pgd_memset mm regs.a2 (rounds (int regs.a3)) in
    let (grown, mm2, mram2) = inc_vma_limit mm krnl.mram (int regs.a2) regs.a3 in
    let (mram3, mswp3) = mm_swap_page junk krnl.mram krnl.active_mswp regs.a2 regs.a3 in
    let (byte, mram4) = Memphy.read krnl.mram regs.a2 in
    let (written, mram5) = Memphy.write krnl.mram regs.a2 (regs.a3 % 256) in
    if memop == 1
    then (set, regs, record krnl { mm = update krnl.mm pid mm1 })
    else if memop == 2
    then (grown, regs, record krnl { mm = update krnl.mm pid mm2; mram = mram2 })
    else if memop == 3
    then (true, regs, record krnl { mram = mram3; active_mswp = mswp3 })
    else if memop == 4
    then (elim byte [
      | none ↦ (false, regs, record krnl { mram = mram4 })
      | some v ↦ (true, record regs { a3 = extend_byte v }, record krnl { mram = mram4 })
    ])
    else if memop == 5
    then (written, regs, record krnl { mram = mram5 })
    else (false, regs, krnl)

-- `__sys_memmap`
pub sys_memmap : (ℕ → ℕ) → Krnl → ℕ → ScRegs → Bool × ScRegs × Krnl
unfolding memmap_op
sys_memmap junk krnl pid regs = elim (find_process_by_pid krnl.sched pid) [
  | none ↦ (false, regs, krnl)
  | some caller ↦ memmap_op junk krnl caller.pid regs
]

-- `syscall`: call 0 lists the table, call 17 is `sys_memmap`, any other does nothing and succeeds.
pub syscall : (ℕ → ℕ) → Krnl → ℕ → ℕ → ScRegs → Bool × ScRegs × Krnl
syscall junk krnl pid nr regs =
    if nr == 0
    then (true, regs, krnl)
    else if nr == 17
    then sys_memmap junk krnl pid regs
    else (true, regs, krnl)

-- `libsyscall`: the registers are the callee's own.
pub libsyscall : (ℕ → ℕ) → Krnl → ℕ → ℕ → ℕ → ℕ → ℕ → Bool × Krnl
libsyscall junk krnl pid syscall_idx a1 a2 a3 =
    let (ok, regs, krnl') =
      syscall junk krnl pid (u32 syscall_idx) (record { a1 = a1; a2 = a2; a3 = a3 }) in
    (ok, krnl')
