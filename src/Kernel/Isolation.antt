-- ===== src/Kernel/Isolation.antt =====
-- The system calls leave the scheduler's state as it is.
use os_assignment_nhom.Base.{ℕ, ◌≡◌, arith, Option-cases, inl, inr}
use os_assignment_nhom.Base.Word.{u32}
use os_assignment_nhom.Sched.{find_process_by_pid}
use os_assignment_nhom.Kernel.{Krnl, ScRegs, memmap_op, sys_memmap, syscall, libsyscall}

memmap_op-sched :
    (junk : ℕ → ℕ) (k : Krnl) (pid : ℕ) (regs : ScRegs)
    → (memmap_op junk k pid regs).2.sched ≡ k.sched
unfolding memmap_op
memmap_op-sched junk k pid regs = ground arith

sys_memmap-sched :
    (junk : ℕ → ℕ) (k : Krnl) (pid : ℕ) (regs : ScRegs)
    → (sys_memmap junk k pid regs).2.sched ≡ k.sched
unfolding sys_memmap
sys_memmap-sched junk k pid regs = elim (Option-cases (find_process_by_pid k.sched pid)) [
  | inl e ↦ rw (sys_memmap, e)
  | inr (p, e) ↦ rw (sys_memmap, e) (memmap_op-sched junk k p.pid regs)
]

pub syscall-sched :
    (junk : ℕ → ℕ) (k : Krnl) (pid nr : ℕ) (regs : ScRegs)
    → (syscall junk k pid nr regs).2.sched ≡ k.sched
unfolding syscall
syscall-sched junk k pid nr regs = let h = sys_memmap-sched junk k pid regs in ground arith

pub libsyscall-sched :
    (junk : ℕ → ℕ) (k : Krnl) (pid nr a1 a2 a3 : ℕ)
    → (libsyscall junk k pid nr a1 a2 a3).1.sched ≡ k.sched
unfolding libsyscall
libsyscall-sched junk k pid nr a1 a2 a3 = syscall-sched junk k pid (u32 nr) _
