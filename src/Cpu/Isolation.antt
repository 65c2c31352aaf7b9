-- ===== src/Cpu/Isolation.antt =====
-- Nothing that a program runs touches the scheduler's state.
use os_assignment_nhom.Base.{
  ℕ, ◌+◌, ◌%◌, ◌≡◌, refl, leb, length, Bool-cases, Option-cases, inl, inr, get_or,
}
use os_assignment_nhom.Base.Word.{u32}
use os_assignment_nhom.Kernel.{Krnl}
use os_assignment_nhom.Kernel.Isolation.{libsyscall-sched}
use os_assignment_nhom.Libmem.Calls.{libread}
use os_assignment_nhom.Libmem.Calls.Isolation.{
  liballoc-sched, libfree-sched, libread-sched, libwrite-sched,
}
use os_assignment_nhom.Cpu.{
  Opcode, calc_ins, alloc_ins, free_ins, read_ins, write_ins, syscall_ins, Inst, Pcb, execute, run,
  no_inst,
}

execute-sched :
    (junk : ℕ → ℕ) (k : Krnl) (p : Pcb) (op : Opcode) (a b c d : ℕ)
    → (execute junk k p
        (record { opcode = op; arg_0 = a; arg_1 = b; arg_2 = c; arg_3 = d })).2.sched
      ≡ k.sched
unfolding execute
execute-sched junk k p calc_ins a b c d = refl
execute-sched junk k p alloc_ins a b c d = liballoc-sched junk k p.pid a (u32 b)
execute-sched junk k p free_ins a b c d = libfree-sched k p.pid (u32 a)
execute-sched junk k p read_ins a b c d = elim (Option-cases (libread junk k p.pid (u32 a) b).0) [
  | inl e ↦ rw (execute, e) (libread-sched junk k p.pid (u32 a) b)
  | inr (v, e) ↦ rw (execute, e) (libread-sched junk k p.pid (u32 a) b)
]
execute-sched junk k p write_ins a b c d = libwrite-sched junk k p.pid (a % 256) (u32 b) c
execute-sched junk k p syscall_ins a b c d = libsyscall-sched junk k p.pid a b c d

-- Whatever instruction a process runs, system calls, page faults and failed accesses included, the
-- ready queues, the running list and the budgets of the scheduler stay as they were.
pub run-sched : (junk : ℕ → ℕ) (k : Krnl) (p : Pcb) → (run junk k p).2.sched ≡ k.sched
unfolding run
run-sched junk k p = elim (Bool-cases (leb (length p.code) p.pc)) [
  | inl e ↦ rw e
  | inr e ↦
      let ins : Inst = get_or p.code p.pc no_inst in
      rw e (
        execute-sched junk k (record p { pc = p.pc + 1 }) ins.opcode ins.arg_0 ins.arg_1 ins.arg_2
          ins.arg_3)
]
