-- ===== src/Cpu.antt =====
-- ossim_lamiaatrium/src/cpu.c: one instruction of a process, in the MM_PAGING configuration. The loader
-- stops at an unknown opcode, so the `default` case has no model. `regs` is a function of the
-- index, which the code does not check.
pub mod Ownership
pub mod Progress
pub mod Isolation
use os_assignment_nhom.Base.{
  ℕ, ◌+◌, ◌%◌, ◌^◌, Bool, true, false, Option, none, some, List, leb, if◌then◌else◌, update, length,
  get_or,
}
use os_assignment_nhom.Base.Word.{u32}
use os_assignment_nhom.Kernel.{Krnl, libsyscall}
use os_assignment_nhom.Libmem.Calls.{liballoc, libfree, libread, libwrite}

-- `ins_opcode_t`
pub data Opcode : Type 0 where
  calc_ins : Opcode
  alloc_ins : Opcode
  free_ins : Opcode
  read_ins : Opcode
  write_ins : Opcode
  syscall_ins : Opcode

-- `inst_t`
pub record Inst : Type 0 where
  pub opcode : Opcode
  pub arg_0 : ℕ
  pub arg_1 : ℕ
  pub arg_2 : ℕ
  pub arg_3 : ℕ

-- The fields of `pcb_t` that running an instruction uses.
pub record Pcb : Type 0 where
  pub pid : ℕ
  pub code : List Inst
  pub regs : ℕ → ℕ
  pub pc : ℕ

-- Past the end of the code; never run.
abbrev no_inst : Inst
no_inst = record { opcode = calc_ins; arg_0 = 0; arg_1 = 0; arg_2 = 0; arg_3 = 0 }

-- The `switch`: whether the status is 0, the registers and the kernel. The code does not check the
-- register of READ: it holds for the ten registers that there are.
pub execute : (ℕ → ℕ) → Krnl → Pcb → Inst → Bool × (ℕ → ℕ) × Krnl
execute junk krnl proc ins = elim ins.opcode [
  | calc_ins ↦ (true, proc.regs, krnl)
  | alloc_ins ↦
      let (ok, k1) = liballoc junk krnl proc.pid ins.arg_0 (u32 ins.arg_1) in (ok, proc.regs, k1)
  | free_ins ↦ let (ok, k1) = libfree krnl proc.pid (u32 ins.arg_0) in (ok, proc.regs, k1)
  | read_ins ↦
      let (val, k1) = libread junk krnl proc.pid (u32 ins.arg_0) ins.arg_1 in
      elim val [ none ↦ (false, proc.regs, k1) | some v ↦ (true, update proc.regs ins.arg_2 v, k1) ]
  | write_ins ↦
      let (ok, k1) = libwrite junk krnl proc.pid (ins.arg_0 % 256) (u32 ins.arg_1) ins.arg_2 in
      (ok, proc.regs, k1)
  | syscall_ins ↦
      let (ok, k1) = libsyscall junk krnl proc.pid ins.arg_0 ins.arg_1 ins.arg_2 ins.arg_3 in
      (ok, proc.regs, k1)
]

-- `run`: whether it returned 0, the process and the kernel.
unfoldable pub run : (ℕ → ℕ) → Krnl → Pcb → Bool × Pcb × Krnl
unfolding execute
run junk krnl proc =
    if leb (length proc.code) proc.pc
    then (false, proc, krnl)
    else (let ins : Inst = get_or proc.code proc.pc no_inst in
        let stepped : Pcb = record proc { pc = proc.pc + 1 } in
        let (stat, regs, k1) = execute junk krnl stepped ins in
        (stat, record stepped { regs = regs }, k1))
