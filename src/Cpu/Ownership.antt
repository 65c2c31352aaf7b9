-- ===== src/Cpu/Ownership.antt =====
-- Whatever a program runs, every frame keeps one owner, as long as a frame is free.
use os_assignment_nhom.Base.{
  ℕ, ◌%◌, ◌+◌, ◌≡◌, List, ◌∷◌, length, leb, get_or, Bool-cases, Option-cases, inl, inr,
}
use os_assignment_nhom.Base.Word.{u32}
use os_assignment_nhom.Kernel.{Krnl}
use os_assignment_nhom.Kernel.Ownership.{FramesOwned, libsyscall-FramesOwned}
use os_assignment_nhom.Libmem.Calls.{libread}
use os_assignment_nhom.Libmem.Calls.Ownership.{
  liballoc-FramesOwned, libfree-FramesOwned, libread-FramesOwned, libwrite-FramesOwned,
}
use os_assignment_nhom.Cpu.{
  Opcode, calc_ins, alloc_ins, free_ins, read_ins, write_ins, syscall_ins, Inst, Pcb, no_inst,
  execute, run,
}

execute-FramesOwned :
    (junk : ℕ → ℕ) (k : Krnl) (p : Pcb) (op : Opcode) (a b c d f : ℕ) (l : List ℕ)
    → k.mram.free_fp_list ≡ f ∷ l
    → FramesOwned k
    → FramesOwned
        (execute junk k p (record { opcode = op; arg_0 = a; arg_1 = b; arg_2 = c; arg_3 = d })).2
unfolding execute
execute-FramesOwned junk k p calc_ins a b c d f l n w = w
execute-FramesOwned junk k p alloc_ins a b c d f l n w =
    liballoc-FramesOwned junk k p.pid a (u32 b) w
execute-FramesOwned junk k p free_ins a b c d f l n w = libfree-FramesOwned k p.pid (u32 a) w
execute-FramesOwned junk k p read_ins a b c d f l n w =
    let r = libread-FramesOwned junk k p.pid (u32 a) b f l n w in
    elim (Option-cases (libread junk k p.pid (u32 a) b).0) [
      | inl e ↦ rw (execute, e) r
      | inr (v, e) ↦ rw (execute, e) r
    ]
execute-FramesOwned junk k p write_ins a b c d f l n w =
    libwrite-FramesOwned junk k p.pid (a % 256) (u32 b) c f l n w
execute-FramesOwned junk k p syscall_ins a b c d f l n w =
    libsyscall-FramesOwned junk k p.pid a b c d w

-- No frame is ever shared: while a frame `f` is free, whatever instruction a process runs, an
-- allocation that runs out of frames and any system call included, every frame of the RAM is
-- afterwards, as it was before, free just once, or the frame of one page of one process, or lost.
pub run-FramesOwned :
    (junk : ℕ → ℕ) (k : Krnl) (p : Pcb) (f : ℕ) (l : List ℕ)
    → k.mram.free_fp_list ≡ f ∷ l
    → FramesOwned k
    → FramesOwned (run junk k p).2
unfolding run
run-FramesOwned junk k p f l n w = elim (Bool-cases (leb (length p.code) p.pc)) [
  | inl e ↦ rw e w
  | inr e ↦
      let ins : Inst = get_or p.code p.pc no_inst in
      rw e (
        execute-FramesOwned junk k (record p { pc = p.pc + 1 }) ins.opcode ins.arg_0 ins.arg_1
          ins.arg_2 ins.arg_3 f l n w)
]
