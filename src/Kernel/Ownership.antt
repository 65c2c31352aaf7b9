-- ===== src/Kernel/Ownership.antt =====
-- The system calls keep every frame with one owner.
use os_assignment_nhom.Base.{
  ℕ, ◌%◌, ◌≡◌, refl, arith, update, ◌==◌, Bool-cases, Option-cases, inl, inr, fun_ext,
}
use os_assignment_nhom.Base.Word.{u32, int, rounds}
use os_assignment_nhom.Mm.{Mm}
use os_assignment_nhom.Memphy
use os_assignment_nhom.Memphy.{Memphy}
use os_assignment_nhom.Memphy.FreeList.{read-free_fp_list, write-free_fp_list}
use os_assignment_nhom.PageTable.Ownership.{Owned}
use os_assignment_nhom.Mapping.Ownership.{vmap_pgd_memset-Owned}
use os_assignment_nhom.Vm.Ownership.{inc_vma_limit-Owned, mm_swap_page-free_fp_list}
use os_assignment_nhom.Sched.{find_process_by_pid}
use os_assignment_nhom.Kernel.{Krnl, ScRegs, memmap_op, sys_memmap, syscall, libsyscall}

-- The frames of the RAM, over all processes.
abbrev pub FramesOwned : Krnl → Type 0
FramesOwned k = Owned k.mm k.mram.free_fp_list

-- Process `pid` has its memory structure.
update_own : (mms : ℕ → Mm) (pid : ℕ) → update mms pid (mms pid) ≡ mms
update_own mms pid = fun_ext (λ j. ground arith)

memmap_op-FramesOwned :
    (junk : ℕ → ℕ) (k : Krnl) (pid : ℕ) (regs : ScRegs)
    → FramesOwned k
    → FramesOwned (memmap_op junk k pid regs).2
unfolding memmap_op
memmap_op-FramesOwned junk k pid regs w =
    let own : Owned (update k.mm pid (k.mm pid)) k.mram.free_fp_list = rw (update_own k.mm pid) w in
    elim (Bool-cases (int regs.a1 == 1)) [
      | inl e ↦ rw e (
          vmap_pgd_memset-Owned k.mm pid regs.a2 (rounds (int regs.a3)) (k.mm pid)
            k.mram.free_fp_list own)
      | inr e1 ↦ elim (Bool-cases (int regs.a1 == 2)) [
        | inl e ↦
            rw (e1, e) (inc_vma_limit-Owned k.mm pid (int regs.a2) regs.a3 (k.mm pid) k.mram own)
        | inr e2 ↦ elim (Bool-cases (int regs.a1 == 3)) [
          | inl e ↦
              rw (e1, e2, e, mm_swap_page-free_fp_list junk k.mram k.active_mswp regs.a2 regs.a3) w
          | inr e3 ↦ elim (Bool-cases (int regs.a1 == 4)) [
            | inl e ↦ elim (Option-cases (Memphy.read k.mram regs.a2).0) [
              | inl b ↦ rw (memmap_op, e1, e2, e3, e, b, read-free_fp_list k.mram regs.a2) w
              | inr (v, b) ↦ rw (memmap_op, e1, e2, e3, e, b, read-free_fp_list k.mram regs.a2) w
            ]
            | inr e4 ↦ elim (Bool-cases (int regs.a1 == 5)) [
              | inl e ↦ rw (e1, e2, e3, e4, e, write-free_fp_list k.mram regs.a2 (regs.a3 % 256)) w
              | inr e5 ↦ rw (e1, e2, e3, e4, e5) w
            ]
          ]
        ]
      ]
    ]

sys_memmap-FramesOwned :
    (junk : ℕ → ℕ) (k : Krnl) (pid : ℕ) (regs : ScRegs)
    → FramesOwned k
    → FramesOwned (sys_memmap junk k pid regs).2
unfolding sys_memmap
sys_memmap-FramesOwned junk k pid regs w = elim (Option-cases (find_process_by_pid k.sched pid)) [
  | inl e ↦ rw (sys_memmap, e) w
  | inr (p, e) ↦ rw (sys_memmap, e) (memmap_op-FramesOwned junk k p.pid regs w)
]

pub syscall-FramesOwned :
    (junk : ℕ → ℕ) (k : Krnl) (pid nr : ℕ) (regs : ScRegs)
    → FramesOwned k
    → FramesOwned (syscall junk k pid nr regs).2
unfolding syscall
syscall-FramesOwned junk k pid nr regs w = elim (Bool-cases (nr == 0)) [
  | inl e ↦ rw e w
  | inr e ↦ elim (Bool-cases (nr == 17)) [
    | inl e' ↦ rw (e, e') (sys_memmap-FramesOwned junk k pid regs w)
    | inr e' ↦ rw (e, e') w
  ]
]

pub libsyscall-FramesOwned :
    (junk : ℕ → ℕ) (k : Krnl) (pid nr a1 a2 a3 : ℕ)
    → FramesOwned k
    → FramesOwned (libsyscall junk k pid nr a1 a2 a3).1
unfolding libsyscall
libsyscall-FramesOwned junk k pid nr a1 a2 a3 w = syscall-FramesOwned junk k pid (u32 nr) _ w

memmap_swap-frames :
    (junk : ℕ → ℕ) (k : Krnl) (pid a2 a3 : ℕ)
    → let k' = (memmap_op junk k pid (record { a1 = 3; a2 = a2; a3 = a3 })).2 in
      (k'.mm ≡ k.mm) × (k'.mram.free_fp_list ≡ k.mram.free_fp_list)
unfolding memmap_op
memmap_swap-frames junk k pid a2 a3 =
    (refl, mm_swap_page-free_fp_list junk k.mram k.active_mswp a2 a3)

-- The call that copies a frame to the swap changes no table and no list of the RAM.
pub swap_frames :
    (junk : ℕ → ℕ) (k : Krnl) (pid a2 a3 : ℕ)
    → let k' = (syscall junk k pid 17 (record { a1 = 3; a2 = a2; a3 = a3 })).2 in
      (k'.mm ≡ k.mm) × (k'.mram.free_fp_list ≡ k.mram.free_fp_list)
unfolding syscall sys_memmap
swap_frames junk k pid a2 a3 = elim (Option-cases (find_process_by_pid k.sched pid)) [
  | inl e ↦ rw (sys_memmap, e) (refl, refl)
  | inr (p, e) ↦ rw (sys_memmap, e) (memmap_swap-frames junk k p.pid a2 a3)
]
