-- ===== src/Kernel/Memmap.antt =====
-- What the memory calls do for a process that runs or is ready.
use os_assignment_nhom.Base.{
  ℕ, ◌%◌, ◌<◌, ◌≡◌, arith, ap, ◌∙◌, true, false, none, Option, some, update,
}
use os_assignment_nhom.Memphy
use os_assignment_nhom.Memphy.{Memphy}
use os_assignment_nhom.Memphy.Storage.{read_in_range, write_in_range}
use os_assignment_nhom.Queue.{Proc}
use os_assignment_nhom.Sched.{find_process_by_pid}
use os_assignment_nhom.Base.Word.{int}
use os_assignment_nhom.Vm.{inc_vma_limit, mm_swap_page}
use os_assignment_nhom.Kernel.{Krnl, ScRegs, extend_byte, memmap_op, sys_memmap, syscall}

pub extend_byte-mod : (v : ℕ) → v < 256 → extend_byte v % 256 ≡ v
unfolding extend_byte
extend_byte-mod v h = ground arith

sys_memmap_found :
    (junk : ℕ → ℕ) (k : Krnl) (pid : ℕ) (regs : ScRegs) (p : Proc)
    → find_process_by_pid k.sched pid ≡ some p
    → syscall junk k pid 17 regs ≡ memmap_op junk k p.pid regs
unfolding syscall sys_memmap
sys_memmap_found junk k pid regs p e = rw (sys_memmap, e)

-- Reading a byte of the RAM for a known process.
pub syscall_read :
    (junk : ℕ → ℕ) (k : Krnl) (pid a x : ℕ) (p : Proc)
    → find_process_by_pid k.sched pid ≡ some p
    → k.mram.rdmflg ≡ true
    → a < k.mram.maxsz
    → syscall junk k pid 17 (record { a1 = 4; a2 = a; a3 = x })
      ≡ (true, record { a1 = 4; a2 = a; a3 = extend_byte (k.mram.storage a) }, k)
unfolding memmap_op
syscall_read junk k pid a x p e r h =
    let m : (Memphy.read k.mram a).1 ≡ k.mram =
      ap (λ (x : Option ℕ × Memphy). x.1) (read_in_range k.mram a r h) in
    sys_memmap_found junk k pid _ p e
    ∙ rw (read_in_range k.mram a r h) (
        ap
          (λ (x : Memphy). (
            true,
            record { a1 = 4; a2 = a; a3 = extend_byte (k.mram.storage a) },
            record k { mram = x },
          ))
          m)

-- Writing one.
pub syscall_write :
    (junk : ℕ → ℕ) (k : Krnl) (pid a v : ℕ) (p : Proc)
    → find_process_by_pid k.sched pid ≡ some p
    → k.mram.rdmflg ≡ true
    → a < k.mram.maxsz
    → v < 256
    → syscall junk k pid 17 (record { a1 = 5; a2 = a; a3 = extend_byte v }) ≡ (
      true,
      record { a1 = 5; a2 = a; a3 = extend_byte v },
      record k { mram = record (k.mram) { storage = update k.mram.storage a v } },
    )
unfolding memmap_op
syscall_write junk k pid a v p e r h b =
    sys_memmap_found junk k pid _ p e ∙ rw (extend_byte-mod v b, write_in_range k.mram a v r h)

-- Swapping pages for a known process.
pub syscall_swap :
    (junk : ℕ → ℕ) (k : Krnl) (pid a b : ℕ) (p : Proc)
    → find_process_by_pid k.sched pid ≡ some p
    → syscall junk k pid 17 (record { a1 = 3; a2 = a; a3 = b }) ≡ (
      true,
      record { a1 = 3; a2 = a; a3 = b },
      record k {
        mram = (mm_swap_page junk k.mram k.active_mswp a b).0;
        active_mswp = (mm_swap_page junk k.mram k.active_mswp a b).1;
      },
    )
unfolding memmap_op
syscall_swap junk k pid a b p e = sys_memmap_found junk k pid _ p e

-- Growing an area of a known process.
pub syscall_inc :
    (junk : ℕ → ℕ) (k : Krnl) (pid vmaid size : ℕ) (p : Proc)
    → find_process_by_pid k.sched pid ≡ some p
    → let r = inc_vma_limit (k.mm p.pid) k.mram (int vmaid) size in
      let regs : ScRegs = record { a1 = 2; a2 = vmaid; a3 = size } in
      syscall junk k pid 17 regs ≡ (r.0, regs, record k { mm = update k.mm p.pid r.1; mram = r.2 })
unfolding memmap_op
syscall_inc junk k pid vmaid size p e = sys_memmap_found junk k pid _ p e

-- A process that is not there.
pub syscall_unknown :
    (junk : ℕ → ℕ) (k : Krnl) (pid : ℕ) (regs : ScRegs)
    → find_process_by_pid k.sched pid ≡ none
    → syscall junk k pid 17 regs ≡ (false, regs, k)
unfolding syscall sys_memmap
syscall_unknown junk k pid regs e = rw (sys_memmap, e)
