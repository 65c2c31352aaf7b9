-- ===== src/Libmem/Calls/AtBreak.antt =====
-- Allocation at the break, from the call that grows the area.
use os_assignment_nhom.Base.{
  ℕ, ◌+◌, ◌^◌, ◌<◌, ◌≤◌, ◌≡◌, refl, arith, true, false, none, some, [], ◌∷◌,
}
use os_assignment_nhom.Base.Word.{u64, int, sign_extend}
use os_assignment_nhom.Mm.{Mm, Vma}
use os_assignment_nhom.Vm.{get_vma_by_num}
use os_assignment_nhom.Vm.Limits.{extended}
use os_assignment_nhom.Kernel.{Krnl, ScRegs, syscall}
use os_assignment_nhom.Libmem.{with_mm}
use os_assignment_nhom.Libmem.Calls.{set_symrg, area_of, alloc_at_brk, alloc, liballoc}

pub liballoc_failed :
    (junk : ℕ → ℕ) (k k' : Krnl) (pid size rgid : ℕ)
    → alloc junk k pid 0 rgid size ≡ (none, k')
    → liballoc junk k pid size rgid ≡ (false, k')
unfolding liballoc
liballoc_failed junk k k' pid size rgid e = rw e

pub liballoc_given :
    (junk : ℕ → ℕ) (k k' : Krnl) (pid size rgid a : ℕ)
    → alloc junk k pid 0 rgid size ≡ (some a, k')
    → liballoc junk k pid size rgid ≡ (true, k')
unfolding liballoc
liballoc_given junk k k' pid size rgid a e = rw e

-- The request that `__alloc` makes.
abbrev pub request : ℕ → ScRegs
request size = record { a1 = 2; a2 = 0; a3 = size }

pub alloc_at_brk_failed :
    (junk : ℕ → ℕ) (k k' : Krnl) (pid rgid size : ℕ) (regs : ScRegs)
    → syscall junk k pid 17 (request size) ≡ (false, regs, k')
    → alloc_at_brk junk k pid 0 rgid size ≡ (none, k')
unfolding alloc_at_brk
alloc_at_brk_failed junk k k' pid rgid size regs e = rw e

-- Where the new region starts: the old break, as an `int`.
abbrev pub old_break : Krnl → ℕ → ℕ
old_break k pid = sign_extend (int (area_of (k.mm pid) 0).sbrk)

pub alloc_at_brk_given :
    (junk : ℕ → ℕ) (k k' : Krnl) (pid rgid size : ℕ) (regs : ScRegs)
    → syscall junk k pid 17 (request size) ≡ (true, regs, k')
    → alloc_at_brk junk k pid 0 rgid size ≡ (
      some (old_break k pid),
      with_mm k' pid (
          set_symrg
            (k'.mm pid)
            rgid
            (record { rg_start = old_break k pid; rg_end = u64 (old_break k pid + size) })),
    )
unfolding alloc_at_brk
alloc_at_brk_given junk k k' pid rgid size regs e = rw e

pub area_of_single :
    (mm : Mm) (v : Vma) → mm.mmap ≡ v ∷ [] → get_vma_by_num (v ∷ []) 0 ≡ some 0 → area_of mm 0 ≡ v
unfolding area_of
area_of_single mm v one named =
    let h : get_vma_by_num mm.mmap 0 ≡ some 0 = rw one named in rw (area_of, h) (rw one refl)

-- The break moves by whole pages.
pub page_align-bounds :
    (v : Vma) (size : ℕ)
    → v.sbrk + size < 2 ^ 31
    → (v.sbrk + size ≤ (extended v size).sbrk) × ((extended v size).sbrk ≤ v.sbrk + size + 4095)
page_align-bounds v size h = omega (arith, h)
