-- ===== src/Libmem/Calls/Isolation.antt =====
-- Allocation, freeing and access leave the scheduler's state as it is.
use os_assignment_nhom.Base.{ℕ, ◌≡◌, arith, Bool-cases, Option-cases, inl, inr}
use os_assignment_nhom.Base.Word.{sign_extend}
use os_assignment_nhom.Region.{get_free_vmrg_area}
use os_assignment_nhom.Kernel.{Krnl, ScRegs, syscall}
use os_assignment_nhom.Kernel.Isolation.{syscall-sched}
use os_assignment_nhom.Libmem.Isolation.{pg_getval-sched, pg_setval-sched}
use os_assignment_nhom.Libmem.Calls.{
  alloc_at_brk, alloc, free, no_access, region_read, region_write, liballoc, libfree, libread,
  libwrite,
}

alloc_at_brk-sched :
    (junk : ℕ → ℕ) (k : Krnl) (pid vmaid rgid size : ℕ)
    → (alloc_at_brk junk k pid vmaid rgid size).1.sched ≡ k.sched
unfolding alloc_at_brk
alloc_at_brk-sched junk k pid vmaid rgid size =
    let r : ScRegs = record { a1 = 2; a2 = sign_extend vmaid; a3 = size } in
    elim (Bool-cases (syscall junk k pid 17 r).0) [
      | inl e ↦ rw e (syscall-sched junk k pid 17 r)
      | inr e ↦ rw e (syscall-sched junk k pid 17 r)
    ]

alloc-sched :
    (junk : ℕ → ℕ) (k : Krnl) (pid vmaid rgid size : ℕ)
    → (alloc junk k pid vmaid rgid size).1.sched ≡ k.sched
unfolding alloc
alloc-sched junk k pid vmaid rgid size =
    elim (Option-cases (get_free_vmrg_area (k.mm pid) vmaid size).0) [
      | inl e ↦ rw (alloc, e) (alloc_at_brk-sched junk _ pid vmaid rgid size)
      | inr (g, e) ↦ rw (alloc, e)
    ]

pub liballoc-sched :
    (junk : ℕ → ℕ) (k : Krnl) (pid size rgid : ℕ)
    → (liballoc junk k pid size rgid).1.sched ≡ k.sched
unfolding liballoc
liballoc-sched junk k pid size rgid = alloc-sched junk k pid 0 rgid size

pub libfree-sched : (k : Krnl) (pid rgid : ℕ) → (libfree k pid rgid).1.sched ≡ k.sched
unfolding libfree free
libfree-sched k pid rgid = ground arith

pub libread-sched :
    (junk : ℕ → ℕ) (k : Krnl) (pid rgid offset : ℕ)
    → (libread junk k pid rgid offset).1.sched ≡ k.sched
unfolding libread region_read
libread-sched junk k pid rgid offset = elim (Bool-cases (no_access (k.mm pid) 0 rgid offset)) [
  | inl e ↦ rw e
  | inr e ↦ rw e (pg_getval-sched junk k pid _)
]

pub libwrite-sched :
    (junk : ℕ → ℕ) (k : Krnl) (pid value rgid offset : ℕ)
    → (libwrite junk k pid value rgid offset).1.sched ≡ k.sched
unfolding libwrite region_write
libwrite-sched junk k pid value rgid offset =
    elim (Bool-cases (no_access (k.mm pid) 0 rgid offset)) [
      | inl e ↦ rw e
      | inr e ↦ rw e (pg_setval-sched junk k pid _ value)
    ]
