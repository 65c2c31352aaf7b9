-- ===== src/Libmem/Calls/Ownership.antt =====
-- Allocation, freeing and access keep every frame with one owner.
use os_assignment_nhom.Base.{
  ℕ, ◌≡◌, refl, ◌&&◌, List, ◌∷◌, ◌==◌, Bool-cases, Option-cases, inl, inr,
}
use os_assignment_nhom.Base.Word.{sign_extend}
use os_assignment_nhom.Mm.{Mm, Region}
use os_assignment_nhom.PageTable.Ownership.{with-Owned}
use os_assignment_nhom.Region.{get_free_vmrg_area, bad_symrg}
use os_assignment_nhom.Region.Tables.{get_free_vmrg_area-pt}
use os_assignment_nhom.Kernel.{Krnl, ScRegs, syscall}
use os_assignment_nhom.Kernel.Ownership.{FramesOwned, syscall-FramesOwned}
use os_assignment_nhom.Libmem.{with_mm}
use os_assignment_nhom.Libmem.Ownership.{pg_getval-FramesOwned, pg_setval-FramesOwned}
use os_assignment_nhom.Libmem.Calls.{
  alloc_at_brk, alloc, free, no_access, region_read, region_write, liballoc, libfree, libread,
  libwrite, set_symrg,
}

-- A change of the areas and regions of a process.
with_mm-FramesOwned :
    (k : Krnl) (pid : ℕ) (mm : Mm)
    → mm.pt ≡ (k.mm pid).pt
    → FramesOwned k
    → FramesOwned (with_mm k pid mm)
with_mm-FramesOwned k pid mm e w = with-Owned k.mm pid mm k.mram.free_fp_list e w

alloc_at_brk-FramesOwned :
    (junk : ℕ → ℕ) (k : Krnl) (pid vmaid rgid size : ℕ)
    → FramesOwned k
    → FramesOwned (alloc_at_brk junk k pid vmaid rgid size).1
unfolding alloc_at_brk
alloc_at_brk-FramesOwned junk k pid vmaid rgid size w =
    let r : ScRegs = record { a1 = 2; a2 = sign_extend vmaid; a3 = size } in
    let c = syscall junk k pid 17 r in
    let s = syscall-FramesOwned junk k pid 17 r w in
    elim (Bool-cases c.0) [ inl e ↦ rw e (with_mm-FramesOwned c.2 pid _ refl s) | inr e ↦ rw e s ]

alloc-FramesOwned :
    (junk : ℕ → ℕ) (k : Krnl) (pid vmaid rgid size : ℕ)
    → FramesOwned k
    → FramesOwned (alloc junk k pid vmaid rgid size).1
unfolding alloc
alloc-FramesOwned junk k pid vmaid rgid size w =
    let g = get_free_vmrg_area (k.mm pid) vmaid size in
    let t = get_free_vmrg_area-pt (k.mm pid) vmaid size in
    elim (Option-cases g.0) [
      | inl e ↦
          rw (alloc, e)
            (alloc_at_brk-FramesOwned junk (with_mm k pid g.1) pid vmaid rgid size
              (with_mm-FramesOwned k pid g.1 t w))
      | inr (rg, e) ↦ rw (alloc, e) (with_mm-FramesOwned k pid (set_symrg g.1 rgid rg) t w)
    ]

pub liballoc-FramesOwned :
    (junk : ℕ → ℕ) (k : Krnl) (pid size rgid : ℕ)
    → FramesOwned k
    → FramesOwned (liballoc junk k pid size rgid).1
unfolding liballoc
liballoc-FramesOwned junk k pid size rgid w = alloc-FramesOwned junk k pid 0 rgid size w

pub libfree-FramesOwned :
    (k : Krnl) (pid rgid : ℕ) → FramesOwned k → FramesOwned (libfree k pid rgid).1
unfolding libfree free
libfree-FramesOwned k pid rgid w =
    let rg : Region = (k.mm pid).symrgtbl rgid in
    elim (Bool-cases (bad_symrg rgid)) [
      | inl e ↦ rw e w
      | inr e ↦ elim (Bool-cases (rg.rg_start == 0 && rg.rg_end == 0)) [
        | inl z ↦ rw (e, z) w
        | inr z ↦ rw (e, z) (with_mm-FramesOwned k pid _ refl w)
      ]
    ]

pub libread-FramesOwned :
    (junk : ℕ → ℕ) (k : Krnl) (pid rgid offset f : ℕ) (l : List ℕ)
    → k.mram.free_fp_list ≡ f ∷ l
    → FramesOwned k
    → FramesOwned (libread junk k pid rgid offset).1
unfolding libread region_read
libread-FramesOwned junk k pid rgid offset f l n w =
    elim (Bool-cases (no_access (k.mm pid) 0 rgid offset)) [
      | inl e ↦ rw e w
      | inr e ↦ rw e (pg_getval-FramesOwned junk k pid _ f l n w)
    ]

pub libwrite-FramesOwned :
    (junk : ℕ → ℕ) (k : Krnl) (pid value rgid offset f : ℕ) (l : List ℕ)
    → k.mram.free_fp_list ≡ f ∷ l
    → FramesOwned k
    → FramesOwned (libwrite junk k pid value rgid offset).1
unfolding libwrite region_write
libwrite-FramesOwned junk k pid value rgid offset f l n w =
    elim (Bool-cases (no_access (k.mm pid) 0 rgid offset)) [
      | inl e ↦ rw e w
      | inr e ↦ rw e (pg_setval-FramesOwned junk k pid _ value f l n w)
    ]
