-- ===== src/Libmem/Calls/Reuse.antt =====
-- Allocation out of the free regions.
use os_assignment_nhom.Base.{
  ℕ, ◌+◌, ◌-◌, ◌^◌, ◌<◌, ◌≡◌, ◌≢◌, ap, true, Option, some, List, [], ◌∷◌, All,
}
use os_assignment_nhom.Mm.{Mm, Vma, Region}
use os_assignment_nhom.Vm.{get_vma_by_num}
use os_assignment_nhom.Region.{fit, get_free_vmrg_area}
use os_assignment_nhom.Region.Cover.{Fits, cover, holds, fit_lem, get_free_vmrg_area_found}
use os_assignment_nhom.Kernel.{Krnl}
use os_assignment_nhom.Libmem.{with_mm}
use os_assignment_nhom.Libmem.Calls.{set_symrg, alloc, liballoc}

-- The process's memory once region `g` is symbol `rgid` and `l'` is left free.
abbrev pub reused : Mm → Vma → ℕ → Region → List Region → Mm
reused mm v rgid g l' =
    set_symrg (record mm { mmap = record v { vm_freerg_list = l' } ∷ [] }) rgid g

-- The search finds a free region.
pub liballoc_found :
    (junk : ℕ → ℕ) (k : Krnl) (pid size rgid : ℕ) (v : Vma) (g : Region) (l' : List Region)
    → (k.mm pid).mmap ≡ v ∷ []
    → get_vma_by_num (v ∷ []) 0 ≡ some 0
    → size < 2 ^ 31
    → All (Fits size) v.vm_freerg_list
    → fit size v.vm_freerg_list ≡ (some g, l')
    → g.rg_start ≢ 2 ^ 64 - 1
    → (liballoc junk k pid size rgid ≡ (true, with_mm k pid (reused (k.mm pid) v rgid g l')))
      × (g.rg_end ≡ g.rg_start + size)
      × ((a : ℕ) → cover v.vm_freerg_list a ≡ holds g a + cover l' a)
unfolding liballoc alloc
liballoc_found junk k pid size rgid v g l' one named small fits f ne =
    let e = get_free_vmrg_area_found (k.mm pid) v 0 size g l' one named small f ne in
    let w = rw f at (fit_lem size v.vm_freerg_list fits) in
    let m : (get_free_vmrg_area (k.mm pid) 0 size).1
        ≡ record (k.mm pid) { mmap = record v { vm_freerg_list = l' } ∷ [] } =
      ap (λ (x : Option Region × Mm). x.1) e in
    (rw (e, alloc) (ap (λ (x : Mm). (true, with_mm k pid (set_symrg x rgid g))) m), w.1, w.0)

-- On a process with one area, if the first-fit search for `size` finds a region `g` among the free
-- regions (in order, and none so high that adding the size would wrap round), and the symbol is one
-- of the table's thirty, `liballoc` succeeds
-- without a system call: only the symbol, which is now `g`, and the free list change. The region has
-- the size asked for, and with the regions left it covers just what was free.
pub liballoc_reuses :
    (junk : ℕ → ℕ) (k : Krnl) (pid size rgid : ℕ) (v : Vma) (g : Region) (l' : List Region)
    → (k.mm pid).mmap ≡ v ∷ []
    → get_vma_by_num (v ∷ []) 0 ≡ some 0
    → size < 2 ^ 31
    → rgid < 30
    → All (Fits size) v.vm_freerg_list
    → fit size v.vm_freerg_list ≡ (some g, l')
    → g.rg_start ≢ 2 ^ 64 - 1
    → (liballoc junk k pid size rgid ≡ (true, with_mm k pid (reused (k.mm pid) v rgid g l')))
      × (g.rg_end ≡ g.rg_start + size)
      × ((a : ℕ) → cover v.vm_freerg_list a ≡ holds g a + cover l' a)
liballoc_reuses junk k pid size rgid v g l' one named small index fits f ne =
    liballoc_found junk k pid size rgid v g l' one named small fits f ne
