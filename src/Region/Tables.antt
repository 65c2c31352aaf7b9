-- ===== src/Region/Tables.antt =====
-- The page table of a new process is blank, and the search for a free region leaves it alone.
use os_assignment_nhom.Base.{ℕ, ◌≡◌, List, refl, Option-cases, inl, inr}
use os_assignment_nhom.Mm.{Mm, Region}
use os_assignment_nhom.PageTable.Fresh.{IsBlank, zeroes-IsBlank}
use os_assignment_nhom.Vm.{get_vma_by_num}
use os_assignment_nhom.Region.{init_mm, take_region, get_free_vmrg_area}

take_region-pt : (mm : Mm) (i size : ℕ) → (take_region mm i size).1.pt ≡ mm.pt
unfolding take_region
take_region-pt mm i size = refl

pub get_free_vmrg_area-pt :
    (mm : Mm) (vmaid size : ℕ) → (get_free_vmrg_area mm vmaid size).1.pt ≡ mm.pt
unfolding get_free_vmrg_area
get_free_vmrg_area-pt mm vmaid size = elim (Option-cases (get_vma_by_num mm.mmap vmaid)) [
  | inl e ↦ rw (get_free_vmrg_area, e) refl
  | inr (i, e) ↦ rw (get_free_vmrg_area, e) (take_region-pt mm i size)
]

pub init_mm-IsBlank : (uninit : List Region) → IsBlank (init_mm uninit)
unfolding init_mm
init_mm-IsBlank uninit = zeroes-IsBlank (init_mm uninit) refl
