-- ===== src/Region/Fresh.antt =====
-- The regions of a fresh process.
use os_assignment_nhom.Base.{ℕ, zero, suc, ◌≡◌, refl, arith, [], ◌∷◌}
use os_assignment_nhom.Base.Sums.{sum_range}
use os_assignment_nhom.Mm.{Vma, Region}
use os_assignment_nhom.Region.{init_mm, enlist_vm_rg_node}
use os_assignment_nhom.Region.Cover.{holds}
use os_assignment_nhom.Region.Apart.{Apart}

empty_table : (i n a : ℕ) → sum_range i n (λ _. holds (record { rg_start = 0; rg_end = 0 }) a) ≡ 0
unfolding sum_range
empty_table i zero a = refl
empty_table i (suc n) a =
    let z : holds (record { rg_start = 0; rg_end = 0 }) a ≡ 0 = ground arith in
    omega (arith, z, empty_table (suc i) n a)

-- No address belongs to a region of a fresh process whose free list was empty.
pub init_mm-Apart : (v : Vma) × Apart (init_mm []) v × (v.sbrk ≡ 0)
unfolding init_mm enlist_vm_rg_node
init_mm-Apart =
    let none_left : Region = record { rg_start = 0; rg_end = 0 } in
    let v : Vma = record {
      vm_id = 0;
      vm_start = 0;
      vm_end = 0;
      sbrk = 0;
      vm_freerg_list = none_left ∷ [];
    } in
    (
      v,
      record {
        one = refl;
        id = refl;
        ordered = ((omega arith, omega arith), tt);
        apart = λ a.
            (let z : holds none_left a ≡ 0 = ground arith in omega (arith, z, empty_table 0 30 a));
      },
      refl,
    )
