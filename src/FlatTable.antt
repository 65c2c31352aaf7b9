-- ===== src/FlatTable.antt =====
-- ossim_lamiaatrium/src/mm.c, which is compiled without MM64: the kernel has one flat page table, for
-- all processes, with 32-bit addresses. The functions that only print that they are deprecated and return 0 change
-- nothing; those whose result or argument a caller would use are given, the rest have no model.
pub mod Compat
pub mod Examples
use Prim.Native.Nat.{bit_and, bit_or}
use os_assignment_nhom.Base.{
  ℕ, ◌*◌, ◌^◌, Bool, true, false, not, Option, none, some, List, ◌==◌, if◌then◌else◌, update,
}
use os_assignment_nhom.Base.Word.{u32}
use os_assignment_nhom.Mm.{Region, Table}
use os_assignment_nhom.Pte.{
  not32, present_mask, swapped_mask, dirty_mask, fpn_mask, swptyp_mask, swpoff_mask, setbit, clrbit,
}

-- SETVAL on a 32-bit value
pub setval_32 : ℕ → ℕ → ℕ → ℕ → ℕ
setval_32 v value mask offst =
    bit_or (bit_and v (not32 mask)) (bit_and (u32 (value * 2 ^ offst)) mask)

-- `init_pte`: the entry, or `none` for the code's -1.
pub flat_init_pte : ℕ → Bool → ℕ → Bool → Bool → ℕ → ℕ → Option ℕ
unfolding setval_32
flat_init_pte v pre fpn drt swp swptyp swpoff =
    if pre
    then (if not swp
        then (if fpn == 0
            then none
            else some (
                setval_32 (clrbit (clrbit (setbit v present_mask) swapped_mask) dirty_mask) fpn
                  fpn_mask 0))
        else some (
            setval_32
              (setval_32 (clrbit (setbit (setbit v present_mask) swapped_mask) dirty_mask) swptyp
                swptyp_mask 0)
              swpoff swpoff_mask 5))
    else some v

-- `pte_set_swap` on the table `pgd`
pub flat_pte_set_swap : Table → ℕ → ℕ → ℕ → Table
unfolding setval_32
flat_pte_set_swap pgd pgn swptyp swpoff = update pgd pgn (
    setval_32 (setval_32 (setbit (setbit (pgd pgn) present_mask) swapped_mask) swptyp swptyp_mask 0)
      swpoff swpoff_mask 5)

-- `pte_set_fpn`
pub flat_pte_set_fpn : Table → ℕ → ℕ → Table
unfolding setval_32
flat_pte_set_fpn pgd pgn fpn =
    update pgd pgn (setval_32 (clrbit (setbit (pgd pgn) present_mask) swapped_mask) fpn fpn_mask 0)

-- `pte_get_entry` is deprecated: it does not look the entry up.
pub flat_pte_get_entry : Table → ℕ → ℕ
flat_pte_get_entry pgd pgn = 0

-- `pte_set_entry`
pub flat_pte_set_entry : Table → ℕ → ℕ → Table
flat_pte_set_entry pgd pgn pte_val = update pgd pgn pte_val

-- `vmap_page_range`, deprecated: its result, the table, and the region of the caller.
pub flat_vmap_page_range : Table → ℕ → ℕ → List ℕ → Region → ℕ × Table × Region
flat_vmap_page_range pgd addr pgnum frames ret_rg = (0, pgd, ret_rg)

-- `alloc_pages_range`, deprecated: its result, and the caller's list of frames.
pub flat_alloc_pages_range : ℕ → List ℕ → ℕ × List ℕ
flat_alloc_pages_range req_pgnum frm_lst = (0, frm_lst)

-- `vm_map_ram`, deprecated: its result and the table.
pub flat_vm_map_ram : Table → ℕ → ℕ → ℕ → ℕ → ℕ × Table
flat_vm_map_ram pgd astart aend mapstart incpgnum = (0, pgd)
