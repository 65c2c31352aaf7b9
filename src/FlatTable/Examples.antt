-- ===== src/FlatTable/Examples.antt =====
-- The flat page table at an empty table.
use os_assignment_nhom.Base.{◌≡◌, ◌%◌, ◌^◌, arith, true, false}
use os_assignment_nhom.Mm.{Table}
use os_assignment_nhom.Pte.{init_pte}
use os_assignment_nhom.Pte.Codec.{Online, Swapped}
use os_assignment_nhom.FlatTable.{
  flat_init_pte, flat_pte_set_swap, flat_pte_set_fpn, flat_pte_get_entry,
}
use os_assignment_nhom.FlatTable.Compat.{flat_table_lem}

abbrev no_entries : Table
no_entries pgn = 0

-- Page 3 and page 515, which the 64-bit configuration takes for the same.
flat_table_lem_example :
    (flat_init_pte 0 true 7 false false 1 9 ≡ init_pte 0 true 7 false false 1 9)
    × Online (flat_pte_set_fpn no_entries 3 7 3) (7 % 2 ^ 13)
    × Swapped (flat_pte_set_swap no_entries 3 1 9 3) 1 (9 % 2 ^ 21)
    × (flat_pte_set_fpn no_entries 3 7 515 ≡ no_entries 515)
    × (flat_pte_set_swap no_entries 3 1 9 515 ≡ no_entries 515)
    × (flat_pte_get_entry (flat_pte_set_fpn no_entries 3 7) 3 ≡ 0)
flat_table_lem_example =
    flat_table_lem no_entries 3 515 0 true 7 false false 1 9 (omega arith) (omega arith)
      (omega arith) (omega arith)
