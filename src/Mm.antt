-- ===== src/Mm.antt =====
-- The memory structures of ossim_lamiaatrium/include/os-mm.h. A linked list is a List, a table or
-- an array a function of its index; `none` is a NULL table. The area's link back to its `mm_struct`
-- and the frames' unused owner have no model.
use os_assignment_nhom.Base.{ℕ, Option, List}

-- `vm_rg_struct`
pub record Region : Type 0 where
  pub rg_start : ℕ
  pub rg_end : ℕ

-- `vm_area_struct`
pub record Vma : Type 0 where
  pub vm_id : ℕ
  pub vm_start : ℕ
  pub vm_end : ℕ
  pub sbrk : ℕ
  pub vm_freerg_list : List Region

-- A page directory or table of 512 entries.
abbrev pub Table : Type 0
Table = ℕ → ℕ

-- `mm_struct`
pub record Mm : Type 0 where
  pub pgd : Option Table
  pub p4d : Option Table
  pub pud : Option Table
  pub pmd : Option Table
  pub pt : Option Table
  pub mmap : List Vma
  pub symrgtbl : ℕ → Region
  pub fifo_pgn : List ℕ
