-- ===== src/Region.antt =====
-- ossim_lamiaatrium/src/libmem.c: the free regions of an area, the symbol table and the list that
-- page replacement follows. A list node is relinked or overwritten in place by the code; here the
-- list is the one that the nodes then form.
pub mod Tables
pub mod Cover
pub mod Apart
pub mod Fresh
use os_assignment_nhom.Base.{
  ℕ, zero, suc, ◌+◌, ◌-◌, ◌^◌, Bool, true, false, not, ◌||◌, Option, none, some, List, [], ◌∷◌,
  ◌==◌, ltb, leb, if◌then◌else◌, set,
}
use os_assignment_nhom.Base.Word.{u32, u64, int, int_lt, sign_extend}
use os_assignment_nhom.Mm.{Region, Vma, Mm}
use os_assignment_nhom.Vm.{get_vma_by_num, vma_at}

-- `enlist_vm_freerg_list` on the list of the first area: whether it took the region, and the list.
unfoldable pub enlist_vm_freerg_list : List Region → Region → Bool × List Region
enlist_vm_freerg_list l rg = if leb rg.rg_end rg.rg_start then (false, l) else (true, rg ∷ l)

-- The region that a node of which nothing is left turns into: the next one, or an empty one.
pub drop_region : Region → List Region → List Region
drop_region r [] = record r { rg_start = r.rg_end } ∷ []
drop_region r (next ∷ l) = next ∷ l

-- The loop of `get_free_vmrg_area`: the region found, if any, and the list.
unfoldable pub fit : ℕ → List Region → Option Region × List Region
unfolding drop_region
fit size [] = (none, [])
fit size (r ∷ l) =
    let rest = fit size l in
    let cut : ℕ = u64 (r.rg_start + size) in
    if leb cut r.rg_end
    then (
      some (record { rg_start = r.rg_start; rg_end = cut }),
      if ltb cut r.rg_end then record r { rg_start = cut } ∷ l else drop_region r l,
    )
    else (rest.0, r ∷ rest.1)

-- A region that starts at 2^64 - 1 stands for none.
pub found_region : Option Region → Option Region
found_region none = none
found_region (some r) = if r.rg_start == 2 ^ 64 - 1 then none else some r

-- `get_free_vmrg_area` on the area at place `i`. `size` is an `int`, added to addresses.
pub take_region : Mm → ℕ → ℕ → Option Region × Mm
unfolding fit found_region
take_region mm i size =
    let cur : Vma = vma_at mm.mmap i in
    let (found, l) = fit (sign_extend (int size)) cur.vm_freerg_list in
    (found_region found, record mm { mmap = set mm.mmap i (record cur { vm_freerg_list = l }) })

-- There is no test for a missing area, which would be followed: every process has area 0, the only
-- one that is asked for.
pub get_free_vmrg_area : Mm → ℕ → ℕ → Option Region × Mm
get_free_vmrg_area mm vmaid size = elim (get_vma_by_num mm.mmap vmaid) [
  | none ↦ (none, mm)
  | some i ↦ take_region mm i size
]

-- Whether the symbol index is refused: the bound is 30 for a table of 30 entries.
unfoldable pub bad_symrg : ℕ → Bool
bad_symrg rgid = int_lt rgid 0 || int_lt 30 rgid

-- `get_symrg_byid`
unfoldable pub get_symrg_byid : Mm → ℕ → Option Region
unfolding bad_symrg
get_symrg_byid mm rgid = if bad_symrg rgid then none else some (mm.symrgtbl rgid)

-- The last of a list that has a first element, and the others.
pub split_last : ℕ → List ℕ → ℕ × List ℕ
split_last pg [] = (pg, [])
split_last pg (next ∷ l) = let (last, rest) = split_last next l in (last, pg ∷ rest)

-- `find_victim_page` on the list: the page number of its last node, which is freed.
pub find_victim_page : List ℕ → Option (ℕ × List ℕ)
unfolding split_last
find_victim_page [] = none
find_victim_page (pg ∷ l) = some (split_last pg l)

-- `enlist_vm_rg_node`
pub enlist_vm_rg_node : List Region → Region → List Region
enlist_vm_rg_node rglist rgnode = rgnode ∷ rglist

-- `init_mm`. The free list of the fresh area is read before it is set: `uninit` is the list that
-- the memory from `malloc` happens to lead to.
pub init_mm : List Region → Mm
unfolding enlist_vm_rg_node
init_mm uninit =
    let first_rg : Region = record { rg_start = 0; rg_end = 0 } in
    let vma0 : Vma = record {
      vm_id = 0;
      vm_start = 0;
      vm_end = 0;
      sbrk = 0;
      vm_freerg_list = enlist_vm_rg_node uninit first_rg;
    } in
    record {
      pgd = some (λ _. 0);
      p4d = some (λ _. 0);
      pud = some (λ _. 0);
      pmd = some (λ _. 0);
      pt = some (λ _. 0);
      mmap = vma0 ∷ [];
      symrgtbl = λ _. record { rg_start = 0; rg_end = 0 };
      fifo_pgn = [];
    }
