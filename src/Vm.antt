-- ===== src/Vm.antt =====
-- ossim_lamiaatrium/src/mm-vm.c: the areas of a process, growing one, and the copy between devices
-- (`__swap_cp_page` of mm64.c). A pointer to an area is its place in the list of areas.
pub mod Ownership
pub mod Grow
pub mod Limits
pub mod Copy
use os_assignment_nhom.Base.{
  ℕ, zero, suc, ◌+◌, ◌-◌, ◌*◌, ◌/◌, ◌^◌, Bool, true, false, not, ◌&&◌, ◌||◌, Option, none, some,
  List, [], ◌∷◌, ◌==◌, ltb, leb, if◌then◌else◌, get_or, set,
}
use os_assignment_nhom.Base.Word.{u64, int, int_lt, rounds, div_round_up}
use os_assignment_nhom.Memphy
use os_assignment_nhom.Memphy.{Memphy}
use os_assignment_nhom.Mm.{Mm, Vma, Region}
use os_assignment_nhom.Mapping.{vm_map_ram}

-- The place of the first area whose id is not below `vmaid`; `none` is the NULL result.
pub get_vma_by_num : List Vma → ℕ → Option ℕ
get_vma_by_num [] vmaid = none
get_vma_by_num (v ∷ l) vmaid =
    let rest : Option ℕ = elim (get_vma_by_num l vmaid) [ none ↦ none | some i ↦ some (suc i) ] in
    if int_lt (int v.vm_id) vmaid then rest else some 0

-- What an area pointer reads; the code never follows one past the list.
abbrev pub no_vma : Vma
no_vma = record { vm_id = 0; vm_start = 0; vm_end = 0; sbrk = 0; vm_freerg_list = [] }

abbrev pub vma_at : List Vma → ℕ → Vma
vma_at l i = get_or l i no_vma

-- `get_vm_area_node_at_brk`
pub get_vm_area_node_at_brk : List Vma → ℕ → ℕ → Option Region
get_vm_area_node_at_brk l vmaid size = elim (get_vma_by_num l vmaid) [
  | none ↦ none
  | some i ↦ some (record { rg_start = (vma_at l i).sbrk; rg_end = u64 ((vma_at l i).sbrk + size) })
]

-- OVERLAP(x1, x2, y1, y2)
pub overlap : ℕ → ℕ → ℕ → ℕ → Bool
overlap x1 x2 y1 y2 = not (leb x2 y1 || leb y2 x1)

-- The loop of `validate_overlap_vm_area` from place `i` on: no area but `cur` overlaps it.
pub no_overlap : ℕ → ℕ → Vma → List Vma → Bool
unfolding overlap
no_overlap i cur area [] = true
no_overlap i cur area (v ∷ l) =
    not (not (i == cur) && overlap area.vm_start area.vm_end v.vm_start v.vm_end)
    && no_overlap (suc i) cur area l

-- Whether the area may have these bounds, the code's 0 or -1.
pub validate_overlap_vm_area : List Vma → ℕ → ℕ → ℕ → Bool
unfolding no_overlap
validate_overlap_vm_area l vmaid vmastart vmaend =
    if leb vmaend vmastart then false else (elim (get_vma_by_num l vmaid) [
      | none ↦ false
      | some cur ↦ no_overlap 0 cur (vma_at l cur) l
    ])

-- PAGING64_PAGE_ALIGNSZ(sz)
abbrev pub page_align : ℕ → ℕ
page_align sz = u64 (div_round_up sz 4096 * 4096)

-- The number of pages to map, at least one.
abbrev pub pages_of : ℕ → ℕ
pages_of amt = if int (amt / 4096) == 0 then 1 else int (amt / 4096)

-- `inc_vma_limit`, on the area at place `i`: whether it returned 0, the memory structure and the
-- RAM. `vm_map_ram` returns an unsigned number, and the test `< 0` is made on that.
pub grow_vma : Mm → Memphy → ℕ → ℕ → ℕ → Bool × Mm × Memphy
grow_vma mm mram vmaid i inc_sz =
    let cur : Vma = vma_at mm.mmap i in
    let inc_amt : ℕ = page_align inc_sz in
    let new_end : ℕ = u64 (cur.sbrk + inc_amt) in
    let grown : Mm = record mm {
      mmap = set mm.mmap i (record cur { vm_end = new_end; sbrk = new_end });
    } in
    let restored : Mm → Mm = λ m. record m {
      mmap = set m.mmap i (record (vma_at m.mmap i) { vm_end = cur.vm_end; sbrk = cur.sbrk });
    } in
    if not (validate_overlap_vm_area grown.mmap vmaid cur.vm_start new_end)
    then (false, restored grown, mram)
    else (let (ret, mm', mram') = vm_map_ram grown mram cur.sbrk (rounds (pages_of inc_amt)) in
        if ltb ret 0 then (false, restored mm', mram') else (true, mm', mram'))

pub inc_vma_limit : Mm → Memphy → ℕ → ℕ → Bool × Mm × Memphy
unfolding grow_vma
inc_vma_limit mm mram vmaid inc_sz = elim (get_vma_by_num mm.mmap vmaid) [
  | none ↦ (false, mm, mram)
  | some i ↦ grow_vma mm mram vmaid i inc_sz
]

-- The loop of `__swap_cp_page`. Where a read fails, the byte written is the one that the fresh
-- variable of that round held: `junk`.
pub copy_loop : (ℕ → ℕ) → ℕ → ℕ → Memphy → ℕ → Memphy → ℕ → Memphy × Memphy
copy_loop junk zero cellidx src srcfpn dst dstfpn = (src, dst)
copy_loop junk (suc n) cellidx src srcfpn dst dstfpn =
    let (byte, src') = Memphy.read src (u64 (srcfpn * 256 + cellidx)) in
    let value : ℕ = elim byte [ none ↦ junk cellidx | some b ↦ b ] in
    let dst' = (Memphy.write dst (u64 (dstfpn * 256 + cellidx)) value).1 in
    copy_loop junk n (suc cellidx) src' srcfpn dst' dstfpn

-- `__swap_cp_page`, PAGING_PAGESZ rounds: both devices after it.
pub swap_cp_page : (ℕ → ℕ) → Memphy → ℕ → Memphy → ℕ → Memphy × Memphy
unfolding copy_loop
swap_cp_page junk mpsrc srcfpn mpdst dstfpn = copy_loop junk 256 0 mpsrc srcfpn mpdst dstfpn

-- `__mm_swap_page`: always from the RAM to the active swap.
pub mm_swap_page : (ℕ → ℕ) → Memphy → Memphy → ℕ → ℕ → Memphy × Memphy
mm_swap_page junk mram active_mswp vicfpn swpfpn = swap_cp_page junk mram vicfpn active_mswp swpfpn
