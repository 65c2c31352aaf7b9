-- ===== src/Vm/Ownership.antt =====
-- Growing an area keeps every frame with one owner, on every path.
use os_assignment_nhom.Base.{
  ℕ, zero, suc, ◌+◌, ◌*◌, ◌≡◌, refl, ◌∙◌, set, List, ltb, update, Bool-cases, Option-cases, inl,
  inr,
}
use os_assignment_nhom.Mm.{Mm, Vma}
use os_assignment_nhom.Memphy
use os_assignment_nhom.Memphy.{Memphy}
use os_assignment_nhom.Memphy.FreeList.{read-free_fp_list}
use os_assignment_nhom.Base.Word.{u64, rounds}
use os_assignment_nhom.PageTable.Entry.{pte_get_entry-pt}
use os_assignment_nhom.PageTable.Ownership.{Owned, replaced-Owned, same-Fewer}
use os_assignment_nhom.Mapping.{vm_map_ram}
use os_assignment_nhom.Mapping.Ownership.{vm_map_ram-Owned}
use os_assignment_nhom.Vm.{
  vma_at, page_align, pages_of, validate_overlap_vm_area, get_vma_by_num, grow_vma, inc_vma_limit,
  copy_loop, swap_cp_page, mm_swap_page,
}

-- A memory structure with the same last table.
same_table-Owned :
    (mms : ℕ → Mm) (pid : ℕ) (mm mm' : Mm) (pool : List ℕ)
    → mm'.pt ≡ mm.pt
    → Owned (update mms pid mm) pool
    → Owned (update mms pid mm') pool
same_table-Owned mms pid mm mm' pool e w =
    replaced-Owned mms pid mm mm' pool (same-Fewer mm mm' (λ q. pte_get_entry-pt mm mm' q e)) w

grow_vma-Owned :
    (mms : ℕ → Mm) (pid vmaid i inc_sz : ℕ) (mm : Mm) (mram : Memphy)
    → Owned (update mms pid mm) mram.free_fp_list
    → let (ok, mm', mram') = grow_vma mm mram vmaid i inc_sz in
      Owned (update mms pid mm') mram'.free_fp_list
unfolding grow_vma
grow_vma-Owned mms pid vmaid i inc_sz mm mram w =
    let cur : Vma = vma_at mm.mmap i in
    let new_end : ℕ = u64 (cur.sbrk + page_align inc_sz) in
    let grown : Mm = record mm {
      mmap = set mm.mmap i (record cur { vm_end = new_end; sbrk = new_end });
    } in
    let n : ℕ = rounds (pages_of (page_align inc_sz)) in
    let g : Owned (update mms pid grown) mram.free_fp_list =
      same_table-Owned mms pid mm grown mram.free_fp_list refl w in
    let r = vm_map_ram grown mram cur.sbrk n in
    let done : Owned (update mms pid r.1) r.2.free_fp_list =
      vm_map_ram-Owned mms pid cur.sbrk n grown mram g in
    elim (Bool-cases (validate_overlap_vm_area grown.mmap vmaid cur.vm_start new_end)) [
      | inl y ↦ elim (Bool-cases (ltb r.0 0)) [
        | inl z ↦ rw (y, z) (same_table-Owned mms pid r.1 _ r.2.free_fp_list refl done)
        | inr z ↦ rw (y, z) done
      ]
      | inr y ↦ rw y (same_table-Owned mms pid mm _ mram.free_fp_list refl w)
    ]

pub inc_vma_limit-Owned :
    (mms : ℕ → Mm) (pid vmaid inc_sz : ℕ) (mm : Mm) (mram : Memphy)
    → Owned (update mms pid mm) mram.free_fp_list
    → let (ok, mm', mram') = inc_vma_limit mm mram vmaid inc_sz in
      Owned (update mms pid mm') mram'.free_fp_list
unfolding inc_vma_limit
inc_vma_limit-Owned mms pid vmaid inc_sz mm mram w =
    elim (Option-cases (get_vma_by_num mm.mmap vmaid)) [
      | inl e ↦ rw (inc_vma_limit, e) w
      | inr (i, e) ↦ rw (inc_vma_limit, e) (grow_vma-Owned mms pid vmaid i inc_sz mm mram w)
    ]

copy_loop-free_fp_list :
    (junk : ℕ → ℕ) (n i : ℕ) (src : Memphy) (f : ℕ) (dst : Memphy) (g : ℕ)
    → (copy_loop junk n i src f dst g).0.free_fp_list ≡ src.free_fp_list
unfolding copy_loop
copy_loop-free_fp_list junk zero i src f dst g = refl
copy_loop-free_fp_list junk (suc n) i src f dst g =
    copy_loop-free_fp_list junk n (suc i) (Memphy.read src (u64 (f * 256 + i))).1 f _ g
    ∙ read-free_fp_list src (u64 (f * 256 + i))

-- A copy to the swap leaves the free frames of the RAM alone.
pub mm_swap_page-free_fp_list :
    (junk : ℕ → ℕ) (mram mswp : Memphy) (f g : ℕ)
    → (mm_swap_page junk mram mswp f g).0.free_fp_list ≡ mram.free_fp_list
unfolding mm_swap_page swap_cp_page
mm_swap_page-free_fp_list junk mram mswp f g = copy_loop-free_fp_list junk 256 0 mram f mswp g
