-- ===== src/Vm/Limits.antt =====
-- What growing does to the areas and symbols of a process with one area, whether there are frames
-- or not.
use os_assignment_nhom.Base.{
  ℕ, ◌+◌, ◌≡◌, ◌⊎◌, refl, arith, Bool, true, false, some, [], ◌∷◌, ltb, Bool-cases, inl, inr,
}
use os_assignment_nhom.Base.Word.{u64, rounds}
use os_assignment_nhom.Memphy.{Memphy}
use os_assignment_nhom.Mm.{Mm, Vma}
use os_assignment_nhom.Mapping.{vm_map_ram}
use os_assignment_nhom.Mapping.Pages.{vm_map_ram_areas}
use os_assignment_nhom.Vm.{
  get_vma_by_num, validate_overlap_vm_area, page_align, pages_of, grow_vma, inc_vma_limit,
}

-- The area with its end and break moved by a request.
abbrev pub extended : Vma → ℕ → Vma
extended v inc_sz = record v {
  vm_end = u64 (v.sbrk + page_align inc_sz);
  sbrk = u64 (v.sbrk + page_align inc_sz);
}

-- The symbols stay; the break moves if the call reports success, and is as before otherwise.
abbrev pub Limit : Mm → Vma → ℕ → Bool → Mm → Type 0
Limit mm v inc_sz ok mm' =
    (mm'.symrgtbl ≡ mm.symrgtbl)
    × (((ok ≡ true) × (mm'.mmap ≡ extended v inc_sz ∷ [])) ⊎ ((ok ≡ false) × (mm'.mmap ≡ v ∷ [])))

grow_vma-Limit :
    (mm : Mm) (mram : Memphy) (v : Vma) (vmaid inc_sz : ℕ)
    → mm.mmap ≡ v ∷ []
    → let r = grow_vma mm mram vmaid 0 inc_sz in Limit mm v inc_sz r.0 r.1
unfolding grow_vma
grow_vma-Limit mm mram v vmaid inc_sz one =
    let w : Vma = extended v inc_sz in
    let g : Mm = record mm { mmap = w ∷ [] } in
    let n : ℕ = rounds (pages_of (page_align inc_sz)) in
    let a = vm_map_ram_areas g mram v.sbrk n in
    elim (Bool-cases (validate_overlap_vm_area (w ∷ []) vmaid v.vm_start w.vm_end)) [
      | inl t ↦
          let z : ltb (vm_map_ram g mram v.sbrk n).0 0 ≡ false = ground arith in
          simp (one, t, z) (a.1, inl (refl, a.0))
      | inr t ↦ simp (one, t) (refl, inr (refl, refl))
    ]

pub inc_vma_limit-Limit :
    (mm : Mm) (mram : Memphy) (v : Vma) (vmaid inc_sz : ℕ)
    → mm.mmap ≡ v ∷ []
    → get_vma_by_num (v ∷ []) vmaid ≡ some 0
    → let r = inc_vma_limit mm mram vmaid inc_sz in Limit mm v inc_sz r.0 r.1
unfolding inc_vma_limit
inc_vma_limit-Limit mm mram v vmaid inc_sz one named =
    let h : get_vma_by_num mm.mmap vmaid ≡ some 0 = rw one named in
    rw (inc_vma_limit, h) (grow_vma-Limit mm mram v vmaid inc_sz one)
