-- ===== src/Vm/Grow.antt =====
-- Growing the one area of a process.
use os_assignment_nhom.Base.{
  ℕ, ◌+◌, ◌*◌, ◌/◌, ◌^◌, ◌<◌, ◌≤◌, ◌≡◌, refl, arith, true, false, some, [], ◌∷◌, length, take, drop,
  ltb, leb,
}
use os_assignment_nhom.Base.Word.{u64, rounds}
use os_assignment_nhom.Memphy.{Memphy}
use os_assignment_nhom.Mm.{Mm, Vma}
use os_assignment_nhom.Mapping.{vm_map_ram}
use os_assignment_nhom.Mapping.Alloc.{drop_all, vm_map_ram_enough, vm_map_ram_short}
use os_assignment_nhom.Mapping.Pages.{Mapped, vmap_page_range-Mapped}
use os_assignment_nhom.Vm.{
  get_vma_by_num, validate_overlap_vm_area, page_align, pages_of, grow_vma, inc_vma_limit,
}

-- A process with one area, which `vmaid` names, and a page-aligned break; a request of `n` pages,
-- at least one and at most what the one page table holds, that stays in the address space.
pub record CanGrow (mm : Mm) (v : Vma) (vmaid inc_sz base n : ℕ) : Type 0 where
  pub one : mm.mmap ≡ v ∷ []
  pub named : get_vma_by_num (v ∷ []) vmaid ≡ some 0
  pub aligned : v.sbrk ≡ 4096 * base
  pub start : v.vm_start ≤ v.sbrk
  pub count : n ≡ (inc_sz + 4095) / 4096
  pub some_pages : 0 < n
  pub few_pages : n ≤ 512
  pub fits : base + n < 2 ^ 52

-- The area after it has grown by `n` pages.
abbrev pub grown_vma : Vma → ℕ → ℕ → Vma
grown_vma v base n = record v { vm_end = 4096 * (base + n); sbrk = 4096 * (base + n) }

abbrev pub grown_mm : Mm → Vma → ℕ → ℕ → Mm
grown_mm mm v base n = record mm { mmap = grown_vma v base n ∷ [] }

-- The one area is found by its own id.
pub get_vma_by_num_single :
    (v : Vma) (vmaid : ℕ)
    → v.vm_id ≡ vmaid
    → vmaid < 2 ^ 31
    → get_vma_by_num (v ∷ []) vmaid ≡ some 0
unfolding get_vma_by_num
get_vma_by_num_single v vmaid e h = ground arith

get_vma_by_num_first :
    (v w : Vma) (vmaid : ℕ)
    → w.vm_id ≡ v.vm_id
    → get_vma_by_num (v ∷ []) vmaid ≡ some 0
    → get_vma_by_num (w ∷ []) vmaid ≡ some 0
unfolding get_vma_by_num
get_vma_by_num_first v w vmaid e h = rw e h

-- A single area never overlaps another one.
validate_single :
    (v : Vma) (vmaid lo hi : ℕ)
    → get_vma_by_num (v ∷ []) vmaid ≡ some 0
    → lo < hi
    → validate_overlap_vm_area (v ∷ []) vmaid lo hi ≡ true
unfolding validate_overlap_vm_area
validate_single v vmaid lo hi e h = let t : leb hi lo ≡ false = ground arith in rw (t, e)

page_align-eq : (inc_sz n : ℕ) → n ≡ (inc_sz + 4095) / 4096 → n ≤ 512 → page_align inc_sz ≡ 4096 * n
page_align-eq inc_sz n e h = omega arith

pages_of-eq : (n : ℕ) → 0 < n → n ≤ 512 → pages_of (4096 * n) ≡ n
pages_of-eq n p h = ground arith

-- The new break, and the number of pages that the code counts.
new_break :
    (inc_sz base n : ℕ)
    → n ≡ (inc_sz + 4095) / 4096
    → n ≤ 512
    → base + n < 2 ^ 52
    → u64 (4096 * base + page_align inc_sz) ≡ 4096 * (base + n)
new_break inc_sz base n c s f = omega arith

page_count :
    (inc_sz n : ℕ)
    → n ≡ (inc_sz + 4095) / 4096
    → 0 < n
    → n ≤ 512
    → rounds (pages_of (page_align inc_sz)) ≡ n
page_count inc_sz n c p s = rw (page_align-eq inc_sz n c s, pages_of-eq n p s) (ground arith)

-- Growing comes down to mapping `n` pages at the old break.
grow_vma-map :
    (mm : Mm) (mram : Memphy) (v : Vma) (vmaid inc_sz base n ret : ℕ) (mm' : Mm) (mram' : Memphy)
    → CanGrow mm v vmaid inc_sz base n
    → vm_map_ram (grown_mm mm v base n) mram (4096 * base) n ≡ (ret, mm', mram')
    → grow_vma mm mram vmaid 0 inc_sz ≡ (true, mm', mram')
unfolding grow_vma
grow_vma-map mm mram v vmaid inc_sz base n ret mm' mram' c e =
    let b = new_break inc_sz base n c.count c.few_pages c.fits in
    let p = page_count inc_sz n c.count c.some_pages c.few_pages in
    let w : Vma = grown_vma v base n in
    let g =
      validate_single w vmaid v.vm_start (4096 * (base + n))
        (get_vma_by_num_first v w vmaid refl c.named)
        (omega (arith, c.start, c.aligned, c.some_pages)) in
    let z : ltb ret 0 ≡ false = ground arith in simp (c.one, c.aligned, b, p, g, e, z)

inc_vma_limit-map :
    (mm : Mm) (mram : Memphy) (v : Vma) (vmaid inc_sz base n ret : ℕ) (mm' : Mm) (mram' : Memphy)
    → CanGrow mm v vmaid inc_sz base n
    → vm_map_ram (grown_mm mm v base n) mram (4096 * base) n ≡ (ret, mm', mram')
    → inc_vma_limit mm mram vmaid inc_sz ≡ (true, mm', mram')
unfolding inc_vma_limit
inc_vma_limit-map mm mram v vmaid inc_sz base n ret mm' mram' c e =
    let h : get_vma_by_num mm.mmap vmaid ≡ some 0 = rw c.one c.named in
    rw (inc_vma_limit, h) (grow_vma-map mm mram v vmaid inc_sz base n ret mm' mram' c e)

-- Growing the one area of a process, from an aligned break, by `n` pages, at least one and at most
-- 512, with that many frames free, returns success; the pages from the old break on are mapped, in
-- order, to the first `n` free frames, of which an entry keeps the low 13 bits, with the area's
-- end and break `n` pages on, and the RAM keeps the rest of its free frames.
pub inc_vma_limit_grows :
    (mm : Mm) (mram : Memphy) (v : Vma) (vmaid inc_sz base n : ℕ)
    → CanGrow mm v vmaid inc_sz base n
    → n ≤ length mram.free_fp_list
    → let (ok, mm', mram') = inc_vma_limit mm mram vmaid inc_sz in
      Mapped (grown_mm mm v base n) base n (take n mram.free_fp_list) ok mm'
      × (mram' ≡ record mram { free_fp_list = drop n mram.free_fp_list })
inc_vma_limit_grows mm mram v vmaid inc_sz base n c h =
    let e = vm_map_ram_enough (grown_mm mm v base n) mram (4096 * base) n h in
    let m =
      vmap_page_range-Mapped (grown_mm mm v base n) base n (take n mram.free_fp_list)
        (omega (arith, c.fits)) c.few_pages in
    let r = inc_vma_limit-map mm mram v vmaid inc_sz base n _ _ _ c e in
    rw r (rw m.0.succeeded at m.0, refl)

-- Out of frames, growing still returns success: the area has its new end and break, no page of the
-- process is mapped, and every frame that was free is lost.
pub inc_vma_limit_oom :
    (mm : Mm) (mram : Memphy) (v : Vma) (vmaid inc_sz base n : ℕ)
    → CanGrow mm v vmaid inc_sz base n
    → length mram.free_fp_list < n
    → inc_vma_limit mm mram vmaid inc_sz
      ≡ (true, grown_mm mm v base n, record mram { free_fp_list = [] })
inc_vma_limit_oom mm mram v vmaid inc_sz base n c h =
    let e = vm_map_ram_short (grown_mm mm v base n) mram (4096 * base) n h in
    let d : drop n mram.free_fp_list ≡ [] = drop_all n mram.free_fp_list h in
    inc_vma_limit-map mm mram v vmaid inc_sz base n _ _ _ c (rw d at e)
