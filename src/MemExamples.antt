-- ===== src/MemExamples.antt =====
-- The theorems on regions, page faults, the memory calls and the CPU at a small system: process 2
-- runs, its page 0 is in frame 3, and its symbol 0 is the region of its first 100 bytes.
use os_assignment_nhom.Base.{
  ℕ, ◌+◌, ◌*◌, ◌/◌, ◌%◌, ◌^◌, ◌<◌, ◌≡◌, refl, ◌∙◌, arith, true, false, some, List, [], ◌∷◌, ◌==◌,
  if◌then◌else◌,
}
use os_assignment_nhom.Base.Word.{sign_extend}
use os_assignment_nhom.Mm.{Mm, Region, Vma}
use os_assignment_nhom.Pte.{page_present, page_swapped, paging_fpn}
use os_assignment_nhom.Pte.Fields.{page_present-eq, page_swapped-eq}
use os_assignment_nhom.Pte.Codec.{Online}
use os_assignment_nhom.PageTable.{pte_get_entry, pte_set_fpn, pte_set_swap}
use os_assignment_nhom.PageTable.Entry.{
  pte_get_entry-eq, pte_get_entry-pt, pte_get_entry-pte_set_fpn,
}
use os_assignment_nhom.Vm.Grow.{get_vma_by_num_single}
use os_assignment_nhom.Region.{fit, bad_symrg, get_symrg_byid}
use os_assignment_nhom.Region.Cover.{cover, holds, found_cover, Sized, fit_lem}
use os_assignment_nhom.Kernel.{Krnl, extend_byte}
use os_assignment_nhom.Libmem.{pg_getpage, pg_getval, pg_setval}
use os_assignment_nhom.Libmem.Bytes.{Resident, phys, pg_getval-pg_setval, pg_getval_alias}
use os_assignment_nhom.Libmem.Online.{BroughtOnline, pg_getpage_free_frame}
use os_assignment_nhom.Libmem.Faults.{Evicted, pg_getpage_evicts, pg_getpage-pte_set_swap}
use os_assignment_nhom.Libmem.Calls.{no_access, libfree, libread, libwrite}
use os_assignment_nhom.Libmem.Calls.Access.{Freed, libread-libwrite, libfree_lem}
use os_assignment_nhom.Libmem.{with_mm}
use os_assignment_nhom.Libmem.Calls.{liballoc}
use os_assignment_nhom.Libmem.Calls.Reuse.{reused, liballoc_reuses}
use os_assignment_nhom.Examples.{ram, swap_device, area, small_mm}
use os_assignment_nhom.Sched.Examples.{patient, patient_runs, patient_found}

abbrev free_regions : List Region
free_regions = record { rg_start = 0; rg_end = 10 } ∷ record { rg_start = 50; rg_end = 100 } ∷ []

fit_lem_example :
    let (g, l') = fit 20 free_regions in
    ((a : ℕ) → cover free_regions a ≡ found_cover g a + cover l' a) × Sized 20 free_regions g l'
fit_lem_example =
    fit_lem 20 free_regions ((omega arith, omega arith), ((omega arith, omega arith), tt))

-- Process 2 with page 0 online.
abbrev one_page : Mm
one_page = record ((pte_set_fpn small_mm 0 3).1) {
  mmap = area ∷ [];
  symrgtbl = λ _. record { rg_start = 0; rg_end = 100 };
  fifo_pgn = 0 ∷ [];
}

abbrev pub system : Krnl
system = record { sched = patient_runs; mm = λ _. one_page; mram = ram; active_mswp = swap_device }

one_page-Online : Online (pte_get_entry one_page 0) 3
one_page-Online =
    rw (pte_get_entry-pt (pte_set_fpn small_mm 0 3).1 one_page 0 refl)
      (pte_get_entry-pte_set_fpn small_mm 0 3 0).0

system-Resident : (addr : ℕ) → addr < 4096 → Resident system 2 addr 3
system-Resident addr h =
    let z : sign_extend (addr / 2 ^ 12 % 2 ^ 32) ≡ 0 = ground arith in
    record {
      caller = patient;
      known = patient_found;
      present = rw z one_page-Online.present;
      frame = rw z one_page-Online.frame;
      random = refl;
      small = omega arith;
      inside = omega arith;
    }

pg_getval-pg_setval_example :
    let (ok, k') = pg_setval (λ _. 0) system 2 5 65 in
    (ok ≡ true)
    × ((pg_getval (λ _. 0) k' 2 5).0
        ≡ (if phys 3 5 == phys 3 5 then some 65 else (pg_getval (λ _. 0) system 2 5).0))
pg_getval-pg_setval_example =
    pg_getval-pg_setval (λ _. 0) system 2 5 3 5 3 65 (system-Resident 5 (omega arith))
      (system-Resident 5 (omega arith)) (omega arith)

pg_getval_alias_example : pg_getval (λ _. 0) system 2 (5 + 256) ≡ pg_getval (λ _. 0) system 2 5
pg_getval_alias_example = pg_getval_alias (λ _. 0) system 2 5 (omega arith)

page_1_unmapped : pte_get_entry one_page 1 ≡ 0
page_1_unmapped =
    pte_get_entry-pt (pte_set_fpn small_mm 0 3).1 one_page 1 refl
    ∙ (pte_get_entry-pte_set_fpn small_mm 0 3 1).1 (omega arith)
    ∙ pte_get_entry-eq small_mm 1

page_1_absent : page_present (pte_get_entry one_page 1) ≡ false
page_1_absent = rw page_1_unmapped (page_present-eq 0)

page_1_unswapped : page_swapped (pte_get_entry one_page 1) ≡ false
page_1_unswapped = rw page_1_unmapped (page_swapped-eq 0)

pg_getpage_free_frame_example :
    let (fpn, k') = pg_getpage (λ _. 0) system 2 1 in
    (fpn ≡ some 2)
    × BroughtOnline (record system { mram = record ram { free_fp_list = 3 ∷ [] } }) 2 1 2 k'
pg_getpage_free_frame_example =
    pg_getpage_free_frame (λ _. 0) system 2 1 2 (3 ∷ []) page_1_absent page_1_unswapped refl

-- The same system without a free frame.
abbrev full_system : Krnl
full_system = record system { mram = record ram { free_fp_list = [] } }

pg_getpage_evicts_example :
    let (fpn, k') = pg_getpage (λ _. 0) full_system 2 1 in
    let f : ℕ = paging_fpn (pte_get_entry one_page 0) in
    (fpn ≡ some (f % 2 ^ 13))
    × Evicted
        (λ _. 0)
        full_system.mram
        2
        1
        0
        f
        2
        []
        (record swap_device { free_fp_list = 3 ∷ [] })
        k'
pg_getpage_evicts_example =
    pg_getpage_evicts (λ _. 0) full_system 2 1 0 2 [] (3 ∷ []) patient patient_found page_1_absent
      page_1_unswapped refl refl refl (omega arith)

-- The system after page 7 went to swap frame 9.
pg_getpage-pte_set_swap_example :
    let k' = with_mm system 2 (pte_set_swap one_page (sign_extend 7) 0 9).1 in
    pg_getpage (λ _. 0) k' 2 7 ≡ (some (9 % 2 ^ 8 * 2 ^ 5 + 0 % 2 ^ 5), k')
pg_getpage-pte_set_swap_example = pg_getpage-pte_set_swap (λ _. 0) system 2 7 0 9

symbol_0_allowed : no_access one_page 0 0 5 ≡ false
unfolding no_access get_symrg_byid bad_symrg
symbol_0_allowed = rw (get_vma_by_num_single area 0 refl (omega arith), no_access)

libread-libwrite_example :
    let (ok, k') = libwrite (λ _. 0) system 2 65 0 5 in
    (ok ≡ true) × ((libread (λ _. 0) k' 2 0 5).0 ≡ some (extend_byte 65))
libread-libwrite_example =
    libread-libwrite (λ _. 0) system 2 0 5 3 65 symbol_0_allowed (system-Resident 5 (omega arith))
      (omega arith)

libfree_lem_example :
    let (ok, k') = libfree system 2 0 in
    (ok ≡ true) × Freed system 2 0 area [] k' × (libfree k' 2 0 ≡ (false, k'))
libfree_lem_example = libfree_lem system 2 0 area [] (omega arith) (omega arith) refl

-- The same process with free regions, of which the second is large enough.
abbrev holed : Vma
holed = record area { vm_freerg_list = free_regions }

abbrev holed_system : Krnl
holed_system = record system { mm = λ _. record one_page { mmap = holed ∷ [] } }

abbrev given : Region
given = record { rg_start = 50; rg_end = 70 }

abbrev left_free : List Region
left_free = record { rg_start = 0; rg_end = 10 } ∷ record { rg_start = 70; rg_end = 100 } ∷ []

fit_20 : fit 20 free_regions ≡ (some given, left_free)
unfolding fit
fit_20 = refl

liballoc_reuses_example :
    (liballoc (λ _. 0) holed_system 2 20 1
      ≡ (true, with_mm holed_system 2 (reused (holed_system.mm 2) holed 1 given left_free)))
    × (given.rg_end ≡ given.rg_start + 20)
    × ((a : ℕ) → cover free_regions a ≡ holds given a + cover left_free a)
liballoc_reuses_example =
    liballoc_reuses (λ _. 0) holed_system 2 20 1 holed given left_free refl
      (get_vma_by_num_single holed 0 refl (omega arith)) (omega arith) (omega arith)
      ((omega arith, omega arith), ((omega arith, omega arith), tt)) fit_20 (omega arith)
