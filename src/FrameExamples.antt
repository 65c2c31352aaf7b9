-- ===== src/FrameExamples.antt =====
-- The theorems on the owners of frames at two processes with a page each.
use os_assignment_nhom.Base.{ℕ, ◌/◌, ◌%◌, ◌^◌, ◌≡◌, refl, arith, true, [], ◌∷◌, update}
use os_assignment_nhom.Base.Word.{sign_extend}
use os_assignment_nhom.Mm.{Mm}
use os_assignment_nhom.Pte.Codec.{Online}
use os_assignment_nhom.PageTable.{pte_get_entry, pte_set_fpn}
use os_assignment_nhom.PageTable.Entry.{pte_get_entry-pte_set_fpn}
use os_assignment_nhom.PageTable.Ownership.{given-Owned}
use os_assignment_nhom.PageTable.Fresh.{fresh-Owned}
use os_assignment_nhom.Region.{init_mm}
use os_assignment_nhom.Region.Tables.{init_mm-IsBlank}
use os_assignment_nhom.Kernel.{Krnl}
use os_assignment_nhom.Kernel.Ownership.{FramesOwned}
use os_assignment_nhom.Libmem.{pg_getval, pg_setval}
use os_assignment_nhom.Libmem.Bytes.{Resident}
use os_assignment_nhom.Libmem.Separation.{private_pages}
use os_assignment_nhom.Examples.{ram, swap_device}
use os_assignment_nhom.Sched.Examples.{both_run, both_found, patient, urgent}

abbrev blank : Mm
blank = init_mm []

-- Page 0 of a process in frame `f`.
abbrev holding : ℕ → Mm
holding f = (pte_set_fpn blank 0 f).1

holding-Online : (f : ℕ) → Online (pte_get_entry (holding f) 0) (f % 2 ^ 13)
holding-Online f = (pte_get_entry-pte_set_fpn blank 0 f 0).0

-- Process 2 has frame 2 and process 1 has frame 3.
abbrev mms : ℕ → Mm
mms = update (update (λ _. blank) 2 (holding 2)) 1 (holding 3)

abbrev shared : Krnl
shared = record {
  sched = both_run;
  mm = mms;
  mram = record ram { free_fp_list = [] };
  active_mswp = swap_device;
}

held_once : FramesOwned shared
held_once =
    given-Owned (update (λ _. blank) 2 (holding 2)) 3 [] 1 0 (holding 3)
      (given-Owned (λ _. blank) 2 (3 ∷ []) 2 0 (holding 2)
        (fresh-Owned (λ _. blank) (2 ∷ 3 ∷ []) (λ _. init_mm-IsBlank [])
          (((λ e. cc e), tt), (tt, tt)) (omega arith, (omega arith, tt)))
        (holding-Online 2) (λ q ne. (pte_get_entry-pte_set_fpn blank 0 2 q).1 ne))
      (holding-Online 3) (λ q ne. (pte_get_entry-pte_set_fpn blank 0 3 q).1 ne)

page_0 : sign_extend (5 / 2 ^ 12 % 2 ^ 32) ≡ 0
page_0 = ground arith

patient-Resident : Resident shared 2 5 2
patient-Resident = record {
  caller = patient;
  known = both_found.0;
  present = rw page_0 (holding-Online 2).present;
  frame = rw page_0 (holding-Online 2).frame;
  random = refl;
  small = omega arith;
  inside = omega arith;
}

urgent-Resident : Resident shared 1 5 3
urgent-Resident = record {
  caller = urgent;
  known = both_found.1;
  present = rw page_0 (holding-Online 3).present;
  frame = rw page_0 (holding-Online 3).frame;
  random = refl;
  small = omega arith;
  inside = omega arith;
}

private_pages_example :
    let (ok, k') = pg_setval (λ _. 0) shared 2 5 65 in
    (ok ≡ true) × ((pg_getval (λ _. 0) k' 1 5).0 ≡ (pg_getval (λ _. 0) shared 1 5).0)
private_pages_example =
    private_pages (λ _. 0) shared 2 5 2 1 5 3 65 held_once patient-Resident urgent-Resident
      (rw page_0 (holding-Online 2).unswapped) (rw page_0 (holding-Online 3).unswapped)
      (omega (arith, page_0)) (omega (arith, page_0)) (λ h. cc h.0) (omega arith)
