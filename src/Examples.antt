-- ===== src/Examples.antt =====
-- The theorems on queues, devices, page tables and memory areas at small inputs.
use os_assignment_nhom.Base.{
  ℕ, ◌+◌, ◌*◌, ◌/◌, ◌%◌, ◌<◌, ◌≤◌, ◌≡◌, ◌≢◌, refl, arith, true, false, none, some, [], ◌∷◌,
  replicate, head?, tail,
}
use os_assignment_nhom.Base.Word.{u64}
use os_assignment_nhom.Queue.{Proc, Queue, enqueue, dequeue, purgequeue}
use os_assignment_nhom.Queue.Contents.{find_pid, erase_pid}
use os_assignment_nhom.Queue.Refine
use os_assignment_nhom.Queue.Refine.{contents, live, push, queue_refines}
use os_assignment_nhom.Memphy.{Memphy}
use os_assignment_nhom.Mm.{Mm, Vma}
use os_assignment_nhom.Pte.Codec.{Swapped}
use os_assignment_nhom.PageTable.{pte_set_swap, pte_get_entry}
use os_assignment_nhom.PageTable.Entry.{pte_get_entry-pte_set_swap, pte_get_entry_alias}
use os_assignment_nhom.Mapping.{alloc_pages_range, vmap_page_range}
use os_assignment_nhom.Mapping.Alloc.{alloc_pages_range_lem}
use os_assignment_nhom.Mapping.Pages.{Mapped, vmap_page_range-Mapped}
use os_assignment_nhom.Vm.{inc_vma_limit, swap_cp_page}
use os_assignment_nhom.Vm.Grow.{
  CanGrow, get_vma_by_num_single, grown_mm, inc_vma_limit_grows, inc_vma_limit_oom,
}
use os_assignment_nhom.Vm.Copy.{InRange, swap_cp_page_misses}

abbrev shell : Proc
shell = record { pid = 1; prio = 3 }

abbrev editor : Proc
editor = record { pid = 2; prio = 3 }

-- A queue of two processes.
abbrev two_waiting : Queue
two_waiting = record { proc = some shell ∷ some editor ∷ replicate 48 none; size = 2 }

two_waiting-IsValid : Refine.IsValid two_waiting
unfolding contents
two_waiting-IsValid = record {
  slots = refl;
  count = refl;
  fits = omega arith;
  starts = (refl, (refl, tt));
}

-- A random-access device of four frames, with frames 2 and 3 free, and a sequential one.
abbrev pub ram : Memphy
ram = record {
  storage = λ a. a % 256;
  maxsz = 16384;
  rdmflg = true;
  cursor = 0;
  free_fp_list = 2 ∷ 3 ∷ [];
}

abbrev pub swap_device : Memphy
swap_device = record ram { storage = λ _. 0 }

abbrev tape : Memphy
tape = record ram { rdmflg = false }

-- A process with the first page of its one area in use.
abbrev pub area : Vma
area = record { vm_id = 0; vm_start = 0; vm_end = 4096; sbrk = 4096; vm_freerg_list = [] }

abbrev pub small_mm : Mm
small_mm = record {
  pgd = none;
  p4d = none;
  pud = none;
  pmd = none;
  pt = none;
  mmap = area ∷ [];
  symrgtbl = λ _. record { rg_start = 0; rg_end = 0 };
  fifo_pgn = [];
}

pte_get_entry-pte_set_swap_example :
    let mm' = (pte_set_swap small_mm 7 0 9).1 in
    Swapped (pte_get_entry mm' 7) 0 9
    × (8 % 512 ≢ 7 % 512 → pte_get_entry mm' 8 ≡ pte_get_entry small_mm 8)
pte_get_entry-pte_set_swap_example = pte_get_entry-pte_set_swap small_mm 7 0 9 8

pte_get_entry_alias_example : pte_get_entry small_mm (7 + 512 * 1) ≡ pte_get_entry small_mm 7
pte_get_entry_alias_example = pte_get_entry_alias small_mm 7 1

alloc_pages_range_lem_example :
    alloc_pages_range ram 2 ≡ (true, 2 ∷ 3 ∷ [], record ram { free_fp_list = [] })
alloc_pages_range_lem_example = alloc_pages_range_lem 2 ram

vmap_page_range-Mapped_example :
    let (set, mm', rg) = vmap_page_range small_mm (4096 * 1) 2 (2 ∷ 3 ∷ []) in
    Mapped small_mm 1 2 (2 ∷ 3 ∷ []) set mm'
    × (rg ≡ record { rg_start = 4096 * 1; rg_end = u64 (4096 * 1 + 2 * 4096) })
vmap_page_range-Mapped_example =
    vmap_page_range-Mapped small_mm 1 2 (2 ∷ 3 ∷ []) (omega arith) (omega arith)

small-CanGrow :
    (inc_sz n : ℕ)
    → n ≡ (inc_sz + 4095) / 4096
    → 0 < n
    → n ≤ 512
    → CanGrow small_mm area 0 inc_sz 1 n
small-CanGrow inc_sz n c p s = record {
  one = refl;
  named = get_vma_by_num_single area 0 refl (omega arith);
  aligned = refl;
  start = omega arith;
  count = c;
  some_pages = p;
  few_pages = s;
  fits = omega arith;
}

inc_vma_limit_grows_example :
    let (ok, mm', mram') = inc_vma_limit small_mm ram 0 5000 in
    Mapped (grown_mm small_mm area 1 2) 1 2 (2 ∷ 3 ∷ []) ok mm'
    × (mram' ≡ record ram { free_fp_list = [] })
inc_vma_limit_grows_example =
    inc_vma_limit_grows small_mm ram area 0 5000 1 2
      (small-CanGrow 5000 2 refl (omega arith) (omega arith)) (omega arith)

inc_vma_limit_oom_example :
    inc_vma_limit small_mm ram 0 9000
    ≡ (true, grown_mm small_mm area 1 3, record ram { free_fp_list = [] })
inc_vma_limit_oom_example =
    inc_vma_limit_oom small_mm ram area 0 9000 1 3
      (small-CanGrow 9000 3 refl (omega arith) (omega arith)) (omega arith)

frames-InRange : InRange ram 2 swap_device 1
frames-InRange = record {
  src_random = refl;
  dst_random = refl;
  src_fits = omega arith;
  dst_fits = omega arith;
  src_small = omega arith;
  dst_small = omega arith;
}

swap_cp_page_misses_example :
    (swap_cp_page (λ _. 0) ram 2 swap_device 1).1.storage 5000 ≡ swap_device.storage 5000
swap_cp_page_misses_example =
    swap_cp_page_misses (λ _. 0) ram 2 swap_device 1 frames-InRange (omega arith) 5000 refl

queue_refines_example :
    ((live (enqueue two_waiting (some shell)) ≡ push (live two_waiting) shell)
      × Refine.IsValid (enqueue two_waiting (some shell)))
    × (((dequeue two_waiting).0 ≡ head? (live two_waiting))
        × (live (dequeue two_waiting).1 ≡ tail (live two_waiting))
        × Refine.IsValid (dequeue two_waiting).1)
    × (((purgequeue two_waiting (some shell)).0 ≡ find_pid 1 (live two_waiting))
        × (live (purgequeue two_waiting (some shell)).1 ≡ erase_pid 1 (live two_waiting))
        × Refine.IsValid (purgequeue two_waiting (some shell)).1)
queue_refines_example = queue_refines two_waiting shell two_waiting-IsValid
