-- ===== src/Mapping/Alloc.antt =====
-- Taking a number of frames off the free list.
use os_assignment_nhom.Base.{
  ℕ, zero, suc, ◌<◌, ◌≤◌, ◌≡◌, refl, ◌-◌, ◌^◌, true, false, List, [], ◌∷◌, length, take, drop,
  arith, leb,
}
use os_assignment_nhom.Memphy.{Memphy}
use os_assignment_nhom.Memphy.Frames.{get_freefp-nil, get_freefp-cons}
use os_assignment_nhom.Mm.{Mm}
use os_assignment_nhom.Mapping.{alloc_pages_range, vmap_page_range, vm_map_ram}

alloc_pages_range-take :
    (n : ℕ) (l : List ℕ) (mp : Memphy)
    → mp.free_fp_list ≡ l
    → alloc_pages_range mp n ≡ (leb n (length l), take n l, record mp { free_fp_list = drop n l })
unfolding alloc_pages_range
alloc_pages_range-take zero l mp e = ground arith
alloc_pages_range-take (suc n) [] mp e = ground (arith, e, get_freefp-nil mp e)
alloc_pages_range-take (suc n) (f ∷ l) mp e =
    let mp' : Memphy = record mp { free_fp_list = l } in
    ground (arith, get_freefp-cons mp f l e, alloc_pages_range-take n l mp' refl)

-- Asking a device for `n` frames takes the first `n` off its free list, in order, and succeeds
-- exactly if there are so many. Otherwise it fails, and still every free frame has been taken.
pub alloc_pages_range_lem :
    (n : ℕ) (mp : Memphy)
    → alloc_pages_range mp n ≡ (
      leb n (length mp.free_fp_list),
      take n mp.free_fp_list,
      record mp { free_fp_list = drop n mp.free_fp_list },
    )
alloc_pages_range_lem n mp = alloc_pages_range-take n mp.free_fp_list mp refl

pub drop_all : (k : ℕ) (l : List ℕ) → length l < k → drop k l ≡ []
drop_all zero l r = absurd (omega arith)
drop_all (suc k) [] r = refl
drop_all (suc k) (x ∷ l) r = drop_all k l (omega arith)

-- An allocation that fails leaks: it returns an error, and no frame is left on the device.
alloc_pages_range_leak :
    (n : ℕ) (mp : Memphy)
    → length mp.free_fp_list < n
    → ((alloc_pages_range mp n).0 ≡ false) × ((alloc_pages_range mp n).2.free_fp_list ≡ [])
alloc_pages_range_leak n mp h =
    rw (alloc_pages_range_lem n mp) (ground arith, drop_all n mp.free_fp_list h)

-- With enough frames `vm_map_ram` takes them, maps them in order and returns 0.
pub vm_map_ram_enough :
    (mm : Mm) (mram : Memphy) (mapstart n : ℕ)
    → n ≤ length mram.free_fp_list
    → vm_map_ram mm mram mapstart n ≡ (
      0,
      (vmap_page_range mm mapstart n (take n mram.free_fp_list)).1,
      record mram { free_fp_list = drop n mram.free_fp_list },
    )
unfolding vm_map_ram
vm_map_ram_enough mm mram mapstart n h =
    let e : leb n (length mram.free_fp_list) ≡ true = ground arith in
    rw (alloc_pages_range_lem n mram, e)

-- Without enough frames it maps nothing and returns -1 as an unsigned number; the frames are gone.
pub vm_map_ram_short :
    (mm : Mm) (mram : Memphy) (mapstart n : ℕ)
    → length mram.free_fp_list < n
    → vm_map_ram mm mram mapstart n
      ≡ (2 ^ 64 - 1, mm, record mram { free_fp_list = drop n mram.free_fp_list })
unfolding vm_map_ram
vm_map_ram_short mm mram mapstart n h =
    let e : leb n (length mram.free_fp_list) ≡ false = ground arith in
    rw (alloc_pages_range_lem n mram, e)
