-- ===== src/Libmem/Faults.antt =====
-- Page faults: a free frame, the eviction of a page, and the pages that are swapped out.
use os_assignment_nhom.Base.{
  arith, ℕ, ◌+◌, ◌*◌, ◌%◌, ◌^◌, ◌≡◌, ◌≢◌, ◌∙◌, ap, Bool, true, false, Option, some, List, [], ◌∷◌,
  ◌++◌, update_self,
}
use mathlib.Core.Path.{subst}
use os_assignment_nhom.Base.Word.{sign_extend}
use os_assignment_nhom.Memphy.{Memphy, get_freefp}
use os_assignment_nhom.Memphy.Frames.{get_freefp-nil, get_freefp-cons}
use os_assignment_nhom.Mm.{Mm}
use os_assignment_nhom.Pte.{page_present, page_swapped, paging_fpn}
use os_assignment_nhom.Pte.Codec.{Online, Swapped}
use os_assignment_nhom.PageTable.{pte_get_entry, pte_set_swap}
use os_assignment_nhom.PageTable.Entry.{
  pte_get_entry-pt, pte_get_entry-pte_set_swap, pte_set_swap-SameAreas,
}
use os_assignment_nhom.Queue.{Proc}
use os_assignment_nhom.Sched.{find_process_by_pid}
use os_assignment_nhom.Vm.{mm_swap_page}
use os_assignment_nhom.Region.{find_victim_page}
use os_assignment_nhom.Region.Cover.{find_victim_page_oldest}
use os_assignment_nhom.Kernel.{Krnl, ScRegs}
use os_assignment_nhom.Kernel.Memmap.{syscall_swap}
use os_assignment_nhom.Libmem.{
  with_mm, with_mm, swap_call, bring_online, evict_to, evict, fault, page_result, pg_getpage,
}
use os_assignment_nhom.Libmem.Bytes.{pg_getpage_present}
use os_assignment_nhom.Libmem.Online.{
  bring_online-BroughtOnline, swap_in_unswapped, pg_getpage-fault,
}

-- The state once the victim `v` has gone to swap frame `s`: its frame is copied to the swap, and its
-- entry says so.
abbrev pub swapped_out : (ℕ → ℕ) → Krnl → ℕ → ℕ → ℕ → Memphy → Krnl
swapped_out junk k pid v s mswp =
    let f : ℕ = paging_fpn (pte_get_entry (k.mm pid) v) in
    with_mm
      (record k {
        mram = (mm_swap_page junk k.mram mswp f s).0;
        active_mswp = (mm_swap_page junk k.mram mswp f s).1;
      })
      pid (pte_set_swap (k.mm pid) v 0 s).1

swap_call-eq :
    (junk : ℕ → ℕ) (k : Krnl) (pid a b : ℕ) (p : Proc)
    → find_process_by_pid k.sched pid ≡ some p
    → swap_call junk k pid a b ≡ record k {
      mram = (mm_swap_page junk k.mram k.active_mswp a b).0;
      active_mswp = (mm_swap_page junk k.mram k.active_mswp a b).1;
    }
unfolding swap_call
swap_call-eq junk k pid a b p e =
    ap (λ (r : Bool × ScRegs × Krnl). r.2) (syscall_swap junk k pid a b p e)

evict_to-swapped_out :
    (junk : ℕ → ℕ) (k : Krnl) (pid page pte v s : ℕ) (mswp : Memphy) (p : Proc)
    → find_process_by_pid k.sched pid ≡ some p
    → page_swapped pte ≡ false
    → evict_to junk k pid page pte v (some s, mswp) ≡ (
      true,
      bring_online
          (swapped_out junk k pid v s mswp)
          pid
          page
          (paging_fpn (pte_get_entry (k.mm pid) v)),
    )
unfolding evict_to
evict_to-swapped_out junk k pid page pte v s mswp p e u =
    let f : ℕ = paging_fpn (pte_get_entry (k.mm pid) v) in
    let c = swap_call-eq junk (record k { active_mswp = mswp }) pid f s p e in
    let w = swap_in_unswapped junk (swapped_out junk k pid v s mswp) pid pte f u in rw (c, w)

-- What an eviction leaves: the page in the victim's frame `f`, the victim marked as swapped out to
-- `s`, the page in front of the victims left, and the frame copied by `__mm_swap_page`.
pub record Evicted (junk : ℕ → ℕ) (ram : Memphy) (pid page v f s : ℕ) (l : List ℕ) (mswp : Memphy)
    (k' : Krnl) : Type 0 where
  pub online : Online (pte_get_entry (k'.mm pid) page) (f % 2 ^ 13)
  pub victim : Swapped (pte_get_entry (k'.mm pid) v) 0 (s % 2 ^ 21)
  pub fifo_pgn : (k'.mm pid).fifo_pgn ≡ page ∷ l
  pub mram : k'.mram ≡ (mm_swap_page junk ram mswp f s).0
  pub active_mswp : k'.active_mswp ≡ (mm_swap_page junk ram mswp f s).1

Evicted-swapped_out :
    (junk : ℕ → ℕ) (k : Krnl) (pid page v f s : ℕ) (l : List ℕ) (mswp : Memphy)
    → paging_fpn (pte_get_entry (k.mm pid) v) ≡ f
    → (k.mm pid).fifo_pgn ≡ l
    → v % 512 ≢ page % 512
    → Evicted junk k.mram pid page v f s l mswp (
        bring_online
          (swapped_out junk k pid v s mswp)
          pid
          page
          (paging_fpn (pte_get_entry (k.mm pid) v)))
Evicted-swapped_out junk k pid page v f s l mswp h e ne =
    let g : ℕ = paging_fpn (pte_get_entry (k.mm pid) v) in
    let k3 : Krnl = swapped_out junk k pid v s mswp in
    let k4 : Krnl = bring_online k3 pid page g in
    let m : Mm = (pte_set_swap (k.mm pid) v 0 s).1 in
    let here : k3.mm pid ≡ m = update_self k.mm pid m in
    let b = bring_online-BroughtOnline k3 pid page g in
    let w = pte_get_entry-pte_set_swap (k.mm pid) v 0 s v in
    record {
      online = subst (λ x. Online (pte_get_entry (k4.mm pid) page) (x % 2 ^ 13)) h b.online;
      victim = rw (b.others v ne, here) w.0;
      fifo_pgn =
          b.fifo_pgn
          ∙ ap (λ (x : List ℕ). page ∷ x)
              (ap (λ (x : Mm). x.fifo_pgn) here
                ∙ (pte_set_swap-SameAreas (k.mm pid) v 0 s).fifo_pgn
                ∙ e);
      mram = b.mram ∙ ap (λ (x : ℕ). (mm_swap_page junk k.mram mswp x s).0) h;
      active_mswp = b.active_mswp ∙ ap (λ (x : ℕ). (mm_swap_page junk k.mram mswp x s).1) h;
    }

-- With no free frame in the RAM, a page that is neither present nor swapped out takes over the
-- frame `f` of the oldest page `v` of the replacement list, given a free swap frame `s` and that
-- the two pages have different entries. The access returns the frame's low 13 bits, where the page
-- is online; the victim's entry is marked as swapped out to `s`; the page goes to the front of the
-- list and the victim leaves it; and the devices are those after `__mm_swap_page` of `f` and `s`,
-- with `s` taken off the swap's free list.
pub pg_getpage_evicts :
    (junk : ℕ → ℕ) (k : Krnl) (pid pgn v s : ℕ) (l ss : List ℕ) (p : Proc)
    → find_process_by_pid k.sched pid ≡ some p
    → page_present (pte_get_entry (k.mm pid) (sign_extend pgn)) ≡ false
    → page_swapped (pte_get_entry (k.mm pid) (sign_extend pgn)) ≡ false
    → k.mram.free_fp_list ≡ []
    → (k.mm pid).fifo_pgn ≡ l ++ (v ∷ [])
    → k.active_mswp.free_fp_list ≡ s ∷ ss
    → v % 512 ≢ sign_extend pgn % 512
    → let (fpn, k') = pg_getpage junk k pid pgn in
      let f : ℕ = paging_fpn (pte_get_entry (k.mm pid) v) in
      (fpn ≡ some (f % 2 ^ 13))
      × Evicted junk k.mram pid
          (sign_extend pgn)
          v
          f
          s
          l
          (record (k.active_mswp) { free_fp_list = ss })
          k'
unfolding fault evict page_result
pg_getpage_evicts junk k pid pgn v s l ss p known absent unswapped full fifo free ne =
    let page : ℕ = sign_extend pgn in
    let mswp : Memphy = record (k.active_mswp) { free_fp_list = ss } in
    let m1 : Mm = record (k.mm pid) { fifo_pgn = l } in
    let k1 : Krnl = with_mm k pid m1 in
    let here : k1.mm pid ≡ m1 = update_self k.mm pid m1 in
    let same : pte_get_entry (k1.mm pid) v ≡ pte_get_entry (k.mm pid) v =
      pte_get_entry-pt (k.mm pid) (k1.mm pid) v (ap (λ (x : Mm). x.pt) here) in
    let e =
      evict_to-swapped_out junk k1 pid page (pte_get_entry (k.mm pid) page) v s mswp p known
        unswapped in
    let w =
      Evicted-swapped_out junk k1 pid page v _ s l mswp (ap (λ (x : ℕ). paging_fpn x) same)
        (ap (λ (x : Mm). x.fifo_pgn) here) ne in
    let vic : find_victim_page (k.mm pid).fifo_pgn ≡ some (v, l) =
      rw fifo (find_victim_page_oldest l v) in
    let pte : ℕ = pte_get_entry (k.mm pid) page in
    let faults : fault junk k pid page pte (get_freefp k.mram)
        ≡ evict_to junk k1 pid page pte v (some s, mswp) =
      ap (λ (x : Option ℕ × Memphy). fault junk k pid page pte x) (get_freefp-nil k.mram full)
      ∙ ap (λ (x : Option (ℕ × List ℕ)). evict junk k pid page pte x) vic
      ∙ ap (λ (x : Option ℕ × Memphy). evict_to junk k1 pid page pte v x)
          (get_freefp-cons k.active_mswp s ss free) in
    rw (pg_getpage-fault junk k pid pgn absent, faults ∙ e)
      (ap (λ (x : ℕ). some x) w.online.frame, w)

-- A page that has been swapped out is never brought back: whatever its entry was, once
-- `pte_set_swap` has marked it swapped an access takes it for a page that is present, changes
-- nothing, and returns bits of the swap offset and type as its frame.
pub pg_getpage-pte_set_swap :
    (junk : ℕ → ℕ) (k : Krnl) (pid pgn swptyp swpoff : ℕ)
    → let k' = with_mm k pid (pte_set_swap (k.mm pid) (sign_extend pgn) swptyp swpoff).1 in
      pg_getpage junk k' pid pgn ≡ (some (swpoff % 2 ^ 8 * 2 ^ 5 + swptyp % 2 ^ 5), k')
pg_getpage-pte_set_swap junk k pid pgn swptyp swpoff =
    let mm' : Mm = (pte_set_swap (k.mm pid) (sign_extend pgn) swptyp swpoff).1 in
    let k' : Krnl = with_mm k pid mm' in
    let here : k'.mm pid ≡ mm' = update_self k.mm pid mm' in
    let w = (pte_get_entry-pte_set_swap (k.mm pid) (sign_extend pgn) swptyp swpoff 0).0 in
    let f = w.frame ∙ omega arith in
    pg_getpage_present junk k' pid pgn (rw here w.present)
    ∙ ap (λ (x : ℕ). (some x, k')) (rw here f)
