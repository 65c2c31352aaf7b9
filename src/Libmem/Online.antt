-- ===== src/Libmem/Online.antt =====
-- Page faults with a free frame.
use os_assignment_nhom.Base.{
  ℕ, ◌%◌, ◌^◌, ◌≡◌, ◌≢◌, refl, ap, false, some, List, ◌∷◌, ◌==◌, update, update_self, Bool-cases,
  inl, inr,
}
use os_assignment_nhom.Base.Word.{sign_extend}
use os_assignment_nhom.Memphy.{get_freefp}
use os_assignment_nhom.Memphy.Frames.{get_freefp-cons}
use os_assignment_nhom.Mm.{Mm}
use os_assignment_nhom.Mapping.{enlist_pgn_node}
use os_assignment_nhom.Pte.{page_present, page_swapped}
use os_assignment_nhom.Pte.Codec.{Online}
use os_assignment_nhom.PageTable.{pte_get_entry, pte_set_fpn}
use os_assignment_nhom.PageTable.Entry.{
  pte_get_entry-pt, pte_get_entry-pte_set_fpn, pte_set_fpn-SameAreas,
}
use os_assignment_nhom.Kernel.{Krnl}
use os_assignment_nhom.Libmem.{swap_in, bring_online, fault, page_result, pg_getpage}

-- The page is online in frame `f`, at the front of the replacement list; the other pages' entries
-- and all else of the state are as in `k`.
pub record BroughtOnline (k : Krnl) (pid page f : ℕ) (k' : Krnl) : Type 0 where
  pub online : Online (pte_get_entry (k'.mm pid) page) (f % 2 ^ 13)
  pub others :
      (q : ℕ) → q % 512 ≢ page % 512 → pte_get_entry (k'.mm pid) q ≡ pte_get_entry (k.mm pid) q
  pub fifo_pgn : (k'.mm pid).fifo_pgn ≡ page ∷ (k.mm pid).fifo_pgn
  pub sched : k'.sched ≡ k.sched
  pub mram : k'.mram ≡ k.mram
  pub active_mswp : k'.active_mswp ≡ k.active_mswp

pub bring_online-BroughtOnline :
    (k : Krnl) (pid page f : ℕ) → BroughtOnline k pid page f (bring_online k pid page f)
unfolding bring_online enlist_pgn_node
bring_online-BroughtOnline k pid page f =
    let mm : Mm = (pte_set_fpn (k.mm pid) page f).1 in
    let m' : Mm = record mm { fifo_pgn = enlist_pgn_node mm.fifo_pgn page } in
    let here : update k.mm pid m' pid ≡ m' = update_self k.mm pid m' in
    let a = pte_set_fpn-SameAreas (k.mm pid) page f in
    record {
      online =
          rw (here, pte_get_entry-pt mm m' page refl)
            (pte_get_entry-pte_set_fpn (k.mm pid) page f page).0;
      others = λ q ne.
          rw (here, pte_get_entry-pt mm m' q refl)
            ((pte_get_entry-pte_set_fpn (k.mm pid) page f q).1 ne);
      fifo_pgn = rw here (ap (λ (l : List ℕ). page ∷ l) a.fifo_pgn);
      sched = refl;
      mram = refl;
      active_mswp = refl;
    }

pub swap_in_unswapped :
    (junk : ℕ → ℕ) (k : Krnl) (pid pte f : ℕ)
    → page_swapped pte ≡ false
    → swap_in junk k pid pte f ≡ k
unfolding swap_in
swap_in_unswapped junk k pid pte f h = elim (Bool-cases (pte == 0)) [
  | inl z ↦ rw z
  | inr z ↦ rw (z, h)
]

pub pg_getpage-fault :
    (junk : ℕ → ℕ) (k : Krnl) (pid pgn : ℕ)
    → page_present (pte_get_entry (k.mm pid) (sign_extend pgn)) ≡ false
    → pg_getpage junk k pid pgn
      ≡ page_result pid (sign_extend pgn) (
          fault junk k pid
            (sign_extend pgn)
            (pte_get_entry (k.mm pid) (sign_extend pgn))
            (get_freefp k.mram))
unfolding pg_getpage
pg_getpage-fault junk k pid pgn h = rw h

-- A page that is neither present nor swapped out gets the first free frame of the RAM, if there is
-- one: the access returns the frame's low 13 bits, the page is online there and joins the front
-- of the replacement list, and only that frame leaves the free list.
pub pg_getpage_free_frame :
    (junk : ℕ → ℕ) (k : Krnl) (pid pgn f : ℕ) (l : List ℕ)
    → page_present (pte_get_entry (k.mm pid) (sign_extend pgn)) ≡ false
    → page_swapped (pte_get_entry (k.mm pid) (sign_extend pgn)) ≡ false
    → k.mram.free_fp_list ≡ f ∷ l
    → let (fpn, k') = pg_getpage junk k pid pgn in
      (fpn ≡ some (f % 2 ^ 13))
      × BroughtOnline
          (record k { mram = record (k.mram) { free_fp_list = l } })
          pid
          (sign_extend pgn)
          f
          k'
unfolding pg_getpage fault page_result
pg_getpage_free_frame junk k pid pgn f l absent unswapped free =
    let page : ℕ = sign_extend pgn in
    let k1 : Krnl = record k { mram = record (k.mram) { free_fp_list = l } } in
    let s = swap_in_unswapped junk k1 pid (pte_get_entry (k.mm pid) page) f unswapped in
    let b = bring_online-BroughtOnline k1 pid page f in
    rw (absent, get_freefp-cons k.mram f l free, s) (ap (λ (x : ℕ). some x) b.online.frame, b)
