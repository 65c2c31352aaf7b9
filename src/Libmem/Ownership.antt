-- ===== src/Libmem/Ownership.antt =====
-- A page fault with a free frame, and the access after it, keep every frame with one owner.
use os_assignment_nhom.Base.{
  ℕ, ◌≡◌, refl, ◌∙◌, true, false, not, ◌&&◌, Bool, Option, none, some, List, ◌∷◌, ◌==◌, Bool-cases,
  inl, inr,
}
use os_assignment_nhom.Base.Word.{sign_extend}
use os_assignment_nhom.Mm.{Mm}
use os_assignment_nhom.Memphy.Frames.{get_freefp-cons}
use os_assignment_nhom.Pte.{page_present, page_swapped}
use os_assignment_nhom.PageTable.{pte_get_entry, pte_set_fpn}
use os_assignment_nhom.PageTable.Entry.{pte_get_entry-pt, pte_get_entry-pte_set_fpn}
use os_assignment_nhom.PageTable.Ownership.{Owned, given-Owned}
use os_assignment_nhom.Mapping.{enlist_pgn_node}
use os_assignment_nhom.Kernel.{Krnl, ScRegs, syscall}
use os_assignment_nhom.Kernel.Ownership.{FramesOwned, syscall-FramesOwned, swap_frames}
use os_assignment_nhom.Libmem.{
  get_pgn_offset, get_phyaddr, swap_call, swap_in, bring_online, fault, page_result, pg_getpage,
  byte_result, getval_at, setval_at, pg_getval, pg_setval,
}

-- Bringing a page in from the swap changes no table and no list of the RAM.
swap_in_frames :
    (junk : ℕ → ℕ) (k : Krnl) (pid pte f : ℕ)
    → ((swap_in junk k pid pte f).mm ≡ k.mm)
      × ((swap_in junk k pid pte f).mram.free_fp_list ≡ k.mram.free_fp_list)
unfolding swap_in swap_call
swap_in_frames junk k pid pte f = elim (Bool-cases (not (pte == 0) && page_swapped pte)) [
  | inl e ↦ rw e (swap_frames junk k pid _ f)
  | inr e ↦ rw e (refl, refl)
]

bring_online-FramesOwned :
    (k : Krnl) (pid pgn f : ℕ)
    → Owned k.mm (f ∷ k.mram.free_fp_list)
    → FramesOwned (bring_online k pid pgn f)
unfolding bring_online
bring_online-FramesOwned k pid pgn f w =
    let set : Mm = (pte_set_fpn (k.mm pid) pgn f).1 in
    let mm' : Mm = record set { fifo_pgn = enlist_pgn_node set.fifo_pgn pgn } in
    let e = λ (q : ℕ). pte_get_entry-pte_set_fpn (k.mm pid) pgn f q in
    let t = λ (q : ℕ). pte_get_entry-pt set mm' q refl in
    given-Owned k.mm f k.mram.free_fp_list pid pgn mm' w (rw (t pgn) (e 0).0)
      (λ q ne. t q ∙ (e q).1 ne)

fault-FramesOwned :
    (junk : ℕ → ℕ) (k : Krnl) (pid pgn pte f : ℕ) (l : List ℕ)
    → Owned k.mm (f ∷ l)
    → FramesOwned (fault junk k pid pgn pte (some f, record (k.mram) { free_fp_list = l })).1
unfolding fault
fault-FramesOwned junk k pid pgn pte f l w =
    let k1 : Krnl = record k { mram = record (k.mram) { free_fp_list = l } } in
    let s = swap_in_frames junk k1 pid pte f in
    bring_online-FramesOwned (swap_in junk k1 pid pte f) pid pgn f (rw (s.0, s.1) w)

page_result-krnl : (pid page : ℕ) (ok : Bool) (k : Krnl) → (page_result pid page (ok, k)).1 ≡ k
unfolding page_result
page_result-krnl pid page true k = refl
page_result-krnl pid page false k = refl

pg_getpage-FramesOwned :
    (junk : ℕ → ℕ) (k : Krnl) (pid pgn f : ℕ) (l : List ℕ)
    → k.mram.free_fp_list ≡ f ∷ l
    → FramesOwned k
    → FramesOwned (pg_getpage junk k pid pgn).1
unfolding pg_getpage
pg_getpage-FramesOwned junk k pid pgn f l e w =
    let page : ℕ = sign_extend pgn in
    let pte : ℕ = pte_get_entry (k.mm pid) page in
    elim (Bool-cases (page_present pte)) [
      | inl y ↦ rw (y, page_result-krnl pid page true k) w
      | inr y ↦
          let r = fault junk k pid page pte (some f, record (k.mram) { free_fp_list = l }) in
          rw (y, get_freefp-cons k.mram f l e, page_result-krnl pid page r.0 r.1)
            (fault-FramesOwned junk k pid page pte f l (rw e at w))
    ]

getval_at-FramesOwned :
    (junk : ℕ → ℕ) (f : Option ℕ) (k : Krnl) (pid off : ℕ)
    → FramesOwned k
    → FramesOwned (getval_at junk (f, k) pid off).1
unfolding getval_at byte_result
getval_at-FramesOwned junk none k pid off w = w
getval_at-FramesOwned junk (some f) k pid off w =
    let r : ScRegs = record { a1 = 4; a2 = sign_extend (get_phyaddr f off); a3 = 0 } in
    let s = syscall-FramesOwned junk k pid 17 r w in
    elim (Bool-cases (syscall junk k pid 17 r).0) [ inl e ↦ rw e s | inr e ↦ rw e s ]

setval_at-FramesOwned :
    (junk : ℕ → ℕ) (f : Option ℕ) (k : Krnl) (pid off value : ℕ)
    → FramesOwned k
    → FramesOwned (setval_at junk (f, k) pid off value).1
unfolding setval_at
setval_at-FramesOwned junk none k pid off value w = w
setval_at-FramesOwned junk (some f) k pid off value w = syscall-FramesOwned junk k pid 17 _ w

pub pg_getval-FramesOwned :
    (junk : ℕ → ℕ) (k : Krnl) (pid addr f : ℕ) (l : List ℕ)
    → k.mram.free_fp_list ≡ f ∷ l
    → FramesOwned k
    → FramesOwned (pg_getval junk k pid addr).1
unfolding pg_getval
pg_getval-FramesOwned junk k pid addr f l e w =
    let po = get_pgn_offset addr in
    let r = pg_getpage junk k pid po.0 in
    getval_at-FramesOwned junk r.0 r.1 pid po.1 (pg_getpage-FramesOwned junk k pid po.0 f l e w)

pub pg_setval-FramesOwned :
    (junk : ℕ → ℕ) (k : Krnl) (pid addr value f : ℕ) (l : List ℕ)
    → k.mram.free_fp_list ≡ f ∷ l
    → FramesOwned k
    → FramesOwned (pg_setval junk k pid addr value).1
unfolding pg_setval
pg_setval-FramesOwned junk k pid addr value f l e w =
    let po = get_pgn_offset addr in
    let r = pg_getpage junk k pid po.0 in
    setval_at-FramesOwned junk r.0 r.1 pid po.1 value
      (pg_getpage-FramesOwned junk k pid po.0 f l e w)
