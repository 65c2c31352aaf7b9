-- ===== src/PageTable/Entry.antt =====
-- Storing and reading the entries of a process's page table.
use os_assignment_nhom.Base.{
  ℕ, ◌+◌, ◌*◌, ◌%◌, ◌^◌, ◌≡◌, ◌≢◌, refl, sym, ◌∙◌, arith, true, some, update,
}
use os_assignment_nhom.Base.Word.{u32}
use os_assignment_nhom.Mm.{Mm}
use os_assignment_nhom.Pte.{set_fpn, set_swap}
use os_assignment_nhom.Pte.Codec.{Online, Swapped, set_fpn-Online, set_swap-Swapped}
use os_assignment_nhom.PageTable.{table_of, pte_set_swap, pte_set_fpn, pte_get_entry}
use os_assignment_nhom.PageTable.Index.{get_pd_from_pagenum-pt}

-- The stored 64-bit entry of a page, 0 where there is no table yet.
abbrev pub stored : Mm → ℕ → ℕ
stored mm pgn = table_of mm.pt (pgn % 512)

-- Reading an entry gives the low 32 bits of what is stored for the page number modulo 512.
pub pte_get_entry-eq : (mm : Mm) (pgn : ℕ) → pte_get_entry mm pgn ≡ u32 (stored mm pgn)
unfolding pte_get_entry
pte_get_entry-eq mm pgn = ground (arith, get_pd_from_pagenum-pt pgn)

-- Only the last table counts.
pub pte_get_entry-pt :
    (mm mm' : Mm) (q : ℕ) → mm'.pt ≡ mm.pt → pte_get_entry mm' q ≡ pte_get_entry mm q
pte_get_entry-pt mm mm' q e = pte_get_entry-eq mm' q ∙ rw e (sym (pte_get_entry-eq mm q))

pub pte_set_fpn-pt :
    (mm : Mm) (pgn fpn : ℕ)
    → ((pte_set_fpn mm pgn fpn).0 ≡ true)
      × ((pte_set_fpn mm pgn fpn).1.pt
          ≡ some (update (table_of mm.pt) (pgn % 512) (set_fpn (stored mm pgn) fpn)))
unfolding pte_set_fpn
pte_set_fpn-pt mm pgn fpn = let i = get_pd_from_pagenum-pt pgn in rw (i.0, i.1) (refl, refl)

pte_set_swap-pt :
    (mm : Mm) (pgn swptyp swpoff : ℕ)
    → ((pte_set_swap mm pgn swptyp swpoff).0 ≡ true)
      × ((pte_set_swap mm pgn swptyp swpoff).1.pt
          ≡ some (update (table_of mm.pt) (pgn % 512) (set_swap (stored mm pgn) swptyp swpoff)))
unfolding pte_set_swap
pte_set_swap-pt mm pgn swptyp swpoff =
    let i = get_pd_from_pagenum-pt pgn in rw (i.0, i.1) (refl, refl)

-- Neither touches the areas, the symbol table or the list of pages.
pub record SameAreas (mm mm' : Mm) : Type 0 where
  pub mmap : mm'.mmap ≡ mm.mmap
  pub symrgtbl : mm'.symrgtbl ≡ mm.symrgtbl
  pub fifo_pgn : mm'.fifo_pgn ≡ mm.fifo_pgn

pub pte_set_fpn-SameAreas : (mm : Mm) (pgn fpn : ℕ) → SameAreas mm (pte_set_fpn mm pgn fpn).1
unfolding pte_set_fpn
pte_set_fpn-SameAreas mm pgn fpn =
    let i = get_pd_from_pagenum-pt pgn in
    rw i.0 (record { mmap = refl; symrgtbl = refl; fifo_pgn = refl })

pub pte_set_swap-SameAreas :
    (mm : Mm) (pgn swptyp swpoff : ℕ) → SameAreas mm (pte_set_swap mm pgn swptyp swpoff).1
unfolding pte_set_swap
pte_set_swap-SameAreas mm pgn swptyp swpoff =
    let i = get_pd_from_pagenum-pt pgn in
    rw i.0 (record { mmap = refl; symrgtbl = refl; fifo_pgn = refl })

-- After a page is put online its entry reads as online with the low 13 bits of the frame (so a frame
-- from 8192 on reads as another one); the entry of a page with
-- another number modulo 512 reads as before.
pub pte_get_entry-pte_set_fpn :
    (mm : Mm) (pgn fpn q : ℕ)
    → let mm' = (pte_set_fpn mm pgn fpn).1 in
      Online (pte_get_entry mm' pgn) (fpn % 2 ^ 13)
      × (q % 512 ≢ pgn % 512 → pte_get_entry mm' q ≡ pte_get_entry mm q)
pte_get_entry-pte_set_fpn mm pgn fpn q =
    let mm' : Mm = (pte_set_fpn mm pgn fpn).1 in
    let e = (pte_set_fpn-pt mm pgn fpn).1 in
    let w = set_fpn-Online (stored mm pgn) fpn in
    let here : pte_get_entry mm' pgn ≡ set_fpn (stored mm pgn) fpn =
      pte_get_entry-eq mm' pgn ∙ rw e (ground (arith, w.word)) in
    (rw here w, λ ne. pte_get_entry-eq mm' q ∙ rw e (ground (arith, pte_get_entry-eq mm q)))

-- After a page is swapped out its entry reads as swapped at the offset, and as present; the entry
-- of a page with another number modulo 512 reads as before.
pub pte_get_entry-pte_set_swap :
    (mm : Mm) (pgn swptyp swpoff q : ℕ)
    → let mm' = (pte_set_swap mm pgn swptyp swpoff).1 in
      Swapped (pte_get_entry mm' pgn) swptyp (swpoff % 2 ^ 21)
      × (q % 512 ≢ pgn % 512 → pte_get_entry mm' q ≡ pte_get_entry mm q)
pte_get_entry-pte_set_swap mm pgn swptyp swpoff q =
    let mm' : Mm = (pte_set_swap mm pgn swptyp swpoff).1 in
    let e = (pte_set_swap-pt mm pgn swptyp swpoff).1 in
    let w = set_swap-Swapped (stored mm pgn) swptyp swpoff in
    let here : pte_get_entry mm' pgn ≡ set_swap (stored mm pgn) swptyp swpoff =
      pte_get_entry-eq mm' pgn ∙ rw e (ground (arith, w.word)) in
    (rw here w, λ ne. pte_get_entry-eq mm' q ∙ rw e (ground (arith, pte_get_entry-eq mm q)))

-- Only the number modulo 512 counts: pages 512 apart share one entry in any state.
pub pte_get_entry_alias :
    (mm : Mm) (pgn k : ℕ) → pte_get_entry mm (pgn + 512 * k) ≡ pte_get_entry mm pgn
pte_get_entry_alias mm pgn k =
    let m : (pgn + 512 * k) % 512 ≡ pgn % 512 = omega arith in
    pte_get_entry-eq mm (pgn + 512 * k) ∙ rw m (sym (pte_get_entry-eq mm pgn))
