-- ===== src/Mapping/Pages.antt =====
-- Which entries the mapping loop writes.
use os_assignment_nhom.Base.{
  ℕ, zero, suc, ◌+◌, ◌*◌, ◌%◌, ◌^◌, ◌<◌, ◌≤◌, ◌≡◌, ◌≢◌, refl, sym, ◌∙◌, ap, Bool, true, List, [],
  ◌∷◌, ◌++◌, arith, Bool-cases, inl, inr,
}
use mathlib.Core.List.{append_assoc}
use os_assignment_nhom.Base.Word.{u64}
use os_assignment_nhom.Mm.{Mm}
use os_assignment_nhom.Pte.Codec.{Online}
use os_assignment_nhom.PageTable.{pte_get_entry}
use os_assignment_nhom.PageTable.Entry.{pte_get_entry-eq, pte_set_fpn-SameAreas}
use os_assignment_nhom.Memphy.{Memphy}
use os_assignment_nhom.Mapping.{
  alloc_pages_range, vm_map_ram, with_tables, frame_or, next_frames, page_at, map_loop,
  vmap_page_range,
}
use os_assignment_nhom.Mapping.Loop.{
  frame_for, pages_from, mapped, map_loop-suc, map_loop_other, map_loop-Online,
}

-- What the loop keeps, and the pages that it puts in front of the list.
record Kept (n pgit addr : ℕ) (mm : Mm) (r : Bool × Mm) : Type 0 where
  set : r.0 ≡ true
  mmap : r.1.mmap ≡ mm.mmap
  symrgtbl : r.1.symrgtbl ≡ mm.symrgtbl
  fifo_pgn : r.1.fifo_pgn ≡ pages_from n pgit addr ++ mm.fifo_pgn

mapped-fields :
    (pgit addr f : ℕ) (mm : Mm)
    → ((mapped pgit addr f mm).mmap ≡ mm.mmap)
      × ((mapped pgit addr f mm).symrgtbl ≡ mm.symrgtbl)
      × ((mapped pgit addr f mm).fifo_pgn ≡ page_at addr pgit ∷ mm.fifo_pgn)
unfolding mapped
mapped-fields pgit addr f mm =
    let a = pte_set_fpn-SameAreas mm (page_at addr pgit) f in
    (a.mmap, a.symrgtbl, ap (λ (l : List ℕ). page_at addr pgit ∷ l) a.fifo_pgn)

map_loop-Kept :
    (n pgit addr : ℕ) (frames : List ℕ) (mm : Mm)
    → Kept n pgit addr mm (map_loop n pgit addr frames mm)
unfolding map_loop
map_loop-Kept zero pgit addr frames mm = record {
  set = refl;
  mmap = refl;
  symrgtbl = refl;
  fifo_pgn = refl;
}
map_loop-Kept (suc n) pgit addr frames mm =
    let m : Mm = mapped pgit addr (frame_or frames pgit) mm in
    let a = mapped-fields pgit addr (frame_or frames pgit) mm in
    let w : Kept n (suc pgit) addr m (map_loop n (suc pgit) addr (next_frames frames) m) =
      map_loop-Kept n (suc pgit) addr (next_frames frames) m in
    rw (map_loop-suc n pgit addr frames mm) (record {
      set = w.set;
      mmap = w.mmap ∙ a.0;
      symrgtbl = w.symrgtbl ∙ a.1;
      fifo_pgn =
          w.fifo_pgn
          ∙ ap (λ (l : List ℕ). pages_from n (suc pgit) addr ++ l) a.2
          ∙ sym (append_assoc (pages_from n (suc pgit) addr) (page_at addr pgit ∷ []) mm.fifo_pgn);
    })

-- The pages from `base` on, `n` of them, have been mapped to these frames.
pub record Mapped (mm : Mm) (base n : ℕ) (frames : List ℕ) (set : Bool) (mm' : Mm) : Type 0 where
  pub succeeded : set ≡ true
  pub online :
      (k : ℕ) → k < n → Online (pte_get_entry mm' (base + k)) (frame_for k frames k % 2 ^ 13)
  pub others :
      (q : ℕ)
      → ((j : ℕ) → j < n → q % 512 ≢ (base + j) % 512)
      → pte_get_entry mm' q ≡ pte_get_entry mm q
  pub mmap : mm'.mmap ≡ mm.mmap
  pub symrgtbl : mm'.symrgtbl ≡ mm.symrgtbl
  pub fifo_pgn : mm'.fifo_pgn ≡ pages_from n 0 (4096 * base) ++ mm.fifo_pgn

pub with_tables-entry : (mm : Mm) (q : ℕ) → pte_get_entry (with_tables mm) q ≡ pte_get_entry mm q
unfolding with_tables
with_tables-entry mm q = pte_get_entry-eq _ q ∙ sym (pte_get_entry-eq mm q)

-- Mapping at most 512 pages from an aligned address makes every page of the range online, each
-- in the low 13 bits of a frame number of its own in the list (page `k` of the `k`th, or of `k` where
-- the list is shorter; frame 8192 and later ones read as others), changes no entry of a page outside the range modulo 512, touches neither areas nor
-- symbols, and puts the pages in front of the replacement list, the last one first. The reported
-- region is the range.
pub vmap_page_range-Mapped :
    (mm : Mm) (base n : ℕ) (frames : List ℕ)
    → base + n ≤ 2 ^ 52
    → n ≤ 512
    → let (set, mm', rg) = vmap_page_range mm (4096 * base) n frames in
      Mapped mm base n frames set mm'
      × (rg ≡ record { rg_start = 4096 * base; rg_end = u64 (4096 * base + n * 4096) })
unfolding vmap_page_range
vmap_page_range-Mapped mm base n frames b s =
    let t : Mm = with_tables mm in
    let w : Kept n 0 (4096 * base) t (map_loop n 0 (4096 * base) frames t) =
      map_loop-Kept n 0 (4096 * base) frames t in
    (
      record {
        succeeded = w.set;
        online = λ k h.
            (let z : 0 + k ≡ k = omega arith in
              rw z at (map_loop-Online n k 0 base frames t (omega arith) s h));
        others = λ q ne.
            (map_loop_other n 0 base frames t q (omega arith) (λ j lo hi. ne j (omega arith))
              ∙ with_tables-entry mm q);
        mmap = w.mmap;
        symrgtbl = w.symrgtbl;
        fifo_pgn = w.fifo_pgn;
      },
      refl,
    )

vmap_page_range_areas :
    (mm : Mm) (addr n : ℕ) (frames : List ℕ)
    → ((vmap_page_range mm addr n frames).1.mmap ≡ mm.mmap)
      × ((vmap_page_range mm addr n frames).1.symrgtbl ≡ mm.symrgtbl)
unfolding vmap_page_range
vmap_page_range_areas mm addr n frames =
    let w = map_loop-Kept n 0 addr frames (with_tables mm) in (w.mmap, w.symrgtbl)

-- Mapping, whether it succeeds or not, leaves the areas and the symbols of the process alone.
pub vm_map_ram_areas :
    (mm : Mm) (mram : Memphy) (addr n : ℕ)
    → ((vm_map_ram mm mram addr n).1.mmap ≡ mm.mmap)
      × ((vm_map_ram mm mram addr n).1.symrgtbl ≡ mm.symrgtbl)
unfolding vm_map_ram
vm_map_ram_areas mm mram addr n = elim (Bool-cases (alloc_pages_range mram n).0) [
  | inl e ↦ rw e (vmap_page_range_areas mm addr n (alloc_pages_range mram n).1)
  | inr e ↦ rw e (refl, refl)
]
