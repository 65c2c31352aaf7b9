-- ===== src/Libmem/Teardown.antt =====
-- ossim_lamiaatrium/src/libmem.c: `free_pcb_memph`, which nothing calls.
use os_assignment_nhom.Base.{
  ℕ, zero, suc, ◌<◌, ◌≡◌, refl, ap, ◌∙◌, arith, false, Option, none, some, ltb, if◌then◌else◌,
  Bool-cases, inl, inr,
}
use os_assignment_nhom.Base.Word.{u32}
use os_assignment_nhom.Memphy.{put_freefp}
use os_assignment_nhom.Mm.{Table}
use os_assignment_nhom.Pte.{page_present, paging_fpn, paging_swp}
use os_assignment_nhom.Pte.Fields.{page_present-eq}
use os_assignment_nhom.Kernel.{Krnl}

-- `mm->pgd[pagenum]` as a `uint32_t`: `beyond` is what lies behind the 512 entries, or is found at a
-- NULL table.
pub pgd_entry : (ℕ → ℕ) → Option Table → ℕ → ℕ
pgd_entry beyond none pagenum = u32 (beyond pagenum)
pgd_entry beyond (some t) pagenum = u32 (if ltb pagenum 512 then t pagenum else beyond pagenum)

-- What the loop does for one entry.
unfoldable pub give_back : Krnl → ℕ → Krnl
give_back k pte =
    if page_present pte
    then record k { mram = put_freefp k.mram (paging_fpn pte) }
    else record k { active_mswp = put_freefp k.active_mswp (paging_swp pte) }

-- The loop, with the rounds that are left.
pub free_loop : (ℕ → ℕ) → Option Table → ℕ → ℕ → Krnl → Krnl
unfolding pgd_entry give_back
free_loop beyond pgd zero pagenum k = k
free_loop beyond pgd (suc n) pagenum k =
    free_loop beyond pgd n (suc pagenum) (give_back k (pgd_entry beyond pgd pagenum))

-- PAGING_MAX_PGN: the 2^22 addresses of the bus by pages of 256.
abbrev pub max_pgn : ℕ
max_pgn = 16384

pub free_pcb_memph : (ℕ → ℕ) → Krnl → ℕ → Krnl
free_pcb_memph beyond k pid = free_loop beyond (k.mm pid).pgd max_pgn 0 k

free_loop-mram :
    (beyond : ℕ → ℕ) (t : Table) (n pagenum : ℕ) (k : Krnl)
    → ((i : ℕ) → i < 512 → t i ≡ 0)
    → ((i : ℕ) → beyond i ≡ 0)
    → (free_loop beyond (some t) n pagenum k).mram ≡ k.mram
unfolding free_loop pgd_entry give_back
free_loop-mram beyond t zero pagenum k h b = refl
free_loop-mram beyond t (suc n) pagenum k h b =
    free_loop-mram beyond t n (suc pagenum) _ h b
    ∙ kept (pgd_entry beyond (some t) pagenum) zero_entry
  where
    zero_entry : pgd_entry beyond (some t) pagenum ≡ 0
    zero_entry = elim (Bool-cases (ltb pagenum 512)) [
      | inl e ↦ rw (e, h pagenum (ground arith)) refl
      | inr e ↦ rw (e, b pagenum) refl
    ]

    kept : (pte : ℕ) → pte ≡ 0 → (give_back k pte).mram ≡ k.mram
    kept pte e = let z : page_present 0 ≡ false = page_present-eq 0 in rw (e, z) refl

-- The walk reads the first directory and not the page table: where the entries of the directory are
-- zero no frame of the RAM is given back, whatever pages of the process are resident.
free_pcb_memph-mram :
    (beyond : ℕ → ℕ) (k : Krnl) (pid : ℕ) (t : Table)
    → (k.mm pid).pgd ≡ some t
    → ((i : ℕ) → i < 512 → t i ≡ 0)
    → ((i : ℕ) → beyond i ≡ 0)
    → (free_pcb_memph beyond k pid).mram ≡ k.mram
unfolding free_pcb_memph
free_pcb_memph-mram beyond k pid t e h b =
    ap (λ (d : Option Table). (free_loop beyond d max_pgn 0 k).mram) e
    ∙ free_loop-mram beyond t max_pgn 0 k h b
