-- ===== src/FlatTable/Compat.antt =====
-- The entries of the flat table against those of the 64-bit configuration.
use os_assignment_nhom.Base.{
  ℕ, ◌*◌, ◌%◌, ◌^◌, ◌<◌, ◌≡◌, ◌≢◌, refl, ◌∙◌, ap, arith, Bool, true, false, ◌==◌, Bool-cases, inl,
  inr, update, update_self, update_ne,
}
use os_assignment_nhom.Base.Word.{u32, u64}
use os_assignment_nhom.Mm.{Table}
use os_assignment_nhom.Pte.{setval, set_fpn, set_swap, init_pte, fpn_mask, swptyp_mask, swpoff_mask}
use os_assignment_nhom.Pte.Codec.{Online, Swapped, set_fpn-Online, set_swap-Swapped}
use os_assignment_nhom.FlatTable.{
  setval_32, flat_init_pte, flat_pte_set_swap, flat_pte_set_fpn, flat_pte_get_entry,
}

-- A value that does not overflow 32 bits when it is shifted is stored alike.
setval_32-eq :
    (v value mask offst : ℕ)
    → value * 2 ^ offst < 2 ^ 32
    → setval_32 v value mask offst ≡ setval v value mask offst
unfolding setval_32 setval
setval_32-eq v value mask offst h =
    let a : u32 (value * 2 ^ offst) ≡ value * 2 ^ offst = ground (arith, h) in
    let b : u64 (value * 2 ^ offst) ≡ value * 2 ^ offst = ground (arith, h) in rw (a, b) refl

setval_32-swap :
    (v swptyp swpoff : ℕ)
    → swptyp < 2 ^ 32
    → swpoff < 2 ^ 27
    → setval_32 (setval_32 v swptyp swptyp_mask 0) swpoff swpoff_mask 5
      ≡ setval (setval v swptyp swptyp_mask 0) swpoff swpoff_mask 5
setval_32-swap v swptyp swpoff h b =
    setval_32-eq _ swpoff swpoff_mask 5 (omega (arith, b))
    ∙ ap (λ (x : ℕ). setval x swpoff swpoff_mask 5)
        (setval_32-eq v swptyp swptyp_mask 0 (omega (arith, h)))

-- Below 32 bits, `init_pte` makes the same entry in both configurations, or fails in both.
flat_init_pte-eq :
    (v : ℕ) (pre : Bool) (fpn : ℕ) (drt swp : Bool) (swptyp swpoff : ℕ)
    → fpn < 2 ^ 32
    → swptyp < 2 ^ 32
    → swpoff < 2 ^ 27
    → flat_init_pte v pre fpn drt swp swptyp swpoff ≡ init_pte v pre fpn drt swp swptyp swpoff
unfolding flat_init_pte init_pte
flat_init_pte-eq v false fpn drt swp swptyp swpoff f t o = refl
flat_init_pte-eq v true fpn drt true swptyp swpoff f t o =
    rw (setval_32-swap _ swptyp swpoff t o) refl
flat_init_pte-eq v true fpn drt false swptyp swpoff f t o = elim (Bool-cases (fpn == 0)) [
  | inl e ↦ rw e refl
  | inr e ↦ rw (e, setval_32-eq _ fpn fpn_mask 0 (omega (arith, f))) refl
]

flat_pte_set_fpn-eq :
    (pgd : Table) (pgn fpn : ℕ)
    → fpn < 2 ^ 32
    → flat_pte_set_fpn pgd pgn fpn ≡ update pgd pgn (set_fpn (pgd pgn) fpn)
unfolding flat_pte_set_fpn set_fpn
flat_pte_set_fpn-eq pgd pgn fpn f =
    ap (λ (x : ℕ). update pgd pgn x) (setval_32-eq _ fpn fpn_mask 0 (omega (arith, f)))

flat_pte_set_swap-eq :
    (pgd : Table) (pgn swptyp swpoff : ℕ)
    → swptyp < 2 ^ 32
    → swpoff < 2 ^ 27
    → flat_pte_set_swap pgd pgn swptyp swpoff ≡ update pgd pgn (set_swap (pgd pgn) swptyp swpoff)
unfolding flat_pte_set_swap set_swap
flat_pte_set_swap-eq pgd pgn swptyp swpoff t o =
    ap (λ (x : ℕ). update pgd pgn x) (setval_32-swap _ swptyp swpoff t o)

-- The flat page table of the 32-bit configuration holds the entries of the 64-bit one. For a frame
-- and a swap type of 32 bits and a swap offset below 2^27, `init_pte` makes the same entry in both,
-- or fails in both; what `pte_set_fpn` and `pte_set_swap` store in the table for a page is an entry
-- online in the frame's low 13 bits, and one swapped at the offset's low 21 bits, whatever was there
-- before; both leave the entry of any other page, also of one 512 pages apart, as it was. But the
-- deprecated `pte_get_entry` does not look into the table: it returns 0 for the page.
pub flat_table_lem :
    (pgd : Table) (pgn q v : ℕ) (pre : Bool) (fpn : ℕ) (drt swp : Bool) (swptyp swpoff : ℕ)
    → fpn < 2 ^ 32
    → swptyp < 2 ^ 32
    → swpoff < 2 ^ 27
    → q ≢ pgn
    → (flat_init_pte v pre fpn drt swp swptyp swpoff ≡ init_pte v pre fpn drt swp swptyp swpoff)
      × Online (flat_pte_set_fpn pgd pgn fpn pgn) (fpn % 2 ^ 13)
      × Swapped (flat_pte_set_swap pgd pgn swptyp swpoff pgn) swptyp (swpoff % 2 ^ 21)
      × (flat_pte_set_fpn pgd pgn fpn q ≡ pgd q)
      × (flat_pte_set_swap pgd pgn swptyp swpoff q ≡ pgd q)
      × (flat_pte_get_entry (flat_pte_set_fpn pgd pgn fpn) pgn ≡ 0)
unfolding flat_pte_get_entry
flat_table_lem pgd pgn q v pre fpn drt swp swptyp swpoff f t o ne =
    let w = set_fpn (pgd pgn) fpn in
    let x = set_swap (pgd pgn) swptyp swpoff in
    rw (flat_pte_set_fpn-eq pgd pgn fpn f, flat_pte_set_swap-eq pgd pgn swptyp swpoff t o)
      (
        flat_init_pte-eq v pre fpn drt swp swptyp swpoff f t o,
        rw (update_self pgd pgn w) (set_fpn-Online (pgd pgn) fpn),
        rw (update_self pgd pgn x) (set_swap-Swapped (pgd pgn) swptyp swpoff),
        update_ne pgd pgn q w ne,
        update_ne pgd pgn q x ne,
        refl,
      )
