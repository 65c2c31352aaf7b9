-- ===== src/Pte/Codec.antt =====
-- What the stored entries say when they are read back.
use os_assignment_nhom.Base.{
  ℕ, ◌+◌, ◌*◌, ◌/◌, ◌%◌, ◌^◌, ◌<◌, ◌≡◌, refl, ◌∙◌, arith, Bool, true, false, Option, none, some,
  ◌≢◌, ◌⊎◌, inl, inr, ◌==◌, Bool-cases,
}
use os_assignment_nhom.Pte.{
  setbit, clrbit, setval, page_present, page_swapped, paging_fpn, paging_swp, present_mask,
  swapped_mask, dirty_mask, fpn_mask, swptyp_mask, swpoff_mask, set_fpn, set_swap, init_pte,
}
use os_assignment_nhom.Pte.Fields.{
  setbit-present, setbit-swapped, clrbit-swapped, clrbit-dirty, setval-fpn, setval-swptyp,
  setval-swpoff, paging_fpn-eq, paging_swp-eq, page_present-eq, page_swapped-eq,
}

-- An entry of an online page: present, not swapped, with this frame number; a 32-bit word.
pub record Online (pte fpn : ℕ) : Type 0 where
  pub present : page_present pte ≡ true
  pub unswapped : page_swapped pte ≡ false
  pub frame : paging_fpn pte ≡ fpn
  pub word : pte < 2 ^ 32

-- An entry of a swapped page: marked swapped, with this swap frame, and a 32-bit word. It is
-- marked present as well, and its frame number reads as bits of the swap type and offset.
pub record Swapped (pte swptyp swpoff : ℕ) : Type 0 where
  pub present : page_present pte ≡ true
  pub swapped : page_swapped pte ≡ true
  pub offset : paging_swp pte ≡ swpoff
  pub frame : paging_fpn pte ≡ swpoff % 2 ^ 8 * 2 ^ 5 + swptyp % 2 ^ 5
  pub word : pte < 2 ^ 32

Online-of_fields :
    (pte fpn : ℕ) → pte / 2 ^ 31 ≡ 1 → pte / 2 ^ 30 % 2 ≡ 0 → pte % 2 ^ 13 ≡ fpn → Online pte fpn
Online-of_fields pte fpn p s f = record {
  present = page_present-eq pte ∙ ground arith;
  unswapped = page_swapped-eq pte ∙ ground arith;
  frame = paging_fpn-eq pte ∙ f;
  word = omega arith;
}

Swapped-of_fields :
    (pte swptyp swpoff : ℕ)
    → pte / 2 ^ 30 ≡ 3
    → pte / 2 ^ 5 % 2 ^ 21 ≡ swpoff
    → pte % 2 ^ 5 ≡ swptyp % 2 ^ 5
    → Swapped pte swptyp swpoff
Swapped-of_fields pte swptyp swpoff s o t = record {
  present = page_present-eq pte ∙ ground arith;
  swapped = page_swapped-eq pte ∙ ground arith;
  offset = paging_swp-eq pte ∙ o;
  frame = paging_fpn-eq pte ∙ omega arith;
  word = omega arith;
}

-- After `pte_set_fpn` the entry is online with the frame number's low 13 bits, whatever it was
-- before.
pub set_fpn-Online : (v fpn : ℕ) → Online (set_fpn v fpn) (fpn % 2 ^ 13)
unfolding set_fpn
set_fpn-Online v fpn =
    let a : ℕ = setbit v present_mask in
    let b : ℕ = clrbit a swapped_mask in
    let ea = setbit-present v in
    let eb = clrbit-swapped a in
    let ec = setval-fpn b fpn in
    Online-of_fields _ _ (omega (arith, ea, eb, ec)) (omega (arith, ea, eb, ec)) (omega (arith, ec))

-- After `pte_set_swap` the entry is swapped at the offset's low 21 bits, whatever it was before.
pub set_swap-Swapped :
    (v swptyp swpoff : ℕ) → Swapped (set_swap v swptyp swpoff) swptyp (swpoff % 2 ^ 21)
unfolding set_swap
set_swap-Swapped v swptyp swpoff =
    let a : ℕ = setbit v present_mask in
    let b : ℕ = setbit a swapped_mask in
    let c : ℕ = setval b swptyp swptyp_mask 0 in
    let ea = setbit-present v in
    let eb = setbit-swapped a in
    let ec = setval-swptyp b swptyp in
    let ed = setval-swpoff c swpoff in
    let fa : a / 2 ^ 31 % 2 ≡ 1 = omega (arith, ea) in
    let fb : b / 2 ^ 30 % 4 ≡ 3 = omega (arith, eb, fa) in
    let fc : c / 2 ^ 30 % 4 ≡ 3 = omega (arith, ec, fb) in
    Swapped-of_fields _ _ _ (omega (arith, ed, fc)) (omega (arith, ed)) (omega (arith, ec, ed))

-- What `init_pte` is to make of the entry `v`: nothing if the page is not present; an online entry,
-- or the error for frame 0, if it is present and not swapped; a swapped entry otherwise.
abbrev Initialised : Bool → Bool → ℕ → ℕ → ℕ → ℕ → Option ℕ → Type 0
Initialised false swp fpn swptyp swpoff v r = r ≡ some v
Initialised true false fpn swptyp swpoff v r =
    (fpn ≡ 0) × (r ≡ none) ⊎ (fpn ≢ 0) × ((e : ℕ) × (r ≡ some e) × Online e (fpn % 2 ^ 13))
Initialised true true fpn swptyp swpoff v r =
    (e : ℕ) × (r ≡ some e) × Swapped e swptyp (swpoff % 2 ^ 21)

Online-clean :
    (v fpn : ℕ)
    → Online
        (setval (clrbit (clrbit (setbit v present_mask) swapped_mask) dirty_mask) fpn fpn_mask 0)
        (fpn % 2 ^ 13)
Online-clean v fpn =
    let a : ℕ = setbit v present_mask in
    let b : ℕ = clrbit a swapped_mask in
    let d : ℕ = clrbit b dirty_mask in
    let ea = setbit-present v in
    let eb = clrbit-swapped a in
    let ed = clrbit-dirty b in
    let ec = setval-fpn d fpn in
    let fa : a / 2 ^ 31 % 2 ≡ 1 = omega (arith, ea) in
    let fb : b / 2 ^ 30 ≡ 2 = omega (arith, eb, fa) in
    let fd : d / 2 ^ 30 ≡ 2 = omega (arith, ed, fb) in
    Online-of_fields _ _ (omega (arith, ec, fd)) (omega (arith, ec, fd)) (omega (arith, ec))

Swapped-clean :
    (v swptyp swpoff : ℕ)
    → Swapped
        (setval
          (setval
            (clrbit (setbit (setbit v present_mask) swapped_mask) dirty_mask)
            swptyp
            swptyp_mask
            0)
          swpoff
          swpoff_mask
          5)
        swptyp
        (swpoff % 2 ^ 21)
Swapped-clean v swptyp swpoff =
    let a : ℕ = setbit v present_mask in
    let b : ℕ = setbit a swapped_mask in
    let d : ℕ = clrbit b dirty_mask in
    let c : ℕ = setval d swptyp swptyp_mask 0 in
    let ea = setbit-present v in
    let eb = setbit-swapped a in
    let ef = clrbit-dirty b in
    let ec = setval-swptyp d swptyp in
    let ed = setval-swpoff c swpoff in
    let fa : a / 2 ^ 31 % 2 ≡ 1 = omega (arith, ea) in
    let fb : b / 2 ^ 30 % 4 ≡ 3 = omega (arith, eb, fa) in
    let ff : d / 2 ^ 30 % 4 ≡ 3 = omega (arith, ef, fb) in
    let fc : c / 2 ^ 30 % 4 ≡ 3 = omega (arith, ec, ff) in
    Swapped-of_fields _ _ _ (omega (arith, ed, fc)) (omega (arith, ed)) (omega (arith, ec, ed))

-- `init_pte` on every branch: of a page that is not present the entry stays as it is; a present one
-- that is not swapped is refused for frame 0 and else reads as online with the low 13 bits of the
-- frame number; a swapped one reads as swapped at the low 21 bits of the offset.
init_pte-Initialised :
    (v : ℕ) (pre : Bool) (fpn : ℕ) (drt swp : Bool) (swptyp swpoff : ℕ)
    → Initialised pre swp fpn swptyp swpoff v (init_pte v pre fpn drt swp swptyp swpoff)
unfolding init_pte
init_pte-Initialised v false fpn drt swp swptyp swpoff = refl
init_pte-Initialised v true fpn drt false swptyp swpoff = elim (Bool-cases (fpn == 0)) [
  | inl z ↦ inl (ground arith, rw z)
  | inr z ↦ inr (ground arith, (_, rw z, Online-clean v fpn))
]
init_pte-Initialised v true fpn drt true swptyp swpoff = (_, refl, Swapped-clean v swptyp swpoff)
