-- ===== src/Pte/Fields.antt =====
-- The bit operations on an entry as arithmetic on its fields.
use Prim.Native.Nat.{bit_and, bit_or}
use os_assignment_nhom.Base.{ℕ, ◌+◌, ◌*◌, ◌/◌, ◌%◌, ◌^◌, ◌≡◌, ◌∙◌, ap₂, arith, ◌==◌}
use os_assignment_nhom.Base.Bits.{
  bit_and-ones, bit_and-field, bit_and-hole, bit_or-field, bit_or-bit,
}
use os_assignment_nhom.Base.Word.{u64}
use os_assignment_nhom.Pte.{
  setbit, clrbit, setval, page_present, page_swapped, paging_fpn, paging_swp, present_mask,
  swapped_mask, dirty_mask, fpn_mask, swptyp_mask, swpoff_mask, not32,
}

pub setbit-present :
    (v : ℕ) → setbit v present_mask ≡ (v / 2 ^ 31 / 2 * 2 + 1) * 2 ^ 31 + v % 2 ^ 31
unfolding setbit
setbit-present v = bit_or-bit 31 v

pub setbit-swapped :
    (v : ℕ) → setbit v swapped_mask ≡ (v / 2 ^ 30 / 2 * 2 + 1) * 2 ^ 30 + v % 2 ^ 30
unfolding setbit
setbit-swapped v = bit_or-bit 30 v

pub clrbit-swapped : (v : ℕ) → clrbit v swapped_mask ≡ v / 2 ^ 31 % 2 * 2 ^ 31 + v % 2 ^ 30
unfolding clrbit
clrbit-swapped v = bit_and-hole 31 1 30 v (omega arith) (omega arith)

pub clrbit-dirty : (v : ℕ) → clrbit v dirty_mask ≡ v / 2 ^ 29 % 8 * 2 ^ 29 + v % 2 ^ 28
unfolding clrbit
clrbit-dirty v = bit_and-hole 29 3 28 v (omega arith) (omega arith)

pub setval-fpn : (v x : ℕ) → setval v x fpn_mask 0 ≡ v / 2 ^ 13 % 2 ^ 19 * 2 ^ 13 + x % 2 ^ 13
unfolding setval
setval-fpn v x =
    let c : bit_and v (not32 fpn_mask) ≡ v / 2 ^ 13 % 2 ^ 19 * 2 ^ 13 + 0 =
      bit_and-field 13 19 v ∙ omega arith in
    let d : bit_and (u64 (x * 2 ^ 0)) fpn_mask ≡ x % 2 ^ 13 * 2 ^ 0 =
      bit_and-ones 13 (u64 (x * 2 ^ 0)) ∙ omega arith in
    ap₂ bit_or c d
    ∙ bit_or-field 13 0 (v / 2 ^ 13 % 2 ^ 19) 0 (x % 2 ^ 13) (omega arith) (omega arith)
        (omega arith)
    ∙ omega arith

pub setval-swptyp : (v x : ℕ) → setval v x swptyp_mask 0 ≡ v / 2 ^ 5 % 2 ^ 27 * 2 ^ 5 + x % 2 ^ 5
unfolding setval
setval-swptyp v x =
    let c : bit_and v (not32 swptyp_mask) ≡ v / 2 ^ 5 % 2 ^ 27 * 2 ^ 5 + 0 =
      bit_and-field 5 27 v ∙ omega arith in
    let d : bit_and (u64 (x * 2 ^ 0)) swptyp_mask ≡ x % 2 ^ 5 * 2 ^ 0 =
      bit_and-ones 5 (u64 (x * 2 ^ 0)) ∙ omega arith in
    ap₂ bit_or c d
    ∙ bit_or-field 5 0 (v / 2 ^ 5 % 2 ^ 27) 0 (x % 2 ^ 5) (omega arith) (omega arith) (omega arith)
    ∙ omega arith

pub setval-swpoff :
    (v x : ℕ)
    → setval v x swpoff_mask 5 ≡ v / 2 ^ 26 % 2 ^ 6 * 2 ^ 26 + (x % 2 ^ 21 * 2 ^ 5 + v % 2 ^ 5)
unfolding setval
setval-swpoff v x =
    let c = bit_and-hole 26 6 5 v (omega arith) (omega arith) in
    let d : bit_and (u64 (x * 2 ^ 5)) swpoff_mask ≡ x % 2 ^ 21 * 2 ^ 5 =
      bit_and-field 5 21 (u64 (x * 2 ^ 5)) ∙ omega arith in
    ap₂ bit_or c d
    ∙ bit_or-field 26 5 (v / 2 ^ 26 % 2 ^ 6) (v % 2 ^ 5) (x % 2 ^ 21) (omega arith) (omega arith)
        (omega arith)

pub paging_fpn-eq : (v : ℕ) → paging_fpn v ≡ v % 2 ^ 13
unfolding paging_fpn
paging_fpn-eq v = omega (arith, bit_and-ones 13 v)

pub paging_swp-eq : (v : ℕ) → paging_swp v ≡ v / 2 ^ 5 % 2 ^ 21
unfolding paging_swp
paging_swp-eq v = omega (arith, bit_and-field 5 21 v)

pub page_present-eq : (v : ℕ) → page_present v ≡ (v / 2 ^ 31 % 2 == 1)
unfolding page_present
page_present-eq v = ground (arith, bit_and-field 31 1 v)

pub page_swapped-eq : (v : ℕ) → page_swapped v ≡ (v / 2 ^ 30 % 2 == 1)
unfolding page_swapped
page_swapped-eq v = ground (arith, bit_and-field 30 1 v)
