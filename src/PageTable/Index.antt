-- ===== src/PageTable/Index.antt =====
-- The indices are the 9-bit groups of the address.
use Prim.Native.Nat.{bit_and}
use os_assignment_nhom.Base.{ℕ, ◌*◌, ◌/◌, ◌%◌, ◌^◌, ◌≡◌, refl, arith, true}
use os_assignment_nhom.Base.Bits.{bit_and-field}
use os_assignment_nhom.PageTable.{genmask64, get_pd_from_address, get_pd_from_pagenum}

-- `get_pd_from_address` never fails: each index is nine bits of the address, so the test against
-- 512 is never true.
get_pd_from_address_lem :
    (addr : ℕ)
    → get_pd_from_address addr ≡ (
      true,
      record {
        pgd = addr / 2 ^ 48 % 512;
        p4d = addr / 2 ^ 39 % 512;
        pud = addr / 2 ^ 30 % 512;
        pmd = addr / 2 ^ 21 % 512;
        pt = addr / 2 ^ 12 % 512;
      },
    )
unfolding get_pd_from_address
get_pd_from_address_lem addr =
    let a : bit_and addr (genmask64 56 48) / 2 ^ 48 ≡ addr / 2 ^ 48 % 512 =
      omega (arith, bit_and-field 48 9 addr) in
    let b : bit_and addr (genmask64 47 39) / 2 ^ 39 ≡ addr / 2 ^ 39 % 512 =
      omega (arith, bit_and-field 39 9 addr) in
    let c : bit_and addr (genmask64 38 30) / 2 ^ 30 ≡ addr / 2 ^ 30 % 512 =
      omega (arith, bit_and-field 30 9 addr) in
    let d : bit_and addr (genmask64 29 21) / 2 ^ 21 ≡ addr / 2 ^ 21 % 512 =
      omega (arith, bit_and-field 21 9 addr) in
    let e : bit_and addr (genmask64 20 12) / 2 ^ 12 ≡ addr / 2 ^ 12 % 512 =
      omega (arith, bit_and-field 12 9 addr) in
    rw (a, b, c, d, e) (ground arith)

-- A page's entry is found by its number modulo 512.
pub get_pd_from_pagenum-pt :
    (pgn : ℕ) → ((get_pd_from_pagenum pgn).0 ≡ true) × ((get_pd_from_pagenum pgn).1.pt ≡ pgn % 512)
unfolding get_pd_from_pagenum
get_pd_from_pagenum-pt pgn = rw (get_pd_from_address_lem (pgn * 4096 % 2 ^ 64)) (refl, omega arith)
