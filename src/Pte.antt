-- ===== src/Pte.antt =====
-- The page table entry: the masks of ossim_lamiaatrium/include/{bitops,mm}.h and the operations of
-- ossim_lamiaatrium/src/mm64.c on one entry. The masks are 32-bit words, so `~mask` is one too, and
-- clearing a bit of a 64-bit entry also clears its upper half.
pub mod Fields
pub mod Codec
use Prim.Native.Nat.{bit_and, bit_or}
use os_assignment_nhom.Base.{
  ℕ, ◌+◌, ◌-◌, ◌*◌, ◌/◌, ◌%◌, ◌^◌, Bool, true, false, not, ◌&&◌, Option, none, some, ◌==◌,
  if◌then◌else◌,
}
use os_assignment_nhom.Base.Word.{u32, u64}

-- `~m` on `unsigned int`
abbrev pub not32 : ℕ → ℕ
not32 m = 2 ^ 32 - 1 - m

-- GENMASK(h, l), with BITS_PER_LONG 32
abbrev pub genmask : ℕ → ℕ → ℕ
genmask h l = bit_and (u32 (not32 0 * 2 ^ l)) (not32 0 / 2 ^ (31 - h))

-- BIT(nr)
abbrev pub bit : ℕ → ℕ
bit nr = 2 ^ nr

abbrev pub present_mask : ℕ
present_mask = bit 31

abbrev pub swapped_mask : ℕ
swapped_mask = bit 30

abbrev pub dirty_mask : ℕ
dirty_mask = bit 28

-- PAGING_PTE_FPN_MASK, PAGING_PTE_SWPTYP_MASK and PAGING_PTE_SWPOFF_MASK
abbrev pub fpn_mask : ℕ
fpn_mask = genmask 12 0

abbrev pub swptyp_mask : ℕ
swptyp_mask = genmask 4 0

abbrev pub swpoff_mask : ℕ
swpoff_mask = genmask 25 5

-- SETBIT, CLRBIT, SETVAL and GETVAL, as the new value of their first argument
pub setbit : ℕ → ℕ → ℕ
setbit v mask = bit_or v mask

pub clrbit : ℕ → ℕ → ℕ
clrbit v mask = bit_and v (not32 mask)

unfoldable pub setval : ℕ → ℕ → ℕ → ℕ → ℕ
setval v value mask offst = bit_or (bit_and v (not32 mask)) (bit_and (u64 (value * 2 ^ offst)) mask)

pub getval : ℕ → ℕ → ℕ → ℕ
getval v mask offst = bit_and v mask / 2 ^ offst

-- PAGING_PAGE_PRESENT, and the test of PAGING_PTE_SWAPPED_MASK, as truth values
pub page_present : ℕ → Bool
page_present pte = not (bit_and pte present_mask == 0)

pub page_swapped : ℕ → Bool
page_swapped pte = not (bit_and pte swapped_mask == 0)

-- PAGING_FPN and PAGING_SWP
pub paging_fpn : ℕ → ℕ
unfolding getval
paging_fpn pte = getval pte fpn_mask 0

pub paging_swp : ℕ → ℕ
paging_swp pte = bit_and pte swpoff_mask / 2 ^ 5

-- What `pte_set_fpn` stores over the entry `v`.
unfoldable pub set_fpn : ℕ → ℕ → ℕ
unfolding setbit clrbit setval
set_fpn v fpn = setval (clrbit (setbit v present_mask) swapped_mask) fpn fpn_mask 0

-- What `pte_set_swap` stores over the entry `v`.
unfoldable pub set_swap : ℕ → ℕ → ℕ → ℕ
unfolding setbit setval
set_swap v swptyp swpoff =
    setval (setval (setbit (setbit v present_mask) swapped_mask) swptyp swptyp_mask 0) swpoff
      swpoff_mask 5

-- `init_pte`: the entry, or `none` for the code's -1.
unfoldable pub init_pte : ℕ → Bool → ℕ → Bool → Bool → ℕ → ℕ → Option ℕ
unfolding setbit clrbit setval
init_pte v pre fpn drt swp swptyp swpoff =
    if pre
    then (if not swp
        then (if fpn == 0
            then none
            else some (
                setval (clrbit (clrbit (setbit v present_mask) swapped_mask) dirty_mask) fpn
                  fpn_mask 0))
        else some (
            setval
              (setval (clrbit (setbit (setbit v present_mask) swapped_mask) dirty_mask) swptyp
                swptyp_mask 0)
              swpoff swpoff_mask 5))
    else some v
