-- ===== src/PageTable.antt =====
-- ossim_lamiaatrium/src/mm64.c: page numbers to table indices, and the page table entries. The five
-- levels are five tables of the process; an entry is looked up in the last one alone. `calloc` is
-- taken to succeed.
pub mod Index
pub mod Entry
pub mod Ownership
pub mod Fresh
use Prim.Native.Nat.{bit_and, bit_or}
use os_assignment_nhom.Base.{
  ℕ, zero, suc, ◌+◌, ◌-◌, ◌*◌, ◌/◌, ◌%◌, ◌^◌, Bool, true, false, not, ◌||◌, Option, none, some, leb,
  if◌then◌else◌, update,
}
use os_assignment_nhom.Base.Word.{u32, u64}
use os_assignment_nhom.Pte.{present_mask, set_fpn, set_swap}
use os_assignment_nhom.Mm.{Table, Mm}

-- GENMASK64(h, l)
abbrev pub genmask64 : ℕ → ℕ → ℕ
genmask64 h l = bit_and (u64 ((2 ^ 64 - 1) * 2 ^ l)) ((2 ^ 64 - 1) / 2 ^ (63 - h))

-- The indices that `get_pd_from_address` stores through its pointers.
pub record Indices : Type 0 where
  pub pgd : ℕ
  pub p4d : ℕ
  pub pud : ℕ
  pub pmd : ℕ
  pub pt : ℕ

-- Whether the call succeeded, and the indices.
pub get_pd_from_address : ℕ → Bool × Indices
get_pd_from_address addr =
    let i : Indices = record {
      pgd = bit_and addr (genmask64 56 48) / 2 ^ 48;
      p4d = bit_and addr (genmask64 47 39) / 2 ^ 39;
      pud = bit_and addr (genmask64 38 30) / 2 ^ 30;
      pmd = bit_and addr (genmask64 29 21) / 2 ^ 21;
      pt = bit_and addr (genmask64 20 12) / 2 ^ 12;
    } in
    (not (leb 512 i.pgd || leb 512 i.p4d || leb 512 i.pud || leb 512 i.pmd || leb 512 i.pt), i)

pub get_pd_from_pagenum : ℕ → Bool × Indices
get_pd_from_pagenum pgn = get_pd_from_address (u64 (pgn * 2 ^ 12))

-- `if (t == NULL) t = calloc(512, sizeof(uint64_t))`
abbrev pub table_of : Option Table → Table
table_of none = λ _. 0
table_of (some t) = t

-- `if (t) t[i] |= PAGING_PTE_PRESENT_MASK`
pub mark_present : Option Table → ℕ → Option Table
mark_present none i = none
mark_present (some t) i = some (update t i (bit_or (t i) present_mask))

-- Each returns whether it succeeded, and the memory structure.
pub pte_set_swap : Mm → ℕ → ℕ → ℕ → Bool × Mm
pte_set_swap mm pgn swptyp swpoff =
    let (valid, i) = get_pd_from_pagenum pgn in
    if not valid
    then (false, mm)
    else (let t = table_of mm.pt in
        (true, record mm { pt = some (update t i.pt (set_swap (t i.pt) swptyp swpoff)) }))

pub pte_set_fpn : Mm → ℕ → ℕ → Bool × Mm
pte_set_fpn mm pgn fpn =
    let (valid, i) = get_pd_from_pagenum pgn in
    if not valid
    then (false, mm)
    else (let t = table_of mm.pt in
        (
          true,
          record mm {
            pgd = mark_present mm.pgd i.pgd;
            p4d = mark_present mm.p4d i.p4d;
            pud = mark_present mm.pud i.pud;
            pmd = mark_present mm.pmd i.pmd;
            pt = some (update t i.pt (set_fpn (t i.pt) fpn));
          },
        ))

-- The entry is cut to `uint32_t`; 0 stands for an error too.
pub pte_get_entry : Mm → ℕ → ℕ
pte_get_entry mm pgn =
    let (valid, i) = get_pd_from_pagenum pgn in
    if not valid then 0 else elim mm.pt [ none ↦ 0 | some t ↦ u32 (t i.pt) ]

pub pte_set_entry : Mm → ℕ → ℕ → Bool × Mm
pte_set_entry mm pgn pte_val =
    let (valid, i) = get_pd_from_pagenum pgn in
    if not valid
    then (false, mm)
    else (true, record mm { pt = some (update (table_of mm.pt) i.pt pte_val) })
