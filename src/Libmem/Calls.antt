-- ===== src/Libmem/Calls.antt =====
-- The calls of libmem.c that an instruction makes: `liballoc`, `libfree`, `libread`, `libwrite`, and
-- the functions `__alloc`, `__free`, `__read`, `__write` under them. The results are whether the
-- code returned 0, every error being -1; printing is left out.
pub mod Ownership
pub mod Access
pub mod Reuse
pub mod Isolation
pub mod AtBreak
pub mod Disjoint
pub mod Safety
pub mod History
use os_assignment_nhom.Base.{
  ℕ, zero, suc, ◌+◌, ◌-◌, ◌^◌, ◌%◌, Bool, true, false, not, ◌&&◌, ◌||◌, Option, none, some, List,
  [], ◌∷◌, ◌==◌, ltb, leb, if◌then◌else◌, update, set, get_or,
}
use os_assignment_nhom.Base.Word.{u32, u64, int, sign_extend}
use os_assignment_nhom.Mm.{Mm, Vma, Region}
use os_assignment_nhom.Vm.{get_vma_by_num, vma_at, no_vma}
use os_assignment_nhom.Region.{get_free_vmrg_area, bad_symrg, get_symrg_byid, enlist_vm_freerg_list}
use os_assignment_nhom.Kernel.{Krnl, ScRegs, extend_byte, syscall}
use os_assignment_nhom.Libmem.{with_mm, pg_getval, pg_setval}

-- `symrgtbl[rgid] = rg`, for one of the thirty symbols. The code does not check the index of an
-- allocation, and lets index 30 through where it does; there it writes over `fifo_pgn`.
abbrev pub set_symrg : Mm → ℕ → Region → Mm
set_symrg mm rgid rg = record mm { symrgtbl = update mm.symrgtbl rgid rg }

-- The area that `get_vma_by_num` points to.
pub area_of : Mm → ℕ → Vma
area_of mm vmaid = elim (get_vma_by_num mm.mmap vmaid) [ none ↦ no_vma | some i ↦ vma_at mm.mmap i ]

-- The part of `__alloc` after no free region was found. The old break is an `int`.
pub alloc_at_brk : (ℕ → ℕ) → Krnl → ℕ → ℕ → ℕ → ℕ → Option ℕ × Krnl
unfolding area_of
alloc_at_brk junk krnl pid vmaid rgid size =
    let old_sbrk : ℕ = sign_extend (int (area_of (krnl.mm pid) vmaid).sbrk) in
    let (ok, regs, k1) =
      syscall junk krnl pid 17 (record { a1 = 2; a2 = sign_extend vmaid; a3 = size }) in
    if not ok then (none, k1) else (
      some old_sbrk,
      with_mm k1 pid (
          set_symrg (k1.mm pid) rgid
            (record { rg_start = old_sbrk; rg_end = u64 (old_sbrk + size) })),
    )

-- `__alloc`: the address, `none` for -1.
pub alloc : (ℕ → ℕ) → Krnl → ℕ → ℕ → ℕ → ℕ → Option ℕ × Krnl
unfolding alloc_at_brk
alloc junk krnl pid vmaid rgid size =
    let (found, mm) = get_free_vmrg_area (krnl.mm pid) vmaid size in
    elim found [
      | some rg ↦ (some rg.rg_start, with_mm krnl pid (set_symrg mm rgid rg))
      | none ↦ alloc_at_brk junk (with_mm krnl pid mm) pid vmaid rgid size
    ]

-- `mm->mmap->vm_freerg_list` with the region enlisted
pub enlist_first : Mm → Region → Mm
enlist_first mm rg =
    let first : Vma = get_or mm.mmap 0 no_vma in
    let l = (enlist_vm_freerg_list first.vm_freerg_list rg).1 in
    record mm { mmap = set mm.mmap 0 (record first { vm_freerg_list = l }) }

-- `__free`
pub free : Krnl → ℕ → ℕ → Bool × Krnl
unfolding enlist_first
free krnl pid rgid =
    let mm : Mm = krnl.mm pid in
    let rg : Region = mm.symrgtbl rgid in
    if bad_symrg rgid
    then (false, krnl)
    else if rg.rg_start == 0 && rg.rg_end == 0
    then (false, krnl)
    else (let cleared = set_symrg mm rgid (record { rg_start = 0; rg_end = 0 }) in
        (true, with_mm krnl pid (enlist_first cleared rg)))

-- Whether `__read` and `__write` refuse the access.
unfoldable pub no_access : Mm → ℕ → ℕ → ℕ → Bool
no_access mm vmaid rgid offset = elim (get_symrg_byid mm rgid) [
  | none ↦ true
  | some rg ↦ elim (get_vma_by_num mm.mmap vmaid) [
    | none ↦ true
    | some i ↦ leb rg.rg_end (u64 (rg.rg_start + offset))
  ]
]

-- `__read`: the byte stored through `data`, if one was. It succeeds although `pg_getval` fails.
pub region_read : (ℕ → ℕ) → Krnl → ℕ → ℕ → ℕ → ℕ → Bool × Option ℕ × Krnl
region_read junk krnl pid vmaid rgid offset =
    let mm : Mm = krnl.mm pid in
    let (byte, k1) = pg_getval junk krnl pid (u64 ((mm.symrgtbl rgid).rg_start + offset)) in
    if no_access mm vmaid rgid offset then (false, none, krnl) else (true, byte, k1)

-- `__write`
pub region_write : (ℕ → ℕ) → Krnl → ℕ → ℕ → ℕ → ℕ → ℕ → Bool × Krnl
region_write junk krnl pid vmaid rgid offset value =
    let mm : Mm = krnl.mm pid in
    let k1 = (pg_setval junk krnl pid (u64 ((mm.symrgtbl rgid).rg_start + offset)) value).1 in
    if no_access mm vmaid rgid offset then (false, krnl) else (true, k1)

pub liballoc : (ℕ → ℕ) → Krnl → ℕ → ℕ → ℕ → Bool × Krnl
unfolding alloc
liballoc junk krnl pid size reg_index =
    let (addr, k1) = alloc junk krnl pid 0 reg_index size in
    (elim addr [ none ↦ false | some a ↦ true ], k1)

pub libfree : Krnl → ℕ → ℕ → Bool × Krnl
libfree krnl pid reg_index = free krnl pid reg_index

-- The value stored through `destination`, `none` for an error. Where no byte was read it is the one
-- that the variable `data` held, `junk 256`.
pub libread : (ℕ → ℕ) → Krnl → ℕ → ℕ → ℕ → Option ℕ × Krnl
libread junk krnl pid source offset =
    let (ok, byte, k1) = region_read junk krnl pid 0 source offset in
    let value : ℕ = elim byte [ none ↦ junk 256 | some b ↦ b ] in
    if ok then (some (extend_byte value), k1) else (none, k1)

pub libwrite : (ℕ → ℕ) → Krnl → ℕ → ℕ → ℕ → ℕ → Bool × Krnl
libwrite junk krnl pid value destination offset =
    region_write junk krnl pid 0 destination offset value
