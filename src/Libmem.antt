-- ===== src/Libmem.antt =====
-- ossim_lamiaatrium/src/libmem.c: regions of a process, page faults, and the bytes that a program
-- reads and writes. The lock makes each call atomic. A process is named by its pid; `liballoc` and
-- the others ask for area 0. A symbol index of 30 or more has a slot of its own here, where the code
-- leaves its array.
pub mod Ownership
pub mod Calls
pub mod Bytes
pub mod Online
pub mod Faults
pub mod Teardown
pub mod Isolation
pub mod Separation
use Prim.Native.Nat.{bit_and}
use os_assignment_nhom.Base.{
  ℕ, zero, suc, ◌+◌, ◌-◌, ◌*◌, ◌/◌, ◌%◌, ◌^◌, Bool, true, false, not, ◌&&◌, ◌||◌, Option, none,
  some, List, [], ◌∷◌, ◌==◌, ltb, leb, if◌then◌else◌, update, set,
}
use os_assignment_nhom.Base.Word.{u32, u64, int, sign_extend}
use os_assignment_nhom.Memphy
use os_assignment_nhom.Memphy.{Memphy}
use os_assignment_nhom.Mm.{Mm, Vma, Region}
use os_assignment_nhom.Mapping.{enlist_pgn_node}
use os_assignment_nhom.Pte.{page_present, page_swapped, paging_fpn, paging_swp}
use os_assignment_nhom.PageTable.{genmask64, pte_get_entry, pte_set_fpn, pte_set_swap}
use os_assignment_nhom.Vm.{get_vma_by_num, vma_at}
use os_assignment_nhom.Region
use os_assignment_nhom.Region.{
  get_free_vmrg_area, bad_symrg, get_symrg_byid, enlist_vm_freerg_list, find_victim_page,
}
use os_assignment_nhom.Kernel.{Krnl, ScRegs, extend_byte, syscall}

-- Storing a process's memory structure.
abbrev pub with_mm : Krnl → ℕ → Mm → Krnl
with_mm krnl pid mm = record krnl { mm = update krnl.mm pid mm }

-- The page number, an `int`, and the offset. The offset's mask has the 8 bits of
-- PAGING_ADDR_OFFST_HIBIT, and not the 12 of PAGING64_ADDR_OFFST_HIBIT.
pub get_pgn_offset : ℕ → ℕ × ℕ
get_pgn_offset addr = (int (addr / 2 ^ 12), bit_and addr (genmask64 7 0))

-- `get_phyaddr`, an `int`
pub get_phyaddr : ℕ → ℕ → ℕ
get_phyaddr fpn off = int (int (fpn * 2 ^ 12) + off)

-- `syscall(krnl, pid, 17, &regs)` with SYSMEM_SWP_OP; the result is not looked at.
pub swap_call : (ℕ → ℕ) → Krnl → ℕ → ℕ → ℕ → Krnl
swap_call junk krnl pid a2 a3 = (syscall junk krnl pid 17 (record { a1 = 3; a2 = a2; a3 = a3 })).2

-- A page that the entry says is in the swap is brought in from there, and its swap frame freed.
pub swap_in : (ℕ → ℕ) → Krnl → ℕ → ℕ → ℕ → Krnl
swap_in junk krnl pid pte tgtfpn =
    let old_swpfpn : ℕ = paging_swp pte in
    let krnl' = swap_call junk krnl pid old_swpfpn tgtfpn in
    if not (pte == 0) && page_swapped pte
    then record krnl' { active_mswp = Memphy.put_freefp krnl'.active_mswp old_swpfpn }
    else krnl

-- The page gets the frame and joins the replacement list.
pub bring_online : Krnl → ℕ → ℕ → ℕ → Krnl
bring_online krnl pid pgn fpn =
    let mm = (pte_set_fpn (krnl.mm pid) pgn fpn).1 in
    with_mm krnl pid (record mm { fifo_pgn = enlist_pgn_node mm.fifo_pgn pgn })

-- Sending the victim to the swap frame that was found, if one was: the page takes over its frame.
pub evict_to : (ℕ → ℕ) → Krnl → ℕ → ℕ → ℕ → ℕ → Option ℕ × Memphy → Bool × Krnl
evict_to junk krnl pid pgn pte vicpgn (none, mswp) = (false, krnl)
evict_to junk krnl pid pgn pte vicpgn (some swpfpn, mswp) =
    let k1 : Krnl = record krnl { active_mswp = mswp } in
    let vicfpn : ℕ = paging_fpn (pte_get_entry (k1.mm pid) vicpgn) in
    let k2 : Krnl = swap_call junk k1 pid vicfpn swpfpn in
    let k3 : Krnl = with_mm k2 pid (pte_set_swap (k2.mm pid) vicpgn 0 swpfpn).1 in
    (true, bring_online (swap_in junk k3 pid pte vicfpn) pid pgn vicfpn)

-- The branch of `pg_getpage` with no free frame, on the victim that was found, if any, and the
-- pages left in the list; the result is `false` for -1. What was done before a failure stays.
pub evict : (ℕ → ℕ) → Krnl → ℕ → ℕ → ℕ → Option (ℕ × List ℕ) → Bool × Krnl
unfolding evict_to
evict junk krnl pid pgn pte none = (false, krnl)
evict junk krnl pid pgn pte (some (vicpgn, rest)) =
    evict_to junk (with_mm krnl pid (record (krnl.mm pid) { fifo_pgn = rest })) pid pgn pte vicpgn
      (Memphy.get_freefp krnl.active_mswp)

-- The branch of `pg_getpage` for a page that is not present, on the free frame, if any.
pub fault : (ℕ → ℕ) → Krnl → ℕ → ℕ → ℕ → Option ℕ × Memphy → Bool × Krnl
fault junk krnl pid pgn pte (some tgtfpn, mram) =
    (true, bring_online (swap_in junk (record krnl { mram = mram }) pid pte tgtfpn) pid pgn tgtfpn)
fault junk krnl pid pgn pte (none, mram) =
    evict junk krnl pid pgn pte (find_victim_page (krnl.mm pid).fifo_pgn)

-- The end of `pg_getpage`: the frame of the page, `none` for -1.
pub page_result : ℕ → ℕ → Bool × Krnl → Option ℕ × Krnl
page_result pid page (ok, krnl) =
    if ok then (some (paging_fpn (pte_get_entry (krnl.mm pid) page)), krnl) else (none, krnl)

-- `pg_getpage`. The page number is an `int`, which the calls extend to an address.
pub pg_getpage : (ℕ → ℕ) → Krnl → ℕ → ℕ → Option ℕ × Krnl
unfolding page_result
pg_getpage junk krnl pid pgn =
    let page : ℕ = sign_extend pgn in
    let pte : ℕ = pte_get_entry (krnl.mm pid) page in
    page_result pid page (
      if page_present pte
      then (true, krnl)
      else fault junk krnl pid page pte (Memphy.get_freefp krnl.mram))

-- The byte that the IO_READ call left in the register; `none` for -1.
pub byte_result : Bool × ScRegs × Krnl → Option ℕ × Krnl
byte_result (ok, regs, k) = if ok then (some (regs.a3 % 256), k) else (none, k)

-- What `pg_getval` and `pg_setval` do with the result of `pg_getpage`. The physical address is an
-- `int`, extended in the register; a byte is passed as an extended `char`.
pub getval_at : (ℕ → ℕ) → Option ℕ × Krnl → ℕ → ℕ → Option ℕ × Krnl
unfolding byte_result
getval_at junk (none, k) pid off = (none, k)
getval_at junk (some f, k) pid off =
    byte_result
      (syscall junk k pid 17 (record { a1 = 4; a2 = sign_extend (get_phyaddr f off); a3 = 0 }))

pub setval_at : (ℕ → ℕ) → Option ℕ × Krnl → ℕ → ℕ → ℕ → Bool × Krnl
setval_at junk (none, k) pid off value = (false, k)
setval_at junk (some f, k) pid off value =
    let (ok, regs, k') =
      syscall junk k pid 17
        (record { a1 = 5; a2 = sign_extend (get_phyaddr f off); a3 = extend_byte value }) in
    (ok, k')

-- `pg_getval`: the byte, `none` for -1.
pub pg_getval : (ℕ → ℕ) → Krnl → ℕ → ℕ → Option ℕ × Krnl
pg_getval junk krnl pid addr =
    let po = get_pgn_offset addr in getval_at junk (pg_getpage junk krnl pid po.0) pid po.1

pub pg_setval : (ℕ → ℕ) → Krnl → ℕ → ℕ → ℕ → Bool × Krnl
pg_setval junk krnl pid addr value =
    let po = get_pgn_offset addr in setval_at junk (pg_getpage junk krnl pid po.0) pid po.1 value
