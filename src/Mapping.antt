-- ===== src/Mapping.antt =====
-- ossim_lamiaatrium/src/mm64.c: mapping a range of pages, and taking the frames for it. A count of
-- pages that is an `int` and not positive makes no round, so it is a number here; the product of a
-- round and the page size, an `int` in the code, is taken not to overflow.
pub mod Alloc
pub mod Loop
pub mod Pages
pub mod Ownership
use Prim.Native.Nat.{bit_or}
use os_assignment_nhom.Base.{
  ℕ, zero, suc, ◌+◌, ◌-◌, ◌*◌, ◌/◌, ◌^◌, Bool, true, false, not, ◌&&◌, ◌||◌, Option, none, some,
  List, [], ◌∷◌, ◌==◌, ltb, if◌then◌else◌, update,
}
use os_assignment_nhom.Base.Word.{u64}
use os_assignment_nhom.Memphy.{Memphy, get_freefp}
use os_assignment_nhom.Mm.{Table, Mm, Region}
use os_assignment_nhom.Pte.{present_mask}
use os_assignment_nhom.PageTable.{get_pd_from_address, table_of, pte_set_fpn}

-- `enlist_pgn_node`
unfoldable pub enlist_pgn_node : List ℕ → ℕ → List ℕ
enlist_pgn_node plist pgn = pgn ∷ plist

-- The directories that both range functions make sure of first.
pub with_tables : Mm → Mm
with_tables mm = record mm {
  pgd = some (table_of mm.pgd);
  p4d = some (table_of mm.p4d);
  pud = some (table_of mm.pud);
  pmd = some (table_of mm.pmd);
  pt = some (table_of mm.pt);
}

-- `t[i] = v` on a table that is there
abbrev pub put_entry : Option Table → ℕ → ℕ → Option Table
put_entry t i v = some (update (table_of t) i v)

-- The loop of `vmap_pgd_memset`, with the rounds that are left.
memset_loop : ℕ → ℕ → ℕ → Mm → Bool × Mm
memset_loop zero pgit addr mm = (true, mm)
memset_loop (suc n) pgit addr mm =
    let (valid, i) = get_pd_from_address (u64 (addr + pgit * 4096)) in
    let pattern : ℕ = bit_or 0xdeadbeef present_mask in
    let rest = memset_loop n (suc pgit) addr (record mm {
      pgd = put_entry mm.pgd i.pgd pattern;
      p4d = put_entry mm.p4d i.p4d pattern;
      pud = put_entry mm.pud i.pud pattern;
      pmd = put_entry mm.pmd i.pmd pattern;
      pt = put_entry mm.pt i.pt pattern;
    }) in
    if not valid then (false, mm) else rest

pub vmap_pgd_memset : Mm → ℕ → ℕ → Bool × Mm
unfolding with_tables memset_loop
vmap_pgd_memset mm addr pgnum = memset_loop pgnum 0 addr (with_tables mm)

-- `fpn = (fpit != NULL) ? fpit->fpn : pgit`, and the rest of the frames.
abbrev pub frame_or : List ℕ → ℕ → ℕ
frame_or [] pgit = pgit
frame_or (f ∷ fs) pgit = f

abbrev pub next_frames : List ℕ → List ℕ
next_frames [] = []
next_frames (f ∷ fs) = fs

-- The page number that round `pgit` maps.
abbrev pub page_at : ℕ → ℕ → ℕ
page_at addr pgit = u64 (addr + pgit * 4096) / 2 ^ 12

-- The loop of `vmap_page_range`, with the rounds that are left.
pub map_loop : ℕ → ℕ → ℕ → List ℕ → Mm → Bool × Mm
unfolding enlist_pgn_node
map_loop zero pgit addr frames mm = (true, mm)
map_loop (suc n) pgit addr frames mm =
    let pgn : ℕ = page_at addr pgit in
    let (set, mm') = pte_set_fpn mm pgn (frame_or frames pgit) in
    let rest =
      map_loop n (suc pgit) addr (next_frames frames)
        (record mm' { fifo_pgn = enlist_pgn_node mm'.fifo_pgn pgn }) in
    if not set then (false, mm') else rest

-- Whether it succeeded, the memory structure, and the region that it reports.
pub vmap_page_range : Mm → ℕ → ℕ → List ℕ → Bool × Mm × Region
unfolding with_tables map_loop
vmap_page_range mm addr pgnum frames =
    let (set, mm') = map_loop pgnum 0 addr frames (with_tables mm) in
    (set, mm', record { rg_start = addr; rg_end = u64 (addr + pgnum * 4096) })

-- Whether there were enough frames (0, and not -3000), the frames taken, in order, and the device.
pub alloc_pages_range : Memphy → ℕ → Bool × List ℕ × Memphy
alloc_pages_range mp zero = (true, [], mp)
alloc_pages_range mp (suc n) =
    let (fpn, mp') = get_freefp mp in
    let (enough, frames, mp'') = alloc_pages_range mp' n in
    elim fpn [ none ↦ (false, [], mp') | some f ↦ (enough, f ∷ frames, mp'') ]

-- The returned `addr_t` is unsigned: an error is 2^64 - 1.
pub vm_map_ram : Mm → Memphy → ℕ → ℕ → ℕ × Mm × Memphy
vm_map_ram mm mram mapstart incpgnum =
    let (enough, frames, mram') = alloc_pages_range mram incpgnum in
    let ret_alloc : ℕ = if enough then 0 else 2 ^ 64 - 3000 in
    if (ltb ret_alloc 0 && not (ret_alloc == 2 ^ 64 - 3000)) || ret_alloc == 2 ^ 64 - 3000
    then (2 ^ 64 - 1, mm, mram')
    else (let r = vmap_page_range mm mapstart incpgnum frames in (0, r.1, mram'))
