-- ===== src/Libmem/Bytes.antt =====
-- Reading and writing a program's bytes on pages that are present.
use Prim.Native.Nat.{bit_and}
use os_assignment_nhom.Base.{
  ℕ, ◌+◌, ◌*◌, ◌/◌, ◌%◌, ◌^◌, ◌<◌, ◌≤◌, ◌≡◌, refl, sym, ◌∙◌, ap, arith, true, some, ◌==◌,
  if◌then◌else◌, update,
}
use os_assignment_nhom.Base.Word.{int, sign_extend}
use os_assignment_nhom.Base.Bits.{bit_and-ones}
use os_assignment_nhom.Pte.{page_present, paging_fpn}
use os_assignment_nhom.PageTable.{genmask64, pte_get_entry}
use os_assignment_nhom.Queue.{Proc}
use os_assignment_nhom.Sched.{find_process_by_pid}
use os_assignment_nhom.Kernel.{Krnl, extend_byte}
use os_assignment_nhom.Kernel.Memmap.{extend_byte-mod, syscall_read, syscall_write}
use os_assignment_nhom.Libmem.{
  get_pgn_offset, get_phyaddr, pg_getpage, page_result, pg_getval, pg_setval, getval_at, setval_at,
  byte_result,
}

-- The number of an address's page, as the page table is asked for it.
abbrev pub page_of : ℕ → ℕ
page_of addr = sign_extend (int (addr / 2 ^ 12))

-- The address of a byte in frame `f`: only the low 8 bits of the offset count.
abbrev pub phys : ℕ → ℕ → ℕ
phys f addr = f * 4096 + addr % 256

get_pgn_offset-eq : (addr : ℕ) → get_pgn_offset addr ≡ (int (addr / 2 ^ 12), addr % 256)
unfolding get_pgn_offset
get_pgn_offset-eq addr =
    let m : bit_and addr (genmask64 7 0) ≡ addr % 256 = bit_and-ones 8 addr in
    ap (λ (x : ℕ). (int (addr / 2 ^ 12), x)) m

get_phyaddr-eq :
    (f off : ℕ) → f < 2 ^ 13 → off < 256 → sign_extend (get_phyaddr f off) ≡ f * 4096 + off
unfolding get_phyaddr
get_phyaddr-eq f off h b =
    let e : get_phyaddr f off ≡ f * 4096 + off = omega arith in rw e (ground arith)

-- A page that is present is its frame, and finding that out changes nothing.
pub pg_getpage_present :
    (junk : ℕ → ℕ) (k : Krnl) (pid pgn : ℕ)
    → page_present (pte_get_entry (k.mm pid) (sign_extend pgn)) ≡ true
    → pg_getpage junk k pid pgn
      ≡ (some (paging_fpn (pte_get_entry (k.mm pid) (sign_extend pgn))), k)
unfolding pg_getpage page_result
pg_getpage_present junk k pid pgn h = rw h

-- A known process of which the page at `addr` is present, in frame `f` of a random-access RAM.
pub record Resident (k : Krnl) (pid addr f : ℕ) : Type 0 where
  pub caller : Proc
  pub known : find_process_by_pid k.sched pid ≡ some caller
  pub present : page_present (pte_get_entry (k.mm pid) (page_of addr)) ≡ true
  pub frame : paging_fpn (pte_get_entry (k.mm pid) (page_of addr)) ≡ f
  pub random : k.mram.rdmflg ≡ true
  pub small : f < 2 ^ 13
  pub inside : f * 4096 + 4096 ≤ k.mram.maxsz

pub pg_getval-Resident :
    (junk : ℕ → ℕ) (k : Krnl) (pid addr f : ℕ)
    → Resident k pid addr f
    → pg_getval junk k pid addr ≡ (some (extend_byte (k.mram.storage (phys f addr)) % 256), k)
unfolding pg_getval getval_at byte_result
pg_getval-Resident junk k pid addr f r =
    let o = get_pgn_offset-eq addr in
    let g : pg_getpage junk k pid (int (addr / 2 ^ 12)) ≡ (some f, k) =
      pg_getpage_present junk k pid (int (addr / 2 ^ 12)) r.present
      ∙ ap (λ (x : ℕ). (some x, k)) r.frame in
    let a : sign_extend (get_phyaddr f (addr % 256)) ≡ phys f addr =
      get_phyaddr-eq f (addr % 256) r.small (omega arith) in
    let s =
      syscall_read junk k pid (phys f addr) 0 r.caller r.known r.random (omega (arith, r.inside)) in
    rw (o, g, a, s)

-- Writing a byte on a page that is present.
abbrev pub poked : Krnl → ℕ → ℕ → Krnl
poked k a v = record k { mram = record (k.mram) { storage = update k.mram.storage a v } }

pub pg_setval-Resident :
    (junk : ℕ → ℕ) (k : Krnl) (pid addr f v : ℕ)
    → Resident k pid addr f
    → v < 256
    → pg_setval junk k pid addr v ≡ (true, poked k (phys f addr) v)
unfolding pg_setval setval_at
pg_setval-Resident junk k pid addr f v r b =
    let o = get_pgn_offset-eq addr in
    let g : pg_getpage junk k pid (int (addr / 2 ^ 12)) ≡ (some f, k) =
      pg_getpage_present junk k pid (int (addr / 2 ^ 12)) r.present
      ∙ ap (λ (x : ℕ). (some x, k)) r.frame in
    let a : sign_extend (get_phyaddr f (addr % 256)) ≡ phys f addr =
      get_phyaddr-eq f (addr % 256) r.small (omega arith) in
    let s =
      syscall_write junk k pid (phys f addr) v r.caller r.known r.random (omega (arith, r.inside))
        b in
    rw (o, g, a, s)

pub poked-Resident :
    (k : Krnl) (pid addr f a v : ℕ) → Resident k pid addr f → Resident (poked k a v) pid addr f
poked-Resident k pid addr f a v r = record {
  caller = r.caller;
  known = r.known;
  present = r.present;
  frame = r.frame;
  random = r.random;
  small = r.small;
  inside = r.inside;
}

-- For a known process and two addresses on pages that are present, in frames of a random-access
-- RAM: writing a byte at the one succeeds, and reading the other then gives that byte if both have
-- the same physical address, and what it gave before otherwise.
pub pg_getval-pg_setval :
    (junk : ℕ → ℕ) (k : Krnl) (pid a f b g v : ℕ)
    → Resident k pid a f
    → Resident k pid b g
    → v < 256
    → let (ok, k') = pg_setval junk k pid a v in
      (ok ≡ true)
      × ((pg_getval junk k' pid b).0
          ≡ (if phys g b == phys f a then some v else (pg_getval junk k pid b).0))
pg_getval-pg_setval junk k pid a f b g v r s h =
    let w = pg_setval-Resident junk k pid a f v r h in
    let x = pg_getval-Resident junk k pid b g s in
    let y =
      pg_getval-Resident junk (poked k (phys f a) v) pid b g
        (poked-Resident k pid b g (phys f a) v s) in
    let m = extend_byte-mod v h in rw w (refl, rw (x, y) (ground (arith, m)))

-- The page offset is cut to 8 bits: two addresses of a page that are 256 apart are one byte, in
-- any state.
pub pg_getval_alias :
    (junk : ℕ → ℕ) (k : Krnl) (pid addr : ℕ)
    → addr % 4096 < 3840
    → pg_getval junk k pid (addr + 256) ≡ pg_getval junk k pid addr
unfolding pg_getval
pg_getval_alias junk k pid addr h =
    let p : (addr + 256) / 2 ^ 12 ≡ addr / 2 ^ 12 = omega arith in
    let q : (addr + 256) % 256 ≡ addr % 256 = omega arith in
    let o : get_pgn_offset (addr + 256) ≡ get_pgn_offset addr =
      get_pgn_offset-eq (addr + 256) ∙ rw (p, q) (sym (get_pgn_offset-eq addr)) in
    rw o
