-- ===== src/Libmem/Calls/History.antt =====
-- Any history of allocations and frees of a process.
use os_assignment_nhom.Base.{
  ℕ, ◌+◌, ◌^◌, ◌<◌, ◌≤◌, ◌≡◌, ◌≢◌, ap, arith, List, [], ◌∷◌, ltb, if◌then◌else◌, update, update_ne,
  All,
}
use os_assignment_nhom.Base.Sums.{sum_range_term}
use os_assignment_nhom.Mm.{Mm, Vma, Region}
use os_assignment_nhom.Sched.Invariant.{IsValid}
use os_assignment_nhom.Region.{init_mm}
use os_assignment_nhom.Region.Cover.{holds, cover}
use os_assignment_nhom.Region.Fresh.{init_mm-Apart}
use os_assignment_nhom.Region.Apart.{Apart, table_cover-update}
use os_assignment_nhom.Kernel.{Krnl}
use os_assignment_nhom.Libmem.Calls.{liballoc, libfree}
use os_assignment_nhom.Libmem.Calls.Isolation.{liballoc-sched, libfree-sched}
use os_assignment_nhom.Libmem.Calls.Safety.{liballoc-Allocated, libfree-Released}

-- A call of a process, by which it allocates a region to a symbol or frees one.
pub data Call : Type 0 where
  alloc_call : ℕ → ℕ → Call
  free_call : ℕ → Call

-- The calls of one process, one after the other, whatever their results.
unfoldable pub calls : (ℕ → ℕ) → ℕ → List Call → Krnl → Krnl
calls junk pid [] k = k
calls junk pid (alloc_call size rgid ∷ l) k = calls junk pid l (liballoc junk k pid size rgid).1
calls junk pid (free_call rgid ∷ l) k = calls junk pid l (libfree k pid rgid).1

-- The index is in range.
abbrev pub InTable : Call → Type 0
InTable (alloc_call size rgid) = rgid < 30
InTable (free_call rgid) = rgid < 30

-- What the calls may move the break by.
unfoldable pub demand : List Call → ℕ
demand [] = 0
demand (alloc_call size rgid ∷ l) = size + 4095 + demand l
demand (free_call rgid ∷ l) = demand l

calls-Apart :
    (junk : ℕ → ℕ) (pid : ℕ) (l : List Call) (k : Krnl) (v : Vma)
    → IsValid k.sched
    → Apart (k.mm pid) v
    → All InTable l
    → v.sbrk + demand l < 2 ^ 31
    → (w : Vma) × Apart ((calls junk pid l k).mm pid) w
unfolding calls demand
calls-Apart junk pid [] k v s p h d = (v, p)
calls-Apart junk pid (alloc_call size rgid ∷ l) k v s p h d =
    let a = liballoc-Allocated junk k pid size rgid v s p (omega (arith, d)) h.0 in
    calls-Apart junk pid l (liballoc junk k pid size rgid).1 a.area
      (rw (liballoc-sched junk k pid size rgid) s) a.apart h.1 (omega (arith, d, a.moved))
calls-Apart junk pid (free_call rgid ∷ l) k v s p h d =
    let a = libfree-Released k pid rgid v p h.0 in
    calls-Apart junk pid l (libfree k pid rgid).1 a.area (rw (libfree-sched k pid rgid) s) a.apart
      h.1 (omega (arith, d, a.sbrk))

-- Two symbols of a process whose regions are apart share no address.
symbols_apart :
    (mm : Mm) (v : Vma) (i j a : ℕ)
    → Apart mm v
    → i < 30
    → j < 30
    → i ≢ j
    → holds (mm.symrgtbl i) a + holds (mm.symrgtbl j) a + cover v.vm_freerg_list a
      ≤ (if ltb a v.sbrk then 1 else 0)
symbols_apart mm v i j a p hi hj ne =
    let none_left : Region = record { rg_start = 0; rg_end = 0 } in
    let t : ℕ → Region = update mm.symrgtbl j none_left in
    let u = table_cover-update mm.symrgtbl j none_left a hj in
    let z : holds none_left a ≡ 0 = ground arith in
    let w = sum_range_term 0 30 i (λ m. holds (t m) a) (omega arith) (omega (arith, hi)) in
    let e = ap (λ (x : Region). holds x a) (update_ne mm.symrgtbl j i none_left ne) in
    omega (arith, u, z, w, e, p.apart a)

-- From a fresh process on, after any allocations and frees of it, with symbol indices in range and
-- sizes that come, with a page for each, to less than 2^31: no address belongs to the regions of
-- two symbols, and so none is handed out twice.
pub regions_apart :
    (junk : ℕ → ℕ) (pid : ℕ) (l : List Call) (k : Krnl) (i j a : ℕ)
    → IsValid k.sched
    → k.mm pid ≡ init_mm []
    → All InTable l
    → demand l < 2 ^ 31
    → i < 30
    → j < 30
    → i ≢ j
    → let t = ((calls junk pid l k).mm pid).symrgtbl in holds (t i) a + holds (t j) a ≤ 1
regions_apart junk pid l k i j a s f h d hi hj ne =
    let (v, p, z) = init_mm-Apart in
    let (w, q) = calls-Apart junk pid l k v s (rw f p) h (omega (arith, d, z)) in
    let b = symbols_apart ((calls junk pid l k).mm pid) w i j a q hi hj ne in
    let c : (if ltb a w.sbrk then 1 else 0) ≤ 1 = ground arith in omega (arith, b, c)
