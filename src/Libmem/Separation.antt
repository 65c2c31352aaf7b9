-- ===== src/Libmem/Separation.antt =====
-- A byte written on a page leaves the bytes of all other pages, of any process, as they are.
use os_assignment_nhom.Base.{ℕ, ◌<◌, ◌≡◌, ◌≢◌, refl, arith, true, false, ◌==◌, Bool-cases, inl, inr}
use os_assignment_nhom.Pte.{page_swapped}
use os_assignment_nhom.Pte.Codec.{Online}
use os_assignment_nhom.PageTable.{pte_get_entry}
use os_assignment_nhom.PageTable.Entry.{pte_get_entry-eq}
use os_assignment_nhom.Kernel.{Krnl}
use os_assignment_nhom.Kernel.Ownership.{FramesOwned}
use os_assignment_nhom.Libmem.{pg_getval, pg_setval}
use os_assignment_nhom.Libmem.Bytes.{
  Resident, page_of, phys, poked, pg_getval-Resident, pg_setval-Resident, poked-Resident,
}

Resident-Online :
    (k : Krnl) (pid addr f : ℕ)
    → Resident k pid addr f
    → page_swapped (pte_get_entry (k.mm pid) (page_of addr)) ≡ false
    → Online (pte_get_entry (k.mm pid) (page_of addr)) f
Resident-Online k pid addr f r e = record {
  present = r.present;
  unswapped = e;
  frame = r.frame;
  word = rw (pte_get_entry-eq (k.mm pid) (page_of addr)) (omega arith);
}

-- Two bytes of different frames have different physical addresses.
phys_apart : (f g a b : ℕ) → f ≢ g → (phys g b == phys f a) ≡ false
phys_apart f g a b ne = elim (Bool-cases (phys g b == phys f a)) [
  | inl e ↦ absurd (ne (ground (arith, e)))
  | inr e ↦ e
]

-- Memory is private. Where every frame has at most one owner, take an address of a process and an
-- address of another process, or on another page of the same one, on pages with numbers below 512
-- that both stand in the RAM and are not marked swapped: a write through the first succeeds, and a read through the
-- second gives the same before and after it.
pub private_pages :
    (junk : ℕ → ℕ) (k : Krnl) (pid a f pid' b g v : ℕ)
    → FramesOwned k
    → Resident k pid a f
    → Resident k pid' b g
    → page_swapped (pte_get_entry (k.mm pid) (page_of a)) ≡ false
    → page_swapped (pte_get_entry (k.mm pid') (page_of b)) ≡ false
    → page_of a < 512
    → page_of b < 512
    → ¬ ((pid ≡ pid') × (page_of a ≡ page_of b))
    → v < 256
    → let (ok, k') = pg_setval junk k pid a v in
      (ok ≡ true) × ((pg_getval junk k' pid' b).0 ≡ (pg_getval junk k pid' b).0)
private_pages junk k pid a f pid' b g v w r s e e' h h' ne bound =
    let apart : f ≢ g = λ same. ne (
      w.unique pid (page_of a) pid' (page_of b) f h h' (Resident-Online k pid a f r e)
        (rw same (Resident-Online k pid' b g s e'))) in
    let x = pg_getval-Resident junk k pid' b g s in
    let y =
      pg_getval-Resident junk (poked k (phys f a) v) pid' b g
        (poked-Resident k pid' b g (phys f a) v s) in
    rw (pg_setval-Resident junk k pid a f v r bound)
      (refl, rw (x, y, phys_apart f g a b apart) refl)
