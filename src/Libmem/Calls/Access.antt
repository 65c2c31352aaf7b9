-- ===== src/Libmem/Calls/Access.antt =====
-- Regions of a process: writing, reading and freeing.
use os_assignment_nhom.Base.{
  ℕ, ◌+◌, ◌%◌, ◌<◌, ◌≡◌, ◌≢◌, refl, ◌∙◌, ap, arith, true, false, Option, none, some, List, ◌∷◌,
  ◌==◌, Bool-cases, inl, inr, update_self, update_ne,
}
use os_assignment_nhom.Base.Word.{u64}
use os_assignment_nhom.Mm.{Mm, Vma, Region}
use os_assignment_nhom.Region.{bad_symrg}
use os_assignment_nhom.Region.Cover.{enlist_vm_freerg_list-ordered}
use os_assignment_nhom.Kernel.{Krnl, extend_byte}
use os_assignment_nhom.Kernel.Memmap.{extend_byte-mod}
use os_assignment_nhom.Libmem.{with_mm, pg_getval, pg_setval}
use os_assignment_nhom.Libmem.Bytes.{
  Resident, phys, poked, poked-Resident, pg_getval-Resident, pg_setval-Resident,
}
use os_assignment_nhom.Libmem.Calls.{
  set_symrg, enlist_first, free, no_access, region_read, region_write, libfree, libread, libwrite,
}

-- The virtual address of an access.
abbrev pub address : Krnl → ℕ → ℕ → ℕ → ℕ
address k pid rgid offset = u64 (((k.mm pid).symrgtbl rgid).rg_start + offset)

-- Where an access is refused, both calls fail and change nothing.
pub refused :
    (junk : ℕ → ℕ) (k : Krnl) (pid rgid offset v : ℕ)
    → no_access (k.mm pid) 0 rgid offset ≡ true
    → (libread junk k pid rgid offset ≡ (none, k))
      × (libwrite junk k pid v rgid offset ≡ (false, k))
unfolding libread libwrite region_read region_write
refused junk k pid rgid offset v h = (rw h, rw h)

region_read_allowed :
    (junk : ℕ → ℕ) (k : Krnl) (pid rgid offset b : ℕ) (k' : Krnl)
    → no_access (k.mm pid) 0 rgid offset ≡ false
    → pg_getval junk k pid (address k pid rgid offset) ≡ (some b, k')
    → region_read junk k pid 0 rgid offset ≡ (true, some b, k')
unfolding region_read
region_read_allowed junk k pid rgid offset b k' h e = rw (h, e)

libread_allowed :
    (junk : ℕ → ℕ) (k : Krnl) (pid rgid offset b : ℕ) (k' : Krnl)
    → no_access (k.mm pid) 0 rgid offset ≡ false
    → pg_getval junk k pid (address k pid rgid offset) ≡ (some b, k')
    → libread junk k pid rgid offset ≡ (some (extend_byte b), k')
unfolding libread
libread_allowed junk k pid rgid offset b k' h e =
    let r = region_read_allowed junk k pid rgid offset b k' h e in rw (r, libread)

libwrite_allowed :
    (junk : ℕ → ℕ) (k : Krnl) (pid rgid offset v : ℕ) (k' : Krnl)
    → no_access (k.mm pid) 0 rgid offset ≡ false
    → pg_setval junk k pid (address k pid rgid offset) v ≡ (true, k')
    → libwrite junk k pid v rgid offset ≡ (true, k')
unfolding libwrite region_write
libwrite_allowed junk k pid rgid offset v k' h e = rw (h, e)

-- A byte that a program writes into one of its regions is what it reads back there: with the
-- access allowed and the page present, `libwrite` succeeds and `libread` at the same place then
-- gives the byte, extended with its sign.
pub libread-libwrite :
    (junk : ℕ → ℕ) (k : Krnl) (pid rgid offset f v : ℕ)
    → no_access (k.mm pid) 0 rgid offset ≡ false
    → Resident k pid (address k pid rgid offset) f
    → v < 256
    → let (ok, k') = libwrite junk k pid v rgid offset in
      (ok ≡ true) × ((libread junk k' pid rgid offset).0 ≡ some (extend_byte v))
libread-libwrite junk k pid rgid offset f v h r b =
    let a : ℕ = address k pid rgid offset in
    let k' : Krnl = poked k (phys f a) v in
    let w =
      libwrite_allowed junk k pid rgid offset v k' h (pg_setval-Resident junk k pid a f v r b) in
    let x = pg_getval-Resident junk k' pid a f (poked-Resident k pid a f (phys f a) v r) in
    let m : extend_byte (k'.mram.storage (phys f a)) % 256 ≡ v =
      rw (update_self k.mram.storage (phys f a) v) (extend_byte-mod v b) in
    let y = libread_allowed junk k' pid rgid offset _ k' h x in
    rw w (refl, ap (λ (r : Option ℕ × Krnl). r.0) y ∙ ap (λ (c : ℕ). some (extend_byte c)) m)

-- What freeing a region leaves: its symbol is empty, it is in front of the free list of the first
-- area, and the other symbols, the page table and the devices are as before.
pub record Freed (k : Krnl) (pid rgid : ℕ) (v : Vma) (rest : List Vma) (k' : Krnl) : Type 0 where
  pub cleared : (k'.mm pid).symrgtbl rgid ≡ record { rg_start = 0; rg_end = 0 }
  pub others : (i : ℕ) → i ≢ rgid → (k'.mm pid).symrgtbl i ≡ (k.mm pid).symrgtbl i
  pub listed :
      (k'.mm pid).mmap
      ≡ record v { vm_freerg_list = (k.mm pid).symrgtbl rgid ∷ v.vm_freerg_list } ∷ rest
  pub pt : (k'.mm pid).pt ≡ (k.mm pid).pt
  pub mram : k'.mram ≡ k.mram
  pub active_mswp : k'.active_mswp ≡ k.active_mswp

freed_mm : Mm → ℕ → Mm
unfolding enlist_first
freed_mm mm rgid =
    enlist_first (set_symrg mm rgid (record { rg_start = 0; rg_end = 0 })) (mm.symrgtbl rgid)

enlist_first-mmap :
    (mm : Mm) (rg : Region) (v : Vma) (rest : List Vma)
    → mm.mmap ≡ v ∷ rest
    → rg.rg_start < rg.rg_end
    → (enlist_first mm rg).mmap ≡ record v { vm_freerg_list = rg ∷ v.vm_freerg_list } ∷ rest
unfolding enlist_first
enlist_first-mmap mm rg v rest e h =
    let t = enlist_vm_freerg_list-ordered v.vm_freerg_list rg h in simp (e, t)

enlist_first-symrgtbl :
    (mm : Mm) (rg : Region) (i : ℕ) → (enlist_first mm rg).symrgtbl i ≡ mm.symrgtbl i
unfolding enlist_first
enlist_first-symrgtbl mm rg i = refl

enlist_first-pt : (mm : Mm) (rg : Region) → (enlist_first mm rg).pt ≡ mm.pt
unfolding enlist_first
enlist_first-pt mm rg = refl

free_empty :
    (k : Krnl) (pid rgid : ℕ)
    → (k.mm pid).symrgtbl rgid ≡ record { rg_start = 0; rg_end = 0 }
    → free k pid rgid ≡ (false, k)
unfolding free
free_empty k pid rgid h = elim (Bool-cases (bad_symrg rgid)) [ inl t ↦ rw t | inr t ↦ simp (t, h) ]

free-freed_mm :
    (k : Krnl) (pid rgid : ℕ)
    → bad_symrg rgid ≡ false
    → ((k.mm pid).symrgtbl rgid).rg_start < ((k.mm pid).symrgtbl rgid).rg_end
    → free k pid rgid ≡ (true, with_mm k pid (freed_mm (k.mm pid) rgid))
unfolding free freed_mm
free-freed_mm k pid rgid ok h =
    let e : (((k.mm pid).symrgtbl rgid).rg_end == 0) ≡ false = ground arith in ground (arith, ok, e)

in_table : (rgid : ℕ) → rgid < 30 → bad_symrg rgid ≡ false
unfolding bad_symrg
in_table rgid h = ground (arith, h)

-- Freeing a region that is not empty, as one of the thirty symbols, succeeds and moves it from
-- the symbol table to the front of the free list of the first area; the other symbols, the page
-- table and the devices stay. Freeing it once more fails and changes nothing.
pub libfree_lem :
    (k : Krnl) (pid rgid : ℕ) (v : Vma) (rest : List Vma)
    → rgid < 30
    → ((k.mm pid).symrgtbl rgid).rg_start < ((k.mm pid).symrgtbl rgid).rg_end
    → (k.mm pid).mmap ≡ v ∷ rest
    → let (ok, k') = libfree k pid rgid in
      (ok ≡ true) × Freed k pid rgid v rest k' × (libfree k' pid rgid ≡ (false, k'))
unfolding libfree freed_mm
libfree_lem k pid rgid v rest index h e =
    let ok : bad_symrg rgid ≡ false = in_table rgid index in
    let mm : Mm = k.mm pid in
    let rg : Region = mm.symrgtbl rgid in
    let none_left : Region = record { rg_start = 0; rg_end = 0 } in
    let f : Mm = freed_mm mm rgid in
    let k' : Krnl = with_mm k pid f in
    let here : k'.mm pid ≡ f = update_self k.mm pid f in
    let cleared : (k'.mm pid).symrgtbl rgid ≡ none_left =
      ap (λ (x : Mm). x.symrgtbl rgid) here
      ∙ enlist_first-symrgtbl (set_symrg mm rgid none_left) rg rgid
      ∙ update_self mm.symrgtbl rgid none_left in
    rw (free-freed_mm k pid rgid ok h) (
      refl,
      record {
        cleared = cleared;
        others = λ i ne.
            (ap (λ (x : Mm). x.symrgtbl i) here
              ∙ enlist_first-symrgtbl (set_symrg mm rgid none_left) rg i
              ∙ update_ne mm.symrgtbl rgid i none_left ne);
        listed =
            ap (λ (x : Mm). x.mmap) here
            ∙ enlist_first-mmap (set_symrg mm rgid none_left) rg v rest e h;
        pt = ap (λ (x : Mm). x.pt) here ∙ enlist_first-pt (set_symrg mm rgid none_left) rg;
        mram = refl;
        active_mswp = refl;
      },
      free_empty k' pid rgid cleared,
    )
