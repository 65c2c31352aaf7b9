-- ===== src/Libmem/Calls/Safety.antt =====
-- No allocation and no freeing makes two regions of a process overlap.
use os_assignment_nhom.Base.{
  ℕ, ◌⊎◌, leb, ◌+◌, ◌^◌, ◌<◌, ◌≡◌, ◌≢◌, refl, ap, arith, Bool, false, ◌&&◌, Option, none, some,
  List, [], ◌∷◌, ◌==◌, update_self, update_ne, Bool-cases, inl, inr,
}
use os_assignment_nhom.Mm.{Mm, Vma, Region}
use os_assignment_nhom.Sched.Invariant.{IsValid}
use os_assignment_nhom.Vm.Grow.{get_vma_by_num_single}
use os_assignment_nhom.Region.{fit, get_free_vmrg_area, bad_symrg}
use os_assignment_nhom.Region.Cover.{fit_lem, get_free_vmrg_area-none}
use os_assignment_nhom.Region.Apart.{Apart, Below-Fits, freed-Apart, cleared-Apart}
use os_assignment_nhom.Kernel.{Krnl}
use os_assignment_nhom.Libmem.{with_mm}
use os_assignment_nhom.Libmem.Calls.{
  set_symrg, alloc_at_brk, alloc, free, enlist_first, liballoc, libfree,
}
use os_assignment_nhom.Region.{enlist_vm_freerg_list}
use os_assignment_nhom.Region.Cover.{Sized}
use os_assignment_nhom.Libmem.Calls.Disjoint.{Allocated, reuse-Allocated, brk-Allocated}

alloc-none :
    (junk : ℕ → ℕ) (k : Krnl) (pid rgid size : ℕ) (mm : Mm)
    → get_free_vmrg_area (k.mm pid) 0 size ≡ (none, mm)
    → alloc junk k pid 0 rgid size ≡ alloc_at_brk junk (with_mm k pid mm) pid 0 rgid size
unfolding alloc
alloc-none junk k pid rgid size mm e =
    rw (alloc, e)
      (ap (λ (x : Option Region × Mm). alloc_at_brk junk (with_mm k pid x.1) pid 0 rgid size) e)

none-Allocated :
    (junk : ℕ → ℕ) (k : Krnl) (pid size rgid : ℕ) (v : Vma)
    → IsValid k.sched
    → Apart (k.mm pid) v
    → v.sbrk + size < 2 ^ 31
    → rgid < 30
    → fit size v.vm_freerg_list ≡ (none, v.vm_freerg_list)
    → Allocated k pid size rgid v (liballoc junk k pid size rgid)
none-Allocated junk k pid size rgid v w p h b f =
    let mm : Mm = record (k.mm pid) { mmap = v ∷ [] } in
    let e =
      get_free_vmrg_area-none (k.mm pid) v 0 size p.one
        (get_vma_by_num_single v 0 p.id (omega arith)) (omega (arith, h)) f in
    let here : (with_mm k pid mm).mm pid ≡ mm = update_self k.mm pid mm in
    brk-Allocated junk k (with_mm k pid mm) pid size rgid v (alloc-none junk k pid rgid size mm e)
      (rw here (record { one = refl; id = p.id; ordered = p.ordered; apart = p.apart })) w h b
      (λ i ne. update_ne k.mm pid i mm ne)

-- The two outcomes of the search.
Sized-cases :
    (size : ℕ) (l : List Region) (r : Option Region × List Region)
    → Sized size l r.0 r.1
    → (r ≡ (none, l)) ⊎ ((g : Region) × (l' : List Region) × (r ≡ (some g, l')))
Sized-cases size l (none, l') s = inl (ap (λ (x : List Region). (none, x)) s.0)
Sized-cases size l (some g, l') s = inr (g, l', refl)

-- An allocation keeps the regions of the process apart, the symbols' and the free ones, whether it
-- takes a free region, grows the area, has no frames for it or fails; if it succeeds the symbol
-- has a region of the size asked for, and the break moves on by less than a page more than that.
-- Other processes are not touched. The symbol index must be in
-- range and the break, with the size, below 2^31.
pub liballoc-Allocated :
    (junk : ℕ → ℕ) (k : Krnl) (pid size rgid : ℕ) (v : Vma)
    → IsValid k.sched
    → Apart (k.mm pid) v
    → v.sbrk + size < 2 ^ 31
    → rgid < 30
    → Allocated k pid size rgid v (liballoc junk k pid size rgid)
liballoc-Allocated junk k pid size rgid v w p h b =
    let l : List Region = v.vm_freerg_list in
    let s = (fit_lem size l (Below-Fits v.sbrk size l (omega (arith, h)) p.ordered)).1 in
    elim (Sized-cases size l (fit size l) s) [
      | inl f ↦ none-Allocated junk k pid size rgid v w p h b f
      | inr (g, l', f) ↦ reuse-Allocated junk k pid size rgid v g l' p h b f
    ]

-- Freeing in the three cases: nothing to free, a region that goes to the free list, and one of no
-- address, which is only forgotten.
pub record Released (k : Krnl) (pid : ℕ) (v : Vma) (r : Bool × Krnl) : Type 0 where
  pub area : Vma
  pub apart : Apart (r.1.mm pid) area
  pub sbrk : area.sbrk ≡ v.sbrk
  pub others : (i : ℕ) → i ≢ pid → r.1.mm i ≡ k.mm i

enlist_first-Apart :
    (mm : Mm) (v : Vma) (rgid : ℕ)
    → Apart mm v
    → rgid < 30
    → let rg : Region = mm.symrgtbl rgid in
      let cleared : Mm = set_symrg mm rgid (record { rg_start = 0; rg_end = 0 }) in
      (w : Vma) × Apart (enlist_first cleared rg) w × (w.sbrk ≡ v.sbrk)
unfolding enlist_first enlist_vm_freerg_list
enlist_first-Apart mm v rgid p b =
    let rg : Region = mm.symrgtbl rgid in
    let m' : Mm = enlist_first (set_symrg mm rgid (record { rg_start = 0; rg_end = 0 })) rg in
    elim (Bool-cases (leb rg.rg_end rg.rg_start)) [
      | inl e ↦
          let m : m'.mmap ≡ v ∷ [] = simp (p.one, e) in
          (v, cleared-Apart mm m' v rgid p b m refl, refl)
      | inr e ↦
          let m : m'.mmap ≡ record v { vm_freerg_list = rg ∷ v.vm_freerg_list } ∷ [] =
            simp (p.one, e) in
          (_, freed-Apart mm m' v rgid p b (ground arith) m refl, refl)
    ]

-- Freeing keeps the regions of the process apart, the symbols' and the free ones, whether it
-- succeeds or not, and leaves the break and the other processes alone. The symbol index must be
-- in range.
pub libfree-Released :
    (k : Krnl) (pid rgid : ℕ) (v : Vma)
    → Apart (k.mm pid) v
    → rgid < 30
    → Released k pid v (libfree k pid rgid)
unfolding libfree free bad_symrg
libfree-Released k pid rgid v p b =
    let rg : Region = (k.mm pid).symrgtbl rgid in
    let cleared : Mm = set_symrg (k.mm pid) rgid (record { rg_start = 0; rg_end = 0 }) in
    let m' : Mm = enlist_first cleared rg in
    let ok : bad_symrg rgid ≡ false = ground (arith, b) in
    let here : (with_mm k pid m').mm pid ≡ m' = update_self k.mm pid m' in
    let (w, a, e) = enlist_first-Apart (k.mm pid) v rgid p b in
    elim (Bool-cases (rg.rg_start == 0 && rg.rg_end == 0)) [
      | inl z ↦ rw (ok, z) (record { area = v; apart = p; sbrk = refl; others = λ i ne. refl })
      | inr z ↦
          rw (ok, z)
            (record {
              area = w;
              apart = rw here a;
              sbrk = e;
              others = λ i ne. update_ne k.mm pid i m' ne;
            })
    ]
