-- ===== src/Libmem/Calls/Disjoint.antt =====
-- Allocation and freeing keep the regions of a process apart.
use os_assignment_nhom.Base.{
  ℕ, ◌+◌, ◌^◌, ◌<◌, ◌≤◌, ◌≡◌, ◌≢◌, refl, ◌∙◌, ap, arith, Bool, true, false, some, List, [], ◌∷◌,
  update, update_self, update_ne, Option-cases, inl, inr,
}
use os_assignment_nhom.Base.Word.{u64, int, sign_extend}
use os_assignment_nhom.Mm.{Mm, Vma, Region}
use os_assignment_nhom.Queue.{Proc}
use os_assignment_nhom.Sched.{find_process_by_pid}
use os_assignment_nhom.Sched.Invariant.{IsValid}
use os_assignment_nhom.Sched.Search.{find_process_by_pid-Located}
use os_assignment_nhom.Vm.{get_vma_by_num, inc_vma_limit}
use os_assignment_nhom.Vm.Grow.{get_vma_by_num_single}
use os_assignment_nhom.Vm.Limits.{extended, inc_vma_limit-Limit}
use os_assignment_nhom.Region.{fit}
use os_assignment_nhom.Region.Apart.{
  Apart, Below-Fits, fit-FoundBelow, reused-Apart, extended-Apart,
}
use os_assignment_nhom.Kernel.{Krnl, syscall}
use os_assignment_nhom.Kernel.Memmap.{syscall_inc, syscall_unknown}
use os_assignment_nhom.Libmem.{with_mm}
use os_assignment_nhom.Libmem.Calls.{set_symrg, alloc_at_brk, alloc, liballoc}
use os_assignment_nhom.Libmem.Calls.AtBreak.{
  liballoc_failed, liballoc_given, request, alloc_at_brk_failed, old_break, alloc_at_brk_given,
  area_of_single, page_align-bounds,
}
use os_assignment_nhom.Libmem.Calls.Reuse.{reused, liballoc_found}

-- The regions of the process are apart after the call, which has left the other processes alone,
-- and if it has succeeded the symbol has a region of the size asked for.
pub record Allocated (k : Krnl) (pid size rgid : ℕ) (v : Vma) (r : Bool × Krnl) : Type 0 where
  pub area : Vma
  pub apart : Apart (r.1.mm pid) area
  pub moved : area.sbrk ≤ v.sbrk + size + 4095
  pub others : (i : ℕ) → i ≢ pid → r.1.mm i ≡ k.mm i
  pub sized :
      r.0 ≡ true
      → ((r.1.mm pid).symrgtbl rgid).rg_end ≡ ((r.1.mm pid).symrgtbl rgid).rg_start + size

pub reuse-Allocated :
    (junk : ℕ → ℕ) (k : Krnl) (pid size rgid : ℕ) (v : Vma) (g : Region) (l' : List Region)
    → Apart (k.mm pid) v
    → v.sbrk + size < 2 ^ 31
    → rgid < 30
    → fit size v.vm_freerg_list ≡ (some g, l')
    → Allocated k pid size rgid v (liballoc junk k pid size rgid)
reuse-Allocated junk k pid size rgid v g l' p h b f =
    let m' : Mm = reused (k.mm pid) v rgid g l' in
    let low = rw f at (fit-FoundBelow v.sbrk size v.vm_freerg_list p.ordered) in
    let c =
      liballoc_found junk k pid size rgid v g l' p.one
        (get_vma_by_num_single v 0 p.id (omega arith)) (omega (arith, h))
        (Below-Fits v.sbrk size _ (omega (arith, h)) p.ordered) f (omega (arith, low, h)) in
    let here : (with_mm k pid m').mm pid ≡ m' = update_self k.mm pid m' in
    let s : m'.symrgtbl rgid ≡ g = update_self (k.mm pid).symrgtbl rgid g in
    rw c.0 (record {
      area = record v { vm_freerg_list = l' };
      apart =
          rw here (reused-Apart (k.mm pid) m' v size rgid g l' p (omega (arith, h)) b f refl refl);
      moved = omega arith;
      others = λ i ne. update_ne k.mm pid i m' ne;
      sized = λ _. rw (here, s) c.1;
    })

-- The area has grown and the symbol has the addresses from the old break on.
grown-Allocated :
    (k k1 k2 : Krnl) (pid size rgid : ℕ) (v : Vma)
    → Apart (k1.mm pid) v
    → v.sbrk + size < 2 ^ 31
    → rgid < 30
    → ((i : ℕ) → i ≢ pid → k2.mm i ≡ k.mm i)
    → (k2.mm pid).symrgtbl ≡ (k1.mm pid).symrgtbl
    → (k2.mm pid).mmap ≡ extended v size ∷ []
    → let g : Region = record { rg_start = v.sbrk; rg_end = u64 (v.sbrk + size) } in
      Allocated k pid size rgid v (true, with_mm k2 pid (set_symrg (k2.mm pid) rgid g))
grown-Allocated k k1 k2 pid size rgid v p h b o t m =
    let g : Region = record { rg_start = v.sbrk; rg_end = v.sbrk + size } in
    let m' : Mm = set_symrg (k2.mm pid) rgid g in
    let here : (with_mm k2 pid m').mm pid ≡ m' = update_self k2.mm pid m' in
    let s : m'.symrgtbl rgid ≡ g = update_self (k2.mm pid).symrgtbl rgid g in
    let no_wrap : u64 (v.sbrk + size) ≡ v.sbrk + size = omega (arith, h) in
    let q = page_align-bounds v size h in
    rw no_wrap (record {
      area = extended v size;
      apart = rw here (
          extended-Apart (k1.mm pid) m' v (extended v size) size rgid p b refl refl q.0 m
            (ap (λ (x : ℕ → Region). update x rgid g) t));
      moved = q.1;
      others = λ i ne. update_ne k2.mm pid i m' ne ∙ o i ne;
      sized = λ _. rw (here, s) refl;
    })

-- The call has failed, with the area as it was.
failed-Allocated :
    (k k1 k2 : Krnl) (pid size rgid : ℕ) (v : Vma)
    → Apart (k1.mm pid) v
    → ((i : ℕ) → i ≢ pid → k2.mm i ≡ k.mm i)
    → (k2.mm pid).symrgtbl ≡ (k1.mm pid).symrgtbl
    → (k2.mm pid).mmap ≡ v ∷ []
    → Allocated k pid size rgid v (false, k2)
failed-Allocated k k1 k2 pid size rgid v p o t m = record {
  area = v;
  apart = record { one = m; id = p.id; ordered = p.ordered; apart = rw t p.apart };
  moved = omega arith;
  others = o;
  sized = λ e. cc e;
}

-- What `alloc_at_brk` makes of the answer to its request.
pub brk-Allocated :
    (junk : ℕ → ℕ) (k k1 : Krnl) (pid size rgid : ℕ) (v : Vma)
    → alloc junk k pid 0 rgid size ≡ alloc_at_brk junk k1 pid 0 rgid size
    → Apart (k1.mm pid) v
    → IsValid k1.sched
    → v.sbrk + size < 2 ^ 31
    → rgid < 30
    → ((i : ℕ) → i ≢ pid → k1.mm i ≡ k.mm i)
    → Allocated k pid size rgid v (liballoc junk k pid size rgid)
brk-Allocated junk k k1 pid size rgid v e p w h b o =
    elim (Option-cases (find_process_by_pid k1.sched pid)) [
      | inl f ↦
          let c = liballoc_failed junk k k1 pid size rgid (
            e ∙ alloc_at_brk_failed junk k1 k1 pid rgid size _ (syscall_unknown junk k1 pid _ f)) in
          rw c (failed-Allocated k k1 k1 pid size rgid v p o refl p.one)
      | inr (q, f) ↦ known q f (rw f at (find_process_by_pid-Located k1.sched pid w)).0
    ]
  where
    named : get_vma_by_num (v ∷ []) 0 ≡ some 0
    named = get_vma_by_num_single v 0 p.id (omega arith)

    known :
        (q : Proc)
        → find_process_by_pid k1.sched pid ≡ some q
        → q.pid ≡ pid
        → Allocated k pid size rgid v (liballoc junk k pid size rgid)
    known q f same =
        let r = inc_vma_limit (k1.mm pid) k1.mram 0 size in
        let k2 : Krnl = record k1 { mm = update k1.mm pid r.1; mram = r.2 } in
        let c : syscall junk k1 pid 17 (request size) ≡ (r.0, request size, k2) =
          rw same at (syscall_inc junk k1 pid 0 size q f) in
        let here : k2.mm pid ≡ r.1 = update_self k1.mm pid r.1 in
        let o2 : (i : ℕ) → i ≢ pid → k2.mm i ≡ k.mm i =
          λ i ne. update_ne k1.mm pid i r.1 ne ∙ o i ne in
        let l = inc_vma_limit-Limit (k1.mm pid) k1.mram v 0 size p.one named in
        elim l.1 [
          | inl (ok, m) ↦
              let a = area_of_single (k1.mm pid) v p.one named in
              let z : old_break k1 pid ≡ v.sbrk =
                ap (λ (x : Vma). sign_extend (int x.sbrk)) a ∙ ground (arith, h) in
              let d =
                liballoc_given junk k _ pid size rgid _
                  (e ∙ alloc_at_brk_given junk k1 k2 pid rgid size (request size) (rw ok at c)) in
              rw (d, z)
                (grown-Allocated k k1 k2 pid size rgid v p h b o2
                  (ap (λ (x : Mm). x.symrgtbl) here ∙ l.0) (ap (λ (x : Mm). x.mmap) here ∙ m))
          | inr (ok, m) ↦
              let d =
                liballoc_failed junk k k2 pid size rgid
                  (e ∙ alloc_at_brk_failed junk k1 k2 pid rgid size (request size) (rw ok at c)) in
              rw d (
                failed-Allocated k k1 k2 pid size rgid v p o2
                  (ap (λ (x : Mm). x.symrgtbl) here ∙ l.0) (ap (λ (x : Mm). x.mmap) here ∙ m))
        ]
