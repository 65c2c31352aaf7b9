-- ===== src/Region/Apart.antt =====
-- The regions of a process: the symbols' and the free ones never share an address.
use os_assignment_nhom.Base.{
  ℕ, ◌+◌, ◌-◌, ◌^◌, ◌<◌, ◌≤◌, ◌≡◌, ◌∙◌, ap, arith, true, Option, none, some, List, [], ◌∷◌, ltb,
  leb, if◌then◌else◌, update, update_self, update_ne, All, Bool-cases, inl, inr,
}
use os_assignment_nhom.Base.Sums.{sum_range, sum_range_change, sum_range_term}
use os_assignment_nhom.Base.Word.{u64}
use os_assignment_nhom.Mm.{Mm, Vma, Region}
use os_assignment_nhom.Region.{drop_region, fit}
use os_assignment_nhom.Region.Cover.{holds, cover, Fits, fit_lem}

-- How many of the symbols' regions hold the address.
abbrev pub table_cover : (ℕ → Region) → ℕ → ℕ
table_cover t a = sum_range 0 30 (λ i. holds (t i) a)

-- A region in order that ends at or below `b`.
abbrev pub Below : ℕ → Region → Type 0
Below b r = (r.rg_start ≤ r.rg_end) × (r.rg_end ≤ b)

-- The process has the area `v` and no other; below its break every address belongs to one region
-- at most, a symbol's or a free one, and above it to none.
pub record Apart (mm : Mm) (v : Vma) : Type 0 where
  pub one : mm.mmap ≡ v ∷ []
  pub id : v.vm_id ≡ 0
  pub ordered : All (Below v.sbrk) v.vm_freerg_list
  pub apart :
      (a : ℕ)
      → table_cover mm.symrgtbl a + cover v.vm_freerg_list a ≤ (if ltb a v.sbrk then 1 else 0)

-- Giving a symbol another region.
pub table_cover-update :
    (t : ℕ → Region) (i : ℕ) (r : Region) (a : ℕ)
    → i < 30
    → table_cover (update t i r) a + holds (t i) a ≡ table_cover t a + holds r a
table_cover-update t i r a l =
    let s =
      sum_range_change 0 30 i (λ m. holds (update t i r m) a) (λ m. holds (t m) a) (omega arith)
        (omega (arith, l)) (λ m ne. ap (λ (x : Region). holds x a) (update_ne t i m r ne)) in
    let e = ap (λ (x : Region). holds x a) (update_self t i r) in omega (arith, s, e)

-- A symbol's region that is not empty ends at or below the break.
symbol-Below :
    (mm : Mm) (v : Vma) (i : ℕ)
    → Apart mm v
    → i < 30
    → (mm.symrgtbl i).rg_start < (mm.symrgtbl i).rg_end
    → (mm.symrgtbl i).rg_end ≤ v.sbrk
symbol-Below mm v i p l h =
    let r : Region = mm.symrgtbl i in
    let a : ℕ = r.rg_end - 1 in
    let t = sum_range_term 0 30 i (λ m. holds (mm.symrgtbl m) a) (omega arith) (omega (arith, l)) in
    let one : holds r a ≡ 1 = ground arith in let u = p.apart a in ground (arith, t, one, u, h)

pub Below-Fits :
    (b size : ℕ) (l : List Region) → b + size < 2 ^ 64 → All (Below b) l → All (Fits size) l
Below-Fits b size [] h o = tt
Below-Fits b size (r ∷ l) h o = ((o.0.0, omega (arith, o.0.1, h)), Below-Fits b size l h o.1)

fit_hit-Below :
    (b size : ℕ) (r : Region) (l : List Region)
    → b + size < 2 ^ 64
    → All (Below b) (r ∷ l)
    → leb (u64 (r.rg_start + size)) r.rg_end ≡ true
    → All (Below b) (
        if ltb (u64 (r.rg_start + size)) r.rg_end
        then record r { rg_start = u64 (r.rg_start + size) } ∷ l
        else drop_region r l)
unfolding drop_region
fit_hit-Below b size r l h o e = elim (Bool-cases (ltb (u64 (r.rg_start + size)) r.rg_end)) [
  | inl t ↦ let q = o.0 in rw t ((ground arith, q.1), o.1)
  | inr t ↦ rw t (dropped l o)
]
  where
    dropped : (l : List Region) → All (Below b) (r ∷ l) → All (Below b) (drop_region r l)
    dropped [] o = let q = o.0 in ((omega arith, q.1), tt)
    dropped (n ∷ l) o = o.1

-- The search leaves the free regions in order.
fit-Below :
    (b size : ℕ) (l : List Region)
    → b + size < 2 ^ 64
    → All (Below b) l
    → All (Below b) (fit size l).1
unfolding fit
fit-Below b size [] h o = tt
fit-Below b size (r ∷ l) h o = elim (Bool-cases (leb (u64 (r.rg_start + size)) r.rg_end)) [
  | inl e ↦ rw e (fit_hit-Below b size r l h o e)
  | inr e ↦ rw e (o.0, fit-Below b size l h o.1)
]

-- A symbol takes over a region that the search has cut off the free ones.
pub reused-Apart :
    (mm mm' : Mm) (v : Vma) (size i : ℕ) (g : Region) (l' : List Region)
    → Apart mm v
    → v.sbrk + size < 2 ^ 64
    → i < 30
    → fit size v.vm_freerg_list ≡ (some g, l')
    → mm'.mmap ≡ record v { vm_freerg_list = l' } ∷ []
    → mm'.symrgtbl ≡ update mm.symrgtbl i g
    → Apart mm' (record v { vm_freerg_list = l' })
reused-Apart mm mm' v size i g l' p h k f m t =
    let o = fit-Below v.sbrk size v.vm_freerg_list h p.ordered in
    let c = (fit_lem size v.vm_freerg_list (Below-Fits v.sbrk size _ h p.ordered)).0 in
    record {
      one = m;
      id = p.id;
      ordered = rw f at o;
      apart = λ a.
          rw t (omega (arith, table_cover-update mm.symrgtbl i g a k, (rw f at c) a, p.apart a));
    }

-- A symbol takes the addresses from the old break on, and the break moves at least as far.
pub extended-Apart :
    (mm mm' : Mm) (v w : Vma) (size i : ℕ)
    → Apart mm v
    → i < 30
    → w.vm_id ≡ v.vm_id
    → w.vm_freerg_list ≡ v.vm_freerg_list
    → v.sbrk + size ≤ w.sbrk
    → mm'.mmap ≡ w ∷ []
    → mm'.symrgtbl ≡ update mm.symrgtbl i (record { rg_start = v.sbrk; rg_end = v.sbrk + size })
    → Apart mm' w
extended-Apart mm mm' v w size i p k d l b m t =
    let g : Region = record { rg_start = v.sbrk; rg_end = v.sbrk + size } in
    record {
      one = m;
      id = d ∙ p.id;
      ordered = rw l (All_weaken v.vm_freerg_list p.ordered);
      apart = λ a.
          rw (t, l)
            (let u = table_cover-update mm.symrgtbl i g a k in
              let q = p.apart a in
              let s : (if ltb a v.sbrk then 1 else 0) + holds g a
                  ≤ (if ltb a w.sbrk then 1 else 0) =
                ground arith in
              omega (arith, u, q, s));
    }
  where
    All_weaken : (l : List Region) → All (Below v.sbrk) l → All (Below w.sbrk) l
    All_weaken [] o = tt
    All_weaken (r ∷ l) o = ((o.0.0, omega (arith, o.0.1, b)), All_weaken l o.1)

-- A symbol's region becomes a free one.
pub freed-Apart :
    (mm mm' : Mm) (v : Vma) (i : ℕ)
    → Apart mm v
    → i < 30
    → let rg : Region = mm.symrgtbl i in
      rg.rg_start < rg.rg_end
      → mm'.mmap ≡ record v { vm_freerg_list = rg ∷ v.vm_freerg_list } ∷ []
      → mm'.symrgtbl ≡ update mm.symrgtbl i (record { rg_start = 0; rg_end = 0 })
      → Apart mm' (record v { vm_freerg_list = rg ∷ v.vm_freerg_list })
freed-Apart mm mm' v i p k h m t =
    let none_left : Region = record { rg_start = 0; rg_end = 0 } in
    record {
      one = m;
      id = p.id;
      ordered = ((omega (arith, h), symbol-Below mm v i p k h), p.ordered);
      apart = λ a. rw t (
          let u = table_cover-update mm.symrgtbl i none_left a k in
          let z : holds none_left a ≡ 0 = ground arith in omega (arith, u, z, p.apart a));
    }

-- A symbol's region of no address is given up.
pub cleared-Apart :
    (mm mm' : Mm) (v : Vma) (i : ℕ)
    → Apart mm v
    → i < 30
    → mm'.mmap ≡ v ∷ []
    → mm'.symrgtbl ≡ update mm.symrgtbl i (record { rg_start = 0; rg_end = 0 })
    → Apart mm' v
cleared-Apart mm mm' v i p k m t =
    let none_left : Region = record { rg_start = 0; rg_end = 0 } in
    record {
      one = m;
      id = p.id;
      ordered = p.ordered;
      apart = λ a. rw t (
          let u = table_cover-update mm.symrgtbl i none_left a k in
          let z : holds none_left a ≡ 0 = ground arith in omega (arith, u, z, p.apart a));
    }

abbrev pub FoundBelow : ℕ → Option Region → Type 0
FoundBelow b none = Unit
FoundBelow b (some g) = g.rg_start ≤ b

-- A region that is found starts at or below the break.
pub fit-FoundBelow : (b size : ℕ) (l : List Region) → All (Below b) l → FoundBelow b (fit size l).0
unfolding fit
fit-FoundBelow b size [] o = tt
fit-FoundBelow b size (r ∷ l) o = elim (Bool-cases (leb (u64 (r.rg_start + size)) r.rg_end)) [
  | inl e ↦ let q = o.0 in rw e (omega (arith, q))
  | inr e ↦ rw e (fit-FoundBelow b size l o.1)
]
