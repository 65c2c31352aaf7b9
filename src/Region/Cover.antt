-- ===== src/Region/Cover.antt =====
-- Which addresses the free regions cover, and the order of page replacement.
use os_assignment_nhom.Base.{
  ℕ, ◌+◌, ◌-◌, ◌^◌, ◌<◌, ◌≤◌, ◌≡◌, ◌≢◌, refl, ap, arith, true, ◌&&◌, Option, none, some, List, [],
  ◌∷◌, ◌++◌, ltb, leb, ◌==◌, false, if◌then◌else◌, All, Bool-cases, inl, inr,
}
use os_assignment_nhom.Base.Word.{u64, int, sign_extend}
use os_assignment_nhom.Mm.{Mm, Vma, Region}
use os_assignment_nhom.Vm.{get_vma_by_num}
use os_assignment_nhom.Region.{
  enlist_vm_freerg_list, drop_region, fit, found_region, take_region, get_free_vmrg_area,
  find_victim_page, split_last,
}

-- 1 if the region holds the address, 0 otherwise.
abbrev pub holds : Region → ℕ → ℕ
holds r a = if leb r.rg_start a && ltb a r.rg_end then 1 else 0

-- How many of the regions hold the address.
abbrev pub cover : List Region → ℕ → ℕ
cover [] a = 0
cover (r ∷ l) a = holds r a + cover l a

abbrev pub found_cover : Option Region → ℕ → ℕ
found_cover none a = 0
found_cover (some r) a = holds r a

-- A region in order whose end leaves room for `size` more.
abbrev pub Fits : ℕ → Region → Type 0
Fits size r = (r.rg_start ≤ r.rg_end) × (r.rg_end + size < 2 ^ 64)

fit-hit :
    (size : ℕ) (r : Region) (l : List Region)
    → leb (u64 (r.rg_start + size)) r.rg_end ≡ true
    → Fits size r
    → (a : ℕ)
    → cover (r ∷ l) a
      ≡ holds (record { rg_start = r.rg_start; rg_end = u64 (r.rg_start + size) }) a
        + cover
            (if ltb (u64 (r.rg_start + size)) r.rg_end
              then record r { rg_start = u64 (r.rg_start + size) } ∷ l
              else drop_region r l)
            a
unfolding drop_region
fit-hit size r [] h f a = ground arith
fit-hit size r (n ∷ l) h f a = ground arith

cover-fit :
    (size : ℕ) (l : List Region)
    → All (Fits size) l
    → (a : ℕ) → cover l a ≡ found_cover (fit size l).0 a + cover (fit size l).1 a
unfolding fit
cover-fit size [] h a = refl
cover-fit size (r ∷ l) h a = elim (Bool-cases (leb (u64 (r.rg_start + size)) r.rg_end)) [
  | inl t ↦ rw t (fit-hit size r l t h.0 a)
  | inr t ↦ rw t (omega (arith, cover-fit size l h.1 a))
]

-- A region that was found has the size asked for; if none was, all were too small and remain.
abbrev pub Sized : ℕ → List Region → Option Region → List Region → Type 0
Sized size l none l' = (l' ≡ l) × All (λ r. r.rg_end < r.rg_start + size) l
Sized size l (some g) l' = g.rg_end ≡ g.rg_start + size

Sized-suc :
    (size : ℕ) (r : Region) (l : List Region) (g : Option Region) (l' : List Region)
    → r.rg_end < r.rg_start + size
    → Sized size l g l'
    → Sized size (r ∷ l) g (r ∷ l')
Sized-suc size r l none l' h (e, s) = (ap (λ (x : List Region). r ∷ x) e, (h, s))
Sized-suc size r l (some g) l' h s = s

fit-Sized :
    (size : ℕ) (l : List Region) → All (Fits size) l → Sized size l (fit size l).0 (fit size l).1
unfolding fit
fit-Sized size [] h = (refl, tt)
fit-Sized size (r ∷ l) h = elim (Bool-cases (leb (u64 (r.rg_start + size)) r.rg_end)) [
  | inl t ↦ rw t (let f : Fits size r = h.0 in omega (arith, f))
  | inr t ↦ rw t (
      Sized-suc size r l (fit size l).0 (fit size l).1
        (let f : Fits size r = h.0 in ground (arith, f)) (fit-Sized size l h.1))
]

-- The first-fit search over regions in order, none of them so high that adding the size would wrap
-- round: at every address the region found and the regions left cover just what the free regions
-- covered. A region found has the size asked for; if none is found, every region was too small and
-- the list is unchanged.
pub fit_lem :
    (size : ℕ) (l : List Region)
    → All (Fits size) l
    → let (g, l') = fit size l in
      ((a : ℕ) → cover l a ≡ found_cover g a + cover l' a) × Sized size l g l'
fit_lem size l h = (cover-fit size l h, fit-Sized size l h)

split_last-append : (pg : ℕ) (l : List ℕ) (x : ℕ) → split_last pg (l ++ (x ∷ [])) ≡ (x, pg ∷ l)
unfolding split_last
split_last-append pg [] x = refl
split_last-append pg (n ∷ l) x = rw (split_last-append n l x)

-- The victim is the page at the end of the list, the one that was enlisted first of those in it;
-- the others stay, in order.
pub find_victim_page_oldest : (l : List ℕ) (x : ℕ) → find_victim_page (l ++ (x ∷ [])) ≡ some (x, l)
unfolding find_victim_page split_last
find_victim_page_oldest [] x = refl
find_victim_page_oldest (pg ∷ l) x = rw (split_last-append pg l x)

-- A region that is not empty is put in front of the free list.
pub enlist_vm_freerg_list-ordered :
    (l : List Region) (rg : Region)
    → rg.rg_start < rg.rg_end
    → enlist_vm_freerg_list l rg ≡ (true, rg ∷ l)
unfolding enlist_vm_freerg_list
enlist_vm_freerg_list-ordered l rg h = ground arith

take_region_found :
    (mm : Mm) (v : Vma) (size : ℕ) (g : Region) (l' : List Region)
    → mm.mmap ≡ v ∷ []
    → size < 2 ^ 31
    → fit size v.vm_freerg_list ≡ (some g, l')
    → g.rg_start ≢ 2 ^ 64 - 1
    → take_region mm 0 size ≡ (some g, record mm { mmap = record v { vm_freerg_list = l' } ∷ [] })
unfolding take_region found_region
take_region_found mm v size g l' one small f ne =
    let s : sign_extend (int size) ≡ size = ground arith in
    let b : (g.rg_start == 18446744073709551615) ≡ false = ground arith in simp (one, s, f, b)

-- `get_free_vmrg_area` on a process with one area, when the search finds a region.
pub get_free_vmrg_area_found :
    (mm : Mm) (v : Vma) (vmaid size : ℕ) (g : Region) (l' : List Region)
    → mm.mmap ≡ v ∷ []
    → get_vma_by_num (v ∷ []) vmaid ≡ some 0
    → size < 2 ^ 31
    → fit size v.vm_freerg_list ≡ (some g, l')
    → g.rg_start ≢ 2 ^ 64 - 1
    → get_free_vmrg_area mm vmaid size
      ≡ (some g, record mm { mmap = record v { vm_freerg_list = l' } ∷ [] })
unfolding get_free_vmrg_area
get_free_vmrg_area_found mm v vmaid size g l' one named small f ne =
    let h : get_vma_by_num mm.mmap vmaid ≡ some 0 = rw one named in
    rw (get_free_vmrg_area, h) (take_region_found mm v size g l' one small f ne)

-- The search when it finds none: the area is as it was.
pub get_free_vmrg_area-none :
    (mm : Mm) (v : Vma) (vmaid size : ℕ)
    → mm.mmap ≡ v ∷ []
    → get_vma_by_num (v ∷ []) vmaid ≡ some 0
    → size < 2 ^ 31
    → fit size v.vm_freerg_list ≡ (none, v.vm_freerg_list)
    → get_free_vmrg_area mm vmaid size ≡ (none, record mm { mmap = v ∷ [] })
unfolding get_free_vmrg_area take_region found_region
get_free_vmrg_area-none mm v vmaid size one named small f =
    let h : get_vma_by_num mm.mmap vmaid ≡ some 0 = rw one named in
    let s : sign_extend (int size) ≡ size = ground arith in
    rw (get_free_vmrg_area, h) (simp (one, s, f))
