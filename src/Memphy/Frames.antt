-- ===== src/Memphy/Frames.antt =====
-- The list of free frames of a device.
use os_assignment_nhom.Base.{
  ℕ, zero, suc, ◌+◌, ◌*◌, ◌/◌, ◌%◌, ◌^◌, ◌<◌, ◌≤◌, ◌≡◌, ◌≢◌, refl, Bool, Option, none, some, arith,
  All, length, List, [], ◌∷◌, ap,
}
use os_assignment_nhom.Memphy.{
  Memphy, frames_from, format, get_freefp, put_freefp, init_memphy, pagesz64,
}

-- No frame stands twice in the list.
abbrev pub Distinct : List ℕ → Type 0
Distinct [] = Unit
Distinct (f ∷ l) = All (λ g. g ≢ f) l × Distinct l

length-frames_from : (n i : ℕ) → length (frames_from n i) ≡ n
unfolding frames_from
length-frames_from zero i = refl
length-frames_from (suc n) i = ap suc (length-frames_from n (suc i))

frames_from-All :
    {P : ℕ → Type 0} (n i : ℕ) → ((f : ℕ) → i ≤ f → f < i + n → P f) → All P (frames_from n i)
unfolding frames_from
frames_from-All zero i h = tt
frames_from-All (suc n) i h = (
  h i (omega arith) (omega arith),
  frames_from-All n (suc i) (λ f a b. h f (omega arith) (omega arith)),
)

frames_from-Distinct : (n i : ℕ) → Distinct (frames_from n i)
unfolding frames_from
frames_from-Distinct zero i = tt
frames_from-Distinct (suc n) i =
    (frames_from-All n (suc i) (λ f a b. omega arith), frames_from-Distinct n (suc i))

-- A frame lies inside the device.
abbrev pub InDevice : Memphy → ℕ → Type 0
InDevice mp f = (f + 1) * pagesz64 ≤ mp.maxsz

pub init_memphy-maxsz :
    (uninit : List ℕ) (mp : Memphy) (max_size : ℕ) (r : Bool)
    → (init_memphy uninit mp max_size r).maxsz ≡ max_size
unfolding init_memphy format
init_memphy-maxsz uninit mp max_size r = ground arith

init_memphy-free_fp_list :
    (uninit : List ℕ) (mp : Memphy) (max_size : ℕ) (r : Bool)
    → 2 ≤ max_size / pagesz64
    → max_size / pagesz64 < 2 ^ 31
    → (init_memphy uninit mp max_size r).free_fp_list ≡ frames_from (max_size / pagesz64) 0
unfolding init_memphy format
init_memphy-free_fp_list uninit mp max_size r lo hi =
    let m : max_size / 4096 % 4294967296 ≡ max_size / 4096 = omega arith in ground arith

-- A device of at least two pages (and fewer than 2^31) starts with one free frame for each whole
-- page, no frame twice, and every frame within the device.
pub init_memphy_frames :
    (uninit : List ℕ) (mp : Memphy) (max_size : ℕ) (r : Bool)
    → 2 ≤ max_size / pagesz64
    → max_size / pagesz64 < 2 ^ 31
    → let d = init_memphy uninit mp max_size r in
      (length d.free_fp_list ≡ max_size / pagesz64)
      × Distinct d.free_fp_list
      × All (λ f. (f + 1) * pagesz64 ≤ d.maxsz) d.free_fp_list
init_memphy_frames uninit mp max_size r lo hi =
    let n : ℕ = max_size / pagesz64 in
    rw (init_memphy-free_fp_list uninit mp max_size r lo hi, init_memphy-maxsz uninit mp max_size r)
      (length-frames_from n 0, frames_from-Distinct n 0, frames_from-All n 0 (λ f x y. omega arith))

-- A device of exactly one page links its one frame to whatever the memory of the fresh node held.
init_memphy_one_page :
    (uninit : List ℕ) (mp : Memphy) (max_size : ℕ) (r : Bool)
    → max_size / pagesz64 ≡ 1
    → (init_memphy uninit mp max_size r).free_fp_list ≡ 0 ∷ uninit
unfolding init_memphy format
init_memphy_one_page uninit mp max_size r e =
    let m : max_size / 4096 % 4294967296 ≡ 1 = omega arith in ground arith

-- What taking a frame from a device returned.
pub data Taken (mp : Memphy) (r : Option ℕ × Memphy) : Type 0 where
  exhausted : mp.free_fp_list ≡ [] → r ≡ (none, mp) → Taken mp r
  taken :
      (f : ℕ) (mp' : Memphy)
      → r ≡ (some f, mp')
      → mp.free_fp_list ≡ f ∷ mp'.free_fp_list
      → All (λ g. g ≢ f) mp'.free_fp_list
      → Distinct mp'.free_fp_list
      → put_freefp mp' f ≡ mp
      → Taken mp r

pub get_freefp-nil : (mp : Memphy) → mp.free_fp_list ≡ [] → get_freefp mp ≡ (none, mp)
unfolding get_freefp
get_freefp-nil mp e = ground arith

pub get_freefp-cons :
    (mp : Memphy) (f : ℕ) (l : List ℕ)
    → mp.free_fp_list ≡ f ∷ l
    → get_freefp mp ≡ (some f, record mp { free_fp_list = l })
unfolding get_freefp
get_freefp-cons mp f l e = ground arith

get_freefp_cases :
    (mp : Memphy) (l : List ℕ) → mp.free_fp_list ≡ l → Distinct l → Taken mp (get_freefp mp)
unfolding put_freefp
get_freefp_cases mp [] e d = exhausted e (get_freefp-nil mp e)
get_freefp_cases mp (f ∷ l) e d =
    taken f (record mp { free_fp_list = l }) (get_freefp-cons mp f l e) e d.0 d.1 (ground arith)

-- Taking a frame returns the first of the list, which is then left nowhere in it; it fails exactly
-- on the empty list, and changes nothing then. Putting the frame back restores the device.
get_freefp_lem : (mp : Memphy) → Distinct mp.free_fp_list → Taken mp (get_freefp mp)
get_freefp_lem mp d = get_freefp_cases mp mp.free_fp_list refl d
