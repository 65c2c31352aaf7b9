-- ===== src/Base/Sums.antt =====
-- Finite sums.
use os_assignment_nhom.Base.{
  ℕ, zero, suc, ◌+◌, ◌<◌, ◌≤◌, ◌≡◌, ◌≢◌, refl, arith, ◌==◌, inl, inr, Bool-cases,
}

-- The sum of `f` over the `n` numbers from `i` on.
unfoldable pub sum_range : ℕ → ℕ → (ℕ → ℕ) → ℕ
sum_range i zero f = 0
sum_range i (suc n) f = f i + sum_range (suc i) n f

pub sum_range_mono :
    (i n : ℕ) (f g : ℕ → ℕ) → ((m : ℕ) → m < i + n → f m ≤ g m) → sum_range i n f ≤ sum_range i n g
unfolding sum_range
sum_range_mono i zero f g h = omega arith
sum_range_mono i (suc n) f g h =
    omega (arith, h i (omega arith), sum_range_mono (suc i) n f g (λ m k. h m (omega arith)))

pub sum_range_strict :
    (i n j : ℕ) (f g : ℕ → ℕ)
    → ((m : ℕ) → m < i + n → f m ≤ g m)
    → i ≤ j
    → j < i + n
    → f j < g j
    → sum_range i n f < sum_range i n g
unfolding sum_range
sum_range_strict i zero j f g h lo hi s = absurd (omega arith)
sum_range_strict i (suc n) j f g h lo hi s = elim (Bool-cases (i == j)) [
  | inl e ↦
      let same : i ≡ j = ground arith in
      omega (arith, rw (← same) at s, sum_range_mono (suc i) n f g (λ m k. h m (omega arith)))
  | inr e ↦ omega (
    arith,
    h i (omega arith),
    sum_range_strict (suc i) n j f g (λ m k. h m (omega arith)) (ground arith) (omega arith) s,
  )
]

sum_range_ext :
    (i n : ℕ) (f g : ℕ → ℕ)
    → ((m : ℕ) → i ≤ m → m < i + n → f m ≡ g m)
    → sum_range i n f ≡ sum_range i n g
unfolding sum_range
sum_range_ext i zero f g h = refl
sum_range_ext i (suc n) f g h = omega (
  arith,
  h i (omega arith) (omega arith),
  sum_range_ext (suc i) n f g (λ m k l. h m (omega (arith, k)) (omega (arith, l))),
)

-- Changing one term.
pub sum_range_change :
    (i n j : ℕ) (f g : ℕ → ℕ)
    → i ≤ j
    → j < i + n
    → ((m : ℕ) → m ≢ j → f m ≡ g m)
    → sum_range i n f + g j ≡ sum_range i n g + f j
unfolding sum_range
sum_range_change i zero j f g lo hi h = absurd (omega (arith, lo, hi))
sum_range_change i (suc n) j f g lo hi h = elim (Bool-cases (i == j)) [
  | inl e ↦
      let same : i ≡ j = ground arith in
      let r =
        sum_range_ext (suc i) n f g (λ m k l. h m (λ z. absurd (omega (arith, z, k, same)))) in
      rw same (omega (arith, rw same at r))
  | inr e ↦
      let ne : i ≢ j = ground arith in
      omega (
        arith,
        h i ne,
        sum_range_change (suc i) n j f g (omega (arith, lo, ne)) (omega (arith, hi)) h,
      )
]

pub sum_range_term : (i n j : ℕ) (f : ℕ → ℕ) → i ≤ j → j < i + n → f j ≤ sum_range i n f
unfolding sum_range
sum_range_term i zero j f lo hi = absurd (omega (arith, lo, hi))
sum_range_term i (suc n) j f lo hi = elim (Bool-cases (i == j)) [
  | inl e ↦ let same : i ≡ j = ground arith in rw same (omega arith)
  | inr e ↦
      let ne : i ≢ j = ground arith in
      omega (arith, sum_range_term (suc i) n j f (omega (arith, lo, ne)) (omega (arith, hi)))
]

pub sum_range_zero : (i n : ℕ) (f : ℕ → ℕ) → ((m : ℕ) → m < i + n → f m ≡ 0) → sum_range i n f ≡ 0
unfolding sum_range
sum_range_zero i zero f h = refl
sum_range_zero i (suc n) f h =
    omega (arith, h i (omega arith), sum_range_zero (suc i) n f (λ m k. h m (omega (arith, k))))
