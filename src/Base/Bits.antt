-- ===== src/Base/Bits.antt =====
-- Laws of `&` and `|` at variables: they act on the high and the low part of a number apart.
use Prim.Native.Nat.{
  ℕ, zero, suc, ◌+◌, ◌-◌, ◌*◌, ◌/◌, ◌%◌, ◌^◌, ◌≤◌, ◌<◌, min, max, bit_and, bit_or, digits, bitwise,
  bit_and-bitwise, bit_or-bitwise,
}
use mathlib.Core.Path.{◌≡◌, refl, sym, ap, ap₂, ◌∙◌}
use native.Mathlib.Nat.{pow-suc, one-le-pow, le_refl}
use native.Mathlib.Omega.{arith}

-- The recursion that the native operations stand for does not depend on its fuel.
digits-fuel :
    (z : ℕ → ℕ) (f : ℕ → ℕ → ℕ) (n m a b : ℕ) → a ≤ n → a ≤ m → digits z f n a b ≡ digits z f m a b
digits-fuel z f zero zero a b p q = refl
digits-fuel z f zero (suc m) zero b p q = refl
digits-fuel z f zero (suc m) (suc a) b p q = absurd (omega arith)
digits-fuel z f (suc n) zero zero b p q = refl
digits-fuel z f (suc n) zero (suc a) b p q = absurd (omega arith)
digits-fuel z f (suc n) (suc m) zero b p q = refl
digits-fuel z f (suc n) (suc m) (suc a) b p q =
    rw (digits-fuel z f n m (suc a / 2) (b / 2) (omega arith) (omega arith))

low_digit :
    (z : ℕ → ℕ) (f : ℕ → ℕ → ℕ) (a b : ℕ)
    → bitwise z f (suc a) b ≡ bitwise z f (suc a / 2) (b / 2) * 2 + f (suc a % 2) (b % 2)
low_digit z f a b =
    omega (arith, digits-fuel z f a (suc a / 2) (suc a / 2) (b / 2) (omega arith) (le_refl _))

and_low : (a b : ℕ) → bit_and a b ≡ bit_and (a / 2) (b / 2) * 2 + min (a % 2) (b % 2)
and_low zero b = simp bit_and-bitwise (omega arith)
and_low (suc a) b = simp bit_and-bitwise (low_digit (λ y. 0) min a b)

or_low : (a b : ℕ) → bit_or a b ≡ bit_or (a / 2) (b / 2) * 2 + max (a % 2) (b % 2)
or_low zero b = simp bit_or-bitwise (omega arith)
or_low (suc a) b = simp bit_or-bitwise (low_digit (λ y. y) max a b)

double_shift : (q k : ℕ) → q * 2 ^ suc k ≡ 2 * (q * 2 ^ k)
double_shift q k = omega (arith, ap (λ (t : ℕ). q * t) (pow-suc 2 k))

-- `&` of two numbers that are cut at bit `k`.
bit_and_split :
    (k q r q' r' : ℕ)
    → r < 2 ^ k
    → r' < 2 ^ k
    → bit_and (q * 2 ^ k + r) (q' * 2 ^ k + r') ≡ bit_and q q' * 2 ^ k + bit_and r r'
bit_and_split zero q r q' r' h h' =
    let z : r ≡ 0 = omega arith in
    let z' : r' ≡ 0 = omega arith in rw (z, z', unit q, unit q') (omega arith)
  where
    unit : (a : ℕ) → a * 2 ^ 0 + 0 ≡ a
    unit a = omega arith
bit_and_split (suc k) q r q' r' h h' = omega (
  arith,
  double_shift q k,
  double_shift q' k,
  double_shift (bit_and q q') k,
  pow-suc 2 k,
  and_low (q * 2 ^ suc k + r) (q' * 2 ^ suc k + r'),
  and_low r r',
  ap₂ bit_and (half q r) (half q' r'),
  bit_and_split k q (r / 2) q' (r' / 2) (omega (arith, pow-suc 2 k)) (omega (arith, pow-suc 2 k)),
)
  where
    half : (a b : ℕ) → (a * 2 ^ suc k + b) / 2 ≡ a * 2 ^ k + b / 2
    half a b = omega (arith, double_shift a k)

-- `|` of two numbers that are cut at bit `k`.
bit_or_split :
    (k q r q' r' : ℕ)
    → r < 2 ^ k
    → r' < 2 ^ k
    → bit_or (q * 2 ^ k + r) (q' * 2 ^ k + r') ≡ bit_or q q' * 2 ^ k + bit_or r r'
bit_or_split zero q r q' r' h h' =
    let z : r ≡ 0 = omega arith in
    let z' : r' ≡ 0 = omega arith in rw (z, z', unit q, unit q') (omega arith)
  where
    unit : (a : ℕ) → a * 2 ^ 0 + 0 ≡ a
    unit a = omega arith
bit_or_split (suc k) q r q' r' h h' = omega (
  arith,
  double_shift q k,
  double_shift q' k,
  double_shift (bit_or q q') k,
  pow-suc 2 k,
  or_low (q * 2 ^ suc k + r) (q' * 2 ^ suc k + r'),
  or_low r r',
  ap₂ bit_or (half q r) (half q' r'),
  bit_or_split k q (r / 2) q' (r' / 2) (omega (arith, pow-suc 2 k)) (omega (arith, pow-suc 2 k)),
)
  where
    half : (a b : ℕ) → (a * 2 ^ suc k + b) / 2 ≡ a * 2 ^ k + b / 2
    half a b = omega (arith, double_shift a k)

bit_and-zero_below : (n a : ℕ) → a ≤ n → bit_and a 0 ≡ 0
bit_and-zero_below n zero h = refl
bit_and-zero_below zero (suc a) h = absurd (omega arith)
bit_and-zero_below (suc n) (suc a) h =
    omega (arith, and_low (suc a) 0, bit_and-zero_below n (suc a / 2) (omega arith))

bit_and-zero : (a : ℕ) → bit_and a 0 ≡ 0
bit_and-zero a = bit_and-zero_below a a (omega arith)

bit_or-zero_below : (n a : ℕ) → a ≤ n → bit_or a 0 ≡ a
bit_or-zero_below n zero h = refl
bit_or-zero_below zero (suc a) h = absurd (omega arith)
bit_or-zero_below (suc n) (suc a) h =
    omega (arith, or_low (suc a) 0, bit_or-zero_below n (suc a / 2) (omega arith))

bit_or-zero : (a : ℕ) → bit_or a 0 ≡ a
bit_or-zero a = bit_or-zero_below a a (omega arith)

zero-bit_or : (a : ℕ) → bit_or 0 a ≡ a
zero-bit_or a = simp bit_or-bitwise

bit_and-ones_below : (k r : ℕ) → r < 2 ^ k → bit_and r (2 ^ k - 1) ≡ r
bit_and-ones_below zero r h = omega (arith, bit_and-zero r)
bit_and-ones_below (suc k) r h =
    let m : (2 ^ suc k - 1) / 2 ≡ 2 ^ k - 1 = omega (arith, pow-suc 2 k, one-le-pow k 2) in
    omega (
      arith,
      pow-suc 2 k,
      one-le-pow k 2,
      and_low r (2 ^ suc k - 1),
      ap (bit_and (r / 2)) m,
      bit_and-ones_below k (r / 2) (omega (arith, pow-suc 2 k)),
    )

-- A number, cut at bit `k`.
pub cut : (k a : ℕ) → (a ≡ a / 2 ^ k * 2 ^ k + a % 2 ^ k) × (a % 2 ^ k < 2 ^ k)
cut k a = ground (arith, one-le-pow k 2)

-- `& (2^k - 1)` is the remainder by 2^k.
pub bit_and-ones : (k a : ℕ) → bit_and a (2 ^ k - 1) ≡ a % 2 ^ k
bit_and-ones k a =
    let c = cut k a in
    let s =
      bit_and_split k (a / 2 ^ k) (a % 2 ^ k) 0 (2 ^ k - 1) c.1 (omega (arith, one-le-pow k 2)) in
    let m : 0 * 2 ^ k + (2 ^ k - 1) ≡ 2 ^ k - 1 = omega arith in
    ground
      (arith, ap₂ bit_and c.0 m, s, bit_and-zero (a / 2 ^ k), bit_and-ones_below k (a % 2 ^ k) c.1)

-- `& (((2^w - 1) << lo)` keeps the `w` bits from bit `lo` on.
pub bit_and-field : (lo w a : ℕ) → bit_and a ((2 ^ w - 1) * 2 ^ lo) ≡ a / 2 ^ lo % 2 ^ w * 2 ^ lo
bit_and-field lo w a =
    let c = cut lo a in
    let s =
      bit_and_split lo (a / 2 ^ lo) (a % 2 ^ lo) (2 ^ w - 1) 0 c.1
        (omega (arith, one-le-pow lo 2)) in
    let m : (2 ^ w - 1) * 2 ^ lo + 0 ≡ (2 ^ w - 1) * 2 ^ lo = omega arith in
    let d : bit_and a ((2 ^ w - 1) * 2 ^ lo)
        ≡ bit_and (a / 2 ^ lo) (2 ^ w - 1) * 2 ^ lo + bit_and (a % 2 ^ lo) 0 =
      ap₂ bit_and c.0 (sym m) ∙ s in
    rw (d, bit_and-zero (a % 2 ^ lo), bit_and-ones w (a / 2 ^ lo)) (omega arith)

-- A mask with a hole from bit `lo` to bit `hi` and `n` bits above keeps what is outside the hole.
pub bit_and-hole :
    (hi n lo a : ℕ)
    → 2 ^ lo ≤ 2 ^ hi
    → a % 2 ^ hi % 2 ^ lo ≡ a % 2 ^ lo
    → bit_and a ((2 ^ n - 1) * 2 ^ hi + (2 ^ lo - 1)) ≡ a / 2 ^ hi % 2 ^ n * 2 ^ hi + a % 2 ^ lo
bit_and-hole hi n lo a le same =
    let c = cut hi a in
    let s =
      bit_and_split hi (a / 2 ^ hi) (a % 2 ^ hi) (2 ^ n - 1) (2 ^ lo - 1) c.1
        (omega (arith, one-le-pow lo 2)) in
    let d : bit_and a ((2 ^ n - 1) * 2 ^ hi + (2 ^ lo - 1))
        ≡ bit_and (a / 2 ^ hi) (2 ^ n - 1) * 2 ^ hi + bit_and (a % 2 ^ hi) (2 ^ lo - 1) =
      ap (λ (t : ℕ). bit_and t ((2 ^ n - 1) * 2 ^ hi + (2 ^ lo - 1))) c.0 ∙ s in
    rw (d, bit_and-ones n (a / 2 ^ hi), bit_and-ones lo (a % 2 ^ hi), same) refl

-- `|` puts a field into a number that is zero there.
pub bit_or-field :
    (hi lo h l x : ℕ)
    → l < 2 ^ lo
    → 2 ^ lo ≤ 2 ^ hi
    → x * 2 ^ lo < 2 ^ hi
    → bit_or (h * 2 ^ hi + l) (x * 2 ^ lo) ≡ h * 2 ^ hi + (x * 2 ^ lo + l)
bit_or-field hi lo h l x small le fits =
    let s = bit_or_split hi h l 0 (x * 2 ^ lo) (omega arith) fits in
    let t = bit_or_split lo 0 l x 0 small (omega (arith, one-le-pow lo 2)) in
    let a : 0 * 2 ^ hi + x * 2 ^ lo ≡ x * 2 ^ lo = omega arith in
    let b : 0 * 2 ^ lo + l ≡ l = omega arith in
    let c : x * 2 ^ lo + 0 ≡ x * 2 ^ lo = omega arith in
    let low : bit_or l (x * 2 ^ lo) ≡ x * 2 ^ lo + l =
      ap₂ bit_or (sym b) (sym c)
      ∙ t
      ∙ ap₂ (λ (u v : ℕ). u * 2 ^ lo + v) (zero-bit_or x) (bit_or-zero l) in
    ap (bit_or (h * 2 ^ hi + l)) (sym a) ∙ s ∙ ap₂ (λ (u v : ℕ). u * 2 ^ hi + v) (bit_or-zero h) low

-- `| (1 << k)` sets bit `k`.
pub bit_or-bit : (k a : ℕ) → bit_or a (2 ^ k) ≡ (a / 2 ^ k / 2 * 2 + 1) * 2 ^ k + a % 2 ^ k
bit_or-bit k a =
    let c = cut k a in
    let s = bit_or_split k (a / 2 ^ k) (a % 2 ^ k) 1 0 c.1 (omega (arith, one-le-pow k 2)) in
    let b : 1 * 2 ^ k + 0 ≡ 2 ^ k = omega arith in
    let top : bit_or (a / 2 ^ k) 1 ≡ a / 2 ^ k / 2 * 2 + 1 =
      omega (arith, or_low (a / 2 ^ k) 1, bit_or-zero (a / 2 ^ k / 2)) in
    ap₂ bit_or c.0 (sym b) ∙ s ∙ ap₂ (λ (u v : ℕ). u * 2 ^ k + v) top (bit_or-zero (a % 2 ^ k))
