-- ===== src/Base/Bits.antt =====
-- Laws of `&` and `|` at variables: words cut at bit `k` are combined part by part.
use Prim.Native.Nat.{
  ℕ, zero, suc, ◌+◌, ◌-◌, ◌*◌, ◌/◌, ◌%◌, ◌^◌, ◌≤◌, ◌<◌, min, max, bit_and, bit_or, digits,
  bit_and-bitwise, bit_or-bitwise,
}
use mathlib.Core.Path.{◌≡◌, refl, ap}
use native.Mathlib.Nat.{pow-suc}
use native.Mathlib.Omega.{arith}

module _ (end : ℕ → ℕ) (op : ℕ → ℕ → ℕ) where
  digits_of_zero : (fuel y : ℕ) → digits end op fuel 0 y ≡ end y
  digits_of_zero zero y = refl
  digits_of_zero (suc fuel) y = refl

  -- Two counts of digits to go, neither less than the first argument, give the same number.
  enough_digits :
      (x y fuel more : ℕ) → x ≤ fuel → x ≤ more → digits end op more x y ≡ digits end op fuel x y
  enough_digits zero y fuel more le le' =
      omega (arith, digits_of_zero fuel y, digits_of_zero more y)
  enough_digits (suc x) y zero more le le' = absurd (omega arith)
  enough_digits (suc x) y (suc fuel) zero le le' = absurd (omega arith)
  enough_digits (suc x) y (suc fuel) (suc more) le le' =
      omega (arith, enough_digits (suc x / 2) (y / 2) fuel more (omega arith) (omega arith))

bit_and_halves : (x y : ℕ) → min (x % 2) (y % 2) + 2 * bit_and (x / 2) (y / 2) ≡ bit_and x y
bit_and_halves zero y = ground (arith, bit_and-bitwise 0 (y / 2), bit_and-bitwise 0 y)
bit_and_halves (suc x) y = ground (
  arith,
  enough_digits (λ u. zero) min (suc x / 2) (y / 2) x (suc x / 2) (omega arith) (omega arith),
  bit_and-bitwise (suc x / 2) (y / 2),
  bit_and-bitwise (suc x) y,
)

bit_or_halves : (x y : ℕ) → max (x % 2) (y % 2) + 2 * bit_or (x / 2) (y / 2) ≡ bit_or x y
bit_or_halves zero y = ground (arith, bit_or-bitwise 0 (y / 2), bit_or-bitwise 0 y)
bit_or_halves (suc x) y = ground (
  arith,
  enough_digits (λ u. u) max (suc x / 2) (y / 2) x (suc x / 2) (omega arith) (omega arith),
  bit_or-bitwise (suc x / 2) (y / 2),
  bit_or-bitwise (suc x) y,
)

double_shift : (q k : ℕ) → q * 2 ^ suc k ≡ 2 * (q * 2 ^ k)
double_shift q k = omega (arith, ap (λ (t : ℕ). q * t) (pow-suc 2 k))

pub bit_and_cut :
    (k q r p s : ℕ)
    → r < 2 ^ k
    → s < 2 ^ k
    → bit_and (q * 2 ^ k + r) (p * 2 ^ k + s) ≡ bit_and q p * 2 ^ k + bit_and r s
bit_and_cut zero q r p s hr hs = let none_left : bit_and 0 0 ≡ 0 = refl in ground (arith, none_left)
bit_and_cut (suc k) q r p s hr hs = ground (
  arith,
  bit_and_halves (q * 2 ^ suc k + r) (p * 2 ^ suc k + s),
  bit_and_halves r s,
  double_shift q k,
  double_shift p k,
  double_shift (bit_and q p) k,
  pow-suc 2 k,
  bit_and_cut k q (r / 2) p (s / 2) (omega arith) (omega arith),
)

pub bit_or_cut :
    (k q r p s : ℕ)
    → r < 2 ^ k
    → s < 2 ^ k
    → bit_or (q * 2 ^ k + r) (p * 2 ^ k + s) ≡ bit_or q p * 2 ^ k + bit_or r s
bit_or_cut zero q r p s hr hs = let none_left : bit_or 0 0 ≡ 0 = refl in ground (arith, none_left)
bit_or_cut (suc k) q r p s hr hs = ground (
  arith,
  bit_or_halves (q * 2 ^ suc k + r) (p * 2 ^ suc k + s),
  bit_or_halves r s,
  double_shift q k,
  double_shift p k,
  double_shift (bit_or q p) k,
  pow-suc 2 k,
  bit_or_cut k q (r / 2) p (s / 2) (omega arith) (omega arith),
)

bit_or-zero : (x : ℕ) → bit_or x 0 ≡ x
bit_or-zero x = within x x (omega arith)
  where
    within : (most x : ℕ) → x ≤ most → bit_or x 0 ≡ x
    within zero zero le = refl
    within zero (suc x) le = absurd (omega arith)
    within (suc most) zero le = refl
    within (suc most) (suc x) le =
        ground (arith, within most (suc x / 2) (omega arith), bit_or_halves (suc x) 0)

bit_and-zero : (x : ℕ) → bit_and x 0 ≡ 0
bit_and-zero x = within x x (omega arith)
  where
    within : (most x : ℕ) → x ≤ most → bit_and x 0 ≡ 0
    within zero zero le = refl
    within zero (suc x) le = absurd (omega arith)
    within (suc most) zero le = refl
    within (suc most) (suc x) le =
        ground (arith, within most (suc x / 2) (omega arith), bit_and_halves (suc x) 0)

-- A mask of `k` ones keeps what is below `2 ^ k`.
bit_and_ones : (k r : ℕ) → r < 2 ^ k → bit_and r (2 ^ k - 1) ≡ r
bit_and_ones zero r h = let none_left : bit_and 0 0 ≡ 0 = refl in ground (arith, none_left)
bit_and_ones (suc k) r h =
    ground
      (arith, bit_and_halves r (2 ^ suc k - 1), pow-suc 2 k, bit_and_ones k (r / 2) (omega arith))

-- A mask with no bit below `k`.
pub bit_and_high :
    (k q r p : ℕ) → r < 2 ^ k → bit_and (q * 2 ^ k + r) (p * 2 ^ k) ≡ bit_and q p * 2 ^ k
bit_and_high k q r p h = ground (arith, bit_and_cut k q r p 0, bit_and-zero r)

-- A mask with every bit below `k`.
pub bit_and_low :
    (k q r p : ℕ)
    → r < 2 ^ k
    → bit_and (q * 2 ^ k + r) (p * 2 ^ k + (2 ^ k - 1)) ≡ bit_and q p * 2 ^ k + r
bit_and_low k q r p h = ground (arith, bit_and_cut k q r p (2 ^ k - 1), bit_and_ones k r)

-- Bits from `k` on are set, and the part below stays.
pub bit_or_high :
    (k q r p : ℕ) → r < 2 ^ k → bit_or (q * 2 ^ k + r) (p * 2 ^ k) ≡ bit_or q p * 2 ^ k + r
bit_or_high k q r p h = ground (arith, bit_or_cut k q r p 0, bit_or-zero r)

-- The lowest bit.
pub bit_or-one : (x : ℕ) → bit_or x 1 ≡ x / 2 * 2 + 1
bit_or-one x = ground (arith, bit_or_halves x 1, bit_or-zero (x / 2))

pub bit_and-one : (x : ℕ) → bit_and x 1 ≡ x % 2
bit_and-one x = ground (arith, bit_and_halves x 1, bit_and-zero (x / 2))
