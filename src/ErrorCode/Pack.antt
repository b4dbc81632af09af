-- ===== src/ErrorCode/Pack.antt =====
-- include/ice/error.h: the two fields of a code, `type()` and `value()`, as arithmetic.
use Prim.Native.Nat.{bit_and, bit_or}
use ice_test.Base.{
  ℕ, zero, suc, ◌+◌, ◌-◌, ◌*◌, ◌/◌, ◌%◌, ◌^◌, ◌<◌, ◌≡◌, refl, Bool, true, false, if◌then◌else◌,
  ◌==◌, arith,
}
use ice_test.Base.Bits.{bit_and_high, bit_and_low, bit_or_high}
use ice_test.ErrorCode.{system, domain, error_category_mask, value_mask}

-- A test that holds of every number below the second argument.
passes : (ℕ → Bool) → ℕ → Bool
passes test zero = true
passes test (suc most) = if test most then passes test most else false

test_of_passes :
    (test : ℕ → Bool) (bound x : ℕ) → x < bound → passes test bound ≡ true → test x ≡ true
unfolding passes
test_of_passes test zero x lt all = absurd (omega arith)
test_of_passes test (suc most) x lt all = ground (arith, test_of_passes test most x)

-- The masks on the top four bits, checked value by value.
abbrev is_masked : ℕ → Bool
is_masked q = if bit_and q 12 == q - q % 4 then bit_and q 3 == q % 4 else false

sixteen_masked : passes is_masked 16 ≡ true
unfolding passes
sixteen_masked = refl

top_bits : (q : ℕ) → q < 16 → (bit_and q 3 ≡ q % 4) × (bit_and q 12 ≡ q - q % 4)
top_bits q h = ground (arith, test_of_passes is_masked 16 q h sixteen_masked)

pub type_lem : (w : ℕ) → w < 2 ^ 32 → bit_and w error_category_mask ≡ w / 2 ^ 28 % 4 * 2 ^ 28
type_lem w h = ground (
  arith,
  cut,
  bit_and_high 28 (w / 2 ^ 28) (w % 2 ^ 28) 3 (omega arith),
  top_bits (w / 2 ^ 28) (omega arith),
)
  where
    cut : w / 2 ^ 28 * 2 ^ 28 + w % 2 ^ 28 ≡ w
    cut = omega arith

pub value_lem :
    (w : ℕ)
    → w < 2 ^ 32
    → bit_and w value_mask ≡ (w / 2 ^ 28 - w / 2 ^ 28 % 4) * 2 ^ 28 + w % 2 ^ 28
value_lem w h = ground (
  arith,
  cut,
  bit_and_low 28 (w / 2 ^ 28) (w % 2 ^ 28) 12 (omega arith),
  top_bits (w / 2 ^ 28) (omega arith),
)
  where
    cut : w / 2 ^ 28 * 2 ^ 28 + w % 2 ^ 28 ≡ w
    cut = omega arith

-- A number below bit 28 and a category are joined by a sum.
pub system_lem : (code : ℕ) → code < 2 ^ 28 → bit_or code system ≡ system + code
system_lem code h =
    let joined : bit_or 0 2 ≡ 2 = refl in ground (arith, joined, bit_or_high 28 0 code 2 h)

pub domain_lem : (code : ℕ) → code < 2 ^ 28 → bit_or code domain ≡ domain + code
domain_lem code h =
    let joined : bit_or 0 3 ≡ 3 = refl in ground (arith, joined, bit_or_high 28 0 code 3 h)
