-- ===== src/ErrorCode/Compare.antt =====
-- include/ice/error.h: what the constructors, the accessors and the comparisons agree on.
use ice_test.Base.{Bool, not, false, ℕ, ◌+◌, ◌^◌, ◌<◌, ◌≡◌, ◌↔◌, ap, true, arith}
use ice_test.Base.Int.{ℤ, pos, negsuc}
use ice_test.ErrorCode.{
  ErrorCode, Errc, to_int, of_integral, integral_assert, of_std_errc, of_errc, errc_value, type,
  errc_eq, errc_ne, ne_errc, std_errc_eq, std_errc_ne, ne_std_errc, integral_eq, integral_ne,
  ne_integral, value, combined, Category, category, eq_errc, eq_std_errc, eq_integral, SystemError,
  system_error, system, domain,
}
use ice_test.ErrorCode.Pack.{type_lem, value_lem, system_lem, domain_lem}

abbrev pub IsInt : ErrorCode → Type 0
IsInt ec = ec.value_ < 2 ^ 32

to_int-lt : (v : ℤ) → to_int v < 2 ^ 32
to_int-lt (pos n) = omega arith
to_int-lt (negsuc n) = omega arith

-- For every code that fits an int, type() and value() add up to combined(): the two fields share no
-- bit and leave none out.
pub type-add-value : (ec : ErrorCode) → IsInt ec → type ec + value ec ≡ combined ec
unfolding type value combined
type-add-value ec h = ground (arith, type_lem ec.value_ h, value_lem ec.value_ h)

-- A number that the integral constructor's assertion admits comes back unchanged from value(), in
-- the native category.
pub integral_round_trip :
    (v : ℤ)
    → integral_assert v ≡ true
    → (category (of_integral v) ≡ Category.native_category) × (value (of_integral v) ≡ to_int v)
unfolding integral_assert category value of_integral
integral_round_trip v h =
    ground (arith, type_lem (to_int v) (to_int-lt v), value_lem (to_int v) (to_int-lt v))

-- A code compares equal to the number it was built from exactly when the constructor's assertion
-- holds of the number, negative numbers included.
pub eq_integral-of_integral : (v : ℤ) → eq_integral (of_integral v) v ≡ integral_assert v
unfolding integral_assert value of_integral eq_integral
eq_integral-of_integral v =
    ground (arith, type_lem (to_int v) (to_int-lt v), value_lem (to_int v) (to_int-lt v))

errc_value-lt : (code : Errc) → errc_value code < 2 ^ 28
errc_value-lt Errc.eof = omega arith
errc_value-lt Errc.version = omega arith

-- For every code that fits an int, operator== with an ice::errc holds exactly when the code is the
-- one that the constructor makes of that errc.
pub eq_errc_iff :
    (ec : ErrorCode) (code : Errc) → IsInt ec → (eq_errc ec code ≡ true) ↔ (ec ≡ of_errc code)
unfolding eq_errc of_errc
eq_errc_iff ec code h = ground (
  arith,
  errc_value-lt code,
  domain_lem (errc_value code) (errc_value-lt code),
  type_lem ec.value_ h,
  value_lem ec.value_ h,
)

-- For every code that fits an int and every std::errc below 2 ^ 28, operator== holds exactly when
-- the code is the one that the constructor makes of that errc.
pub eq_std_errc_iff :
    (ec : ErrorCode) (code : ℕ)
    → IsInt ec
    → code < 2 ^ 28
    → (eq_std_errc ec code ≡ true) ↔ (ec ≡ of_std_errc code)
unfolding eq_std_errc of_std_errc
eq_std_errc_iff ec code h hc =
    ground (arith, system_lem code hc, type_lem ec.value_ h, value_lem ec.value_ h)

eq_integral_iff :
    (ec : ErrorCode) (v : ℤ)
    → IsInt ec
    → integral_assert v ≡ true
    → (eq_integral ec v ≡ true) ↔ (ec ≡ of_integral v)
unfolding integral_assert eq_integral of_integral
eq_integral_iff ec v h small = ground (
  arith,
  type_lem ec.value_ h,
  value_lem ec.value_ h,
  type_lem (to_int v) (to_int-lt v),
  value_lem (to_int v) (to_int-lt v),
)

negated : (b : Bool) → (not b ≡ false) ↔ (b ≡ true)
negated b = ground arith

-- For every code that fits an int, every ice::errc, every std::errc below 2 ^ 28 and every number
-- that the constructor's assertion admits, operator== with each of them on the left holds, and
-- operator!= does not hold, exactly when the code is the one that the constructor makes of it.
pub comparisons :
    (ec : ErrorCode) (code : Errc) (std : ℕ) (v : ℤ)
    → IsInt ec
    → std < 2 ^ 28
    → integral_assert v ≡ true
    → ((errc_eq code ec ≡ true) ↔ (ec ≡ of_errc code))
      × ((errc_ne code ec ≡ false) ↔ (ec ≡ of_errc code))
      × ((std_errc_eq std ec ≡ true) ↔ (ec ≡ of_std_errc std))
      × ((std_errc_ne std ec ≡ false) ↔ (ec ≡ of_std_errc std))
      × ((integral_eq v ec ≡ true) ↔ (ec ≡ of_integral v))
      × ((integral_ne v ec ≡ false) ↔ (ec ≡ of_integral v))
unfolding errc_eq errc_ne ne_errc std_errc_eq std_errc_ne ne_std_errc integral_eq integral_ne
    ne_integral
comparisons ec code std v h small asserted = (
  eq_errc_iff ec code h,
  ground (arith, eq_errc_iff ec code h, negated (eq_errc ec code)),
  eq_std_errc_iff ec std h small,
  ground (arith, eq_std_errc_iff ec std h small, negated (eq_std_errc ec std)),
  eq_integral_iff ec v h asserted,
  ground (arith, eq_integral_iff ec v h asserted, negated (eq_integral ec v)),
)

-- A code keeps the type of what it was made from and its number: a number that the constructor's
-- assertion admits is in the native category, a std::errc below 2 ^ 28 in the system category and
-- an ice::errc in the domain category, and value() gives the number back.
pub constructors_typed :
    (v : ℤ) (std : ℕ) (code : Errc)
    → integral_assert v ≡ true
    → std < 2 ^ 28
    → ((category (of_integral v) ≡ Category.native_category) × (value (of_integral v) ≡ to_int v))
      × ((category (of_std_errc std) ≡ Category.system_category) × (value (of_std_errc std) ≡ std))
      × ((category (of_errc code) ≡ Category.domain_category)
          × (value (of_errc code) ≡ errc_value code))
unfolding category value of_std_errc of_errc type
constructors_typed v std code asserted small = (
  integral_round_trip v asserted,
  ground (
    arith,
    system_lem std small,
    type_lem (system + std) (omega arith),
    value_lem (system + std) (omega arith),
  ),
  ground (
    arith,
    errc_value-lt code,
    domain_lem (errc_value code) (errc_value-lt code),
    type_lem (domain + errc_value code) (omega (arith, errc_value-lt code)),
    value_lem (domain + errc_value code) (omega (arith, errc_value-lt code)),
  ),
)

-- Two codes that fit an int and give system_error the same value and category are the same code:
-- the exception loses nothing.
pub system_error-injective :
    (a b : ErrorCode) → IsInt a → IsInt b → system_error a ≡ system_error b → a ≡ b
unfolding system_error
system_error-injective a b ha hb e = ground (
  arith,
  ap (λ (r : SystemError). r.code) e,
  ap (λ (r : SystemError). r.category) e,
  type_lem a.value_ ha,
  value_lem a.value_ ha,
  type_lem b.value_ hb,
  value_lem b.value_ hb,
)
