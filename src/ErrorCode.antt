-- ===== src/ErrorCode.antt =====
-- include/ice/error.h: `ice::error_code`, one `int` that carries an error number and, in bits 28 and
-- 29, the category that the number belongs to. An `int` is its bit pattern, a number below 2 ^ 32.
pub mod Pack
pub mod Compare
mod Examples
use Prim.Native.Nat.{bit_and, bit_or}
use ice_test.Base.{ℕ, ◌-◌, ◌%◌, ◌^◌, Bool, true, false, not, ◌&&◌, ◌==◌, if◌then◌else◌}
use ice_test.Base.Int.{ℤ, pos, negsuc}

-- `enum class errc`
pub data Errc : Type 0 where
  eof version : Errc

-- `enum class error_type`; a cast can give a value that is none of the three.
abbrev pub native : ℕ
native = 0

abbrev pub system : ℕ
system = 2 ^ 29

abbrev pub domain : ℕ
domain = bit_or (2 ^ 29) (2 ^ 28)

abbrev pub error_category_mask : ℕ
error_category_mask = bit_or (bit_or native system) domain

-- `~error_category_mask`
abbrev pub value_mask : ℕ
value_mask = 2 ^ 32 - 1 - error_category_mask

-- `static_cast<int>` of a value of any integral type.
abbrev pub to_int : ℤ → ℕ
to_int (pos n) = n % 2 ^ 32
to_int (negsuc n) = 2 ^ 32 - 1 - n % 2 ^ 32

-- `static_cast<int>(ice::errc)`
abbrev pub errc_value : Errc → ℕ
errc_value Errc.eof = 1
errc_value Errc.version = 2

pub record ErrorCode : Type 0 where
  pub value_ : ℕ

-- `error_code(T value)`, and what its assertion asks of the value.
unfoldable pub of_integral : ℤ → ErrorCode
of_integral v = record { value_ = to_int v }

unfoldable pub integral_assert : ℤ → Bool
integral_assert v = bit_and (to_int v) error_category_mask == native

-- `error_code(std::errc code)`: the argument is `static_cast<int>(code)`.
unfoldable pub of_std_errc : ℕ → ErrorCode
of_std_errc code = record { value_ = bit_or code system }

-- `error_code(ice::errc code)`
unfoldable pub of_errc : Errc → ErrorCode
of_errc code = record { value_ = bit_or (errc_value code) domain }

-- `error_code(int code, combined_t)`
unfoldable pub of_combined : ℕ → ErrorCode
of_combined code = record { value_ = code }

unfoldable pub combined : ErrorCode → ℕ
combined ec = ec.value_

-- `explicit operator bool`
unfoldable pub to_bool : ErrorCode → Bool
to_bool ec = not (ec.value_ == 0)

unfoldable pub clear : ErrorCode → ErrorCode
clear ec = record { value_ = 0 }

unfoldable pub type : ErrorCode → ℕ
type ec = bit_and ec.value_ error_category_mask

unfoldable pub value : ErrorCode → ℕ
value ec = bit_and ec.value_ value_mask

-- The four objects that `category()` can name.
pub data Category : Type 0 where
  native_category system_category domain_category std_system_category : Category

unfoldable pub category : ErrorCode → Category
unfolding type
category ec =
    if type ec == native
    then Category.native_category
    else if type ec == system
    then Category.system_category
    else if type ec == domain
    then Category.domain_category
    else Category.std_system_category

-- `operator==` between two codes, and with an enumerator or a number on either side.
unfoldable pub eq : ErrorCode → ErrorCode → Bool
unfolding combined
eq lhs rhs = combined lhs == combined rhs

unfoldable pub eq_errc : ErrorCode → Errc → Bool
unfolding type value
eq_errc lhs rhs = (type lhs == domain) && (value lhs == errc_value rhs)

unfoldable pub eq_std_errc : ErrorCode → ℕ → Bool
unfolding type value
eq_std_errc lhs rhs = (type lhs == system) && (value lhs == rhs)

unfoldable pub eq_integral : ErrorCode → ℤ → Bool
unfolding type value
eq_integral lhs rhs = (type lhs == native) && (value lhs == to_int rhs)

-- The negated operators, and those with the code on the right.
unfoldable pub ne : ErrorCode → ErrorCode → Bool
unfolding eq
ne lhs rhs = not (eq lhs rhs)

unfoldable pub ne_errc : ErrorCode → Errc → Bool
unfolding eq_errc
ne_errc lhs rhs = not (eq_errc lhs rhs)

unfoldable pub errc_eq : Errc → ErrorCode → Bool
unfolding eq_errc
errc_eq lhs rhs = eq_errc rhs lhs

unfoldable pub errc_ne : Errc → ErrorCode → Bool
unfolding ne_errc
errc_ne lhs rhs = ne_errc rhs lhs

unfoldable pub ne_std_errc : ErrorCode → ℕ → Bool
unfolding eq_std_errc
ne_std_errc lhs rhs = not (eq_std_errc lhs rhs)

unfoldable pub std_errc_eq : ℕ → ErrorCode → Bool
unfolding eq_std_errc
std_errc_eq lhs rhs = eq_std_errc rhs lhs

unfoldable pub std_errc_ne : ℕ → ErrorCode → Bool
unfolding ne_std_errc
std_errc_ne lhs rhs = ne_std_errc rhs lhs

unfoldable pub ne_integral : ErrorCode → ℤ → Bool
unfolding eq_integral
ne_integral lhs rhs = not (eq_integral lhs rhs)

unfoldable pub integral_eq : ℤ → ErrorCode → Bool
unfolding eq_integral
integral_eq lhs rhs = eq_integral rhs lhs

unfoldable pub integral_ne : ℤ → ErrorCode → Bool
unfolding ne_integral
integral_ne lhs rhs = ne_integral rhs lhs

-- `system_error(ice::error_code ec)` passes these two on to `std::system_error`.
pub record SystemError : Type 0 where
  pub code : ℕ
  pub category : Category

unfoldable pub system_error : ErrorCode → SystemError
unfolding value category
system_error ec = record { code = value ec; category = category ec }
