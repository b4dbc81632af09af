-- ===== src/ErrorCode/Examples.antt =====
-- include/ice/error.h at concrete codes.
use ice_test.Base.{◌≡◌, ◌↔◌, refl, true, false, arith}
use ice_test.Base.Int.{pos, negsuc}
use ice_test.ErrorCode.{
  ErrorCode, Errc, of_integral, integral_assert, of_std_errc, of_errc, Category, category, errc_eq,
  value, to_int, errc_value, errc_ne, std_errc_eq, std_errc_ne, integral_eq, integral_ne,
}
use ice_test.ErrorCode.Compare.{comparisons, constructors_typed}

abbrev refused : ErrorCode
refused = record { value_ = 0x2000006f }

is_asserted : integral_assert (pos 0x6f) ≡ true
unfolding integral_assert
is_asserted = refl

-- -1 sets the bits of the category, so the code is one of the domain.
negative_number : category (of_integral (negsuc 0)) ≡ Category.domain_category
unfolding category of_integral
negative_number = refl

comparisons_example :
    ((errc_eq Errc.eof refused ≡ true) ↔ (refused ≡ of_errc Errc.eof))
    × ((errc_ne Errc.eof refused ≡ false) ↔ (refused ≡ of_errc Errc.eof))
    × ((std_errc_eq 0x6f refused ≡ true) ↔ (refused ≡ of_std_errc 0x6f))
    × ((std_errc_ne 0x6f refused ≡ false) ↔ (refused ≡ of_std_errc 0x6f))
    × ((integral_eq (pos 0x6f) refused ≡ true) ↔ (refused ≡ of_integral (pos 0x6f)))
    × ((integral_ne (pos 0x6f) refused ≡ false) ↔ (refused ≡ of_integral (pos 0x6f)))
comparisons_example =
    comparisons refused Errc.eof 0x6f (pos 0x6f) (omega arith) (omega arith) is_asserted

constructors_typed_example :
    ((category (of_integral (pos 0x6f)) ≡ Category.native_category)
      × (value (of_integral (pos 0x6f)) ≡ to_int (pos 0x6f)))
    × ((category (of_std_errc 0x6f) ≡ Category.system_category) × (value (of_std_errc 0x6f) ≡ 0x6f))
    × ((category (of_errc Errc.version) ≡ Category.domain_category)
        × (value (of_errc Errc.version) ≡ errc_value Errc.version))
constructors_typed_example =
    constructors_typed (pos 0x6f) 0x6f Errc.version is_asserted (omega arith)
