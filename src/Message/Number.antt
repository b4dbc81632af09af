-- ===== src/Message/Number.antt =====
-- src/ice/error.cpp: the number in a formatted text can be read back.
use ice_test.Base.{
  ℕ, zero, suc, ◌+◌, ◌-◌, ◌*◌, ◌/◌, ◌%◌, ◌^◌, ◌<◌, Bool, true, false, ◌&&◌, ◌==◌, ltb, leb, List,
  [], ◌∷◌, ◌++◌, Option, none, some, if◌then◌else◌, ◌≡◌, refl, sym, ap, ◌∙◌, arith, Bool-cases, inl,
  inr,
}
use ice_test.ErrorCode.{ErrorCode, type, value, native, to_bool, combined}
use ice_test.ErrorCode.Compare.{IsInt, type-add-value}
use ice_test.Message.Text.{codes}
use ice_test.Message.Category.{Strings, decimal_digits, to_string, native_message, format_code}
use package.native.Mathlib.Nat.{pow-suc}

-- Reads a number up to the first byte that is no digit.
unfoldable pub read_digits : ℕ → List ℕ → ℕ
read_digits n [] = n
read_digits n (c ∷ str) =
    let rest = read_digits (n * 10 + (c - 48)) str in if leb b'0' c && leb c b'9' then rest else n

read_int : List ℕ → ℕ
unfolding read_digits
read_int [] = 0
read_int (c ∷ str) = if c == b'-' then 2 ^ 32 - read_digits 0 str else read_digits 0 (c ∷ str)

-- What follows the last such byte, if there is one.
unfoldable pub after_last : ℕ → List ℕ → Option (List ℕ)
after_last mark [] = none
after_last mark (c ∷ str) = elim (after_last mark str) [
  | some found ↦ some found
  | none ↦ if c == mark then some str else none
]

abbrev pub digit : ℕ → Bool
digit c = leb b'0' c && leb c b'9'

pub read-decimal_digits :
    (fuel n : ℕ) (after : List ℕ)
    → n < 10 ^ fuel
    → read_digits 0 (decimal_digits fuel n after) ≡ read_digits n after
unfolding read_digits decimal_digits
read-decimal_digits zero n after lt = ground arith
read-decimal_digits (suc fuel) n after lt =
    ground (arith, pow-suc 10 fuel, read-decimal_digits fuel (n / 10) ((b'0' + n % 10) ∷ after))

decimal_digits-append :
    (fuel n : ℕ) (after more : List ℕ)
    → decimal_digits fuel n after ++ more ≡ decimal_digits fuel n (after ++ more)
unfolding decimal_digits
decimal_digits-append zero n after more = refl
decimal_digits-append (suc fuel) n after more =
    ground (arith, decimal_digits-append fuel (n / 10) ((b'0' + n % 10) ∷ after) more)

pub none_last-decimal_digits :
    (mark fuel n : ℕ) (after : List ℕ)
    → digit mark ≡ false
    → after_last mark after ≡ none
    → after_last mark (decimal_digits fuel n after) ≡ none
unfolding decimal_digits after_last
none_last-decimal_digits mark zero n after other missing = missing
none_last-decimal_digits mark (suc fuel) n after other missing = ground (
  arith,
  other,
  missing,
  none_last-decimal_digits mark fuel (n / 10) ((b'0' + n % 10) ∷ after) other,
)

pub after_last-append :
    (mark : ℕ) (before after found : List ℕ)
    → after_last mark after ≡ some found
    → after_last mark (before ++ after) ≡ some found
unfolding after_last
after_last-append mark [] after found at = at
after_last-append mark (c ∷ before) after found at =
    ground (arith, after_last-append mark before after found at)

after_last_bracket :
    (after : List ℕ)
    → after_last b'(' after ≡ none
    → after_last b'(' (codes " (" ++ after) ≡ some after
unfolding after_last
after_last_bracket after missing = ground (arith, missing)

no_sign-decimal_digits :
    (fuel n : ℕ) (after : List ℕ)
    → read_int after ≡ read_digits 0 after
    → read_int (decimal_digits fuel n after) ≡ read_digits 0 (decimal_digits fuel n after)
unfolding read_int read_digits decimal_digits
no_sign-decimal_digits zero n after plain = plain
no_sign-decimal_digits (suc fuel) n after plain =
    ground (arith, no_sign-decimal_digits fuel (n / 10) ((b'0' + n % 10) ∷ after))

read_back : (fuel n : ℕ) → n < 10 ^ fuel → read_int (decimal_digits fuel n (b')' ∷ [])) ≡ n
unfolding read_int read_digits
read_back fuel n lt =
    no_sign-decimal_digits fuel n (b')' ∷ []) refl ∙ read-decimal_digits fuel n (b')' ∷ []) lt

read_back_signed :
    (fuel n : ℕ) → n < 10 ^ fuel → read_int (b'-' ∷ decimal_digits fuel n (b')' ∷ [])) ≡ 2 ^ 32 - n
unfolding read_int read_digits
read_back_signed fuel n lt = ap (λ t. 2 ^ 32 - t) (read-decimal_digits fuel n (b')' ∷ []) lt)

to_string_lem :
    (w : ℕ) (after : List ℕ)
    → to_string w ++ after ≡ (
        if ltb w (2 ^ 31)
        then decimal_digits 10 w after
        else b'-' ∷ decimal_digits 10 (2 ^ 32 - w) after)
unfolding to_string
to_string_lem w after = elim (Bool-cases (ltb w (2 ^ 31))) [
  | inl small ↦ rw (small) (decimal_digits-append 10 w [] after)
  | inr large ↦ rw (large) (ap (◌∷◌ b'-') (decimal_digits-append 10 (2 ^ 32 - w) [] after))
]

-- The bracket that closes ends a number.
read-to_string : (w : ℕ) → w < 2 ^ 32 → read_int (to_string w ++ (b')' ∷ [])) ≡ w
read-to_string w lt = elim (Bool-cases (ltb w (2 ^ 31))) [
  | inl small ↦ rw (to_string_lem w (b')' ∷ []), small) (read_back 10 w (omega arith))
  | inr large ↦
      rw (to_string_lem w (b')' ∷ []), large)
        (read_back_signed 10 (2 ^ 32 - w) (omega arith) ∙ omega arith)
]

no_open-to_string : (w : ℕ) → after_last b'(' (to_string w ++ (b')' ∷ [])) ≡ none
unfolding after_last to_string
no_open-to_string w = ground (
  arith,
  decimal_digits-append 10 w [] (b')' ∷ []),
  decimal_digits-append 10 (2 ^ 32 - w) [] (b')' ∷ []),
  none_last-decimal_digits b'(' 10 w (b')' ∷ []) refl,
  none_last-decimal_digits b'(' 10 (2 ^ 32 - w) (b')' ∷ []) refl,
)

to_string-injective :
    (v w : ℕ)
    → v < 2 ^ 32
    → w < 2 ^ 32
    → to_string v ++ (b')' ∷ []) ≡ to_string w ++ (b')' ∷ [])
    → v ≡ w
to_string-injective v w lt lt' same =
    sym (read-to_string v lt) ∙ (ap read_int same ∙ read-to_string w lt')

-- What a native error's text ends with.
ends_with_number :
    (os : Strings) (what : List ℕ) (ec : ErrorCode)
    → to_bool ec ≡ true
    → type ec ≡ native
    → after_last b'(' (format_code os what ec) ≡ some (to_string (value ec) ++ (b')' ∷ []))
unfolding format_code
ends_with_number os what ec failed is_native =
    rw (failed, is_native)
      (after_last-append b'(' (what ++ (codes ": " ++ native_message os (value ec)))
        (codes " (" ++ (to_string (value ec) ++ (b')' ∷ []))) (to_string (value ec) ++ (b')' ∷ []))
        (after_last_bracket (to_string (value ec) ++ (b')' ∷ [])) (no_open-to_string (value ec))))

value-bounded : (ec : ErrorCode) → IsInt ec → value ec < 2 ^ 32
unfolding combined
value-bounded ec lt = omega (arith, lt, type-add-value ec lt)

pub some_bytes : {a b : List ℕ} → some a ≡ some b → a ≡ b
some_bytes same = cc

-- Two native errors that are no success and fit an int, formatted each after some text, give the
-- same text only if they are the same code, whatever the messages of the system and the texts
-- before are.
pub format_code_determines :
    (os : Strings) (what what' : List ℕ) (a b : ErrorCode)
    → IsInt a
    → IsInt b
    → to_bool a ≡ true
    → to_bool b ≡ true
    → type a ≡ native
    → type b ≡ native
    → format_code os what a ≡ format_code os what' b
    → a ≡ b
unfolding combined
format_code_determines os what what' a b lt lt' failed failed' is_native is_native' same =
    let ends =
      sym (ends_with_number os what a failed is_native)
      ∙ (ap (after_last b'(') same ∙ ends_with_number os what' b failed' is_native') in
    let values =
      to_string-injective (value a) (value b) (value-bounded a lt) (value-bounded b lt')
        (some_bytes ends) in
    ground (arith, values, type-add-value a lt, type-add-value b lt')
