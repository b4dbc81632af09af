-- ===== src/Message/Category.antt =====
-- src/ice/error.cpp: `message` of the three categories, and the two `format` functions.
use Prim.Native.String.{String}
use ice_test.Base.{
  ℕ, zero, suc, ◌+◌, ◌-◌, ◌/◌, ◌%◌, ◌^◌, Bool, ◌==◌, ltb, List, [], ◌∷◌, ◌++◌, length, Option, none,
  some, if◌then◌else◌,
}
use ice_test.ErrorCode.{
  ErrorCode, SystemError, Category, Errc, errc_value, type, value, category, native, to_bool,
}
use ice_test.Message.Entries.{StdErrc, entries}
use ice_test.Message.Text.{codes, format}

abbrev pub unknown_error : String
unknown_error = "unknown error"

-- `strnlen`: the bytes before the first NUL, `limit` at most.
unfoldable pub before_nul : ℕ → List ℕ → List ℕ
before_nul zero str = []
before_nul (suc limit) [] = []
before_nul (suc limit) (c ∷ str) = if c == 0 then [] else c ∷ before_nul limit str

-- What the messages ask of the system. `strerror_r` gives whether its result compares equal to 0,
-- and the 1024 bytes of the buffer; `format_message` gives the wide characters that are read, none
-- on a failure or if they cannot be stored; `wide_size` and `wide_bytes` are the two calls of
-- `WideCharToMultiByte`, the second with the size of the buffer, giving its result and the buffer.
pub record Strings : Type 0 where
  pub strerror_r : ℕ → Bool × List ℕ
  pub format_message : ℕ → List ℕ
  pub wide_size : List ℕ → ℕ
  pub wide_bytes : List ℕ → ℕ → ℕ × List ℕ
  pub platform : StdErrc → ℕ
  pub std_message : ℕ → List ℕ

-- A chain of tests of a code against the numbers of names.
unfoldable pub search : {N : Type 0} → (N → ℕ) → List (N × String) → ℕ → Option String
search number [] code = none
search number ((name, text) ∷ rest) code =
    if code == number name then some text else search number rest code

-- `system_category::message`
unfoldable pub system_message : (StdErrc → ℕ) → ℕ → String
unfolding search entries
system_message platform code = elim (search platform entries code) [
  | some text ↦ text
  | none ↦ unknown_error
]

-- The value of a switch on the `ice::errc` values.
unfoldable pub domain_message : ℕ → String
domain_message code =
    if code == errc_value Errc.eof
    then "end of file"
    else if code == errc_value Errc.version
    then "version mismatch"
    else unknown_error

-- `name` of the categories, and that of `std::system_category`.
unfoldable pub name : Category → String
name Category.native_category = "native"
name Category.system_category = "system"
name Category.domain_category = "domain"
name Category.std_system_category = "system"

-- `std::to_string` of a number, and of an `int` given by its bit pattern.
unfoldable pub decimal_digits : ℕ → ℕ → List ℕ → List ℕ
decimal_digits zero n after = after
decimal_digits (suc fuel) n after =
    let more = decimal_digits fuel (n / 10) ((b'0' + n % 10) ∷ after) in
    if ltb n 10 then (b'0' + n) ∷ after else more

unfoldable pub to_string : ℕ → List ℕ
unfolding decimal_digits
to_string w =
    if ltb w (2 ^ 31) then decimal_digits 10 w [] else b'-' ∷ decimal_digits 10 (2 ^ 32 - w) []

module _ (os : Strings) where
  unfoldable pub native_message : ℕ → List ℕ
  unfolding format before_nul
  native_message code =
      let (zero_result, str) = os.strerror_r code in
      if zero_result then format (before_nul 1024 str) else codes unknown_error

  -- The same function on Windows.
  unfoldable pub native_message_windows : ℕ → List ℕ
  unfolding format before_nul
  native_message_windows code =
      let wstr = os.format_message code in
      let answer = os.wide_bytes wstr (os.wide_size wstr + 1) in
      elim wstr [
        | [] ↦ codes unknown_error
        | c ∷ rest ↦
            if ltb 0 answer.0 then format (before_nul answer.0 answer.1) else codes unknown_error
      ]

  -- `message` of the category of an error, and of its default condition.
  unfoldable pub category_message : Category → ℕ → List ℕ
  unfolding native_message system_message domain_message
  category_message Category.native_category code = native_message code
  category_message Category.system_category code = codes (system_message os.platform code)
  category_message Category.domain_category code = codes (domain_message code)
  category_message Category.std_system_category code = os.std_message code

  -- `error_code::message`
  unfoldable pub message : ErrorCode → List ℕ
  unfolding category value category_message
  message ec = category_message (category ec) (value ec)

  -- `format(std::string, ice::error_code)`
  unfoldable pub format_code : List ℕ → ErrorCode → List ℕ
  unfolding to_bool message type value to_string
  format_code what ec =
      let named = what ++ (codes ": " ++ message ec) in
      if to_bool ec
      then if type ec == native
        then named ++ (codes " (" ++ (to_string (value ec) ++ (b')' ∷ [])))
        else named
      else what

  -- `format(std::string, std::error_code)`, for the number and the category of the code.
  unfoldable pub format_std_code : List ℕ → SystemError → List ℕ
  unfolding category_message to_string
  format_std_code what ec =
      let named = what ++ (codes ": " ++ category_message ec.category ec.code) in
      if ec.code == 0 then what else named ++ (codes " (" ++ (to_string ec.code ++ (b')' ∷ [])))

  -- `operator<<`: what is added to the stream, the message as a C string.
  unfoldable pub printed : ErrorCode → List ℕ
  unfolding message type value to_string before_nul
  printed ec =
      let text = before_nul (length (message ec)) (message ec) in
      if type ec == native
      then text ++ (codes " (" ++ (to_string (value ec) ++ (b')' ∷ [])))
      else text
