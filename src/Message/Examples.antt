-- ===== src/Message/Examples.antt =====
-- src/ice/error.cpp: the texts of some errors, on a system whose numbers are mostly one.
use ice_test.Base.{ℕ, ◌≡◌, ◌≢◌, refl, true, List, [], ◌∷◌, arith}
use ice_test.ErrorCode.{ErrorCode, native, type, to_bool}
use ice_test.Message.Entries.{StdErrc, entries, first_entries, last_entries}
use ice_test.Message.Text.{
  codes, format, erase_front, erase_sentence, erase_back, find_first_not_of, find, find_last_not_of,
  lower_while_ascii,
}
use ice_test.Message.Category.{
  Strings, system_message, search, unknown_error, message, native_message, before_nul, format_code,
  to_string, decimal_digits,
}
use ice_test.Message.Lookup.{system_message-injective}
use ice_test.Message.Number.{format_code_determines}

abbrev numbers : StdErrc → ℕ
numbers StdErrc.address_in_use = 98
numbers StdErrc.timed_out = 110
numbers e = 1

abbrev os : Strings
os = record {
  strerror_r = λ code. (true, codes "Broken pipe.");
  format_message = λ code. [];
  wide_size = λ wstr. 0;
  wide_bytes = λ wstr size. (0, []);
  platform = numbers;
  std_message = λ code. codes "std";
}

abbrev raw : List ℕ
raw = 32 ∷ 65 ∷ 99 ∷ 32 ∷ 46 ∷ 13 ∷ 10 ∷ []

text_is_cut : format raw ≡ codes "ac"
unfolding format erase_front erase_sentence erase_back find_first_not_of find find_last_not_of
    lower_while_ascii
text_is_cut = refl

in_use : system_message numbers 98 ≡ "address in use"
unfolding system_message search entries first_entries last_entries
in_use = refl

in_use_is_known : system_message numbers 98 ≢ unknown_error
unfolding system_message search entries first_entries last_entries
in_use_is_known = λ same. cc

abbrev in_use_code : ℕ
in_use_code = 98

system_message-injective_example : in_use_code ≡ in_use_code
system_message-injective_example = system_message-injective numbers 98 98 refl in_use_is_known

abbrev broken_pipe : ErrorCode
broken_pipe = record { value_ = 32 }

broken_pipe_text : format_code os (codes "write") broken_pipe ≡ codes "write: broken pipe (32)"
unfolding format_code to_string decimal_digits message native_message before_nul format erase_front
    erase_sentence erase_back find_first_not_of find find_last_not_of lower_while_ascii
broken_pipe_text = refl

is_error : to_bool broken_pipe ≡ true
unfolding to_bool
is_error = refl

is_native : type broken_pipe ≡ native
unfolding type
is_native = refl

format_code_determines_example : broken_pipe ≡ broken_pipe
format_code_determines_example =
    format_code_determines os (codes "write") (codes "write") broken_pipe broken_pipe (omega arith)
      (omega arith) is_error is_error is_native is_native refl
