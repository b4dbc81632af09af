-- ===== src/Message/Text.antt =====
-- src/ice/error.cpp: `native_category::format`, on the bytes of a string.
use Prim.Native.String.{String}
use Prim.Native.Char.{code}
use ice_test.Base.{
  ℕ, suc, ◌+◌, Bool, true, ◌&&◌, ◌||◌, ◌==◌, leb, List, [], ◌∷◌, take, drop, Option, none, some,
  if◌then◌else◌,
}

-- The bytes of a literal.
abbrev pub codes : String → List ℕ
codes String.[] = []
codes (String.◌∷◌ c s) = code c ∷ codes s

-- The characters of "\r\n ".
abbrev pub is_blank : ℕ → Bool
is_blank c = c == 13 || c == 10 || c == b' '

-- `std::string::find_first_not_of`, `find` and `find_last_not_of`: `none` is `npos`.
unfoldable pub find_first_not_of : (ℕ → Bool) → List ℕ → Option ℕ
find_first_not_of test [] = none
find_first_not_of test (c ∷ str) =
    if test c
    then elim (find_first_not_of test str) [ none ↦ none | some pos ↦ some (suc pos) ]
    else some 0

unfoldable pub find : ℕ → List ℕ → Option ℕ
find b [] = none
find b (c ∷ str) =
    if c == b then some 0 else elim (find b str) [ none ↦ none | some pos ↦ some (suc pos) ]

unfoldable pub find_last_not_of : (ℕ → Bool) → List ℕ → Option ℕ
find_last_not_of test [] = none
find_last_not_of test (c ∷ str) = elim (find_last_not_of test str) [
  | some pos ↦ some (suc pos)
  | none ↦ if test c then none else some 0
]

-- `std::tolower` in the "C" locale.
abbrev pub tolower : ℕ → ℕ
tolower c = if leb b'A' c && leb c b'Z' then c + 32 else c

-- The call of `std::transform`: the flag is `ascii`.
unfoldable pub lower_while_ascii : Bool → List ℕ → List ℕ
lower_while_ascii ascii [] = []
lower_while_ascii ascii (c ∷ str) =
    let prints = ascii && leb b' ' c && leb c b'~' in
    (if prints then tolower c else c) ∷ lower_while_ascii prints str

unfoldable pub erase_front : List ℕ → List ℕ
unfolding find_first_not_of
erase_front str = elim (find_first_not_of is_blank str) [ none ↦ str | some pos ↦ drop pos str ]

unfoldable pub erase_sentence : List ℕ → List ℕ
unfolding find
erase_sentence str = elim (find b'.' str) [ none ↦ str | some pos ↦ take pos str ]

unfoldable pub erase_back : List ℕ → List ℕ
unfolding find_last_not_of
erase_back str = elim (find_last_not_of is_blank str) [ none ↦ str | some pos ↦ take (suc pos) str ]

unfoldable pub format : List ℕ → List ℕ
unfolding erase_front erase_sentence erase_back lower_while_ascii
format str = lower_while_ascii true (erase_back (erase_sentence (erase_front str)))
