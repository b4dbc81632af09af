-- ===== src/Message/Lowered.antt =====
-- src/ice/error.cpp: the call of `std::transform` in `native_category::format` changes letters alone.
use ice_test.Base.{
  ℕ, zero, suc, Bool, ◌&&◌, ◌==◌, leb, List, [], ◌∷◌, take, if◌then◌else◌, ◌≡◌, refl, ap, arith,
}
use ice_test.Message.Text.{
  is_blank, find_first_not_of, find, find_last_not_of, tolower, lower_while_ascii,
}

pub tolower_blank : (c : ℕ) → is_blank (tolower c) ≡ is_blank c
tolower_blank c = ground arith

pub tolower_stop : (c : ℕ) → (tolower c == b'.') ≡ (c == b'.')
tolower_stop c = ground arith

pub tolower_again : (c : ℕ) → tolower (tolower c) ≡ tolower c
tolower_again c = ground arith

pub tolower_prints :
    (c : ℕ) → (leb b' ' (tolower c) && leb (tolower c) b'~') ≡ (leb b' ' c && leb c b'~')
tolower_prints c = ground arith

pub find_first-lower :
    (ascii : Bool) (str : List ℕ)
    → find_first_not_of is_blank (lower_while_ascii ascii str) ≡ find_first_not_of is_blank str
unfolding find_first_not_of lower_while_ascii
find_first-lower ascii [] = refl
find_first-lower ascii (c ∷ str) =
    ground (arith, tolower_blank c, find_first-lower (ascii && leb b' ' c && leb c b'~') str)

pub find-lower :
    (ascii : Bool) (str : List ℕ) → find b'.' (lower_while_ascii ascii str) ≡ find b'.' str
unfolding find lower_while_ascii
find-lower ascii [] = refl
find-lower ascii (c ∷ str) =
    ground (arith, tolower_stop c, find-lower (ascii && leb b' ' c && leb c b'~') str)

pub find_last-lower :
    (ascii : Bool) (str : List ℕ)
    → find_last_not_of is_blank (lower_while_ascii ascii str) ≡ find_last_not_of is_blank str
unfolding find_last_not_of lower_while_ascii
find_last-lower ascii [] = refl
find_last-lower ascii (c ∷ str) =
    ground (arith, tolower_blank c, find_last-lower (ascii && leb b' ' c && leb c b'~') str)

pub take-lower :
    (ascii : Bool) (str : List ℕ) (n : ℕ)
    → take n (lower_while_ascii ascii str) ≡ lower_while_ascii ascii (take n str)
unfolding lower_while_ascii
take-lower ascii str zero = refl
take-lower ascii [] (suc n) = refl
take-lower ascii (c ∷ str) (suc n) =
    ap (◌∷◌ (if ascii && leb b' ' c && leb c b'~' then tolower c else c))
      (take-lower (ascii && leb b' ' c && leb c b'~') str n)

pub lower-lower :
    (ascii : Bool) (str : List ℕ)
    → lower_while_ascii ascii (lower_while_ascii ascii str) ≡ lower_while_ascii ascii str
unfolding lower_while_ascii
lower-lower ascii [] = refl
lower-lower ascii (c ∷ str) =
    ground (
      arith,
      tolower_again c,
      tolower_prints c,
      lower-lower (ascii && leb b' ' c && leb c b'~') str,
    )
