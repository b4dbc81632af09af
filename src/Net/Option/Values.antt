-- ===== src/Net/Option/Values.antt =====
-- include/ice/net/option.h: what a program reads from an option that it has made.
use Prim.Native.Nat.{min}
use ice_test.Base.{ℕ, ◌+◌, ◌-◌, ◌^◌, ◌<◌, ◌≡◌, refl, Bool, true, false, some, arith}
use ice_test.Base.Int.{ltb_ℤ, ℤ, pos, negsuc}
use ice_test.ErrorCode.{to_int}
use ice_test.Net.Option.{
  int_max, int_min, of_bool, get_bool, of_size, get_size, of_timeout, get_timeout, of_pattern,
}

pub get_bool-of_bool : (b : Bool) → get_bool (of_bool b) ≡ b
unfolding get_bool of_bool
get_bool-of_bool true = refl
get_bool-of_bool false = refl

-- An option made from any size gives back the size, or the largest int if the size is above it.
pub get_size-of_size : (n : ℕ) → get_size (of_size n) ≡ min n (2 ^ 31 - 1)
unfolding get_size of_size
get_size-of_size n = ground arith

-- The seconds that an `int` can hold.
abbrev pub IsInt : ℤ → Type 0
IsInt (pos n) = n < 2 ^ 31
IsInt (negsuc n) = n < 2 ^ 31

pub of_pattern-to_int : (t : ℤ) → IsInt t → of_pattern (to_int t) ≡ t
of_pattern-to_int (pos n) h = ground (arith, h)
of_pattern-to_int (negsuc n) h = ground (arith, h)

of_timeout_lem : (t : ℤ) → get_timeout (of_timeout (some t)) ≡ some (of_pattern (to_int t))
unfolding get_timeout of_timeout
of_timeout_lem t = by_tests refl refl
  where
    by_tests :
        {above below : Bool}
        → ltb_ℤ (pos int_max) t ≡ above
        → ltb_ℤ t int_min ≡ below
        → get_timeout (of_timeout (some t)) ≡ some (of_pattern (to_int t))
    by_tests {above = true} {below = true} e e' = rw (e, e', get_timeout, of_timeout) refl
    by_tests {above = true} {below = false} e e' = rw (e, e', get_timeout, of_timeout) refl
    by_tests {above = false} {below = true} e e' = rw (e, e', get_timeout, of_timeout) refl
    by_tests {above = false} {below = false} e e' = rw (e, e', get_timeout, of_timeout) refl

-- A linger option made from a timeout whose seconds fit an int gives back the timeout.
pub get_timeout-of_timeout : (t : ℤ) → IsInt t → get_timeout (of_timeout (some t)) ≡ some t
get_timeout-of_timeout t h = rw (of_timeout_lem t, of_pattern-to_int t h) refl

-- A linger option is the same for two timeouts that are 2 ^ 32 seconds apart: the conversion at the
-- end of the constructor wraps around, and the clamps before it do not show.
pub of_timeout_wraps :
    (n : ℕ)
    → get_timeout (of_timeout (some (pos (n + 2 ^ 32)))) ≡ get_timeout (of_timeout (some (pos n)))
of_timeout_wraps n = rw (of_timeout_lem (pos (n + 2 ^ 32)), of_timeout_lem (pos n)) (ground arith)
