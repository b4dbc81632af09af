-- ===== src/Net/Option/Examples.antt =====
-- include/ice/net/option.h: a timeout that no `int` holds.
use ice_test.Base.{◌≡◌, ◌-◌, ◌^◌, refl, some}
use ice_test.Base.Int.{pos, negsuc}
use ice_test.Net.Option.{get_timeout, of_timeout}

-- The largest `int` is meant here.
turns_negative : get_timeout (of_timeout (some (pos (2 ^ 31)))) ≡ some (negsuc (2 ^ 31 - 1))
unfolding get_timeout of_timeout
turns_negative = refl
