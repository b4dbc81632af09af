-- ===== src/Base/Equality.antt =====
-- What the templates ask of a type that they compare with `==`: a Boolean test that decides equality.
use Prim.Native.Nat.{ℕ}
use mathlib.Core.Bool.{Bool, true}
use mathlib.Core.Logic.{◌↔◌}
use mathlib.Core.Path.{◌≡◌}
use ice_test.Base.Int.{ℤ, ◌==ℤ◌, ==ℤ_iff}
use ice_test.Base.Tests.{◌==◌, ==_iff}

pub record Comparable {ℓ} (V : Type ℓ) : Type ℓ where
  pub same : V → V → Bool
  pub same_iff : (v w : V) → (same v w ≡ true) ↔ (v ≡ w)

instance abbrev pub int_comparable : Comparable ℤ
int_comparable = record { same_iff = ==ℤ_iff; same = ◌==ℤ◌ }

instance abbrev pub number_comparable : Comparable ℕ
number_comparable = record { same_iff = ==_iff; same = ◌==◌ }
