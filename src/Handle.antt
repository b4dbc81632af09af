-- ===== src/Handle.antt =====
-- include/ice/handle.h: `ice::handle`, the unique owner of a raw handle, which it closes. The raw type
-- `T`, its invalid value and the closer are the template's parameters; closing is recorded in a log.
pub mod Store
pub mod Ownership
pub mod Draft
mod Examples
use ice_test.Base.{
  ℕ, Bool, not, List, [], ◌∷◌, ◌++◌, Option, none, some, if◌then◌else◌, get_elem?, set,
}
use ice_test.Base.Equality.{Comparable}

pub record Handle {ℓ} (T : Type ℓ) : Type ℓ where
  pub value_ : T

module _ {ℓ} {T : Type ℓ} where
  -- `explicit handle(V value)`
  unfoldable pub of_value : T → Handle T
  of_value v = record { value_ = v }

  -- `swap`: this handle and the other one afterwards.
  unfoldable pub swap : Handle T → Handle T → Handle T × Handle T
  swap this other = (record this { value_ = other.value_ }, record other { value_ = this.value_ })

module _ {ℓ} {T : Type ℓ} ⦃e : Comparable T⦄ (invalid_value : T) where
  -- `handle_view() = default`
  unfoldable pub default_handle : Handle T
  default_handle = record { value_ = invalid_value }

  unfoldable pub valid : Handle T → Bool
  valid h = not (e.same h.value_ invalid_value)

  -- The value, and the handle without it.
  unfoldable pub release : Handle T → T × Handle T
  release h = (h.value_, record h { value_ = invalid_value })

  -- `handle(handle&& other)`: the new handle, and `other` afterwards.
  unfoldable pub move : Handle T → Handle T × Handle T
  unfolding release of_value
  move other = let (v, other') = release other in (of_value v, other')

  -- `reset(value)`, with the log of what has been closed.
  unfoldable pub reset : T → Handle T → List T → Handle T × List T
  unfolding valid
  reset v h closed = (record h { value_ = v }, if valid h then h.value_ ∷ closed else closed)

  -- `~handle`: `reset()`.
  unfoldable pub destroy : Handle T → List T → List T
  unfolding reset
  destroy h closed = (reset invalid_value h closed).1
