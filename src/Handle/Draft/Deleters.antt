-- ===== src/Handle/Draft/Deleters.antt =====
-- res/handle.cpp: the draft of the handle with a deleter of its own in each object, and its comparisons.
use ice_test.Base.{◌≡◌, refl, Bool, false, not, ◌∷◌}
use ice_test.Base.Equality.{Comparable}
use ice_test.Handle.Draft.{
  Deleter, DraftHandle, of_pointer, of_null, is_null, release, reset, delete_res, destroy,
}

-- `lib::handle` with the value of its base class `ebco`, and `get_deleter`.
pub record OwnHandle {ℓ} (T : Type ℓ) : Type ℓ where
  pub deleter : Deleter T
  pub held : DraftHandle T

module _ {ℓ} {T : Type ℓ} where
  -- `handle(pointer, deleter_type)` and `handle(std::nullptr_t, deleter_type)`
  unfoldable pub of_pointer_with : T → Deleter T → OwnHandle T
  unfolding of_pointer
  of_pointer_with h d = record { deleter = d; held = of_pointer d h }

  unfoldable pub of_null_with : Deleter T → OwnHandle T
  unfolding of_null
  of_null_with d = record { deleter = d; held = of_null d }

  abbrev pub get : OwnHandle T → T
  get h = h.held.res

  abbrev pub get_null : OwnHandle T → T
  get_null h = h.deleter.null

  -- `operator=(handle&& right)`: the value goes over, and each keeps its deleter.
  unfoldable pub assign_own : OwnHandle T → OwnHandle T → OwnHandle T × OwnHandle T
  unfolding release reset
  assign_own this right =
      let (rel, held) = release right.deleter right.held in
      (record this { held = reset this.deleter this.held rel }, record right { held = held })

  -- `swap`: the deleters go over too.
  unfoldable pub swap_own : OwnHandle T → OwnHandle T → OwnHandle T × OwnHandle T
  swap_own this other = (
    record this { deleter = other.deleter; held = record this.held { res = other.held.res } },
    record other { deleter = this.deleter; held = record other.held { res = this.held.res } },
  )

  -- `~handle`
  unfoldable pub destroy_own : OwnHandle T → OwnHandle T
  unfolding destroy
  destroy_own h = record h { held = destroy h.deleter h.held }

  abbrev pub is_null_own : OwnHandle T → Bool
  unfolding is_null
  is_null_own h = is_null h.deleter h.held

  -- Whether the value of the right handle is null for its own deleter does not count in an assignment:
  -- if it is not null for the deleter of the left one, the left one is not empty afterwards, and when it
  -- ends its deleter is called with that value.
  pub assign_own_keeps_deleter :
      (this right : OwnHandle T)
      → this.deleter.is_null (get right) ≡ false
      → let left = (assign_own this right).0 in
        (is_null_own left ≡ false)
        × ((destroy_own left).held.deleted ≡ get right ∷ left.held.deleted)
  unfolding assign_own is_null destroy_own destroy reset
  assign_own_keeps_deleter this right full = (full, rw (full, destroy, delete_res, is_null) refl)

  -- Two swaps give back both handles.
  pub swap_own_twice :
      (this other : OwnHandle T)
      → (let (a, b) = swap_own this other in swap_own a b) ≡ (this, other)
  unfolding swap_own
  swap_own_twice this other = refl

module _ {ℓ} {T : Type ℓ} ⦃e : Comparable T⦄ where
  -- The operators `==`: of two handles, with `nullptr` on the left, and with a pointer on either side.
  -- That with `nullptr` on the right compares the pointer itself with it.
  unfoldable pub eq : OwnHandle T → OwnHandle T → Bool
  eq left right = e.same (get left) (get right)

  unfoldable pub eq_null_left : OwnHandle T → Bool
  eq_null_left left = e.same (get left) (get_null left)

  unfoldable pub eq_pointer : OwnHandle T → T → Bool
  eq_pointer left right = e.same (get left) right

  -- The operators `!=`; `nullptr` on either side is compared in one way.
  unfoldable pub ne : OwnHandle T → OwnHandle T → Bool
  ne left right = not (e.same (get left) (get right))

  unfoldable pub ne_null : OwnHandle T → Bool
  ne_null left = not (e.same (get left) (get_null left))

  unfoldable pub ne_pointer : OwnHandle T → T → Bool
  ne_pointer left right = not (e.same (get left) right)

  -- A handle is equal to nullptr, with that on the left, exactly when it is empty, if its deleter
  -- compares with its null value.
  pub eq_null_left-is_null :
      (h : OwnHandle T)
      → ((v : T) → h.deleter.is_null v ≡ e.same v h.deleter.null)
      → (eq_null_left h ≡ is_null_own h) × (ne_null h ≡ not (is_null_own h))
  unfolding eq_null_left ne_null is_null
  eq_null_left-is_null h compares = rw (compares (get h)) (refl, refl)
