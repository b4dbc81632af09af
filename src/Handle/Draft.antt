-- ===== src/Handle/Draft.antt =====
-- res/handle.cpp: an earlier draft of the handle, over a raw type that copies when it is moved, such as an `int`
-- or a pointer. The deleter is the template's parameter; what it deletes is recorded in a log.
pub mod Deleters
use ice_test.Base.{
  ℕ, ◌≡◌, refl, Bool, true, false, not, List, [], ◌∷◌, ◌++◌, ltb, ◌==◌, if◌then◌else◌,
}
use ice_test.Base.Int.{ℤ, pos, ◌==ℤ◌, ltb_ℤ}
use ice_test.Message.Text.{codes}

-- `write_null`, as the value that it writes, and `is_null`.
pub record Deleter {ℓ} (T : Type ℓ) : Type ℓ where
  pub null : T
  pub is_null : T → Bool

-- `lib::handle`: `res`, and what the deleter has been called with, the last call first.
pub record DraftHandle {ℓ} (T : Type ℓ) : Type ℓ where
  pub res : T
  pub deleted : List T

-- `default_handle_deleter<int>` and `my_empty_int_deleter`
abbrev pub empty_deleter : Deleter ℤ
empty_deleter = record { null = pos 0; is_null = λ h. h ==ℤ pos 0 }

-- `my_stateful_int_deleter`
abbrev pub stateful_deleter : ℤ → Deleter ℤ
stateful_deleter null_value = record { null = null_value; is_null = λ h. h ==ℤ null_value }

-- What its `operator()` prints.
unfoldable pub deletion_text : ℤ → ℤ → List ℕ
deletion_text null_value h =
    if ltb_ℤ h null_value then codes "Less than the null value on deletion\n" else []

module _ {ℓ} {T : Type ℓ} (d : Deleter T) where
  -- `handle(pointer)` and `handle(std::nullptr_t)`
  unfoldable pub of_pointer : T → DraftHandle T
  of_pointer h = record { res = h; deleted = [] }

  unfoldable pub of_null : DraftHandle T
  of_null = record { res = d.null; deleted = [] }

  unfoldable pub is_null : DraftHandle T → Bool
  is_null h = d.is_null h.res

  -- `operator bool`
  unfoldable pub to_bool : DraftHandle T → Bool
  unfolding is_null
  to_bool h = is_null h

  -- `if (!is_null()) deleter(res);`
  unfoldable pub delete_res : DraftHandle T → DraftHandle T
  unfolding is_null
  delete_res h = if not (is_null h) then record h { deleted = h.res ∷ h.deleted } else h

  -- `reset(pointer)` and `reset(std::nullptr_t)`
  unfoldable pub reset : DraftHandle T → T → DraftHandle T
  unfolding delete_res
  reset h p = record (delete_res h) { res = p }

  unfoldable pub reset_null : DraftHandle T → DraftHandle T
  unfolding delete_res
  reset_null h = record (delete_res h) { res = d.null }

  -- `release`: what it returns, and the handle.
  unfoldable pub release : DraftHandle T → T × DraftHandle T
  release h = (h.res, record h { res = d.null })

  -- `handle(handle&& mov)`: the new handle, and `mov`, which is reset as it stands.
  unfoldable pub move : DraftHandle T → DraftHandle T × DraftHandle T
  unfolding of_pointer reset
  move mov = (of_pointer mov.res, reset mov d.null)

  -- `operator=(handle&& right)`: this handle, and `right`.
  unfoldable pub assign : DraftHandle T → DraftHandle T → DraftHandle T × DraftHandle T
  unfolding release reset
  assign this right = let (rel, right') = release right in (reset this rel, right')

  -- The same where the two are one object.
  unfoldable pub assign_self : DraftHandle T → DraftHandle T
  unfolding release reset
  assign_self this = let (rel, this') = release this in reset this' rel

  unfoldable pub swap : DraftHandle T → DraftHandle T → DraftHandle T × DraftHandle T
  swap this other = (record this { res = other.res }, record other { res = this.res })

  -- `~handle`
  unfoldable pub destroy : DraftHandle T → DraftHandle T
  unfolding delete_res
  destroy h = record (delete_res h) { res = d.null }

  -- A value that is moved by the constructor is deleted twice, once by the move itself.
  pub move_deletes :
      (v : T)
      → d.is_null v ≡ false
      → d.is_null d.null ≡ true
      → let r = move (of_pointer v) in
        (r.0.res ≡ v) × ((destroy r.0).deleted ++ (destroy r.1).deleted ≡ v ∷ v ∷ [])
  unfolding move of_pointer reset destroy
  move_deletes v full empty = rw (full, empty, reset, delete_res, destroy) (refl, refl)

  -- A value that is moved by the assignment is deleted once.
  pub assign_deletes :
      (this v : T)
      → d.is_null this ≡ true
      → d.is_null v ≡ false
      → d.is_null d.null ≡ true
      → let r = assign (of_pointer this) (of_pointer v) in
        (r.0.res ≡ v) × ((destroy r.0).deleted ++ (destroy r.1).deleted ≡ v ∷ [])
  unfolding assign of_pointer reset destroy
  assign_deletes this v vacant full empty =
      rw (vacant, full, empty, reset, delete_res, destroy) (refl, refl)

  -- A handle converts to true exactly when it holds nothing.
  pub to_bool_inverted : (v : T) → to_bool (of_pointer v) ≡ d.is_null v
  unfolding to_bool of_pointer
  to_bool_inverted v = refl
