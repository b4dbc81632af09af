-- ===== src/Handle/Ownership.antt =====
-- include/ice/handle.h: whatever a program does with its handles, each raw handle is in one place.
use ice_test.Base.{
  ℕ, zero, suc, ◌+◌, ◌≡◌, refl, true, false, List, [], ◌∷◌, ◌++◌, some, get_elem?, set,
  if◌then◌else◌, arith, Option-cases, get_elem?-set, set-set_back, Bool-cases, inl, inr,
}
use ice_test.Base.Equality.{Comparable}
use ice_test.Handle.{Handle, of_value, reset}
use ice_test.Handle.Store.{
  Store, Op, construct, move_construct, move_assign, swaps, releases, resets, destroys, assign,
  exchange, replace, step, run, empty,
}

module _ {ℓ} {T : Type ℓ} ⦃e : Comparable T⦄ where
  abbrev pub tally : T → List T → ℕ
  tally x [] = 0
  tally x (y ∷ ys) = (if e.same y x then 1 else 0) + tally x ys

  abbrev pub tally_cells : T → List (Handle T) → ℕ
  tally_cells x [] = 0
  tally_cells x (h ∷ hs) = (if e.same h.value_ x then 1 else 0) + tally_cells x hs

  tally_cells-set :
      (x : T) (hs : List (Handle T)) (i : ℕ) (h h' : Handle T)
      → get_elem? hs i ≡ some h
      → tally_cells x (set hs i h') + (if e.same h.value_ x then 1 else 0)
        ≡ tally_cells x hs + (if e.same h'.value_ x then 1 else 0)
  tally_cells-set x [] i h h' g = cc
  tally_cells-set x (y ∷ hs) zero h h' g = ground arith
  tally_cells-set x (y ∷ hs) (suc i) h h' g = ground (arith, tally_cells-set x hs i h h')

  tally-append :
      (x : T) (before after : List T) → tally x before + tally x after ≡ tally x (before ++ after)
  tally-append x [] after = ground arith
  tally-append x (first ∷ before) after = ground (arith, tally-append x before after)

module _ {ℓ} {T : Type ℓ} ⦃e : Comparable T⦄ (invalid_value : T) where
  -- A raw handle put under a handle is still there, or has been closed, or was given back.
  abbrev pub IsOwned : T → Store T → Type 0
  IsOwned x s = tally_cells x s.cells + tally x s.closed + tally x s.released ≡ tally x s.acquired

  -- `reset` closes what the handle held, unless that was the invalid value.
  tally-reset :
      (x v : T) (h : Handle T) (closed : List T)
      → e.same x invalid_value ≡ false
      → tally x (reset invalid_value v h closed).1
        ≡ tally x closed + (if e.same h.value_ x then 1 else 0)
  unfolding reset
  tally-reset x v h closed live = elim (Bool-cases (e.same h.value_ invalid_value)) [
    | inl none_held ↦ rw none_held (ground (arith, e.same_iff h.value_ x, none_held))
    | inr held ↦ rw held (omega arith)
  ]

  value_of_reset :
      (v : T) (h : Handle T) (closed : List T)
      → (reset invalid_value v h closed).0 ≡ record h { value_ = v }
  unfolding reset
  value_of_reset v h closed = refl

  module _ (x : T) (live : e.same x invalid_value ≡ false) (s : Store T) (own : IsOwned x s) where
    replace-IsOwned :
        (i : ℕ) (v : T) (taken : List T)
        → tally x taken ≡ (if e.same v x then 1 else 0)
        → IsOwned x (replace invalid_value s i v taken)
    unfolding replace
    replace-IsOwned i v taken t = elim (Option-cases (get_elem? s.cells i)) [
      | inl missing ↦ rw (missing, replace) own
      | inr (h, found) ↦
          rw (found, replace)
            (ground (
              arith,
              t,
              tally_cells-set x s.cells i h (record h { value_ = v }) found,
              tally-reset x v h s.closed live,
              tally-append x taken s.acquired,
              value_of_reset v h s.closed,
            ))
    ]

    -- No live handle is the invalid value, on either side of the test.
    not_invalid : e.same invalid_value x ≡ false
    not_invalid = ground (arith, e.same_iff x invalid_value, e.same_iff invalid_value x)

    assign-IsOwned : (dst src : ℕ) → IsOwned x (assign invalid_value s dst src)
    unfolding assign
    assign-IsOwned dst src = elim (Option-cases (get_elem? s.cells src)) [
      | inl missing ↦ rw (missing, assign) own
      | inr (other, found) ↦
          elim (Option-cases (get_elem? (set s.cells src (of_value invalid_value)) dst)) [
            | inl missing ↦ rw (found, assign) (rw missing own)
            | inr (this, target) ↦
                rw (found, assign)
                  (rw target (
                    ground (
                      arith,
                      not_invalid,
                      tally_cells-set x s.cells src other (of_value invalid_value) found,
                      tally_cells-set x (set s.cells src (of_value invalid_value)) dst this
                          (of_value other.value_) target,
                      tally-reset x invalid_value this s.closed live,
                    )))
          ]
    ]

    exchanged :
        (i j : ℕ) (this other : Handle T)
        → get_elem? s.cells i ≡ some this
        → get_elem? s.cells j ≡ some other
        → IsOwned x (record s {
          cells = set (set s.cells j (of_value this.value_)) i (of_value other.value_);
        })
    unfolding of_value
    exchanged i j this other found target = ground (
      arith,
      get_elem?-set s.cells j i other (of_value this.value_) target,
      tally_cells-set x s.cells j other (of_value this.value_) target,
      tally_cells-set x (set s.cells j (of_value this.value_)) i this (of_value other.value_),
      tally_cells-set x (set s.cells j (of_value this.value_)) i (of_value this.value_)
          (of_value other.value_),
    )

    exchange-IsOwned : (i j : ℕ) → IsOwned x (exchange invalid_value s i j)
    unfolding exchange of_value
    exchange-IsOwned i j = elim (Option-cases (get_elem? s.cells i)) [
      | inl missing ↦ rw (missing, exchange) own
      | inr (this, found) ↦ elim (Option-cases (get_elem? s.cells j)) [
        | inl missing ↦ rw (found, exchange) (rw missing own)
        | inr (other, target) ↦
            rw (found, exchange) (rw target (exchanged i j this other found target))
      ]
    ]

    step-IsOwned : (o : Op T) → IsOwned x (step invalid_value s o)
    unfolding step
    step-IsOwned (construct v) = ground arith
    step-IsOwned (move_construct src) = elim (Option-cases (get_elem? s.cells src)) [
      | inl missing ↦ rw (missing, step) own
      | inr (other, found) ↦
          rw (found, step)
            (ground (
              arith,
              not_invalid,
              tally_cells-set x s.cells src other (of_value invalid_value) found,
            ))
    ]
    step-IsOwned (move_assign dst src) = assign-IsOwned dst src
    step-IsOwned (swaps i j) = exchange-IsOwned i j
    step-IsOwned (releases i) = elim (Option-cases (get_elem? s.cells i)) [
      | inl missing ↦ rw (missing, step) own
      | inr (h, found) ↦
          rw (found, step)
            (ground
              (arith, not_invalid, tally_cells-set x s.cells i h (of_value invalid_value) found))
    ]
    step-IsOwned (resets i v) = replace-IsOwned i v (v ∷ []) (omega arith)
    step-IsOwned (destroys i) = replace-IsOwned i invalid_value [] (ground (arith, not_invalid))

  run-IsOwned-from :
      (x : T)
      → e.same x invalid_value ≡ false
      → (s : Store T) (os : List (Op T)) → IsOwned x s
      → IsOwned x (run invalid_value s os)
  unfolding run
  run-IsOwned-from x live s [] own = own
  run-IsOwned-from x live s (o ∷ os) own =
      run-IsOwned-from x live (step invalid_value s o) os (step-IsOwned x live s own o)

  -- Whatever a program does with its handles, self-moves included, every raw handle but the invalid
  -- value that was put under a handle is, as often as it was put there, under one live handle,
  -- closed, or given back by release: none leaks and none is closed twice.
  pub run-IsOwned :
      (x : T) (os : List (Op T))
      → e.same x invalid_value ≡ false
      → IsOwned x (run invalid_value empty os)
  unfolding empty
  run-IsOwned x os live = run-IsOwned-from x live _ os (omega arith)

  -- Moving a handle onto itself leaves the handle, the other handles and the list of closed raw
  -- handles as they were.
  pub assign_self :
      (s : Store T) (i : ℕ) (h : Handle T)
      → get_elem? s.cells i ≡ some h
      → assign invalid_value s i i ≡ s
  unfolding assign
  assign_self s i h found =
      rw (found, assign)
        (rw here (rw (set-set_back s.cells i h (of_value invalid_value) found) (rw same refl)))
    where
      here : get_elem? (set s.cells i (of_value invalid_value)) i ≡ some (of_value invalid_value)
      here = ground (arith, get_elem?-set s.cells i i h (of_value invalid_value) found)

      same : e.same invalid_value invalid_value ≡ true
      same = (e.same_iff invalid_value invalid_value).1 refl
