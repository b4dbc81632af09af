-- ===== src/Handle/Store.antt =====
-- include/ice/handle.h: a program with any number of `ice::handle` objects, named by index, so that
-- the two sides of a move or a swap may be one object.
use ice_test.Base.{ℕ, List, [], ◌∷◌, ◌++◌, none, some, get_elem?, set}
use ice_test.Base.Equality.{Comparable}
use ice_test.Handle.{Handle, of_value, move, swap, release, reset, destroy}

-- The raw handles closed, those given back to the program by `release`, and those that it has put
-- under a handle.
pub record Store {ℓ} (T : Type ℓ) : Type ℓ where
  pub cells : List (Handle T)
  pub closed : List T
  pub released : List T
  pub acquired : List T

pub data Op {ℓ} (T : Type ℓ) : Type ℓ where
  construct : T → Op T
  move_construct : (src : ℕ) → Op T
  move_assign : (dst src : ℕ) → Op T
  swaps : (i j : ℕ) → Op T
  releases : (i : ℕ) → Op T
  resets : (i : ℕ) → T → Op T
  destroys : (i : ℕ) → Op T

module _ {ℓ} {T : Type ℓ} ⦃e : Comparable T⦄ (invalid_value : T) where
  -- `handle(std::move(other)).swap(*this)`: a temporary takes the value over, is swapped with the
  -- target as it then is, and is destroyed.
  unfoldable pub assign : Store T → ℕ → ℕ → Store T
  unfolding move swap destroy
  assign s dst src = elim (get_elem? s.cells src) [
    | none ↦ s
    | some other ↦
        let (temp, other') = move invalid_value other in
        let cells = set s.cells src other' in
        elim (get_elem? cells dst) [
          | none ↦ s
          | some this ↦
              let (temp', this') = swap temp this in
              record s {
                cells = set cells dst this';
                closed = destroy invalid_value temp' s.closed;
              }
        ]
  ]

  unfoldable pub exchange : Store T → ℕ → ℕ → Store T
  unfolding swap
  exchange s i j = elim (get_elem? s.cells i) [
    | none ↦ s
    | some this ↦ elim (get_elem? s.cells j) [
      | none ↦ s
      | some other ↦
          let (this', other') = swap this other in
          record s { cells = set (set s.cells j other') i this' }
    ]
  ]

  unfoldable pub replace : Store T → ℕ → T → List T → Store T
  unfolding reset
  replace s i v taken = elim (get_elem? s.cells i) [
    | none ↦ s
    | some h ↦
        let (h', closed) = reset invalid_value v h s.closed in
        record s { cells = set s.cells i h'; closed = closed; acquired = taken ++ s.acquired }
  ]

  -- An operation on an object that does not exist does nothing.
  unfoldable pub step : Store T → Op T → Store T
  unfolding assign exchange replace of_value move release
  step s (construct v) = record s { cells = of_value v ∷ s.cells; acquired = v ∷ s.acquired }
  step s (move_construct src) = elim (get_elem? s.cells src) [
    | none ↦ s
    | some other ↦
        let (this, other') = move invalid_value other in
        record s { cells = this ∷ set s.cells src other' }
  ]
  step s (move_assign dst src) = assign s dst src
  step s (swaps i j) = exchange s i j
  step s (releases i) = elim (get_elem? s.cells i) [
    | none ↦ s
    | some h ↦
        let (v, h') = release invalid_value h in
        record s { cells = set s.cells i h'; released = v ∷ s.released }
  ]
  step s (resets i v) = replace s i v (v ∷ [])
  step s (destroys i) = replace s i invalid_value []

  unfoldable pub run : Store T → List (Op T) → Store T
  run s [] = s
  run s (o ∷ os) = run (step s o) os

module _ {ℓ} {T : Type ℓ} where
  unfoldable pub empty : Store T
  empty = record { cells = []; closed = []; released = []; acquired = [] }
