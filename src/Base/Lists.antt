-- ===== src/Base/Lists.antt =====
-- Lists measured and indexed by native numbers, under the library's names.
use Prim.Native.Nat.{ℕ, zero, suc, ◌≤◌}
use mathlib.Core.Path.{◌≡◌, refl, ap}
use mathlib.Core.List.{List, [], ◌∷◌, ◌++◌}
use mathlib.Core.Bool.{Bool, true, false, not, ◌&&◌, ◌||◌}
use mathlib.Core.Option.{Option, none, some}
use native.Mathlib.Omega.{arith}
use ice_test.Base.Tests.{if◌then◌else◌, ◌==◌}

module _ {ℓ} {A : Type ℓ} where
  abbrev pub length : List A → ℕ
  length [] = 0
  length (x ∷ xs) = suc (length xs)

  abbrev pub get_elem? : List A → ℕ → Option A
  get_elem? [] i = none
  get_elem? (x ∷ xs) zero = some x
  get_elem? (x ∷ xs) (suc i) = get_elem? xs i

  -- A write out of bounds changes nothing.
  abbrev pub set : List A → ℕ → A → List A
  set [] i v = []
  set (x ∷ xs) zero v = v ∷ xs
  set (x ∷ xs) (suc i) v = x ∷ set xs i v

  abbrev pub take : ℕ → List A → List A
  take zero xs = []
  take (suc n) [] = []
  take (suc n) (x ∷ xs) = x ∷ take n xs

  abbrev pub drop : ℕ → List A → List A
  drop zero xs = xs
  drop (suc n) [] = []
  drop (suc n) (x ∷ xs) = drop n xs

  pub length-set : (xs : List A) (i : ℕ) (v : A) → length (set xs i v) ≡ length xs
  length-set [] i v = refl
  length-set (x ∷ xs) zero v = refl
  length-set (x ∷ xs) (suc i) v = ap suc (length-set xs i v)

  -- A read after a write inside the list.
  pub get_elem?-set :
      (xs : List A) (j i : ℕ) (y v : A)
      → get_elem? xs j ≡ some y
      → get_elem? (set xs j v) i ≡ (if i == j then some v else get_elem? xs i)
  get_elem?-set [] j i y v g = cc
  get_elem?-set (x ∷ xs) zero zero y v g = refl
  get_elem?-set (x ∷ xs) zero (suc i) y v g = ground arith
  get_elem?-set (x ∷ xs) (suc j) zero y v g = ground arith
  get_elem?-set (x ∷ xs) (suc j) (suc i) y v g = ground (arith, get_elem?-set xs j i y v g)

  -- Two writes at one place, the second of what stood there first.
  pub set-set_back :
      (xs : List A) (i : ℕ) (y v : A) → get_elem? xs i ≡ some y → set (set xs i v) i y ≡ xs
  set-set_back [] i y v g = refl
  set-set_back (x ∷ xs) zero y v g = ground (arith, g)
  set-set_back (x ∷ xs) (suc i) y v g = ap (◌∷◌ x) (set-set_back xs i y v g)

  -- A copy of a block to the start of a memory, as far as the block goes.
  abbrev pub overwrite : List A → List A → List A
  overwrite new old = new ++ drop (length new) old

  pub length-overwrite :
      (new old : List A) → length new ≤ length old → length (overwrite new old) ≡ length old
  length-overwrite [] old le = refl
  length-overwrite (x ∷ new) [] le = absurd (omega (arith, le))
  length-overwrite (x ∷ new) (y ∷ old) le = ap suc (length-overwrite new old (omega (arith, le)))

  drop-nil : (n : ℕ) → drop n [] ≡ []
  drop-nil zero = refl
  drop-nil (suc n) = refl

  take-append_nil : (n : ℕ) (xs : List A) → take n (xs ++ []) ≡ take n xs ++ []
  take-append_nil zero xs = refl
  take-append_nil (suc n) [] = refl
  take-append_nil (suc n) (x ∷ xs) = ap (◌∷◌ x) (take-append_nil n xs)

  -- What a view from the start of the memory shows after a copy.
  pub take-overwrite :
      (n : ℕ) (new old : List A)
      → take n (overwrite new old) ≡ take n new ++ drop (length new) (take n old)
  take-overwrite zero [] old = refl
  take-overwrite zero (x ∷ new) old = refl
  take-overwrite (suc n) [] old = refl
  take-overwrite (suc n) (x ∷ new) [] = rw (drop-nil) (take-append_nil (suc n) (x ∷ new))
  take-overwrite (suc n) (x ∷ new) (y ∷ old) = ap (◌∷◌ x) (take-overwrite n new old)

  pub take-append : (xs ys : List A) → take (length xs) (xs ++ ys) ≡ xs
  take-append [] ys = refl
  take-append (x ∷ xs) ys = ap (◌∷◌ x) (take-append xs ys)

  pub take-length : (xs : List A) → take (length xs) xs ≡ xs
  take-length [] = refl
  take-length (x ∷ xs) = ap (◌∷◌ x) (take-length xs)

  pub overwrite_whole : (new old : List A) → length new ≡ length old → overwrite new old ≡ new
  overwrite_whole [] [] same = refl
  overwrite_whole [] (y ∷ old) same = absurd (omega (arith, same))
  overwrite_whole (x ∷ new) [] same = absurd (omega (arith, same))
  overwrite_whole (x ∷ new) (y ∷ old) same =
      ap (◌∷◌ x) (overwrite_whole new old (omega (arith, same)))

-- Whether a number is in a list, and whether no number is twice in it.
abbrev pub mem : ℕ → List ℕ → Bool
mem a [] = false
mem a (d ∷ done) = (a == d) || mem a done

abbrev pub distinct : List ℕ → Bool
distinct [] = true
distinct (d ∷ done) = not (mem d done) && distinct done

pub mem_last : (c : ℕ) (done : List ℕ) (a : ℕ) → mem c (done ++ (a ∷ [])) ≡ mem c done || (c == a)
mem_last c [] a = ground arith
mem_last c (d ∷ done) a = let h = mem_last c done a in ground (arith, h)

pub distinct_last :
    (done : List ℕ) (a : ℕ)
    → distinct done ≡ true
    → mem a done ≡ false
    → distinct (done ++ (a ∷ [])) ≡ true
distinct_last [] a all new = refl
distinct_last (d ∷ done) a all new =
    let h = distinct_last done a in ground (arith, all, new, h, mem_last d done a)
