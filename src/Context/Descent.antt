-- ===== src/Context/Descent.antt =====
-- src/ice/context.cpp: steps that each lower a measure, until there is nothing left to do.
use ice_test.Base.{ℕ, zero, suc, ◌<◌, ◌⊎◌, inl, inr, arith}

module _ {S : Type 0} (Step : S → S → Type 0) (measure : S → ℕ) where
  pub data Descent : S → S → Type 0 where
    none_left : {s : S} → Descent s s
    one_more : {s t u : S} → Step s t → measure t < measure s → Descent t u → Descent s u

  -- If from every state that is kept there is a step to a lower one, or the end is reached, then some
  -- steps reach the end.
  pub descend :
      (IsKept IsEnd : S → Type 0)
      → ((s : S) → IsKept s → IsEnd s ⊎ ((t : S) × Step s t × IsKept t × (measure t < measure s)))
      → (fuel : ℕ) (s : S) → IsKept s
      → measure s < fuel
      → (t : S) × Descent s t × IsEnd t
  descend IsKept IsEnd go zero s kept lt = absurd (omega arith)
  descend IsKept IsEnd go (suc fuel) s kept lt = elim (go s kept) [
    | inl end ↦ (s, none_left, end)
    | inr (t, step, kept', lower) ↦
        let (u, steps, end) = descend IsKept IsEnd go fuel t kept' (omega (arith, lt, lower)) in
        (u, one_more step lower steps, end)
  ]
