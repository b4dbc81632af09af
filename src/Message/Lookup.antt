-- ===== src/Message/Lookup.antt =====
-- src/ice/error.cpp: the chain of tests of `system_category::message`, as a table that is searched.
use Prim.Native.String.{String}
use text.Mathlib.Text.{◌==◌ as str_eq}
use text.Mathlib.TextEquality.{eq_iff}
use ice_test.Base.{
  ℕ, zero, suc, ◌≤◌, Bool, true, not, ◌&&◌, ◌==◌, List, [], ◌∷◌, get_elem?, some, ◌≡◌, ◌≢◌, inl,
  inr, refl, sym, ap, ◌∙◌, arith, Option-cases, Bool-cases,
}
use ice_test.Message.Entries.{StdErrc, entries, first_entries, last_entries}
use ice_test.Message.Category.{search, system_message, unknown_error}

-- No entry has the text.
unfoldable pub lacks : {N : Type 0} → String → List (N × String) → Bool
lacks text [] = true
lacks text (entry ∷ rest) = not (str_eq text entry.1) && lacks text rest

unfoldable pub distinct : {N : Type 0} → List (N × String) → Bool
unfolding lacks
distinct [] = true
distinct (entry ∷ rest) = lacks entry.1 rest && distinct rest

module _ {N : Type 0} (platform : N → ℕ) where
  search-lacks :
      (text : String) (table : List (N × String)) (code : ℕ)
      → lacks text table ≡ true
      → search platform table code ≢ some text
  unfolding search lacks
  search-lacks text [] code all = λ found. cc
  search-lacks text (entry ∷ rest) code all = λ found.
      elim (Bool-cases (code == platform entry.0)) [
        | inl same ↦ ground (arith, same, found, all, eq_iff text entry.1)
        | inr other ↦ ground (arith, other, found, all, search-lacks text rest code)
      ]

  -- The first text of a table is not found after it.
  once :
      (entry : N × String) (rest : List (N × String)) (code : ℕ) (text : String)
      → distinct (entry ∷ rest) ≡ true
      → entry.1 ≡ text
      → search platform rest code ≢ some text
  unfolding distinct
  once entry rest code text all same =
      search-lacks text rest code (ground (arith, all, sym (ap (λ t. lacks t rest) same)))

  pub search_determines :
      (table : List (N × String)) (code other : ℕ) (text : String)
      → distinct table ≡ true
      → search platform table code ≡ some text
      → search platform table other ≡ some text
      → code ≡ other
  unfolding search distinct
  search_determines [] code other text all found found' = cc
  search_determines (entry ∷ rest) code other text all found found' =
      elim (Bool-cases (code == platform entry.0)) [
        | inl here ↦ elim (Bool-cases (other == platform entry.0)) [
          | inl here' ↦ ground (arith, here, here')
          | inr later' ↦ absurd (
              once entry rest other text all (ground (arith, here, found))
                (ground (arith, later', found')))
        ]
        | inr later ↦ elim (Bool-cases (other == platform entry.0)) [
          | inl here' ↦ absurd (
              once entry rest code text all (ground (arith, here', found'))
                (ground (arith, later, found)))
          | inr later' ↦
              ground
                (arith, later, later', found, found', all, search_determines rest code other text)
        ]
      ]

  pub search_first :
      (table : List (N × String)) (i : ℕ) (entry : N × String)
      → get_elem? table i ≡ some entry
      → (j : ℕ) × (first : N × String) × (j ≤ i)
        × (get_elem? table j ≡ some first)
        × (platform first.0 ≡ platform entry.0)
        × (search platform table (platform entry.0) ≡ some first.1)
  unfolding search
  search_first [] i entry at = cc
  search_first (head ∷ rest) zero entry at =
      (0, head, ground arith, refl, ground (arith, at), ground (arith, at))
  search_first (head ∷ rest) (suc i) entry at =
      elim (Bool-cases (platform entry.0 == platform head.0)) [
        | inl here ↦ (0, head, ground arith, refl, ground (arith, here), ground (arith, here))
        | inr later ↦
            let (j, first, le, there, same, found) = search_first rest i entry at in
            (suc j, first, ground (arith, le), there, same, ground (arith, later, found))
      ]

all_distinct : distinct entries ≡ true
unfolding distinct lacks entries first_entries last_entries
all_distinct = refl

none_unknown : lacks unknown_error entries ≡ true
unfolding lacks entries first_entries last_entries
none_unknown = refl

module _ (platform : StdErrc → ℕ) where
  system_message_found :
      (code : ℕ)
      → system_message platform code ≢ unknown_error
      → search platform entries code ≡ some (system_message platform code)
  unfolding system_message
  system_message_found code known = elim (Option-cases (search platform entries code)) [
    | inl missing ↦ absurd (known (ground (arith, missing)))
    | inr (text, at) ↦ ground (arith, at)
  ]

  -- Whatever the numbers of the std::errc constants on the platform, two codes with the same
  -- message are the same code, unless the message is that of an unknown error.
  pub system_message-injective :
      (code other : ℕ)
      → system_message platform code ≡ system_message platform other
      → system_message platform code ≢ unknown_error
      → code ≡ other
  system_message-injective code other same known =
      let text = system_message platform code in
      search_determines platform entries code other text all_distinct
        (system_message_found code known)
        (system_message_found other (λ unknown. known (same ∙ unknown)) ∙ ap some (sym same))

  -- Every name that is tested gets the text of the first name with its number.
  pub system_message_of_name :
      (i : ℕ) (entry : StdErrc × String)
      → get_elem? entries i ≡ some entry
      → (j : ℕ) × (first : StdErrc × String) × (j ≤ i)
        × (get_elem? entries j ≡ some first)
        × (platform first.0 ≡ platform entry.0)
        × (system_message platform (platform entry.0) ≡ first.1)
  unfolding system_message
  system_message_of_name i entry at =
      let (j, first, le, there, same, found) = search_first platform entries i entry at in
      (j, first, le, there, same, ground (arith, found))
