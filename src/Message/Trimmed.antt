-- ===== src/Message/Trimmed.antt =====
-- src/ice/error.cpp: what `native_category::format` leaves of a text.
use ice_test.Base.{
  ℕ, zero, suc, true, List, [], ◌∷◌, take, drop, none, some, ◌≡◌, refl, subst, ap, ◌∙◌, arith,
  Option-cases, Bool-cases, ◌⊎◌, inl, inr,
}
use ice_test.Message.Lowered.{
  find_first-lower, find-lower, find_last-lower, take-lower, lower-lower,
}
use ice_test.Message.Text.{
  is_blank, find_first_not_of, find, find_last_not_of, lower_while_ascii, erase_front,
  erase_sentence, erase_back, format,
}

find_last-take :
    (str : List ℕ) (pos : ℕ)
    → find_last_not_of is_blank str ≡ some pos
    → find_last_not_of is_blank (take (suc pos) str) ≡ some pos
unfolding find_last_not_of
find_last-take [] pos found = cc
find_last-take (c ∷ str) pos found = elim (Option-cases (find_last_not_of is_blank str)) [
  | inl missing ↦ ground (arith, missing)
  | inr (last, at) ↦ ground (arith, at, find_last-take str last at)
]

find-take : (str : List ℕ) (most : ℕ) → find b'.' str ≡ none → find b'.' (take most str) ≡ none
unfolding find
find-take str zero lacks = refl
find-take [] (suc most) lacks = refl
find-take (c ∷ str) (suc most) lacks = elim (Option-cases (find b'.' str)) [
  | inl missing ↦ ground (arith, lacks, find-take str most missing)
  | inr (pos, at) ↦ ground (arith, at, lacks)
]

find-take_found :
    (str : List ℕ) (pos : ℕ) → find b'.' str ≡ some pos → find b'.' (take pos str) ≡ none
unfolding find
find-take_found [] pos found = cc
find-take_found (c ∷ str) pos found = elim (Option-cases (find b'.' str)) [
  | inl missing ↦ ground (arith, missing)
  | inr (last, at) ↦ ground (arith, at, find-take_found str last at)
]

take-take : (str : List ℕ) (n : ℕ) → take n (take n str) ≡ take n str
take-take str zero = refl
take-take [] (suc n) = refl
take-take (c ∷ str) (suc n) = ap (◌∷◌ c) (take-take str n)

take-blanks :
    (str : List ℕ) (n : ℕ)
    → find_first_not_of is_blank str ≡ none
    → find_first_not_of is_blank (take n str) ≡ none
unfolding find_first_not_of
take-blanks str zero blanks = refl
take-blanks [] (suc n) blanks = refl
take-blanks (c ∷ str) (suc n) blanks = elim (Option-cases (find_first_not_of is_blank str)) [
  | inl missing ↦ ground (arith, missing, take-blanks str n missing)
  | inr (pos, at) ↦ ground (arith, at)
]

-- A text that is all blank, or starts with a character that is not.
IsFront : List ℕ → Type 0
unfolding find_first_not_of
IsFront str = (find_first_not_of is_blank str ≡ none) ⊎ (find_first_not_of is_blank str ≡ some 0)

take-IsFront : (str : List ℕ) (n : ℕ) → IsFront str → IsFront (take n str)
unfolding IsFront find_first_not_of
take-IsFront str zero front = inl refl
take-IsFront [] (suc n) front = inl refl
take-IsFront (c ∷ str) (suc n) (inl blanks) = inl (take-blanks (c ∷ str) (suc n) blanks)
take-IsFront (c ∷ str) (suc n) (inr first) = elim (Bool-cases (is_blank c)) [
  | inr printed ↦ inr (ground (arith, printed))
  | inl blank ↦ elim (Option-cases (find_first_not_of is_blank str)) [
    | inl missing ↦ absurd (ground (arith, blank, missing, first))
    | inr (pos, at) ↦ absurd (ground (arith, blank, at, first))
  ]
]

drop-found :
    (str : List ℕ) (pos : ℕ)
    → find_first_not_of is_blank str ≡ some pos
    → find_first_not_of is_blank (drop pos str) ≡ some 0
unfolding find_first_not_of
drop-found [] pos found = cc
drop-found (c ∷ str) pos found = elim (Option-cases (find_first_not_of is_blank str)) [
  | inl missing ↦ ground (arith, missing)
  | inr (first, at) ↦ ground (arith, at, drop-found str first at)
]

erase_front-IsFront : (str : List ℕ) → IsFront (erase_front str)
unfolding IsFront erase_front
erase_front-IsFront str = elim (Option-cases (find_first_not_of is_blank str)) [
  | inl missing ↦ inl (ground (arith, missing))
  | inr (first, at) ↦ inr (ground (arith, at, drop-found str first at))
]

erase_front_stays : (str : List ℕ) → IsFront str → erase_front str ≡ str
unfolding IsFront erase_front
erase_front_stays str (inl blanks) = ground (arith, blanks)
erase_front_stays str (inr first) = ground (arith, first)

erase_sentence-IsFront : (str : List ℕ) → IsFront str → IsFront (erase_sentence str)
unfolding erase_sentence
erase_sentence-IsFront str front = elim (Option-cases (find b'.' str)) [
  | inl missing ↦ subst IsFront (ground (arith, missing)) front
  | inr (pos, at) ↦ subst IsFront (ground (arith, at)) (take-IsFront str pos front)
]

erase_back-IsFront : (str : List ℕ) → IsFront str → IsFront (erase_back str)
unfolding erase_back
erase_back-IsFront str front = elim (Option-cases (find_last_not_of is_blank str)) [
  | inl missing ↦ subst IsFront (ground (arith, missing)) front
  | inr (pos, at) ↦ subst IsFront (ground (arith, at)) (take-IsFront str (suc pos) front)
]

lower-IsFront : (str : List ℕ) → IsFront str → IsFront (lower_while_ascii true str)
unfolding IsFront
lower-IsFront str (inl blanks) = inl (find_first-lower true str ∙ blanks)
lower-IsFront str (inr first) = inr (find_first-lower true str ∙ first)

erase_sentence_lem : (str : List ℕ) → find b'.' (erase_sentence str) ≡ none
unfolding erase_sentence
erase_sentence_lem str = elim (Option-cases (find b'.' str)) [
  | inl missing ↦ ground (arith, missing)
  | inr (pos, at) ↦ ground (arith, at, find-take_found str pos at)
]

erase_sentence_stays : (str : List ℕ) → find b'.' str ≡ none → erase_sentence str ≡ str
unfolding erase_sentence
erase_sentence_stays str missing = ground (arith, missing)

erase_back_keeps : (str : List ℕ) → find b'.' str ≡ none → find b'.' (erase_back str) ≡ none
unfolding erase_back
erase_back_keeps str whole = elim (Option-cases (find_last_not_of is_blank str)) [
  | inl missing ↦ ground (arith, missing, whole)
  | inr (pos, at) ↦ ground (arith, at, find-take str (suc pos) whole)
]

erase_back-lower_again :
    (str : List ℕ)
    → erase_back (lower_while_ascii true (erase_back str)) ≡ lower_while_ascii true (erase_back str)
unfolding erase_back
erase_back-lower_again str = elim (Option-cases (find_last_not_of is_blank str)) [
  | inl missing ↦ ground (arith, missing, find_last-lower true str)
  | inr (pos, at) ↦ ground (
    arith,
    at,
    find_last-lower true (take (suc pos) str),
    find_last-take str pos at,
    take-lower true (take (suc pos) str) (suc pos),
    take-take str (suc pos),
  )
]

pub format_no_stop : (str : List ℕ) → find b'.' (format str) ≡ none
unfolding format
format_no_stop str =
    find-lower true (erase_back (erase_sentence (erase_front str)))
    ∙ erase_back_keeps (erase_sentence (erase_front str)) (erase_sentence_lem (erase_front str))

-- Formatting a text of the system a second time changes nothing: what the first pass leaves of any
-- text has no more to trim, to cut or to lower.
pub format-format : (str : List ℕ) → format (format str) ≡ format str
unfolding format
format-format str =
    let u = erase_sentence (erase_front str) in
    let r = lower_while_ascii true (erase_back u) in
    let front = erase_front_stays r (
      lower-IsFront (erase_back u) (
        erase_back-IsFront u
          (erase_sentence-IsFront (erase_front str) (erase_front-IsFront str)))) in
    let sentence = erase_sentence_stays r (format_no_stop str) in
    rw (front, sentence, erase_back-lower_again u, lower-lower true (erase_back u)) refl
