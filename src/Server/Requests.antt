-- ===== src/Server/Requests.antt =====
-- src/main.cpp: how many responses a client gets depends on the bytes alone, and is the count of the
-- empty lines.
use ice_test.Base.{
  ap, ℕ, suc, ◌+◌, ◌≡◌, refl, Bool, true, false, ◌&&◌, List, [], ◌∷◌, ◌++◌, ◌==◌, if◌then◌else◌,
  arith, Bool-cases, ==_iff, sym, ◌∙◌, inl, inr,
}
use ice_test.Server.{cr, lf, Loop, on_byte, on_chunk, handle, new_loop}

-- The bytes before the end of the connection.
abbrev pub received : List (List ℕ) → List ℕ
received [] = []
received ([] ∷ chunks) = []
received ((c ∷ cs) ∷ chunks) = (c ∷ cs) ++ received chunks

abbrev pub without_cr : List ℕ → List ℕ
without_cr [] = []
without_cr (c ∷ cs) = if c == cr then without_cr cs else c ∷ without_cr cs

-- How often two line feeds in a row occur in a text, without overlaps, from the left.
abbrev pub empty_lines : List ℕ → ℕ
empty_lines [] = 0
empty_lines (c ∷ []) = 0
empty_lines (c ∷ d ∷ cs) =
    let here = empty_lines cs in
    let later = empty_lines (d ∷ cs) in if (c == lf) && (d == lf) then suc here else later

skip_byte : (c : ℕ) (cs : List ℕ) → (c == lf) ≡ false → empty_lines (c ∷ cs) ≡ empty_lines cs
skip_byte c [] e = refl
skip_byte c (d ∷ cs) e = rw e refl

same_feed : (c : ℕ) (cs : List ℕ) → (c == lf) ≡ true → empty_lines (c ∷ cs) ≡ empty_lines (lf ∷ cs)
same_feed c cs e = ap (λ d. empty_lines (d ∷ cs)) ((==_iff c lf).0 e)

on_chunk_lem :
    (newline : Bool) (n : ℕ) (cs : List ℕ)
    → (on_chunk (record { newline = newline; responses = n }) cs).responses
      ≡ n + empty_lines (if newline then lf ∷ without_cr cs else without_cr cs)
unfolding on_chunk on_byte
on_chunk_lem true n [] = ground arith
on_chunk_lem false n [] = ground arith
on_chunk_lem true n (c ∷ cs) = elim (Bool-cases (c == cr)) [
  | inl is_cr ↦ rw (is_cr, on_chunk, on_byte) (on_chunk_lem true n cs)
  | inr no_cr ↦ elim (Bool-cases (c == lf)) [
    | inl is_lf ↦
        rw (no_cr, is_lf, on_chunk, on_byte) (omega (arith, on_chunk_lem false (suc n) cs))
    | inr other ↦
        rw (no_cr, other, on_chunk, on_byte)
          (omega (arith, skip_byte c (without_cr cs) other, on_chunk_lem false n cs))
  ]
]
on_chunk_lem false n (c ∷ cs) = elim (Bool-cases (c == cr)) [
  | inl is_cr ↦ rw (is_cr, on_chunk, on_byte) (on_chunk_lem false n cs)
  | inr no_cr ↦ elim (Bool-cases (c == lf)) [
    | inl is_lf ↦
        rw (no_cr, is_lf, on_chunk, on_byte)
          (omega (arith, same_feed c (without_cr cs) is_lf, on_chunk_lem true n cs))
    | inr other ↦
        rw (no_cr, other, on_chunk, on_byte)
          (omega (arith, skip_byte c (without_cr cs) other, on_chunk_lem false n cs))
  ]
]

on_chunk-append : (s : Loop) (xs ys : List ℕ) → on_chunk s (xs ++ ys) ≡ on_chunk (on_chunk s xs) ys
unfolding on_chunk
on_chunk-append s [] ys = refl
on_chunk-append s (c ∷ xs) ys = on_chunk-append (on_byte s c) xs ys

handle_lem : (s : Loop) (chunks : List (List ℕ)) → handle s chunks ≡ on_chunk s (received chunks)
unfolding handle on_chunk
handle_lem s [] = refl
handle_lem s ([] ∷ chunks) = refl
handle_lem s ((c ∷ cs) ∷ chunks) =
    handle_lem (on_chunk s (c ∷ cs)) chunks ∙ sym (on_chunk-append s (c ∷ cs) (received chunks))

-- The number of responses that handle sends depends on the bytes received before the first empty
-- recv alone, and not on how they are split over the calls of recv: it is the number of times that
-- two line feeds in a row occur in them, without overlaps, once the carriage returns are dropped.
pub handle-new_loop :
    (chunks : List (List ℕ))
    → (handle new_loop chunks).responses ≡ empty_lines (without_cr (received chunks))
unfolding new_loop
handle-new_loop chunks =
    rw (handle_lem new_loop chunks, new_loop)
      (omega (arith, on_chunk_lem false 0 (received chunks)))
