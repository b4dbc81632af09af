-- ===== src/Context/Looped.antt =====
-- src/ice/context.cpp: what the loop of `run` resumes, and what it throws.
use ice_test.Base.{
  ℕ, zero, suc, ◌+◌, ◌<◌, ◌^◌, ◌≡◌, refl, sym, ap, subst, ◌∙◌, Bool, true, false, not, ◌&&◌, List,
  [], ◌∷◌, ◌++◌, Option, none, some, if◌then◌else◌, arith, Bool-cases, inl, inr,
}
use ice_test.Base.Int.{pos}
use ice_test.ErrorCode.{ErrorCode, SystemError, system_error, of_integral, of_combined, to_bool}
use ice_test.Context.Loop.{
  Wait, batch, broken, Running, new_running, resume_all, Failure, retries, fails, closes, Turn,
  continues, breaks, turn, run_loop, run_result,
}
use mathlib.Core.List.{append_assoc, append-nil}

-- The events of a batch, and of the first batches.
abbrev pub events_in : List (Option ℕ) → List ℕ
events_in [] = []
events_in (some ev ∷ entries) = ev ∷ events_in entries
events_in (none ∷ entries) = events_in entries

abbrev pub wakes : List (Option ℕ) → Bool
wakes [] = false
wakes (some ev ∷ entries) = wakes entries
wakes (none ∷ entries) = true

abbrev pub events_of : Wait → List ℕ
events_of (batch entries) = events_in entries
events_of (broken errno) = []

-- `count` batches from number `i` on.
abbrev pub events_of_first : (ℕ → Wait) → ℕ → ℕ → List ℕ
events_of_first wait i zero = []
events_of_first wait i (suc count) = events_of (wait i) ++ events_of_first wait (suc i) count

resume_all_lem :
    (entries : List (Option ℕ)) (resumed : List ℕ)
    → resume_all entries resumed ≡ (resumed ++ events_in entries, wakes entries)
unfolding resume_all
resume_all_lem [] resumed = ap (λ (t : List ℕ). (t, false)) (sym (append-nil resumed))
resume_all_lem (some ev ∷ entries) resumed =
    resume_all_lem entries (resumed ++ (ev ∷ []))
    ∙ ap (λ (t : List ℕ). (t, wakes entries)) (append_assoc resumed (ev ∷ []) (events_in entries))
resume_all_lem (none ∷ entries) resumed = rw (resume_all_lem entries resumed) refl

-- Whether a round ends the loop.
abbrev pub goes_on : (ℕ → Failure) → Wait → Bool → Bool
goes_on failure (broken errno) stop_requested = elim (failure errno) [
  | retries ↦ true
  | fails ↦ false
  | closes ↦ false
]
goes_on failure (batch entries) stop_requested = not (wakes entries && stop_requested)

-- The error of a round that ends the loop.
abbrev pub error_of : (ℕ → Failure) → Wait → ErrorCode → ErrorCode
error_of failure (broken errno) ec = elim (failure errno) [
  | retries ↦ ec
  | fails ↦ of_integral (pos errno)
  | closes ↦ ec
]
error_of failure (batch entries) ec = ec

-- A round resumes the events of its batch.
abbrev pub after_turn : (ℕ → Failure) → Wait → Bool → Running → Turn
after_turn failure w stop_requested s =
    if goes_on failure w stop_requested
    then continues (record s { resumed = s.resumed ++ events_of w })
    else breaks (record { ec = error_of failure w s.ec; resumed = s.resumed ++ events_of w })

turn_lem :
    (failure : ℕ → Failure) (w : Wait) (stop_requested : Bool) (s : Running)
    → turn failure w stop_requested s ≡ after_turn failure w stop_requested s
unfolding turn
turn_lem failure (broken errno) stop_requested s = by_failure (failure errno) refl
  where
    by_failure :
        (f : Failure)
        → failure errno ≡ f
        → turn failure (broken errno) stop_requested s
          ≡ after_turn failure (broken errno) stop_requested s
    by_failure retries q = rw (q, turn, goes_on, error_of, append-nil s.resumed) refl
    by_failure fails q = rw (q, turn, goes_on, error_of, append-nil s.resumed) refl
    by_failure closes q = rw (q, turn, goes_on, error_of, append-nil s.resumed) refl
turn_lem failure (batch entries) stop_requested s =
    elim (Bool-cases (wakes entries && stop_requested)) [
      | inl ends ↦ rw (resume_all_lem entries s.resumed, ends) refl
      | inr again ↦ rw (resume_all_lem entries s.resumed, again) refl
    ]

module _ (failure : ℕ → Failure) (wait : ℕ → Wait) (stop_requested : ℕ → Bool) where
  abbrev Continues : ℕ → Type 0
  Continues i = goes_on failure (wait i) (stop_requested i) ≡ true

  unfoldable pub after : ℕ → ℕ → Turn → Option Running
  after i fuel (continues s) = run_loop failure wait stop_requested (suc i) fuel s
  after i fuel (breaks s) = some s

  pub run_loop_lem :
      (i fuel : ℕ) (s : Running)
      → run_loop failure wait stop_requested i (suc fuel) s
        ≡ after i fuel (after_turn failure (wait i) (stop_requested i) s)
  unfolding run_loop after
  run_loop_lem i fuel s =
      by_turn (turn failure (wait i) (stop_requested i) s) refl
      ∙ ap (after i fuel) (turn_lem failure (wait i) (stop_requested i) s)
    where
      by_turn :
          (r : Turn)
          → turn failure (wait i) (stop_requested i) s ≡ r
          → run_loop failure wait stop_requested i (suc fuel) s ≡ after i fuel r
      by_turn (continues s') q = rw (q, run_loop) refl
      by_turn (breaks s') q = rw (q, run_loop) refl

  run_loop_ends :
      (i fuel : ℕ) (s : Running)
      → goes_on failure (wait i) (stop_requested i) ≡ false
      → run_loop failure wait stop_requested i (suc fuel) s
        ≡ some (record {
          ec = error_of failure (wait i) s.ec;
          resumed = s.resumed ++ events_of_first wait i 1;
        })
  unfolding after
  run_loop_ends i fuel s ends =
      run_loop_lem i fuel s ∙ rw (ends, append-nil (events_of (wait i))) refl

  run_loop_from :
      (count i j fuel : ℕ) (s : Running)
      → i + count ≡ j
      → ((k : ℕ) → k < j → Continues k)
      → goes_on failure (wait j) (stop_requested j) ≡ false
      → count < fuel
      → run_loop failure wait stop_requested i fuel s
        ≡ some (record {
          ec = error_of failure (wait j) s.ec;
          resumed = s.resumed ++ events_of_first wait i (suc count);
        })
  unfolding after
  run_loop_from count i j zero s at before last enough = absurd (omega (arith, enough))
  run_loop_from zero i j (suc fuel) s at before last enough =
      subst
        (λ k.
          run_loop failure wait stop_requested k (suc fuel) s
          ≡ some (record {
            ec = error_of failure (wait j) s.ec;
            resumed = s.resumed ++ events_of_first wait k 1;
          }))
        (omega (arith, at)) (run_loop_ends j fuel s last)
  run_loop_from (suc count) i j (suc fuel) s at before last enough =
      run_loop_lem i fuel s
      ∙ (rw (before i (omega (arith, at))) (
            run_loop_from count (suc i) j fuel
              (record s { resumed = s.resumed ++ events_of (wait i) }) (omega (arith, at)) before
              last (omega (arith, enough)))
          ∙ ap (λ (t : List ℕ). some (record { ec = error_of failure (wait j) s.ec; resumed = t }))
              (append_assoc s.resumed (events_of (wait i))
                (events_of_first wait (suc i) (suc count))))

-- The exception of `run`, by what its last wait gives.
abbrev pub thrown_by : (ℕ → Failure) → Wait → Option SystemError
thrown_by failure (batch entries) = none
thrown_by failure (broken errno) = elim (failure errno) [
  | retries ↦ none
  | fails ↦ some (system_error (of_integral (pos errno)))
  | closes ↦ none
]

run_result_lem :
    (failure : ℕ → Failure) (w : Wait) (resumed : List ℕ)
    → ((errno : ℕ) → w ≡ broken errno → (0 < errno) × (errno < 2 ^ 28))
    → run_result (record { ec = error_of failure w (of_combined 0); resumed = resumed })
      ≡ thrown_by failure w
unfolding run_result to_bool of_combined of_integral
run_result_lem failure (batch entries) resumed errors = refl
run_result_lem failure (broken errno) resumed errors = by_failure (failure errno) refl
  where
    by_failure :
        (f : Failure)
        → failure errno ≡ f
        → run_result
            (record { ec = error_of failure (broken errno) (of_combined 0); resumed = resumed })
          ≡ thrown_by failure (broken errno)
    by_failure retries q = rw (q, run_result, error_of, thrown_by) refl
    by_failure fails q = rw (q, run_result, error_of, thrown_by) (ground (arith, errors errno refl))
    by_failure closes q = rw (q, run_result, error_of, thrown_by) refl

module _ (failure : ℕ → Failure) (wait : ℕ → Wait) (stop_requested : ℕ → Bool) where
  -- If the first j rounds of the loop of run go on, since their waits fail in a way that is tried
  -- again or their batches do not have the event of the context or no stop is requested then, and
  -- the next round ends the loop, then more than j rounds are enough, every event of all these
  -- batches has been resumed once, in order, those behind the event of the context in the last
  -- batch included, and run throws exactly if the last wait failed in a way that counts as an
  -- error, and throws its error. What the failure of a wait means, a new try, an error or a quiet
  -- end, is any function of the number of the error, as it depends on the system; that number is
  -- positive and below 2 ^ 28.
  pub run_resumes :
      (j fuel : ℕ)
      → ((k : ℕ) → k < j → Continues failure wait stop_requested k)
      → goes_on failure (wait j) (stop_requested j) ≡ false
      → ((errno : ℕ) → wait j ≡ broken errno → (0 < errno) × (errno < 2 ^ 28))
      → j < fuel
      → (r : Running) × (run_loop failure wait stop_requested 0 fuel new_running ≡ some r)
        × (r.resumed ≡ events_of_first wait 0 (suc j))
        × (run_result r ≡ thrown_by failure (wait j))
  run_resumes j fuel before last errors enough = (
    record {
      ec = error_of failure (wait j) (of_combined 0);
      resumed = events_of_first wait 0 (suc j);
    },
    run_loop_from failure wait stop_requested j 0 j fuel new_running (omega arith) before last
        enough,
    refl,
    run_result_lem failure (wait j) (events_of_first wait 0 (suc j)) errors,
  )
