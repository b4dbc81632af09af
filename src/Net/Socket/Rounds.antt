-- ===== src/Net/Socket/Rounds.antt =====
-- src/ice/net/socket.cpp: the loops that repeat a call that a signal has interrupted.
use ice_test.Base.{
  subst, ℕ, zero, suc, ◌+◌, ◌≤◌, ◌<◌, ◌≡◌, ◌≢◌, ◌==◌, refl, ◌∙◌, false, Option, none, some, arith,
  Bool-cases, ==_iff, inl, inr, ap,
}
use ice_test.Base.Int.{pos}
use ice_test.ErrorCode.{SystemError, system_error, of_integral}
use ice_test.Event.{Outcome, done, fail}
use ice_test.Net.Endpoint.{Endpoint, family, assign}
use ice_test.Net.Errno.{Errno}
use ice_test.Net.Socket.{
  rounds, Socket, Returned, returns, throws, bind, bind_round, close_type, close_round,
}

module _ {A B : Type 0} (decide : B → Option A) (answer : ℕ → B) (j : ℕ) (a : A)
    (before : (i : ℕ) → i < j → decide (answer i) ≡ none) (at : decide (answer j) ≡ some a) where
  rounds_from : (i fuel : ℕ) → i ≤ j → j < i + fuel → rounds decide answer i fuel ≡ some a
  unfolding rounds
  rounds_from i zero le lt = absurd (omega arith)
  rounds_from i (suc fuel) le lt = elim (Bool-cases (i == j)) [
    | inl same ↦ rw (ap (λ n. decide (answer n)) ((==_iff i j).0 same) ∙ at, rounds) refl
    | inr earlier ↦
        rw (before i (ground (arith, earlier)), rounds)
          (rounds_from (suc i) fuel (ground (arith, earlier)) (omega arith))
  ]

  pub rounds_end : (fuel : ℕ) → j < fuel → rounds decide answer 0 fuel ≡ some a
  rounds_end fuel lt = rounds_from 0 fuel (omega arith) (omega arith)

-- What `bind` comes to, by the answer of the call that counts.
abbrev pub bound : Outcome → Socket → Endpoint → Returned
bound (done n) s endpoint = returns (record s { endpoint_ = assign s.endpoint_ endpoint })
bound (fail errno) s endpoint = throws (system_error (of_integral (pos errno)))

module _ (e : Errno) (answer : ℕ → Outcome) (j fuel : ℕ)
    (interrupted : (i : ℕ) → i < j → answer i ≡ fail e.eintr) (last : answer j ≢ fail e.eintr)
    (enough : j < fuel) where
  again_at : (i : ℕ) → i < j → bind_round e (answer i) ≡ none
  again_at i lt = rw (interrupted i lt) (ground arith)

  close_again : (i : ℕ) → i < j → close_round e (answer i) ≡ none
  close_again i lt = rw (interrupted i lt) (ground arith)

  not_interrupted : (errno : ℕ) → answer j ≡ fail errno → (errno == e.eintr) ≡ false
  not_interrupted errno q = elim (Bool-cases (errno == e.eintr)) [
    | inl same ↦ absurd (last (q ∙ ap fail ((==_iff errno e.eintr).0 same)))
    | inr other ↦ other
  ]

  -- If the system call is interrupted j times and the next time is not, then more than j rounds of
  -- the loop are enough for bind, and it returns or throws as that last call answers.
  pub bind_ends :
      (s : Socket) (endpoint : Endpoint)
      → bind e answer fuel s endpoint ≡ some (bound (answer j) s endpoint)
  unfolding bind
  bind_ends s endpoint = by_answer (answer j) refl
    where
      by_answer :
          (a : Outcome)
          → answer j ≡ a
          → bind e answer fuel s endpoint ≡ some (bound (answer j) s endpoint)
      by_answer (done n) q =
          rw
            (
              rounds_end (bind_round e) answer j none again_at (ap (bind_round e) q) fuel enough,
              bind,
            )
            (rw q refl)
      by_answer (fail errno) q =
          let other = not_interrupted errno q in
          rw
            (
              rounds_end (bind_round e) answer j (some (system_error (of_integral (pos errno))))
                  again_at (ap (bind_round e) q ∙ rw other refl) fuel enough,
              bind,
            )
            (rw q refl)

  -- If closing a descriptor is interrupted j times and the next time is not, then more than j
  -- rounds of the loop are enough for the closer of a socket to return.
  pub close_type_ends : close_type e answer fuel ≡ some tt
  unfolding close_type
  close_type_ends = by_answer (answer j) refl
    where
      by_answer : (a : Outcome) → answer j ≡ a → close_type e answer fuel ≡ some tt
      by_answer (done n) q =
          rounds_end (close_round e) answer j tt close_again (ap (close_round e) q) fuel enough
      by_answer (fail errno) q =
          rounds_end (close_round e) answer j tt close_again
            (ap (close_round e) q ∙ rw (not_interrupted errno q) refl) fuel enough

-- When bind returns, the endpoint of the socket has the storage of the endpoint that was bound, and
-- still the family that it had before.
pub bind-family :
    (e : Errno) (answer : ℕ → Outcome) (fuel : ℕ) (s s' : Socket) (endpoint : Endpoint)
    → bind e answer fuel s endpoint ≡ some (returns s')
    → (s'.endpoint_.storage_ ≡ endpoint.storage_) × (family s'.endpoint_ ≡ family s.endpoint_)
unfolding bind assign family
bind-family e answer fuel s s' endpoint success = by_end (rounds (bind_round e) answer 0 fuel) refl
  where
    by_end :
        (r : Option (Option SystemError))
        → rounds (bind_round e) answer 0 fuel ≡ r
        → (s'.endpoint_.storage_ ≡ endpoint.storage_) × (family s'.endpoint_ ≡ family s.endpoint_)
    by_end none q =
        let out : bind e answer fuel s endpoint ≡ none = rw (q, bind) refl in absurd (cc)
    by_end (some (some error)) q =
        let out : bind e answer fuel s endpoint ≡ some (throws error) = rw (q, bind) refl in
        absurd (cc)
    by_end (some none) q =
        let t : Socket = record s { endpoint_ = assign s.endpoint_ endpoint } in
        let out : bind e answer fuel s endpoint ≡ some (returns t) = rw (q, bind) refl in
        let same : t ≡ s' = cc in
        subst
          (λ u.
            (u.endpoint_.storage_ ≡ endpoint.storage_) × (family u.endpoint_ ≡ family s.endpoint_))
          same (refl, refl)
