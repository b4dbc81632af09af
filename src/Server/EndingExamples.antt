-- ===== src/Server/EndingExamples.antt =====
-- src/main.cpp: the end of `handle` while one response is still being sent.
use ice_test.Base.{[], ◌∷◌, false, Bool, inl, inr, sym, subst, ◌≡◌, ℕ, refl, true, ◌≢◌, arith, mem}
use ice_test.Mutex.{update, Role, apart, asking, waiting, holding, asks, joins, passes}
use ice_test.Mutex.Fair.{KeepsRoles}
use ice_test.Mutex.Lawful.{update_keeps}
use ice_test.Mutex.Line.{Line, line, line-IsMutex, is_empty}
use ice_test.Server.{handle, new_loop, on_chunk, on_byte}
use ice_test.Server.Requests.{empty_lines, without_cr, received}
use ice_test.Server.Answers.{repeated, handle_answers}
use ice_test.Server.Waits.{Later, at_once, then_does, handle_waits}
use ice_test.Server.Responses.{ended, Sending, locks, writes}
use ice_test.Server.Examples.{two_bytes, sent_once, apart_holds_nothing}

-- The coroutine of `handle` is at 48. It locks while the one at 16 sends, which then sends its last byte and
-- unlocks.
abbrev sends_first : ℕ → Bool
sends_first r = mem r (16 ∷ [])

first_one : (r : ℕ) → sends_first r ≡ true → r ≡ 16
first_one r first = ground (arith, first)

abbrev Followed : Type 0
Followed = (t : Sending line) × Later line two_bytes sends_first sent_once.0 t

Keeps-first : (f g : ℕ → Role) → (f 16 ≡ apart → g 16 ≡ apart) → KeepsRoles sends_first f g
Keeps-first f g kept r first q =
    let here = first_one r first in
    subst (λ i. g i ≡ apart) (sym here) (kept (subst (λ i. f i ≡ apart) here q))

abbrev roles_of : Followed → ℕ → Role
roles_of f = f.0.lock.roles

abbrev from_there : Followed
from_there = (sent_once.0, at_once)

asking_holds_nothing : asking ≢ holding
asking_holds_nothing same = cc

abbrev asks_now : Line
asks_now = record { roles = update (roles_of from_there) 48 asking; waits = [] }

abbrev asked : Followed
asked = (
  record from_there.0 { lock = asks_now },
  then_does from_there.1
      (locks {t = asks_now} (asks 48 refl (λ c. refl) refl) (λ a held left. absurd (
        left (
          update_keeps (roles_of from_there) 48 a asking holding apart refl apart_holds_nothing
            held))))
      (Keeps-first (roles_of from_there) asks_now.roles (λ e. e)),
)

abbrev queues_now : Line
queues_now = record { roles = update (roles_of asked) 48 waiting; waits = 48 ∷ [] }

abbrev queued : Followed
queued = (
  record asked.0 { lock = queues_now },
  then_does asked.1
      (locks {t = queues_now} (joins 48 refl (λ c. refl) refl) (λ a held left. absurd (
        left (
          update_keeps (roles_of asked) 48 a waiting holding asking refl asking_holds_nothing
            held))))
      (Keeps-first (roles_of asked) queues_now.roles (λ e. e)),
)

queued_roles : (roles_of queued 16 ≡ holding) × (roles_of queued 48 ≡ waiting)
queued_roles = (refl, refl)

abbrev sent_all : Followed
sent_all = (_, then_does queued.1 (writes 16 1 refl refl (omega arith)) (λ r first e. e))

abbrev passes_now : Line
passes_now = record { roles = update (update (roles_of sent_all) 16 apart) 48 holding; waits = [] }

-- Who held the lock has sent its data.
after_pass : (b : ℕ) → roles_of sent_all b ≡ holding → ended line two_bytes sent_all.0 b ≡ true
after_pass b held = ground (arith, held)

abbrev passed_on : Followed
passed_on = (
  record sent_all.0 { lock = passes_now },
  then_does sent_all.1
      (locks {t = passes_now} (passes 16 48 refl refl (λ c. refl))
        (λ b held left. after_pass b held))
      (Keeps-first (roles_of sent_all) passes_now.roles (λ e. refl)),
)

nobody_else : (r : ℕ) → sends_first r ≡ false → r ≢ 48 → roles_of passed_on r ≡ apart
nobody_else r late other = ground (arith, late, other)

handle_waits_example :
    ((r : ℕ)
      → sends_first r ≡ true
      → (roles_of passed_on r ≡ apart) × (ended line two_bytes passed_on.0 r ≡ true))
    × (is_empty passed_on.0.lock.waits ≡ true)
handle_waits_example =
    handle_waits line line-IsMutex two_bytes sends_first 48 sent_once.1 refl refl
      (λ r first.
        inr (inl (subst (λ i. sent_once.0.lock.roles i ≡ holding) (sym (first_one r first)) refl)))
      passed_on.1 refl nobody_else

one_request : (handle new_loop ((10 ∷ 10 ∷ []) ∷ [])).responses ≡ 1
unfolding handle new_loop on_chunk on_byte
one_request = refl

its_data : (r : ℕ) → mem r (16 ∷ []) ≡ true → two_bytes r ≡ 72 ∷ 105 ∷ []
its_data r first = ground (arith, first)

no_data : (r : ℕ) → mem r (16 ∷ []) ≡ false → two_bytes r ≡ []
no_data r late = ground (arith, late)

handle_answers_example :
    passed_on.0.wire
    ≡ repeated (empty_lines (without_cr (received ((10 ∷ 10 ∷ []) ∷ [])))) (72 ∷ 105 ∷ [])
handle_answers_example =
    handle_answers line line-IsMutex (72 ∷ 105 ∷ []) ((10 ∷ 10 ∷ []) ∷ []) two_bytes (16 ∷ []) 48
      (omega arith) refl (sym one_request) its_data no_data refl sent_once.1 refl
      (λ r first.
        inr (inl (subst (λ i. sent_once.0.lock.roles i ≡ holding) (sym (first_one r first)) refl)))
      passed_on.1 refl nobody_else (λ r first. refl)
