-- ===== src/Server/Waits.antt =====
-- src/main.cpp: the last line of `handle`, which locks the mutex once more before the coroutine returns.
use ice_test.Base.{ℕ, ◌≡◌, ◌≢◌, ◌⊎◌, inl, inr, ap, List, Bool, true, false, ◌==◌, arith, Bool-cases}
use ice_test.Mutex.{apart, waiting, holding, Mutex, IsMutex}
use ice_test.Mutex.Fair.{Keeps, Quiet, no_step, more, locks_last}
use ice_test.Mutex.Lawful.{is_asking, is_holding, holding_of, Does-waiting}
use ice_test.Server.Responses.{
  Sending, SendStep, Sends, goes_on, locks, writes, breaks_off, ended, Sends-Reach,
}
use ice_test.Server.Turns.{not_holding}

module _ (M : Mutex) (bytes : ℕ → List ℕ) (early : ℕ → Bool) where
  -- Steps on the client and the mutex in which none of the early ones locks again.
  pub data Later (s : Sending M) : Sending M → Type 0 where
    at_once : Later s s
    then_does :
        {t u : Sending M}
        → Later s t
        → SendStep M bytes t u
        → Keeps M early t.lock u.lock
        → Later s u

  -- Where a coroutine stands once its call of `respond` has come back: it waits in the queue, or has the
  -- lock, or its send is over.
  abbrev pub Started : Sending M → ℕ → Type 0
  Started s r =
      (M.role s.lock r ≡ waiting)
      ⊎ ((M.role s.lock r ≡ holding)
          ⊎ ((is_asking (M.role s.lock r) ≡ false) × (ended M bytes s r ≡ true)))

  -- The same without the place where the code stands.
  Part : Sending M → ℕ → Type 0
  Part s r =
      (M.role s.lock r ≡ waiting) ⊎ ((M.role s.lock r ≡ holding) ⊎ (ended M bytes s r ≡ true))

  Started-starting : (s : Sending M) (r : ℕ) → Started s r → is_asking (M.role s.lock r) ≡ false
  Started-starting s r (inl e) = ap is_asking e
  Started-starting s r (inr (inl e)) = ap is_asking e
  Started-starting s r (inr (inr (e, h))) = e

  Started-Part : (s : Sending M) (r : ℕ) → Started s r → Part s r
  unfolding Part
  Started-Part s r (inl e) = inl e
  Started-Part s r (inr (inl e)) = inr (inl e)
  Started-Part s r (inr (inr (e, h))) = inr (inr h)

  SendStep-ended :
      {s t : Sending M} (r : ℕ)
      → SendStep M bytes s t
      → ended M bytes s r ≡ true
      → ended M bytes t r ≡ true
  SendStep-ended r (locks st held) e = e
  SendStep-ended {s} r (writes a n at unbroken fits) e = elim (Bool-cases (a == r)) [
    | inl same ↦ ground (arith, e, fits, unbroken, same)
    | inr other ↦ rw other e
  ]
  SendStep-ended r (breaks_off a at) e = ground (arith, e)

  SendStep-Part :
      {s t : Sending M} (r : ℕ)
      → IsMutex M
      → Sends M bytes s
      → SendStep M bytes s t
      → Part s r
      → Part t r
  unfolding Part
  SendStep-Part {s} r law sends (locks {t} st held) (inl e) =
      elim (Does-waiting r (law.steps s.lock t (Sends-Reach M bytes sends) st) e) [
        | inl still ↦ inl still
        | inr turn ↦ inr (inl turn)
      ]
  SendStep-Part r law sends (locks {t} st held) (inr (inl e)) =
      elim (Bool-cases (is_holding (M.role t r))) [
        | inl still ↦ inr (inl (holding_of (M.role t r) still))
        | inr left ↦ inr (inr (held r e (not_holding (M.role t r) left)))
      ]
  SendStep-Part r law sends (writes a n at unbroken fits) (inl e) = inl e
  SendStep-Part r law sends (writes a n at unbroken fits) (inr (inl e)) = inr (inl e)
  SendStep-Part r law sends (breaks_off a at) (inl e) = inl e
  SendStep-Part r law sends (breaks_off a at) (inr (inl e)) = inr (inl e)
  SendStep-Part r law sends st (inr (inr e)) = inr (inr (SendStep-ended r st e))

  pub Later-Sends : {s t : Sending M} → Sends M bytes s → Later s t → Sends M bytes t
  Later-Sends sends at_once = sends
  Later-Sends sends (then_does l st keeps) = goes_on (Later-Sends sends l) st

  Later-Part :
      {s t : Sending M} (r : ℕ) → IsMutex M → Sends M bytes s → Later s t → Part s r → Part t r
  Later-Part r law sends at_once e = e
  Later-Part r law sends (then_does l st keeps) e =
      SendStep-Part r law (Later-Sends sends l) st (Later-Part r law sends l e)

  -- The steps on the mutex among those on the client.
  Later-Quiet : {s t : Sending M} → Later s t → Quiet M early s.lock t.lock
  Later-Quiet at_once = no_step
  Later-Quiet (then_does l (locks st held) keeps) = more (Later-Quiet l) st keeps
  Later-Quiet (then_does l (writes a n at unbroken fits) keeps) = Later-Quiet l
  Later-Quiet (then_does l (breaks_off a at) keeps) = Later-Quiet l

  idle_ended :
      (s : Sending M) (r : ℕ) → M.role s.lock r ≡ apart → Part s r → ended M bytes s r ≡ true
  unfolding Part
  idle_ended s r quiet (inl e) = cc (quiet, e)
  idle_ended s r quiet (inr (inl e)) = cc (quiet, e)
  idle_ended s r quiet (inr (inr e)) = e

-- If, before handle locks the mutex at its end, each of the coroutines of respond that it has
-- started waits in the queue, holds the lock or is done, and none of them locks a second time, then
-- at any later state in which handle holds the lock, after any interleaving of steps, all of them
-- have sent the whole of their data, or have ended early, and have left the lock; and if no other
-- coroutine has a part in the lock, what the destructor of the mutex asserts holds. The mutex
-- follows IsMutex: one coroutine at a time gets the lock, those that find it taken wait in a queue,
-- unlock passes it to the first of them, and the destructor's assertions hold when nobody waits.
pub handle_waits :
    (M : Mutex) (law : IsMutex M) (bytes : ℕ → List ℕ) (early : ℕ → Bool) {s t : Sending M} (h : ℕ)
    → Sends M bytes s
    → M.role s.lock h ≡ apart
    → early h ≡ false
    → ((r : ℕ) → early r ≡ true → Started M bytes early s r)
    → Later M bytes early s t
    → M.role t.lock h ≡ holding
    → ((r : ℕ) → early r ≡ false → r ≢ h → M.role t.lock r ≡ apart)
    → ((r : ℕ) → early r ≡ true → (M.role t.lock r ≡ apart) × (ended M bytes t r ≡ true))
      × (M.may_destroy t.lock ≡ true)
handle_waits M law bytes early {s = s} {t = t} h sends quiet late started steps holds others =
    let r =
      locks_last M law early h (Sends-Reach M bytes sends) quiet late
        (λ r first. Started-starting M bytes early s r (started r first))
        (Later-Quiet M bytes early steps) holds others in
    (
      (λ i first. (
        r.0 i first,
        idle_ended M bytes early t i (r.0 i first) (
            Later-Part M bytes early i law sends steps
              (Started-Part M bytes early s i (started i first))),
      )),
      r.1,
    )
