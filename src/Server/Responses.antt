-- ===== src/Server/Responses.antt =====
-- src/main.cpp: any number of coroutines of `respond` that share a client and an `async_mutex`, and the one
-- of `handle`, which locks it and sends nothing. The mutex is a parameter.
use ice_test.Base.{
  ℕ, ◌+◌, ◌≤◌, ◌≡◌, ◌≢◌, sym, ap, ◌∙◌, Bool, true, false, ◌==◌, ◌||◌, List, [], ◌∷◌, ◌++◌, take,
  drop, length,
}
use mathlib.Core.List.{append_assoc, append-nil}
use ice_test.Mutex.{update, holding, Mutex, Reach, start, later, IsMutex}
use ice_test.Mutex.Lawful.{Reach-Lawful}

-- The mutex with its coroutines, how many bytes of its data each has sent, whether its send has ended
-- early, by an exception or since a write took nothing, and what the client gets.
pub record Sending (M : Mutex) : Type 0 where
  pub lock : M.State
  pub offset : ℕ → ℕ
  pub failed : ℕ → Bool
  pub wire : List ℕ

module _ (bytes : ℕ → List ℕ) where
  -- What some coroutines have sent, one after the other.
  abbrev pub joined : (ℕ → ℕ) → List ℕ → List ℕ
  joined offset [] = []
  joined offset (a ∷ rest) = take (offset a) (bytes a) ++ joined offset rest

  pub joined_last :
      (offset : ℕ → ℕ) (done : List ℕ) (a : ℕ)
      → joined offset (done ++ (a ∷ [])) ≡ joined offset done ++ take (offset a) (bytes a)
  joined_last offset [] a = append-nil (take (offset a) (bytes a))
  joined_last offset (d ∷ done) a =
      ap (λ t. take (offset d) (bytes d) ++ t) (joined_last offset done a)
      ∙ sym (
          append_assoc (take (offset d) (bytes d)) (joined offset done) (take (offset a) (bytes a)))

module _ (M : Mutex) (bytes : ℕ → List ℕ) where
  -- The send of a coroutine has come to the end of its data, or has ended early.
  abbrev pub ended : Sending M → ℕ → Bool
  ended s a = (s.offset a == length (bytes a)) || s.failed a

  -- A coroutine unlocks when its send has ended; a send that holds the lock may write some bytes, or
  -- end early at any time.
  pub data SendStep (s : Sending M) : Sending M → Type 0 where
    locks :
        {t : M.State}
        → M.Step s.lock t
        → ((a : ℕ) → M.role s.lock a ≡ holding → M.role t a ≢ holding → ended s a ≡ true)
        → SendStep s (record s { lock = t })
    writes :
        (a n : ℕ)
        → M.role s.lock a ≡ holding
        → s.failed a ≡ false
        → s.offset a + n ≤ length (bytes a)
        → SendStep s (record s {
          offset = update s.offset a (s.offset a + n);
          wire = s.wire ++ take n (drop (s.offset a) (bytes a));
        })
    breaks_off :
        (a : ℕ)
        → M.role s.lock a ≡ holding
        → SendStep s (record s { failed = update s.failed a true })

  pub data Sends : Sending M → Type 0 where
    begin : Sends (record { lock = M.new_mutex; offset = λ a. 0; failed = λ a. false; wire = [] })
    goes_on : {s t : Sending M} → Sends s → SendStep s t → Sends t

  pub Sends-Reach : {s : Sending M} → Sends s → Reach M s.lock
  Sends-Reach begin = start
  Sends-Reach (goes_on r (locks step held)) = later (Sends-Reach r) step
  Sends-Reach (goes_on r (writes a n held unbroken fits)) = Sends-Reach r
  Sends-Reach (goes_on r (breaks_off a held)) = Sends-Reach r

  pub owners_same :
      IsMutex M
      → {s : Sending M} → Sends s
      → (a b : ℕ) → M.role s.lock a ≡ holding
      → M.role s.lock b ≡ holding
      → a ≡ b
  owners_same law {s} r a b ha hb = (Reach-Lawful M law s.lock (Sends-Reach r)).alone a b ha hb
