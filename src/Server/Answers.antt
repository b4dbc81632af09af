-- ===== src/Server/Answers.antt =====
-- src/main.cpp: a whole conversation with one client, from the bytes that come in to those that go out.
use ice_test.Base.{
  ℕ, zero, suc, ◌≡◌, ◌≢◌, inl, inr, refl, ap, ◌∙◌, true, false, ◌==◌, ==_iff, List, [], ◌∷◌, ◌++◌,
  take, length, mem, distinct, ◌<◌, if◌then◌else◌, arith, Bool-cases,
}
use mathlib.Core.List.{append-nil}
use ice_test.Mutex.{apart, holding, Mutex, IsMutex}
use ice_test.Net.Tcp.Send.{take_all}
use ice_test.Server.{handle, new_loop}
use ice_test.Server.Requests.{empty_lines, without_cr, received, handle-new_loop}
use ice_test.Server.Responses.{Sending, Sends, joined}
use ice_test.Server.Orderly.{Orderly, responses_whole}
use ice_test.Server.Waits.{Started, Later, Later-Sends, handle_waits}

-- So many responses, one after the other.
abbrev pub repeated : ℕ → List ℕ → List ℕ
repeated zero g = []
repeated (suc n) g = g ++ repeated n g

-- How many of a list are in another one.
within : List ℕ → List ℕ → ℕ
within rs [] = 0
within rs (c ∷ done) = if mem c rs then suc (within rs done) else within rs done

within_none : (done : List ℕ) → within [] done ≡ 0
unfolding within
within_none [] = refl
within_none (c ∷ done) = ground (arith, within_none done)

within_absent :
    (r : ℕ) (rs done : List ℕ) → mem r done ≡ false → within (r ∷ rs) done ≡ within rs done
unfolding within
within_absent r rs [] out = refl
within_absent r rs (c ∷ done) out =
    ground (arith, out, within_absent r rs done, ==_iff c r, ==_iff r c)

within_more :
    (r : ℕ) (rs done : List ℕ)
    → distinct done ≡ true
    → mem r done ≡ true
    → mem r rs ≡ false
    → within (r ∷ rs) done ≡ suc (within rs done)
unfolding within
within_more r rs [] once there new = ground (arith, there)
within_more r rs (c ∷ done) once there new = elim (Bool-cases (c == r)) [
  | inl here ↦ ground (arith, here, new, once, within_absent r rs done, (==_iff c r).0 here)
  | inr other ↦ ground (arith, other, there, once, new, within_more r rs done)
]

within-length :
    (rs done : List ℕ)
    → distinct rs ≡ true
    → distinct done ≡ true
    → ((r : ℕ) → mem r rs ≡ true → mem r done ≡ true)
    → within rs done ≡ length rs
within-length [] done once once' there = within_none done
within-length (r ∷ rs) done once once' there =
    within_more r rs done once' (there r (ground (arith, (==_iff r r).1 refl)))
      (ground (arith, once))
    ∙ ap suc
        (within-length rs done (ground (arith, once)) once' (λ q h. there q (ground (arith, h))))

take_nothing : (n : ℕ) → take {A = ℕ} n [] ≡ []
take_nothing zero = refl
take_nothing (suc n) = refl

-- What has been sent, where some coroutines have sent the same data whole and the others have none.
joined-repeated :
    (bytes : ℕ → List ℕ) (offset : ℕ → ℕ) (g : List ℕ) (rs done : List ℕ)
    → ((r : ℕ) → mem r rs ≡ true → (bytes r ≡ g) × (offset r ≡ length g))
    → ((r : ℕ) → mem r rs ≡ false → bytes r ≡ [])
    → joined bytes offset done ≡ repeated (within rs done) g
unfolding within
joined-repeated bytes offset g rs [] whole none_else = refl
joined-repeated bytes offset g rs (c ∷ done) whole none_else = elim (Bool-cases (mem c rs)) [
  | inl there ↦
      rw (there, (whole c there).0, (whole c there).1, take_all g)
        (ap (λ w. g ++ w) (joined-repeated bytes offset g rs done whole none_else))
  | inr other ↦
      rw (other, none_else c other, take_nothing (offset c))
        (joined-repeated bytes offset g rs done whole none_else)
]

module _ (M : Mutex) (g : List ℕ) (bytes : ℕ → List ℕ) (rs : List ℕ) (t : Sending M)
    (some_data : 0 < length g) (once : distinct rs ≡ true)
    (same : (r : ℕ) → mem r rs ≡ true → bytes r ≡ g)
    (none_else : (r : ℕ) → mem r rs ≡ false → bytes r ≡ [])
    (over : (r : ℕ) → mem r rs ≡ true → (M.role t.lock r ≡ apart) × (t.offset r ≡ length g)) where
  -- All of them are in the list of those that have ended.
  all_there :
      (done : List ℕ)
      → distinct done ≡ true
      → ((r : ℕ) → mem r rs ≡ true → mem r done ≡ false → t.offset r ≡ 0)
      → joined bytes t.offset done ≡ repeated (length rs) g
  all_there done once' fresh =
      joined-repeated bytes t.offset g rs done (λ r h. (same r h, (over r h).1)) none_else
      ∙ ap (λ n. repeated n g)
          (within-length rs done once once' (λ r h. elim (Bool-cases (mem r done)) [
            | inl there ↦ there
            | inr out ↦ absurd (omega (arith, fresh r h out, (over r h).1, some_data))
          ]))

  Orderly-repeated : Orderly M bytes t → t.wire ≡ repeated (length rs) g
  Orderly-repeated (done, once', whole, inl (fresh, wire)) =
      wire ∙ all_there done once' (λ r h out. fresh r out)
  Orderly-repeated (done, once', whole, inr (a, holds, out, fresh, wire)) =
      wire
      ∙ (ap (λ d. joined bytes t.offset done ++ take (t.offset a) d) (none_else a late)
          ∙ (ap (λ d. joined bytes t.offset done ++ d) (take_nothing (t.offset a))
              ∙ (append-nil (joined bytes t.offset done)
                  ∙ all_there done once' (λ r h out'. fresh r out' (distant r h)))))
    where
      late : mem a rs ≡ false
      late = elim (Bool-cases (mem a rs)) [
        | inl first ↦ cc ((over a first).0, holds)
        | inr second ↦ second
      ]

      distant : (r : ℕ) → mem r rs ≡ true → (r == a) ≡ false
      distant r h = elim (Bool-cases (r == a)) [
        | inl e ↦ cc ((over r h).0, holds, (==_iff r a).0 e)
        | inr e ↦ e
      ]

-- At the end of a conversation the client has got exactly one whole response for each empty line in
-- what handle received before the first empty recv, one after the other, and nothing else; an empty
-- line is two line feeds in a row, without overlaps, once the carriage returns are dropped. The
-- coroutines of respond are as many as the responses that handle counts, they send the same data,
-- which is not empty, none of their sends ends early, and no other coroutine sends anything; before
-- handle locks the mutex at its end each of them waits in the queue, holds the lock or is done, and
-- none locks a second time; the end is any later state in which handle holds the lock, after any
-- interleaving of steps, and no other coroutine has a part in the lock. The mutex follows IsMutex:
-- one coroutine at a time gets the lock, those that find it taken wait in a queue, unlock passes it
-- to the first of them, and the destructor's assertions hold when nobody waits.
pub handle_answers :
    (M : Mutex) (law : IsMutex M) (g : List ℕ) (chunks : List (List ℕ)) (bytes : ℕ → List ℕ)
    (rs : List ℕ) {s t : Sending M} (h : ℕ)
    → 0 < length g
    → distinct rs ≡ true
    → length rs ≡ (handle new_loop chunks).responses
    → ((r : ℕ) → mem r rs ≡ true → bytes r ≡ g)
    → ((r : ℕ) → mem r rs ≡ false → bytes r ≡ [])
    → mem h rs ≡ false
    → Sends M bytes s
    → M.role s.lock h ≡ apart
    → ((r : ℕ) → mem r rs ≡ true → Started M bytes (λ c. mem c rs) s r)
    → Later M bytes (λ c. mem c rs) s t
    → M.role t.lock h ≡ holding
    → ((r : ℕ) → mem r rs ≡ false → r ≢ h → M.role t.lock r ≡ apart)
    → ((r : ℕ) → mem r rs ≡ true → t.failed r ≡ false)
    → t.wire ≡ repeated (empty_lines (without_cr (received chunks))) g
handle_answers M law g chunks bytes rs {t = t} h some_data once count same none_else late sends
      quiet started steps holds others unbroken =
    let left =
      (handle_waits M law bytes (λ c. mem c rs) h sends quiet late started steps holds others).0 in
    let over : (r : ℕ) → mem r rs ≡ true → (M.role t.lock r ≡ apart) × (t.offset r ≡ length g) =
      λ r first. (
        (left r first).0,
        ground (arith, (left r first).1, unbroken r first, ap length (same r first)),
      ) in
    Orderly-repeated M g bytes rs t some_data once same none_else over
      (responses_whole M law bytes t (Later-Sends M bytes (λ c. mem c rs) sends steps))
    ∙ ap (λ n. repeated n g) (count ∙ handle-new_loop chunks)
