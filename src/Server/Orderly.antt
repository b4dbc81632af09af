-- ===== src/Server/Orderly.antt =====
-- src/main.cpp: what the client of the coroutines of `respond` gets.
use ice_test.Base.{
  ℕ, ◌+◌, ◌≤◌, ◌≡◌, ◌⊎◌, inl, inr, refl, sym, ap, subst, ◌∙◌, true, false, ◌==◌, ==_iff, Bool-cases,
  List, [], ◌++◌, take, drop, length, mem, distinct, arith,
}
use mathlib.Core.List.{append_assoc, append-nil}
use ice_test.Mutex.{update, holding, Mutex, IsMutex}
use ice_test.Net.Tcp.Send.{take-add}
use ice_test.Server.Responses.{
  Sending, Sends, begin, goes_on, locks, writes, breaks_off, ended, joined, owners_same,
}
use ice_test.Server.Turns.{Sorted, Wire, between, within, joined_same, after_lock, after_break}

module _ (M : Mutex) (law : IsMutex M) (bytes : ℕ → List ℕ) where
  update_other : (f : ℕ → ℕ) (a m c : ℕ) → c == a ≡ false → update f a m c ≡ f c
  update_other f a m c other = ground (arith, other)

  update_here : (f : ℕ → ℕ) (a m : ℕ) → update f a m a ≡ m
  update_here f a m = ground (arith, (==_iff a a).1 refl)

  apart : (done : List ℕ) (a c : ℕ) → mem a done ≡ false → mem c done ≡ true → c == a ≡ false
  apart done a c new h = elim (Bool-cases (c == a)) [
    | inl here ↦
        let h' = subst (λ d. mem d done ≡ true) ((==_iff c a).0 here) h in
        absurd (ground (arith, h', new))
    | inr other ↦ other
  ]

  -- The data of a coroutine is carried on.
  more_written :
      (done : List ℕ) (a n : ℕ) (s : Sending M)
      → mem a done ≡ false
      → s.wire ≡ joined bytes s.offset done ++ take (s.offset a) (bytes a)
      → let offset = update s.offset a (s.offset a + n) in
        s.wire ++ take n (drop (s.offset a) (bytes a))
        ≡ joined bytes offset done ++ take (offset a) (bytes a)
  more_written done a n s new same =
      let before = s.offset in
      let after = update s.offset a (s.offset a + n) in
      ap (λ w. w ++ take n (drop (before a) (bytes a))) same
      ∙ (append_assoc (joined bytes before done) (take (before a) (bytes a))
            (take n (drop (before a) (bytes a)))
          ∙ (ap (λ t. joined bytes before done ++ t)
                (take-add (before a) n (before a + n) (bytes a) refl)
              ∙ (ap (λ m. joined bytes before done ++ take m (bytes a))
                    (sym (update_here before a (before a + n)))
                  ∙ ap (λ j. j ++ take (after a) (bytes a))
                      (joined_same M bytes before after done (λ c h.
                        sym (update_other before a (before a + n) c (apart done a c new h)))))))

  -- What `writes` leaves.
  abbrev written : Sending M → ℕ → ℕ → Sending M
  written s a n = record s {
    offset = update s.offset a (s.offset a + n);
    wire = s.wire ++ take n (drop (s.offset a) (bytes a));
  }

  write_Sorted :
      {s : Sending M} {done : List ℕ}
      → (a n : ℕ) → mem a done ≡ false
      → Sorted M bytes s done (λ c. c == a)
      → Sorted M bytes (written s a n) done (λ c. c == a)
  write_Sorted {s = s} {done = done} a n new sorted = record {
    once = sorted.once;
    over = λ c h.
        rw (update_other s.offset a (s.offset a + n) c (apart done a c new h)) (sorted.over c h);
    fresh = λ c h other. update_other s.offset a (s.offset a + n) c other ∙ sorted.fresh c h other;
  }

  -- A send that has ended at the end of its data writes nothing more.
  write_nothing :
      (s : Sending M) (a n : ℕ)
      → s.failed a ≡ false
      → s.offset a + n ≤ length (bytes a)
      → ended M bytes s a ≡ true
      → n ≡ 0
  write_nothing s a n unbroken fits over = ground (arith, unbroken, fits, over)

  update_same : (f : ℕ → ℕ) (a n c : ℕ) → n ≡ 0 → update f a (f a + n) c ≡ f c
  update_same f a n c nothing = elim (Bool-cases (c == a)) [
    | inl here ↦ rw (nothing, (==_iff c a).0 here) (ground arith)
    | inr other ↦ update_other f a (f a + n) c other
  ]

  ended_Sorted :
      {s : Sending M} {done : List ℕ}
      → (a n : ℕ) → n ≡ 0
      → Sorted M bytes s done (λ c. false)
      → Sorted M bytes (written s a n) done (λ c. false)
  ended_Sorted {s = s} a n nothing sorted = record {
    once = sorted.once;
    over = λ c h. rw (update_same s.offset a n c nothing) (sorted.over c h);
    fresh = λ c h other. update_same s.offset a n c nothing ∙ sorted.fresh c h other;
  }

  ended_wire :
      (s : Sending M) (done : List ℕ) (a n : ℕ)
      → n ≡ 0
      → s.wire ≡ joined bytes s.offset done
      → (written s a n).wire ≡ joined bytes (written s a n).offset done
  ended_wire s done a n nothing same =
      ap (λ m. s.wire ++ take m (drop (s.offset a) (bytes a))) nothing
      ∙ (append-nil s.wire
          ∙ (same
              ∙ joined_same M bytes s.offset (written s a n).offset done
                  (λ c h. sym (update_same s.offset a n c nothing))))

  -- A coroutine that starts to write is not in the list.
  starts :
      {s : Sending M} {done : List ℕ}
      → (a : ℕ) → ended M bytes s a ≡ false
      → Sorted M bytes s done (λ c. false)
      → (mem a done ≡ false) × (s.offset a ≡ 0)
  starts {done = done} a unended sorted = elim (Bool-cases (mem a done)) [
    | inl there ↦ absurd (ground (arith, sorted.over a there, unended))
    | inr new ↦ (new, sorted.fresh a new refl)
  ]

  narrow :
      {s : Sending M} {done : List ℕ}
      → (a : ℕ) → Sorted M bytes s done (λ c. false)
      → Sorted M bytes s done (λ c. c == a)
  narrow a sorted = record {
    once = sorted.once;
    over = sorted.over;
    fresh = λ c h other. sorted.fresh c h refl;
  }

  after_write :
      {s : Sending M}
      → Sends M bytes s
      → (a n : ℕ) → M.role s.lock a ≡ holding
      → s.failed a ≡ false
      → s.offset a + n ≤ length (bytes a)
      → Wire M bytes s
      → Wire M bytes (written s a n)
  after_write {s = s} r a n held unbroken fits (between done sorted same) =
      elim (Bool-cases (ended M bytes s a)) [
        | inl over ↦
            let nothing = write_nothing s a n unbroken fits over in
            between done (ended_Sorted a n nothing sorted) (ended_wire s done a n nothing same)
        | inr unended ↦
            let fresh = starts a unended sorted in
            within done a held fresh.0 (write_Sorted a n fresh.0 (narrow a sorted)) (
              more_written done a n s fresh.0 (
                same
                ∙ (sym (append-nil (joined bytes s.offset done))
                    ∙ ap (λ m. joined bytes s.offset done ++ take m (bytes a)) (sym fresh.1))))
      ]
  after_write {s = s} r a n held unbroken fits (within done b at new sorted same) =
      let here = owners_same M bytes law r b a at held in
      let new' = subst (λ d. mem d done ≡ false) here new in
      within done a held new'
        (write_Sorted a n new' (subst (λ d. Sorted M bytes s done (λ c. c == d)) here sorted))
        (more_written done a n s new' (
          subst (λ d. s.wire ≡ joined bytes s.offset done ++ take (s.offset d) (bytes d)) here
            same))

  Sends-Wire : {s : Sending M} → Sends M bytes s → Wire M bytes s
  Sends-Wire begin =
      between [] (record { once = refl; over = λ c h. ground (arith, h); fresh = λ c h h'. refl })
        refl
  Sends-Wire (goes_on r (locks step held)) = after_lock M bytes held (Sends-Wire r)
  Sends-Wire (goes_on r (writes a n held unbroken fits)) =
      after_write r a n held unbroken fits (Sends-Wire r)
  Sends-Wire (goes_on r (breaks_off a held)) = after_break M bytes a (Sends-Wire r)

-- The coroutines that have ended their send are in a list, each once, in the order of their turns; the
-- client has what they have sent, and what the one has sent that holds the lock, if it has begun. All
-- others have sent nothing.
abbrev pub Orderly : (M : Mutex) → (ℕ → List ℕ) → Sending M → Type 0
Orderly M bytes s =
    (done : List ℕ) × (distinct done ≡ true)
    × ((c : ℕ) → mem c done ≡ true → (s.offset c ≡ length (bytes c)) ⊎ (s.failed c ≡ true))
    × ((((c : ℕ) → mem c done ≡ false → s.offset c ≡ 0) × (s.wire ≡ joined bytes s.offset done))
        ⊎ ((a : ℕ) × (M.role s.lock a ≡ holding)
            × (mem a done ≡ false)
            × ((c : ℕ) → mem c done ≡ false → c == a ≡ false → s.offset c ≡ 0)
            × (s.wire ≡ joined bytes s.offset done ++ take (s.offset a) (bytes a))))

ended_cases :
    (M : Mutex) (bytes : ℕ → List ℕ) (s : Sending M) (c : ℕ)
    → ended M bytes s c ≡ true
    → (s.offset c ≡ length (bytes c)) ⊎ (s.failed c ≡ true)
ended_cases M bytes s c h = elim (Bool-cases (s.failed c)) [
  | inl failed ↦ inr failed
  | inr unbroken ↦ inl (ground (arith, h, unbroken))
]

Wire-Orderly : (M : Mutex) (bytes : ℕ → List ℕ) (s : Sending M) → Wire M bytes s → Orderly M bytes s
Wire-Orderly M bytes s (between done sorted same) = (
  done,
  sorted.once,
  (λ c h. ended_cases M bytes s c (sorted.over c h)),
  inl ((λ c h. sorted.fresh c h refl), same),
)
Wire-Orderly M bytes s (within done a held new sorted same) = (
  done,
  sorted.once,
  (λ c h. ended_cases M bytes s c (sorted.over c h)),
  inr (a, held, new, sorted.fresh, same),
)

-- Whatever the coroutines of respond that share a client do, interleaved at each step on the mutex
-- and at each write, and whichever of their sends end early, the client has got what some different
-- coroutines have sent, one after the other, and then, if another one holds the lock and is
-- sending, what this one has sent so far; the remaining ones have sent nothing. Each of the
-- finished ones has sent the whole of its data, unless its send has ended early, with an exception
-- or after a write that took nothing. A coroutine unlocks when its send has ended. The mutex
-- follows IsMutex: one coroutine at a time gets the lock, those that find it taken wait in a queue,
-- unlock passes it to the first of them, and the destructor's assertions hold when nobody waits.
pub responses_whole :
    (M : Mutex) (law : IsMutex M) (bytes : ℕ → List ℕ) (s : Sending M)
    → Sends M bytes s
    → Orderly M bytes s
responses_whole M law bytes s r = Wire-Orderly M bytes s (Sends-Wire M law bytes r)
