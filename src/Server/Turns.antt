-- ===== src/Server/Turns.antt =====
-- src/main.cpp: what the coroutines of `respond` have sent is kept in order as the lock goes from one to the
-- next.
use ice_test.Base.{
  ℕ, ◌≡◌, ◌≢◌, inl, inr, refl, sym, ap, subst, ◌∙◌, Bool, true, false, ◌==◌, ==_iff, Bool-cases,
  List, [], ◌∷◌, ◌++◌, take, mem, distinct, mem_last, distinct_last, arith,
}
use ice_test.Mutex.{update, Role, holding, Mutex}
use ice_test.Mutex.Lawful.{is_holding, holding_of}
use ice_test.Server.Responses.{Sending, ended, joined, joined_last}

pub not_holding : (p : Role) → is_holding p ≡ false → p ≢ holding
not_holding p h = λ e. cc (h, ap is_holding e)

module _ (M : Mutex) (bytes : ℕ → List ℕ) where
  -- The coroutines in a list have ended, each of them is there once, and of the others none but `a`
  -- has sent anything.
  pub record Sorted (s : Sending M) (done : List ℕ) (but : ℕ → Bool) : Type 0 where
    pub once : distinct done ≡ true
    pub over : (c : ℕ) → mem c done ≡ true → ended M bytes s c ≡ true
    pub fresh : (c : ℕ) → mem c done ≡ false → but c ≡ false → s.offset c ≡ 0

  pub data Wire (s : Sending M) : Type 0 where
    between :
        (done : List ℕ) → Sorted s done (λ c. false) → s.wire ≡ joined bytes s.offset done → Wire s
    within :
        (done : List ℕ) (a : ℕ)
        → M.role s.lock a ≡ holding
        → mem a done ≡ false
        → Sorted s done (λ c. c == a)
        → s.wire ≡ joined bytes s.offset done ++ take (s.offset a) (bytes a)
        → Wire s

  pub joined_same :
      (f g : ℕ → ℕ) (done : List ℕ)
      → ((c : ℕ) → mem c done ≡ true → f c ≡ g c)
      → joined bytes f done ≡ joined bytes g done
  joined_same f g [] same = refl
  joined_same f g (d ∷ done) same = rw (same d (ground (arith, (==_iff d d).1 refl))) (
      ap (λ t. take (g d) (bytes d) ++ t)
        (joined_same f g done (λ c h. same c (ground (arith, h)))))

  ended_last :
      {s : Sending M} {done : List ℕ}
      → (a : ℕ) → mem a done ≡ false
      → ended M bytes s a ≡ true
      → Sorted s done (λ c. c == a)
      → Sorted s (done ++ (a ∷ [])) (λ c. false)
  ended_last {s = s} {done = done} a new whole sorted = record {
    once = distinct_last done a sorted.once new;
    over = λ c h. elim (Bool-cases (c == a)) [
      | inl here ↦ subst (λ d. ended M bytes s d ≡ true) (sym ((==_iff c a).0 here)) whole
      | inr other ↦ sorted.over c (ground (arith, h, mem_last c done a, other))
    ];
    fresh = λ c h h'.
        sorted.fresh c (ground (arith, h, mem_last c done a))
          (ground (arith, h, mem_last c done a));
  }

  -- A coroutine that leaves the lock has ended, and nobody is in between then.
  pub after_lock :
      {s : Sending M} {t : M.State}
      → ((a : ℕ) → M.role s.lock a ≡ holding → M.role t a ≢ holding → ended M bytes s a ≡ true)
      → Wire s
      → Wire (record s { lock = t })
  after_lock held (between done sorted same) =
      between done (record { once = sorted.once; over = sorted.over; fresh = sorted.fresh }) same
  after_lock {s = s} {t = t} held (within done a at new sorted same) =
      elim (Bool-cases (is_holding (M.role t a))) [
        | inl still ↦
            within done a (holding_of (M.role t a) still) new
              (record { once = sorted.once; over = sorted.over; fresh = sorted.fresh }) same
        | inr left ↦
            let whole = held a at (not_holding (M.role t a) left) in
            let sorted' = ended_last a new whole sorted in
            between (done ++ (a ∷ []))
              (record { once = sorted'.once; over = sorted'.over; fresh = sorted'.fresh })
              (same ∙ sym (joined_last bytes s.offset done a))
      ]

  -- A send that breaks off has ended.
  break_Sorted :
      {s : Sending M} {done : List ℕ} {but : ℕ → Bool}
      → (a : ℕ) → Sorted s done but
      → Sorted (record s { failed = update s.failed a true }) done but
  break_Sorted a sorted = record {
    once = sorted.once;
    over = λ c h. ground (arith, sorted.over c h);
    fresh = sorted.fresh;
  }

  pub after_break :
      {s : Sending M} → (a : ℕ) → Wire s → Wire (record s { failed = update s.failed a true })
  after_break a (between done sorted same) = between done (break_Sorted a sorted) same
  after_break a (within done b at new sorted same) =
      within done b at new (break_Sorted a sorted) same
