-- ===== src/Mutex/Fair.antt =====
-- include/ice/async.h, `async_mutex`: who locks last holds the lock only after all that had locked before.
use ice_test.Base.{
  ℕ, ◌≡◌, ◌≢◌, inl, inr, refl, sym, ap, ◌∙◌, Bool, true, false, not, ◌==◌, ◌&&◌, ==_iff, Bool-cases,
  List, [], ◌∷◌, ◌++◌, mem, if◌then◌else◌, arith,
}
use ice_test.Mutex.{
  update, Role, apart, asking, waiting, holding, Mutex, Does, stays, asks, takes, joins, leaves,
  passes, Reach, later, IsMutex,
}
use ice_test.Mutex.Lawful.{
  is_holding, is_waiting, is_asking, Lawful, Reach-Lawful, update_back, holding_of,
}

module _ (early : ℕ → Bool) where
  -- No early one is in the list.
  unfoldable pub clear : List ℕ → Bool
  clear [] = true
  clear (x ∷ xs) = not (early x) && clear xs

  -- What stands behind a coroutine in the list.
  unfoldable pub behind : ℕ → List ℕ → List ℕ
  behind h [] = []
  behind h (x ∷ xs) = if x == h then xs else behind h xs

  clear_last :
      (a : ℕ) (xs : List ℕ) → clear xs ≡ true → early a ≡ false → clear (xs ++ (a ∷ [])) ≡ true
  unfolding clear
  clear_last a [] c e = ground arith
  clear_last a (x ∷ xs) c e = ground (arith, clear_last a xs)

  behind_last :
      (h a : ℕ) (xs : List ℕ)
      → clear (behind h xs) ≡ true
      → early a ≡ false
      → clear (behind h (xs ++ (a ∷ []))) ≡ true
  unfolding clear behind
  behind_last h a [] c e = ground arith
  behind_last h a (x ∷ xs) c e = ground (arith, behind_last h a xs, clear_last a xs)

  clear-behind : (h : ℕ) (xs : List ℕ) → clear xs ≡ true → clear (behind h xs) ≡ true
  unfolding clear behind
  clear-behind h [] c = refl
  clear-behind h (x ∷ xs) c = ground (arith, clear-behind h xs)

  clear-mem : (r : ℕ) (xs : List ℕ) → clear xs ≡ true → early r ≡ true → mem r xs ≡ false
  unfolding clear
  clear-mem r [] c e = refl
  clear-mem r (x ∷ xs) c e = ground (arith, clear-mem r xs, ==_iff r x)

  mem-behind : (h : ℕ) (xs : List ℕ) → mem h xs ≡ false → clear (behind h xs) ≡ true
  unfolding clear behind
  mem-behind h [] p = refl
  mem-behind h (x ∷ xs) p = ground (arith, mem-behind h xs, ==_iff h x, ==_iff x h)

  -- The early ones that wait stand before `h`, if `h` is there, and none of them waits while it holds
  -- the lock; none of them is on the way into the queue.
  record Before (h : ℕ) (f : ℕ → Role) (q : List ℕ) : Type 0 where
    fair : clear (behind h q) ≡ true
    last : f h ≡ holding → clear q ≡ true
    seen : (r : ℕ) → early r ≡ true → is_asking (f r) ≡ false

  -- An early one that has no part in the lock does not lock again.
  abbrev pub KeepsRoles : (ℕ → Role) → (ℕ → Role) → Type 0
  KeepsRoles f g = (r : ℕ) → early r ≡ true → f r ≡ apart → g r ≡ apart

  asks_late :
      (f g : ℕ → Role) (a : ℕ) → f a ≡ apart → g a ≡ asking → KeepsRoles f g → early a ≡ false
  asks_late f g a was now keeps = elim (Bool-cases (early a)) [
    | inl first ↦ cc (keeps a first was, now)
    | inr second ↦ second
  ]

  joins_late :
      {h : ℕ} {f : ℕ → Role} {q : List ℕ} (a : ℕ) → Before h f q → f a ≡ asking → early a ≡ false
  joins_late a b was = elim (Bool-cases (early a)) [
    | inl first ↦ cc (b.seen a first, ap is_asking was)
    | inr second ↦ second
  ]

  update_here : (f : ℕ → Role) (a : ℕ) (v : Role) → update f a v a ≡ v
  update_here f a v = rw ((==_iff a a).1 refl) refl

  -- A coroutine is given a role in which it does not ask.
  seen_after :
      {h : ℕ} {f : ℕ → Role} {q : List ℕ} (a : ℕ) (v : Role)
      → Before h f q
      → is_asking v ≡ false
      → (r : ℕ) → early r ≡ true
      → is_asking (update f a v r) ≡ false
  seen_after a v b calm r first = elim (Bool-cases (a == r)) [
    | inl here ↦ rw here calm
    | inr other ↦ rw other (b.seen r first)
  ]

  Does-Before :
      {h : ℕ} {f : ℕ → Role} {q : List ℕ} {g : ℕ → Role} {q' : List ℕ}
      → Lawful f q
      → Does f q g q'
      → KeepsRoles f g
      → Before h f q
      → Before h g q'
  unfolding clear behind
  Does-Before {h} l (stays g e) keeps b = record {
    fair = ap (λ w. clear (behind h w)) e ∙ b.fair;
    last = λ held. ap clear e ∙ b.last (sym (g h) ∙ held);
    seen = λ r first. ap is_asking (g r) ∙ b.seen r first;
  }
  Does-Before {h} {f} {g = g'} l (asks a was g e) keeps b = record {
    fair = ap (λ w. clear (behind h w)) e ∙ b.fair;
    last = λ held.
        ap clear e ∙ b.last (update_back f a asking holding h (λ e. cc) (sym (g h) ∙ held)).0;
    seen = λ r first. elim (Bool-cases (a == r)) [
      | inl here ↦
          let late = asks_late f g' a was (g a ∙ update_here f a asking) keeps in
          absurd (ground (arith, late, first, (==_iff a r).0 here))
      | inr other ↦ ap is_asking (g r) ∙ rw other (b.seen r first)
    ];
  }
  Does-Before {h} l (takes a was free e g e') keeps b = record {
    fair = ap (λ w. clear (behind h w)) e';
    last = λ held. ap clear e';
    seen = λ r first. ap is_asking (g r) ∙ seen_after a holding b refl r first;
  }
  Does-Before {h} {f} {q} l (joins a was g e) keeps b =
      let late = joins_late a b was in
      record {
        fair = ap (λ w. clear (behind h w)) e ∙ behind_last h a q b.fair late;
        last = λ held.
            ap clear e
            ∙ clear_last a q
                (b.last (update_back f a waiting holding h (λ e. cc) (sym (g h) ∙ held)).0) late;
        seen = λ r first. ap is_asking (g r) ∙ seen_after a waiting b refl r first;
      }
  Does-Before {h} l (leaves a was e g e') keeps b = record {
    fair = ap (λ w. clear (behind h w)) e';
    last = λ held. ap clear e';
    seen = λ r first. ap is_asking (g r) ∙ seen_after a apart b refl r first;
  }
  Does-Before {h} {f} {q} {q' = q'} l (passes a k was e g) keeps b =
      let turn : clear (behind h (k ∷ q')) ≡ true = ap (λ w. clear (behind h w)) (sym e) ∙ b.fair in
      record {
        fair = elim (Bool-cases (k == h)) [
          | inl here ↦ clear-behind h q' (ground (arith, turn, here))
          | inr other ↦ ground (arith, turn, other)
        ];
        last = λ held. elim (Bool-cases (k == h)) [
          | inl here ↦ ground (arith, turn, here)
          | inr other ↦
              let back : update f a apart h ≡ holding =
                ap (λ t. if t then holding else update f a apart h) (sym other)
                ∙ (sym (g h) ∙ held) in
              let was_held = update_back f a apart holding h (λ e. cc) back in
              absurd (ground (arith, was_held.1, ==_iff a h, l.alone a h was was_held.0))
        ];
        seen = λ r first. ap is_asking (g r) ∙ elim (Bool-cases (k == r)) [
          | inl here ↦ rw here refl
          | inr other ↦ rw other (seen_after a apart b refl r first)
        ];
      }

module _ (M : Mutex) (early : ℕ → Bool) where
  abbrev pub Keeps : M.State → M.State → Type 0
  Keeps s t = KeepsRoles early (M.role s) (M.role t)

  -- Steps in which none of the early ones locks again.
  pub data Quiet (s : M.State) : M.State → Type 0 where
    no_step : Quiet s s
    more : {t u : M.State} → Quiet s t → M.Step t u → Keeps t u → Quiet s u

  Quiet-Reach : {s t : M.State} → Reach M s → Quiet s t → Reach M t
  Quiet-Reach r no_step = r
  Quiet-Reach r (more q step keeps) = later (Quiet-Reach r q) step

module _ (M : Mutex) (law : IsMutex M) (early : ℕ → Bool) where
  Quiet-Before :
      {s t : M.State} (h : ℕ)
      → Reach M s
      → M.role s h ≡ apart
      → ((r : ℕ) → early r ≡ true → is_asking (M.role s r) ≡ false)
      → Quiet M early s t
      → Before early h (M.role t) (M.queue t)
  Quiet-Before {s} h r quiet seen no_step = record {
    fair = mem-behind early h (M.queue s) ((Reach-Lawful M law s r).listed h ∙ ap is_waiting quiet);
    last = λ held. cc (held, quiet);
    seen = seen;
  }
  Quiet-Before h r quiet seen (more {t = t} {u = u} q step keeps) =
      let reached = Quiet-Reach M early r q in
      Does-Before early (Reach-Lawful M law t reached) (law.steps t u reached step) keeps
        (Quiet-Before h r quiet seen q)

  -- Who does not ask, wait or hold has no part in the lock.
  out_of_it :
      (p : Role) → is_asking p ≡ false → is_waiting p ≡ false → is_holding p ≡ false → p ≡ apart
  out_of_it apart s w a = refl
  out_of_it asking s w a = absurd (cc)
  out_of_it waiting s w a = absurd (cc)
  out_of_it holding s w a = absurd (cc)

  empty_queue : (xs : List ℕ) → ((c : ℕ) → mem c xs ≡ false) → xs ≡ []
  empty_queue [] absent = refl
  empty_queue (x ∷ xs) absent = absurd (ground (arith, absent x, (==_iff x x).1 refl))

  pub locks_last :
      {s t : M.State} (h : ℕ)
      → Reach M s
      → M.role s h ≡ apart
      → early h ≡ false
      → ((r : ℕ) → early r ≡ true → is_asking (M.role s r) ≡ false)
      → Quiet M early s t
      → M.role t h ≡ holding
      → ((r : ℕ) → early r ≡ false → r ≢ h → M.role t r ≡ apart)
      → ((r : ℕ) → early r ≡ true → M.role t r ≡ apart) × (M.may_destroy t ≡ true)
  locks_last {t = t} h reach quiet late seen steps holds others =
      let reached = Quiet-Reach M early reach steps in
      let l = Reach-Lawful M law t reached in
      let b = Quiet-Before h reach quiet seen steps in
      let left : (r : ℕ) → early r ≡ true → M.role t r ≡ apart = λ r first.
        out_of_it (M.role t r) (b.seen r first)
          (sym (l.listed r) ∙ clear-mem early r (M.queue t) (b.last holds) first)
          (elim (Bool-cases (is_holding (M.role t r))) [
            | inl also ↦
                let same = l.alone r h (holding_of (M.role t r) also) holds in
                absurd (ground (arith, same, first, late, ap early same))
            | inr rests ↦ rests
          ]) in
      let idle : (c : ℕ) → c ≢ h → M.role t c ≡ apart = λ c other. elim (Bool-cases (early c)) [
        | inl first ↦ left c first
        | inr second ↦ others c second other
      ] in
      let calm : (p : Role → Bool)
          → p apart ≡ false
          → p holding ≡ false
          → (c : ℕ) → p (M.role t c) ≡ false =
        λ p e e' c. elim (Bool-cases (c == h)) [
          | inl same ↦ ap (λ i. p (M.role t i)) ((==_iff c h).0 same) ∙ (ap p holds ∙ e')
          | inr other ↦ ap p (idle c (λ q. ground (arith, other, q))) ∙ e
        ] in
      (
        left,
        law.destroys t reached (
          empty_queue (M.queue t) (λ c. l.listed c ∙ calm is_waiting refl refl c),
          λ c e. cc (calm is_asking refl refl c, ap is_asking e),
          λ c e. cc (calm is_waiting refl refl c, ap is_waiting e),
        ),
      )
