-- ===== src/Mutex/Lawful.antt =====
-- include/ice/async.h, `async_mutex`: one coroutine at most holds the lock, and the queue has those that wait.
use ice_test.Base.{
  ℕ, ◌≡◌, ◌≢◌, ◌⊎◌, inl, inr, refl, sym, ap, ◌∙◌, subst, Bool, true, false, ◌==◌, ==_iff,
  Bool-cases, List, [], ◌∷◌, ◌++◌, mem, distinct, mem_last, distinct_last, arith, if◌then◌else◌,
}
use ice_test.Mutex.{
  update, Role, apart, asking, waiting, holding, Mutex, Does, stays, asks, takes, joins, leaves,
  passes, Reach, start, later, IsMutex,
}

abbrev pub is_holding : Role → Bool
is_holding holding = true
is_holding apart = false
is_holding asking = false
is_holding waiting = false

abbrev pub is_waiting : Role → Bool
is_waiting waiting = true
is_waiting apart = false
is_waiting asking = false
is_waiting holding = false

abbrev pub is_asking : Role → Bool
is_asking asking = true
is_asking apart = false
is_asking waiting = false
is_asking holding = false

pub holding_of : (p : Role) → is_holding p ≡ true → p ≡ holding
holding_of holding h = refl
holding_of apart h = absurd (cc)
holding_of asking h = absurd (cc)
holding_of waiting h = absurd (cc)

pub update_back :
    (f : ℕ → Role) (a : ℕ) (v p : Role) (c : ℕ)
    → v ≢ p
    → update f a v c ≡ p
    → (f c ≡ p) × ((a == c) ≡ false)
update_back f a v p c unlike u = elim (Bool-cases (a == c)) [
  | inl same ↦ absurd (unlike (ap (λ b. if b then v else f c) (sym same) ∙ u))
  | inr other ↦ (ap (λ b. if b then v else f c) (sym other) ∙ u, other)
]

pub update_keeps :
    (f : ℕ → Role) (a r : ℕ) (v p p' : Role) → f a ≡ p' → p' ≢ p → f r ≡ p → update f a v r ≡ p
update_keeps f a r v p p' was unlike w = elim (Bool-cases (a == r)) [
  | inl same ↦ absurd (unlike (sym was ∙ (ap f ((==_iff a r).0 same) ∙ w)))
  | inr other ↦ rw other w
]

-- A coroutine that waits goes on waiting, or gets the lock.
pub Does-waiting :
    {f : ℕ → Role} {q : List ℕ} {g : ℕ → Role} {q' : List ℕ} (r : ℕ)
    → Does f q g q'
    → f r ≡ waiting
    → (g r ≡ waiting) ⊎ (g r ≡ holding)
Does-waiting r (stays g q) w = inl (g r ∙ w)
Does-waiting {f} r (asks a was g q) w =
    inl (g r ∙ update_keeps f a r asking waiting apart was (λ e. cc) w)
Does-waiting {f} r (takes a (inl was) free q g q') w =
    inl (g r ∙ update_keeps f a r holding waiting apart was (λ e. cc) w)
Does-waiting {f} r (takes a (inr was) free q g q') w =
    inl (g r ∙ update_keeps f a r holding waiting asking was (λ e. cc) w)
Does-waiting {f} r (joins a was g q) w =
    inl (g r ∙ update_keeps f a r waiting waiting asking was (λ e. cc) w)
Does-waiting {f} r (leaves a was q g q') w =
    inl (g r ∙ update_keeps f a r apart waiting holding was (λ e. cc) w)
Does-waiting {f} r (passes a k was q g) w = elim (Bool-cases (k == r)) [
  | inl turn ↦ inr (g r ∙ rw turn refl)
  | inr other ↦ inl (g r ∙ rw other (update_keeps f a r apart waiting holding was (λ e. cc) w))
]

-- One coroutine at most holds the lock, and the queue has each of those that wait once.
pub record Lawful (f : ℕ → Role) (q : List ℕ) : Type 0 where
  pub alone : (a b : ℕ) → f a ≡ holding → f b ≡ holding → a ≡ b
  pub listed : (c : ℕ) → mem c q ≡ is_waiting (f c)
  pub once : distinct q ≡ true

relisted :
    (f : ℕ → Role) (q : List ℕ) (a : ℕ) (v : Role)
    → ((c : ℕ) → mem c q ≡ is_waiting (f c))
    → is_waiting (f a) ≡ is_waiting v
    → (c : ℕ) → mem c q ≡ is_waiting (update f a v c)
relisted f q a v listed same c = elim (Bool-cases (a == c)) [
  | inl here ↦ rw here (listed c ∙ (ap (λ i. is_waiting (f i)) (sym ((==_iff a c).0 here)) ∙ same))
  | inr other ↦ rw other (listed c)
]

-- A coroutine that does not hold the lock changes its role.
relabel :
    {f : ℕ → Role} {q : List ℕ} {g : ℕ → Role} {q' : List ℕ} (a : ℕ) (v : Role)
    → Lawful f q
    → v ≢ holding
    → is_waiting (f a) ≡ is_waiting v
    → ((c : ℕ) → g c ≡ update f a v c)
    → q' ≡ q
    → Lawful g q'
relabel {f} {q} {g} a v h unlike same roles kept = record {
  alone = λ b c hb hc.
      h.alone b c (update_back f a v holding b unlike (sym (roles b) ∙ hb)).0
        (update_back f a v holding c unlike (sym (roles c) ∙ hc)).0;
  listed =
      λ c. ap (mem c) kept ∙ (relisted f q a v h.listed same c ∙ ap is_waiting (sym (roles c)));
  once = ap distinct kept ∙ h.once;
}

join_listed :
    (f : ℕ → Role) (q : List ℕ) (a : ℕ)
    → ((c : ℕ) → mem c q ≡ is_waiting (f c))
    → (c : ℕ) → mem c (q ++ (a ∷ [])) ≡ is_waiting (update f a waiting c)
join_listed f q a listed c = elim (Bool-cases (a == c)) [
  | inl here ↦ rw here (ground (arith, here, mem_last c q a, ==_iff a c, ==_iff c a))
  | inr other ↦ rw other (ground (arith, other, listed c, mem_last c q a, ==_iff a c, ==_iff c a))
]

pass_listed :
    (f : ℕ → Role) (q : List ℕ) (k : ℕ)
    → ((c : ℕ) → mem c (k ∷ q) ≡ is_waiting (f c))
    → distinct (k ∷ q) ≡ true
    → (c : ℕ) → mem c q ≡ is_waiting (update f k holding c)
pass_listed f q k listed once c = elim (Bool-cases (k == c)) [
  | inl here ↦ rw here (subst (λ i. mem i q ≡ false) ((==_iff k c).0 here) (ground (arith, once)))
  | inr other ↦ rw other (ground (arith, other, listed c, ==_iff k c, ==_iff c k))
]

only : (f : ℕ → Role) (a b : ℕ) → ((c : ℕ) → f c ≢ holding) → update f a holding b ≡ holding → a ≡ b
only f a b nobody e = elim (Bool-cases (a == b)) [
  | inl same ↦ (==_iff a b).0 same
  | inr other ↦ absurd (nobody b (ap (λ t. if t then holding else f b) (sym other) ∙ e))
]

take_Lawful :
    {f : ℕ → Role} {q : List ℕ} {g : ℕ → Role} {q' : List ℕ} (a : ℕ)
    → Lawful f q
    → is_waiting (f a) ≡ false
    → ((c : ℕ) → f c ≢ holding)
    → ((c : ℕ) → g c ≡ update f a holding c)
    → q' ≡ q
    → Lawful g q'
take_Lawful {f} {q} a h was nobody roles kept = record {
  alone = λ b c hb hc.
      sym (only f a b nobody (sym (roles b) ∙ hb)) ∙ only f a c nobody (sym (roles c) ∙ hc);
  listed = λ c.
      ap (mem c) kept ∙ (relisted f q a holding h.listed was c ∙ ap is_waiting (sym (roles c)));
  once = ap distinct kept ∙ h.once;
}

pub Does-Lawful :
    {f : ℕ → Role} {q : List ℕ} {g : ℕ → Role} {q' : List ℕ}
    → Does f q g q'
    → Lawful f q
    → Lawful g q'
Does-Lawful (stays g q) h = record {
  alone = λ a b ha hb. h.alone a b (sym (g a) ∙ ha) (sym (g b) ∙ hb);
  listed = λ c. ap (mem c) q ∙ (h.listed c ∙ ap is_waiting (sym (g c)));
  once = ap distinct q ∙ h.once;
}
Does-Lawful (asks a was g q) h = relabel a asking h (λ e. cc) (ap is_waiting was) g q
Does-Lawful (takes a (inl was) free q g q') h =
    take_Lawful a h (ap is_waiting was) free g (q' ∙ sym q)
Does-Lawful (takes a (inr was) free q g q') h =
    take_Lawful a h (ap is_waiting was) free g (q' ∙ sym q)
Does-Lawful {f} {q} (joins a was g q') h = record {
  alone = λ b c hb hc.
      h.alone b c (update_back f a waiting holding b (λ e. cc) (sym (g b) ∙ hb)).0
        (update_back f a waiting holding c (λ e. cc) (sym (g c) ∙ hc)).0;
  listed = λ c. ap (mem c) q' ∙ (join_listed f q a h.listed c ∙ ap is_waiting (sym (g c)));
  once = ap distinct q' ∙ distinct_last q a h.once (h.listed a ∙ ap is_waiting was);
}
Does-Lawful (leaves a was q g q') h = relabel a apart h (λ e. cc) (ap is_waiting was) g (q' ∙ sym q)
Does-Lawful {f} {q} {g} {q'} (passes a k was first roles) h =
    take_Lawful_from
      (relabel {q' = k ∷ q'} a apart h (λ e. cc) (ap is_waiting was) (λ c. refl) (sym first))
  where
    nobody : (c : ℕ) → update f a apart c ≢ holding
    nobody c e =
        let (held, other) = update_back f a apart holding c (λ e. cc) e in
        absurd (ground (arith, other, ==_iff a c, h.alone a c was held))

    take_Lawful_from : Lawful (update f a apart) (k ∷ q') → Lawful g q'
    take_Lawful_from h' = record {
      alone = λ b c hb hc.
          sym (only (update f a apart) k b nobody (sym (roles b) ∙ hb))
          ∙ only (update f a apart) k c nobody (sym (roles c) ∙ hc);
      listed = λ c.
          pass_listed (update f a apart) q' k h'.listed h'.once c ∙ ap is_waiting (sym (roles c));
      once = ground (arith, h'.once);
    }

module _ (M : Mutex) (law : IsMutex M) where
  pub Reach-Lawful : (s : M.State) → Reach M s → Lawful (M.role s) (M.queue s)
  Reach-Lawful _ start = record {
    alone = λ a b ha hb. absurd (apart_ne a ha);
    listed = λ c. ap (mem c) law.new_queue ∙ ap is_waiting (sym (law.new_roles c));
    once = ap distinct law.new_queue;
  }
    where
      apart_ne : (a : ℕ) → M.role M.new_mutex a ≢ holding
      apart_ne a e = cc (law.new_roles a, e)
  Reach-Lawful _ (later {s = s} {t = t} r step) =
      Does-Lawful (law.steps s t r step) (Reach-Lawful s r)
