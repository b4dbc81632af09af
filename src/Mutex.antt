-- ===== src/Mutex.antt =====
-- include/ice/async.h, `async_mutex`, which is a copy of the one of cppcoro: what `respond` and `handle` rely on.
-- A mutex gives itself to those that wait in the order in which they came.
pub mod Lawful
pub mod Fair
pub mod Line
use ice_test.Base.{ℕ, Bool, true, ◌==◌, ◌≡◌, ◌≢◌, ◌⊎◌, List, [], ◌∷◌, ◌++◌, if◌then◌else◌}

-- `update f a v` writes `v` at `a`.
abbrev pub update {ℓ} : {A : Type ℓ} → (ℕ → A) → ℕ → A → ℕ → A
update f a v b = if a == b then v else f b

-- Where a coroutine stands: it has no part in the mutex, has called `lock_async`, waits in the queue, or
-- holds the lock.
pub data Role : Type 0 where
  apart asking waiting holding : Role

-- A mutex that coroutines, which are numbers, share: its steps, whatever their size, and what can be said
-- of a state. `may_destroy` is what the destructor asserts.
pub record Mutex : Type 1 where
  pub State : Type 0
  pub new_mutex : State
  pub Step : State → State → Type 0
  pub role : State → ℕ → Role
  pub queue : State → List ℕ
  pub may_destroy : State → Bool

-- What a step does to the roles `f` and the queue `q`, which are `g` and `q'` after it.
pub data Does (f : ℕ → Role) (q : List ℕ) (g : ℕ → Role) (q' : List ℕ) : Type 0 where
  stays : ((c : ℕ) → g c ≡ f c) → q' ≡ q → Does f q g q'
  asks : (a : ℕ) → f a ≡ apart → ((c : ℕ) → g c ≡ update f a asking c) → q' ≡ q → Does f q g q'
  takes :
      (a : ℕ)
      → (f a ≡ apart) ⊎ (f a ≡ asking)
      → ((c : ℕ) → f c ≢ holding)
      → q ≡ []
      → ((c : ℕ) → g c ≡ update f a holding c)
      → q' ≡ []
      → Does f q g q'
  joins :
      (a : ℕ)
      → f a ≡ asking
      → ((c : ℕ) → g c ≡ update f a waiting c)
      → q' ≡ q ++ (a ∷ [])
      → Does f q g q'
  leaves :
      (a : ℕ)
      → f a ≡ holding
      → q ≡ []
      → ((c : ℕ) → g c ≡ update f a apart c)
      → q' ≡ []
      → Does f q g q'
  passes :
      (a k : ℕ)
      → f a ≡ holding
      → q ≡ k ∷ q'
      → ((c : ℕ) → g c ≡ update (update f a apart) k holding c)
      → Does f q g q'

module _ (M : Mutex) where
  pub data Reach : M.State → Type 0 where
    start : Reach M.new_mutex
    later : {s t : M.State} → Reach s → M.Step s t → Reach t

  -- Nobody waits, or is about to.
  abbrev pub NobodyWaits : M.State → Type 0
  NobodyWaits s =
      (M.queue s ≡ []) × ((c : ℕ) → M.role s c ≢ asking) × ((c : ℕ) → M.role s c ≢ waiting)

  pub record IsMutex : Type 0 where
    pub new_roles : (c : ℕ) → M.role M.new_mutex c ≡ apart
    pub new_queue : M.queue M.new_mutex ≡ []
    pub steps :
        (s t : M.State) → Reach s → M.Step s t → Does (M.role s) (M.queue s) (M.role t) (M.queue t)
    pub destroys : (s : M.State) → Reach s → NobodyWaits s → M.may_destroy s ≡ true
