-- ===== src/Utility/Threads.antt =====
-- include/ice/context.h and src/ice/context.cpp: `is_current`, in any number of threads that run any number of
-- contexts, each of which has a key of its own.
use ice_test.Base.{
  ℕ, ◌≡◌, ◌≢◌, refl, Bool, true, false, not, ◌==◌, ◌||◌, ◌&&◌, ==_iff, Bool-cases, inl, inr, subst,
  ◌∙◌, List, [], ◌∷◌, some, if◌then◌else◌, arith,
}
use ice_test.Utility.{
  Keys, IsKeys, ThreadLocalStorage, new_storage, set_value, get_value, is_current,
}

module _ (keys : Keys) where
  open keys use {Table, key_create}

  -- The contexts made so far, by their `index_`, and which thread is in which `run`.
  pub record Threads : Type 0 where
    pub table : Table
    pub contexts : List ThreadLocalStorage
    pub inside : (thread key : ℕ) → Bool

  abbrev pub key_of : ThreadLocalStorage → ℕ
  key_of s = s.handle_.value_

  abbrev pub known : ℕ → List ThreadLocalStorage → Bool
  known k [] = false
  known k (s ∷ ss) = (k == key_of s) || known k ss

  abbrev pub mark : (ℕ → ℕ → Bool) → ℕ → ℕ → Bool → ℕ → ℕ → Bool
  mark f thread k b thread' k' = if (thread' == thread) && (k' == k) then b else f thread' k'

  -- A context is made; a thread begins its `run`, from where it is not in one of that context, and sets the
  -- context's address; it comes to the end of it.
  pub data Step (s : Threads) : Threads → Type 0 where
    constructs :
        {k : ℕ} {u : Table}
        → key_create s.table ≡ (some k, u)
        → Step s (record s {
          table = (new_storage keys s.table).1;
          contexts = (new_storage keys s.table).0 ∷ s.contexts;
        })
    enters :
        (thread : ℕ) (c : ThreadLocalStorage) (this : ℕ)
        → known (key_of c) s.contexts ≡ true
        → s.inside thread (key_of c) ≡ false
        → this ≢ 0
        → Step s (record s {
          table = set_value keys thread c this s.table;
          inside = mark s.inside thread (key_of c) true;
        })
    leaves :
        (thread : ℕ) (c : ThreadLocalStorage)
        → known (key_of c) s.contexts ≡ true
        → s.inside thread (key_of c) ≡ true
        → Step s (record s {
          table = set_value keys thread c 0 s.table;
          inside = mark s.inside thread (key_of c) false;
        })

  pub data Reach : Threads → Type 0 where
    start : (t : Table) → Reach (record { table = t; contexts = []; inside = λ thread key. false })
    later : {s t : Threads} → Reach s → Step s t → Reach t

  module _ (laws : IsKeys keys) where
    record IsKept (s : Threads) : Type 0 where
      used : (k : ℕ) → known k s.contexts ≡ true → laws.in_use k s.table ≡ true
      unknown : (thread k : ℕ) → known k s.contexts ≡ false → s.inside thread k ≡ false
      current :
          (thread k : ℕ)
          → known k s.contexts ≡ true
          → (keys.getspecific thread k s.table == 0) ≡ not (s.inside thread k)

    -- What every thread has under every key after one of them has set one.
    get_set :
        (t : Table) (thread k value thread' k' : ℕ)
        → laws.in_use k t ≡ true
        → keys.getspecific thread' k' (keys.setspecific thread k value t)
          ≡ (if (thread' == thread) && (k' == k) then value else keys.getspecific thread' k' t)
    get_set t thread k value thread' k' used = elim (Bool-cases (thread' == thread)) [
      | inr apart ↦ rw (laws.set_others t thread k value thread' k' apart) (rw apart refl)
      | inl here ↦ elim (Bool-cases (k' == k)) [
        | inr apart ↦
            rw (laws.set_other_keys t thread k value thread' k' apart) (rw (here, apart) refl)
        | inl same ↦
            rw (here, same, (==_iff thread' thread).0 here, (==_iff k' k).0 same)
              (laws.set_get t thread k value used)
      ]
    ]

    mark-IsKept :
        {s : Threads} (thread k value : ℕ) (b : Bool)
        → known k s.contexts ≡ true
        → (value == 0) ≡ not b
        → IsKept s
        → IsKept (record s {
          table = keys.setspecific thread k value s.table;
          inside = mark s.inside thread k b;
        })
    mark-IsKept {s} thread k value b kn agrees h = record {
      used = λ k' kn'. laws.set_in_use s.table thread k value k' ∙ h.used k' kn';
      unknown = λ thread' k' unk. ground (arith, h.unknown thread' k' unk, unk, kn, ==_iff k' k);
      current = λ thread' k' kn'.
          rw (get_set s.table thread k value thread' k' (h.used k kn))
            (ground (arith, agrees, h.current thread' k' kn'));
    }

    new_storage_lem :
        (t u : Table) (k : ℕ)
        → key_create t ≡ (some k, u)
        → new_storage keys t ≡ (record { handle_ = record { value_ = k } }, u)
    unfolding new_storage
    new_storage_lem t u k made =
        rw (made, new_storage) (λ i. (record { handle_ = record { value_ = k } }, (made i).1))

    construct-IsKept :
        {s : Threads} (k : ℕ) (u : Table) (c : ThreadLocalStorage)
        → key_create s.table ≡ (some k, u)
        → key_of c ≡ k
        → IsKept s
        → IsKept (record s { table = u; contexts = c ∷ s.contexts })
    construct-IsKept {s} k u c made key h = record {
      used = λ k' kn. elim (Bool-cases (k' == key_of c)) [
        | inl same ↦ rw ((==_iff k' (key_of c)).0 same ∙ key) (laws.created_in_use s.table u k made)
        | inr other ↦ laws.created_keeps s.table u k k' made (h.used k' (ground (arith, kn, other)))
      ];
      unknown = λ thread k' unk. h.unknown thread k' (ground (arith, unk));
      current = λ thread k' kn. elim (Bool-cases (known k' s.contexts)) [
        | inl old ↦
            rw
              (laws.created_others s.table u k k' thread made (λ e. cc (
                subst (λ j. laws.in_use j s.table ≡ true) e (h.used k' old),
                laws.created_unused s.table u k made,
              )))
              (h.current thread k' old)
        | inr new ↦
            let here : k' ≡ k = (==_iff k' (key_of c)).0 (ground (arith, kn, new)) ∙ key in
            rw (h.unknown thread k' new) (rw (here, laws.created_null s.table u k thread made) refl)
      ];
    }

    nonzero_set : (this : ℕ) → this ≢ 0 → (this == 0) ≡ not true
    nonzero_set this nz = ground (arith, nz)

    Step-IsKept : {s t : Threads} → Step s t → IsKept s → IsKept t
    unfolding set_value
    Step-IsKept {s} (constructs {k} {u} made) h =
        let e = new_storage_lem s.table u k made in
        rw e (construct-IsKept k u (record { handle_ = record { value_ = k } }) made refl h)
    Step-IsKept {s} (enters thread c this kn out nz) h =
        mark-IsKept thread (key_of c) this true kn (nonzero_set this nz) h
    Step-IsKept {s} (leaves thread c kn in_it) h = mark-IsKept thread (key_of c) 0 false kn refl h

    Reach-IsKept : {s : Threads} → Reach s → IsKept s
    Reach-IsKept (start t) = record {
      used = λ k kn. cc;
      unknown = λ thread k unk. refl;
      current = λ thread k kn. cc;
    }
    Reach-IsKept (later r st) = Step-IsKept st (Reach-IsKept r)

  -- In every state that threads can bring contexts into, a context is the current one of a thread
  -- exactly when the thread is in its run.
  pub is_current_iff :
      (laws : IsKeys keys) (s : Threads)
      → Reach s
      → (thread : ℕ) (c : ThreadLocalStorage) → known (key_of c) s.contexts ≡ true
      → is_current keys thread c s.table ≡ s.inside thread (key_of c)
  unfolding is_current get_value
  is_current_iff laws s r thread c kn =
      rw ((Reach-IsKept laws r).current thread (key_of c) kn) (ground arith)
