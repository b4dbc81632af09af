-- ===== src/Utility.antt =====
-- include/ice/utility.h and src/ice/utility.cpp: `thread_local_storage`, a key of the system under which each
-- thread keeps a value of its own. The system's keys are a parameter, with what POSIX promises of them.
pub mod Threads
use ice_test.Base.{
  ℕ, ◌^◌, ◌-◌, ◌≡◌, ◌≢◌, refl, Bool, true, false, not, ◌==◌, List, [], Option, none, some,
}
use ice_test.Base.Equality.{number_comparable}
use ice_test.Handle.{Handle, default_handle, valid, reset}

-- `pthread_key_create`, `pthread_setspecific` and `pthread_getspecific`, for a thread. A null pointer is 0.
pub record Keys : Type 1 where
  pub Table : Type 0
  pub key_create : Table → Option ℕ × Table
  pub setspecific : (thread key value : ℕ) → Table → Table
  pub getspecific : (thread key : ℕ) → Table → ℕ

-- A key that is made is in use from then on, all threads have a null pointer under it, and the others stay
-- as they are; a value that is set is got back by the same thread under the same key, and nothing else
-- changes.
pub record IsKeys (keys : Keys) : Type 0 where
  pub in_use : ℕ → keys.Table → Bool
  pub created_unused :
      (t u : keys.Table) (k : ℕ) → keys.key_create t ≡ (some k, u) → in_use k t ≡ false
  pub created_in_use :
      (t u : keys.Table) (k : ℕ) → keys.key_create t ≡ (some k, u) → in_use k u ≡ true
  pub created_null :
      (t u : keys.Table) (k thread : ℕ)
      → keys.key_create t ≡ (some k, u)
      → keys.getspecific thread k u ≡ 0
  pub created_keeps :
      (t u : keys.Table) (k other : ℕ)
      → keys.key_create t ≡ (some k, u)
      → in_use other t ≡ true
      → in_use other u ≡ true
  pub created_others :
      (t u : keys.Table) (k other thread : ℕ)
      → keys.key_create t ≡ (some k, u)
      → other ≢ k
      → keys.getspecific thread other u ≡ keys.getspecific thread other t
  pub set_in_use :
      (t : keys.Table) (thread k value other : ℕ)
      → in_use other (keys.setspecific thread k value t) ≡ in_use other t
  pub set_get :
      (t : keys.Table) (thread k value : ℕ)
      → in_use k t ≡ true
      → keys.getspecific thread k (keys.setspecific thread k value t) ≡ value
  pub set_others :
      (t : keys.Table) (thread k value thread' k' : ℕ)
      → (thread' == thread) ≡ false
      → keys.getspecific thread' k' (keys.setspecific thread k value t)
        ≡ keys.getspecific thread' k' t
  pub set_other_keys :
      (t : keys.Table) (thread k value thread' k' : ℕ)
      → (k' == k) ≡ false
      → keys.getspecific thread' k' (keys.setspecific thread k value t)
        ≡ keys.getspecific thread' k' t

-- The invalid value of the handle on POSIX systems, `-1` in a word of 64 bits.
abbrev pub invalid_key : ℕ
invalid_key = 2 ^ 64 - 1

pub record ThreadLocalStorage : Type 0 where
  pub handle_ : Handle ℕ

module _ (keys : Keys) where
  open keys use {Table, key_create, setspecific, getspecific}

  -- The constructor on POSIX systems, up to its assertion that the handle is valid.
  unfoldable pub new_storage : Table → ThreadLocalStorage × Table
  unfolding default_handle reset
  new_storage t =
      let (key, u) = key_create t in
      elim key [
        | none ↦ (record { handle_ = default_handle invalid_key }, u)
        | some k ↦ (record { handle_ = (reset invalid_key k (default_handle invalid_key) []).0 }, u)
      ]

  -- `set` and `get`, in a thread.
  unfoldable pub set_value : ℕ → ThreadLocalStorage → ℕ → Table → Table
  set_value thread s value t = setspecific thread s.handle_.value_ value t

  unfoldable pub get_value : ℕ → ThreadLocalStorage → Table → ℕ
  get_value thread s t = getspecific thread s.handle_.value_ t

  -- `context::is_current`
  unfoldable pub is_current : ℕ → ThreadLocalStorage → Table → Bool
  unfolding get_value
  is_current thread s t = not (get_value thread s t == 0)

-- On Windows: `TLS_OUT_OF_INDEXES` is what `TlsAlloc` answers when it fails, and 0 is the invalid value of the
-- handle.
abbrev pub tls_out_of_indexes : ℕ
tls_out_of_indexes = 2 ^ 32 - 1

unfoldable pub new_storage_windows : ℕ → ThreadLocalStorage
unfolding default_handle reset
new_storage_windows answer = record { handle_ = (reset 0 answer (default_handle 0) []).0 }

-- The assertion of the constructor there.
unfoldable pub storage_assert_windows : ThreadLocalStorage → Bool
storage_assert_windows s = valid 0 s.handle_

-- It fails for the first index of the system, and holds when the system has none left.
pub storage_assert_inverted :
    (storage_assert_windows (new_storage_windows 0) ≡ false)
    × (storage_assert_windows (new_storage_windows tls_out_of_indexes) ≡ true)
unfolding storage_assert_windows new_storage_windows valid reset
storage_assert_inverted = (refl, refl)
