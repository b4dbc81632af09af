-- ===== src/Net/Freebsd.antt =====
-- src/ice/net/tcp/socket.cpp and src/ice/net/udp/socket.cpp, on FreeBSD: the operations are those of Linux but
-- for the registration, and for `tcp::connect`, which does not call again after a signal.
pub mod Stream
pub mod Datagram
pub mod Connection
pub mod Agreement
mod Examples
use ice_test.Base.{ℕ, ◌≡◌, refl, subst, Bool, Bool-cases, inl, inr}
use ice_test.Event.{Event, Kernel, Outcome}
use ice_test.Event.Await.{State}
use ice_test.Event.OneShot.{IsLocal}
use ice_test.Net.Errno.{Errno, is_transient}
use ice_test.Net.Tcp.Receive.{call_failed}

-- The fields, the error and the answer are the same, and the second event registers nothing.
abbrev pub SameEnd : {S : Type 0} → Event → State S × Bool → State S × Bool → Type 0
SameEnd ev r r' =
    (r.0.own ≡ r'.0.own)
    × (r.0.event.ec_ ≡ r'.0.event.ec_)
    × (r.1 ≡ r'.1)
    × (r'.0.event.calls ≡ ev.calls)

pub IsLocal-of :
    {S : Type 0} (f : Kernel → ℕ → State S → State S × Bool)
    → ((k : Kernel) (t : ℕ) (own : S) (ev ev' : Event)
        → ev.ec_ ≡ ev'.ec_
        → SameEnd ev'
            (f k t (record { event = ev; own = own }))
            (f k t (record { event = ev'; own = own })))
    → IsLocal f
IsLocal-of f h k t s s' own error =
    subst (λ o. SameEnd s'.event (f k t s) (f k t (record { event = s'.event; own = o }))) own
      (h k t s.own s.event s'.event error)

pub IsLocal-by :
    {S : Type 0} (f : Kernel → ℕ → State S → State S × Bool) (size_of : S → ℕ)
    → ((k : Kernel) (t : ℕ) (ev ev' : Event)
        → ev.ec_ ≡ ev'.ec_
        → (own : S) (a : Outcome) → k.io t (size_of own) ≡ a
        → SameEnd ev'
            (f k t (record { event = ev; own = own }))
            (f k t (record { event = ev'; own = own })))
    → IsLocal f
IsLocal-by f size_of h =
    IsLocal-of f (λ k t own ev ev' error. h k t ev ev' error own (k.io t (size_of own)) refl)

module _ (e : Errno) where
  pub call_failed_lem :
      {S : Type 0} (errno : ℕ) (own : S) (ev ev' : Event)
      → ev.ec_ ≡ ev'.ec_
      → SameEnd ev'
          (call_failed e errno (record { event = ev; own = own }))
          (call_failed e errno (record { event = ev'; own = own }))
  unfolding call_failed
  call_failed_lem errno own ev ev' error = elim (Bool-cases (is_transient e errno)) [
    | inl again ↦ rw (again, call_failed) (refl, error, refl, refl)
    | inr final ↦ rw (final, call_failed) (refl, refl, refl, refl)
  ]
