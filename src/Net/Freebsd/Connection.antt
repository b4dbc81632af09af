-- ===== src/Net/Freebsd/Connection.antt =====
-- src/ice/net/tcp/socket.cpp, on FreeBSD: `tcp::connect`, whose one call of `::connect` goes on in the kernel
-- when a signal interrupts it.
use ice_test.Base.{
  ℕ, ◌==◌, ◌≡◌, ◌≢◌, refl, ap, Bool, true, false, Bool-cases, inl, inr, Option, none, some, ==_iff,
  if◌then◌else◌,
}
use ice_test.Event.{Event, Kernel, Interest, Outcome, done, fail}
use ice_test.Event.OneShot.{IsQueuedBy, Queues}
use ice_test.Net.Errno.{Errno}
use ice_test.Net.Freebsd.{SameEnd, IsLocal-of}
use ice_test.Net.Tcp.Connect.{
  Connector, connect, connect_resume, connect_suspend, stored, resumed_with, connect_round,
}

abbrev pub connector_queues : Queues Connector
connector_queues = record {
  context_of = λ o. o.context_;
  socket_of = λ o. o.socket_;
  interest = Interest.writable;
}

-- The body of the loop of `await_ready`: what it returns, and the error it stores before.
unfoldable pub connect_once : Errno → Outcome → Bool × Option ℕ
connect_once e (done n) = (true, none)
connect_once e (fail errno) =
    if errno == e.einprogress
    then (false, none)
    else if errno == e.eintr
    then (false, none)
    else (false, some errno)

module _ (so_error : ℕ → Outcome) (r : Bool × Option ℕ) where
  module _ (k : Kernel) (t : ℕ) (ev ev' : Event) (error : ev.ec_ ≡ ev'.ec_) (own : Connector) where
    stored_end :
        (o : Option ℕ)
        → SameEnd ev'
            (stored o (record { event = ev; own = own }), r.0)
            (stored o (record { event = ev'; own = own }), r.0)
    stored_end none = (refl, error, refl, refl)
    stored_end (some errno) = (refl, refl, refl, refl)

    resumed_end :
        (a : Outcome)
        → SameEnd ev'
            (resumed_with a (record { event = ev; own = own }), true)
            (resumed_with a (record { event = ev'; own = own }), true)
    resumed_end (done code) = elim (Bool-cases (code == 0)) [
      | inl success ↦ rw success (refl, error, refl, refl)
      | inr other ↦ rw other (refl, refl, refl, refl)
    ]
    resumed_end (fail errno) = (refl, refl, refl, refl)

  pub connect-IsQueuedBy : IsQueuedBy (connect so_error r) connector_queues
  unfolding connect_suspend connect_resume
  connect-IsQueuedBy = record {
    ready_local =
        IsLocal-of (connect so_error r).await_ready
          (λ k t own ev ev' error. stored_end k t ev ev' error own r.1);
    resume_local =
        IsLocal-of (connect so_error r).resume
          (λ k t own ev ev' error. resumed_end k t ev ev' error own (so_error t));
    suspend_queues = λ k t s. refl;
  }

-- A call that no signal interrupts comes to the same as the loop on Linux.
pub connect_once-round :
    (e : Errno) (a : Outcome) → a ≢ fail e.eintr → connect_round e a ≡ some (connect_once e a)
unfolding connect_once
connect_once-round e (done n) other = refl
connect_once-round e (fail errno) other = elim (Bool-cases (errno == e.einprogress)) [
  | inl under_way ↦ rw (under_way, connect_once) refl
  | inr settled ↦ elim (Bool-cases (errno == e.eintr)) [
    | inl interrupted ↦ absurd (other (ap fail ((==_iff errno e.eintr).0 interrupted)))
    | inr failed ↦ rw (settled, failed, connect_once) refl
  ]
]
