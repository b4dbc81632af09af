-- ===== src/Net/Freebsd/Stream.antt =====
-- src/ice/net/tcp/socket.cpp, on FreeBSD: `tcp::send`, `tcp::send_some`, `tcp::recv` and `tcp::accept` see
-- no more of their event than its error, and what they register for.
use ice_test.Base.{ℕ, ◌==◌, ◌≡◌, refl, Bool-cases, inl, inr, List}
use ice_test.Event.{Event, Kernel, Interest, Outcome, done, fail}
use ice_test.Event.OneShot.{IsQueuedBy, Queues}
use ice_test.Net.Errno.{Errno, is_transient}
use ice_test.Net.Freebsd.{SameEnd, IsLocal-of, IsLocal-by, call_failed_lem}
use ice_test.Net.Tcp.{Sender, send_ready, send_some_ready, send_suspend, send, send_some}
use ice_test.Net.Tcp.Receive.{
  Receiver, Acceptor, recv, accept, recv_ready, recv_suspend, accept_ready, accept_suspend,
}

abbrev pub sender_queues : Queues Sender
sender_queues = record {
  context_of = λ o. o.context_;
  socket_of = λ o. o.socket_;
  interest = Interest.writable;
}

abbrev pub receiver_queues : Queues Receiver
receiver_queues = record {
  context_of = λ o. o.context_;
  socket_of = λ o. o.socket_;
  interest = Interest.readable;
}

abbrev pub acceptor_queues : Queues Acceptor
acceptor_queues = record {
  context_of = λ o. o.context_;
  socket_of = λ o. o.socket_;
  interest = Interest.readable;
}

module _ (e : Errno) where
  module _ (k : Kernel) (t : ℕ) (ev ev' : Event) (error : ev.ec_ ≡ ev'.ec_) where
    recv_end :
        (own : Receiver) (a : Outcome)
        → k.io t (own.buffer_.size) ≡ a
        → SameEnd ev'
            (recv_ready e k t (record { event = ev; own = own }))
            (recv_ready e k t (record { event = ev'; own = own }))
    unfolding recv_ready
    recv_end own (done rc) q = rw (q, recv_ready) (refl, error, refl, refl)
    recv_end own (fail errno) q = elim (Bool-cases (errno == e.econnreset)) [
      | inl gone ↦ rw (q, gone, recv_ready) (refl, error, refl, refl)
      | inr other ↦ rw (q, other, recv_ready) (call_failed_lem e errno own ev ev' error)
    ]

  pub recv-IsQueuedBy : IsQueuedBy (recv e) receiver_queues
  unfolding recv_suspend
  recv-IsQueuedBy = record {
    ready_local = IsLocal-by (recv_ready e) (λ own. own.buffer_.size) (recv_end);
    resume_local = IsLocal-by (recv_ready e) (λ own. own.buffer_.size) (recv_end);
    suspend_queues = λ k t s. refl;
  }

  module _ (accept4 : ℕ → Outcome) (k : Kernel) (t : ℕ) (ev ev' : Event)
      (error : ev.ec_ ≡ ev'.ec_) where
    accept_end :
        (own : Acceptor) (a : Outcome)
        → accept4 t ≡ a
        → SameEnd ev'
            (accept_ready e accept4 k t (record { event = ev; own = own }))
            (accept_ready e accept4 k t (record { event = ev'; own = own }))
    unfolding accept_ready
    accept_end own (done fd) q = rw (q, accept_ready) (refl, error, refl, refl)
    accept_end own (fail errno) q = elim (Bool-cases (is_transient e errno)) [
      | inl again ↦ rw (q, again, accept_ready) (refl, error, refl, refl)
      | inr final ↦ rw (q, final, accept_ready) (refl, refl, refl, refl)
    ]

  pub accept-IsQueuedBy : (accept4 : ℕ → Outcome) → IsQueuedBy (accept e accept4) acceptor_queues
  unfolding accept_suspend
  accept-IsQueuedBy accept4 = record {
    ready_local =
        IsLocal-of (accept_ready e accept4)
          (λ k t own ev ev' error. accept_end accept4 k t ev ev' error own (accept4 t) refl);
    resume_local =
        IsLocal-of (accept_ready e accept4)
          (λ k t own ev ev' error. accept_end accept4 k t ev ev' error own (accept4 t) refl);
    suspend_queues = λ k t s. refl;
  }

  module _ (bytes : List ℕ) (k : Kernel) (t : ℕ) (ev ev' : Event) (error : ev.ec_ ≡ ev'.ec_) where
    send_end :
        (own : Sender) (a : Outcome)
        → k.io t (own.buffer_.size) ≡ a
        → SameEnd ev'
            (send_ready e bytes k t (record { event = ev; own = own }))
            (send_ready e bytes k t (record { event = ev'; own = own }))
    unfolding send_ready
    send_end own (done rc) q = elim (Bool-cases (rc == 0)) [
      | inl nothing ↦ rw (q, nothing, send_ready) (refl, error, refl, refl)
      | inr some_taken ↦ rw (q, some_taken, send_ready) (refl, error, refl, refl)
    ]
    send_end own (fail errno) q = elim (Bool-cases (is_transient e errno)) [
      | inl again ↦ rw (q, again, send_ready) (refl, error, refl, refl)
      | inr final ↦ rw (q, final, send_ready) (refl, refl, refl, refl)
    ]

  pub send-IsQueuedBy : (bytes : List ℕ) → IsQueuedBy (send e bytes) sender_queues
  unfolding send_suspend
  send-IsQueuedBy bytes = record {
    ready_local = IsLocal-by (send_ready e bytes) (λ own. own.buffer_.size) (send_end bytes);
    resume_local = IsLocal-by (send_ready e bytes) (λ own. own.buffer_.size) (send_end bytes);
    suspend_queues = λ k t s. refl;
  }

  module _ (bytes : List ℕ) (k : Kernel) (t : ℕ) (ev ev' : Event) (error : ev.ec_ ≡ ev'.ec_) where
    send_some_end :
        (own : Sender) (a : Outcome)
        → k.io t (own.buffer_.size) ≡ a
        → SameEnd ev'
            (send_some_ready e bytes k t (record { event = ev; own = own }))
            (send_some_ready e bytes k t (record { event = ev'; own = own }))
    unfolding send_some_ready
    send_some_end own (done rc) q = elim (Bool-cases (rc == 0)) [
      | inl nothing ↦ rw (q, nothing, send_some_ready) (refl, error, refl, refl)
      | inr some_taken ↦ rw (q, some_taken, send_some_ready) (refl, error, refl, refl)
    ]
    send_some_end own (fail errno) q = elim (Bool-cases (is_transient e errno)) [
      | inl again ↦ rw (q, again, send_some_ready) (refl, error, refl, refl)
      | inr final ↦ rw (q, final, send_some_ready) (refl, refl, refl, refl)
    ]

  pub send_some-IsQueuedBy : (bytes : List ℕ) → IsQueuedBy (send_some e bytes) sender_queues
  unfolding send_suspend
  send_some-IsQueuedBy bytes = record {
    ready_local =
        IsLocal-by (send_some_ready e bytes) (λ own. own.buffer_.size) (send_some_end bytes);
    resume_local =
        IsLocal-by (send_some_ready e bytes) (λ own. own.buffer_.size) (send_some_end bytes);
    suspend_queues = λ k t s. refl;
  }
