-- ===== src/Net/Freebsd/Datagram.antt =====
-- src/ice/net/udp/socket.cpp, on FreeBSD: `udp::send`, `udp::send_some` and `udp::recv` see no more of their
-- event than its error, and what they register for.
use ice_test.Base.{ℕ, ◌==◌, ◌≡◌, refl, Bool-cases, inl, inr, List}
use ice_test.Event.{Event, Kernel, Interest, Outcome, done, fail}
use ice_test.Event.OneShot.{IsQueuedBy, Queues}
use ice_test.Net.Errno.{Errno}
use ice_test.Net.Freebsd.{SameEnd, IsLocal-by, call_failed_lem}
use ice_test.Net.Tcp.Receive.{capacity}
use ice_test.Net.Udp.{
  Sender, Receiver, send_ready, send_some_ready, send_suspend, send, send_some, recv, recv_ready,
  recv_suspend,
}

abbrev pub sender_queues : Queues Sender
sender_queues = record {
  context_of = λ o. o.context_;
  socket_of = λ o. o.socket_;
  interest = Interest.writable;
}

abbrev pub receiver_queues : Queues Receiver
receiver_queues = record {
  context_of = λ o. o.context_;
  socket_of = λ o. o.socket_;
  interest = Interest.readable;
}

module _ (e : Errno) where
  module _ (peer_size : ℕ → ℕ) (k : Kernel) (t : ℕ) (ev ev' : Event)
      (error : ev.ec_ ≡ ev'.ec_) where
    recv_end :
        (own : Receiver) (a : Outcome)
        → k.io t (own.buffer_.size) ≡ a
        → SameEnd ev'
            (recv_ready e peer_size k t (record { event = ev; own = own }))
            (recv_ready e peer_size k t (record { event = ev'; own = own }))
    unfolding recv_ready
    recv_end own (done rc) q = rw (q, recv_ready) (refl, error, refl, refl)
    recv_end own (fail errno) q = elim (Bool-cases (errno == e.econnreset)) [
      | inl gone ↦ rw (q, gone, recv_ready) (refl, error, refl, refl)
      | inr other ↦
          rw (q, other, recv_ready)
            (call_failed_lem e errno (record own { endpoint_size = capacity }) ev ev' error)
    ]

  pub recv-IsQueuedBy : (peer_size : ℕ → ℕ) → IsQueuedBy (recv e peer_size) receiver_queues
  unfolding recv_suspend
  recv-IsQueuedBy peer_size = record {
    ready_local =
        IsLocal-by (recv_ready e peer_size) (λ own. own.buffer_.size) (recv_end peer_size);
    resume_local =
        IsLocal-by (recv_ready e peer_size) (λ own. own.buffer_.size) (recv_end peer_size);
    suspend_queues = λ k t s. refl;
  }

  module _ (bytes : List ℕ) (k : Kernel) (t : ℕ) (ev ev' : Event) (error : ev.ec_ ≡ ev'.ec_) where
    send_end :
        (own : Sender) (a : Outcome)
        → k.io t (own.buffer_.size) ≡ a
        → SameEnd ev'
            (send_ready e bytes k t (record { event = ev; own = own }))
            (send_ready e bytes k t (record { event = ev'; own = own }))
    unfolding send_ready
    send_end own (done rc) q = elim (Bool-cases (rc == 0)) [
      | inl nothing ↦ rw (q, nothing, send_ready) (refl, error, refl, refl)
      | inr some_taken ↦ rw (q, some_taken, send_ready) (refl, error, refl, refl)
    ]
    send_end own (fail errno) q = rw (q, send_ready) (call_failed_lem e errno own ev ev' error)

  pub send-IsQueuedBy : (bytes : List ℕ) → IsQueuedBy (send e bytes) sender_queues
  unfolding send_suspend
  send-IsQueuedBy bytes = record {
    ready_local = IsLocal-by (send_ready e bytes) (λ own. own.buffer_.size) (send_end bytes);
    resume_local = IsLocal-by (send_ready e bytes) (λ own. own.buffer_.size) (send_end bytes);
    suspend_queues = λ k t s. refl;
  }

  module _ (bytes : List ℕ) (k : Kernel) (t : ℕ) (ev ev' : Event) (error : ev.ec_ ≡ ev'.ec_) where
    send_some_end :
        (own : Sender) (a : Outcome)
        → k.io t (own.buffer_.size) ≡ a
        → SameEnd ev'
            (send_some_ready e bytes k t (record { event = ev; own = own }))
            (send_some_ready e bytes k t (record { event = ev'; own = own }))
    unfolding send_some_ready
    send_some_end own (done rc) q = elim (Bool-cases (rc == 0)) [
      | inl nothing ↦ rw (q, nothing, send_some_ready) (refl, error, refl, refl)
      | inr some_taken ↦ rw (q, some_taken, send_some_ready) (refl, error, refl, refl)
    ]
    send_some_end own (fail errno) q =
        rw (q, send_some_ready) (call_failed_lem e errno own ev ev' error)

  pub send_some-IsQueuedBy : (bytes : List ℕ) → IsQueuedBy (send_some e bytes) sender_queues
  unfolding send_suspend
  send_some-IsQueuedBy bytes = record {
    ready_local =
        IsLocal-by (send_some_ready e bytes) (λ own. own.buffer_.size) (send_some_end bytes);
    resume_local =
        IsLocal-by (send_some_ready e bytes) (λ own. own.buffer_.size) (send_some_end bytes);
    suspend_queues = λ k t s. refl;
  }
