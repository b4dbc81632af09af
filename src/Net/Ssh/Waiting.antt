-- ===== src/Net/Ssh/Waiting.antt =====
-- src/ice/net/ssh/transport.cpp: what the callbacks leave for the wait that follows, and for the next call.
use ice_test.Base.{
  ℕ, zero, suc, ◌≤◌, ◌<◌, ◌≡◌, refl, ap, ◌==◌, true, false, List, [], ◌∷◌, ◌++◌, take, drop, length,
  none, some, arith,
}
use ice_test.Base.Int.{pos}
use ice_test.Event.{Kernel, Outcome, fail, Interest, add, queue_recv, queue_send}
use ice_test.Event.Await.{State}
use ice_test.Net.Errno.{Errno}
use ice_test.Net.Socket.{rounds}
use ice_test.Net.Socket.Rounds.{rounds_end}
use ice_test.Net.Tcp.Overlapped.{Started, pending}
use ice_test.Net.Windows.{completes}
use ice_test.Net.Ssh.Transport.{
  TransportOperation, Transport, recv, send, suspend, call_round, negative, on_recv, on_send,
  OverlappedTransport, storage_size, min_size, memcpy, suspend_overlapped, resume_overlapped,
  on_send_overlapped,
}

module _ (e : Errno) (answer : ℕ → Outcome) (j fuel : ℕ)
    (interrupted : (i : ℕ) → i < j → answer i ≡ fail e.eintr) (enough : j < fuel) where
  call_again : (i : ℕ) → i < j → call_round e (answer i) ≡ none
  call_again i lt = rw (interrupted i lt) (ground arith)

  calls_end :
      (errno : ℕ)
      → answer j ≡ fail errno
      → (errno == e.eintr) ≡ false
      → rounds (call_round e) answer 0 fuel ≡ some (fail errno)
  calls_end errno at final =
      rounds_end (call_round e) answer j (fail errno) call_again (rw (at) (ground (arith, final)))
        fuel enough

  after : TransportOperation → State Transport → State Transport
  after op s = record s { own = record s.own { operation_ = op } }

  -- If the calls of a callback are interrupted j times and the next one fails with another error,
  -- then in more than j rounds the callback returns the negated error, and if epoll_ctl succeeds,
  -- suspend of the transport waits, and its one call adds the socket to the context, to be readable
  -- after on_recv and to be writable after on_send.
  pub waits_for_callback :
      (k : Kernel) (t errno : ℕ) (s : State Transport)
      → answer j ≡ fail errno
      → (errno == e.eintr) ≡ false
      → k.ctl t ≡ none
      → ((r : State Transport) × (on_recv e answer fuel s ≡ some (r, negative errno))
          × ((suspend e k t r).0.event.calls
              ≡ (add s.own.context_ s.own.socket_ Interest.readable, true) ∷ s.event.calls)
          × ((suspend e k t r).1 ≡ true))
        × ((r : State Transport) × (on_send e answer fuel s ≡ some (r, negative errno))
            × ((suspend e k t r).0.event.calls
                ≡ (add s.own.context_ s.own.socket_ Interest.writable, true) ∷ s.event.calls)
            × ((suspend e k t r).1 ≡ true))
  unfolding on_recv on_send suspend queue_recv queue_send after
  waits_for_callback k t errno s at final queued = (
    (
      after recv s,
      rw (calls_end errno at final, on_recv) refl,
      rw (queued, suspend, queue_recv) refl,
      rw (queued, suspend, queue_recv) refl,
    ),
    (
      after send s,
      rw (calls_end errno at final, on_send) refl,
      rw (queued, suspend, queue_send) refl,
      rw (queued, suspend, queue_send) refl,
    ),
  )

take-memcpy :
    (m : ℕ) (data_bytes buffer : List ℕ)
    → m ≤ length data_bytes
    → take m (memcpy (take m data_bytes) buffer) ≡ take m data_bytes
take-memcpy m data_bytes buffer le = over m data_bytes (drop (length (take m data_bytes)) buffer) le
  where
    over :
        (m : ℕ) (data_bytes rest : List ℕ)
        → m ≤ length data_bytes
        → take m (take m data_bytes ++ rest) ≡ take m data_bytes
    over zero data_bytes rest le = refl
    over (suc m) [] rest le = absurd (omega arith)
    over (suc m) (c ∷ data_bytes) rest le = ap (◌∷◌ c) (over m data_bytes rest (omega arith))

min_size-le : (a b : ℕ) → min_size a b ≤ a
min_size-le a b = ground arith

module _ (einval eagain n : ℕ) (start : TransportOperation → ℕ → Started) (data_bytes : List ℕ)
    (s : State OverlappedTransport) (idle_before : s.own.ready_ ≡ false) where
  asked : State OverlappedTransport
  asked = record s {
    own = record s.own {
      operation_ = send;
      buffer_size = min_size (length data_bytes) storage_size;
      storage_ =
          memcpy (take (min_size (length data_bytes) storage_size) data_bytes) s.own.storage_;
    };
  }

  first_call : on_send_overlapped eagain data_bytes s ≡ (asked, negative eagain)
  unfolding on_send_overlapped asked
  first_call = rw (idle_before, on_send_overlapped) refl

  -- On Windows, on_send on a transport with no result ready answers EAGAIN and leaves the first
  -- bytes of the data, 4096 at most, in the buffer that suspend sends; if that call is pending and
  -- completes with n bytes, then the coroutine goes on, and the next on_send returns n and leaves
  -- no result ready.
  pub send_hands_over :
      let size = min_size (length data_bytes) storage_size in
      let first = on_send_overlapped eagain data_bytes s in
      let waiting = suspend_overlapped einval start first.0 in
      let woken = resume_overlapped (completes n) waiting.0 in
      let second = on_send_overlapped eagain data_bytes woken.0 in
      start send size ≡ pending
      → (first.1 ≡ negative eagain)
        × (take first.0.own.buffer_size first.0.own.storage_ ≡ take size data_bytes)
        × (waiting.1 ≡ true)
        × (woken.1 ≡ true)
        × (second.1 ≡ pos n)
        × (second.0.own.ready_ ≡ false)
  unfolding on_send_overlapped suspend_overlapped resume_overlapped asked
  send_hands_over waits =
      let size = min_size (length data_bytes) storage_size in
      rw (first_call) (
        refl,
        take-memcpy size data_bytes s.own.storage_ (min_size-le (length data_bytes) storage_size),
        rw (waits, suspend_overlapped) refl,
        refl,
        refl,
        refl,
      )
