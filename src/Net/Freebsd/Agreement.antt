-- ===== src/Net/Freebsd/Agreement.antt =====
-- src/ice/net/tcp/socket.cpp and src/ice/net/udp/socket.cpp: what a coroutine gets that awaits an operation on
-- FreeBSD, by what it gets on Linux.
use ice_test.Base.{ℕ, ◌^◌, ◌<◌, ◌≡◌, refl, sym, ◌∙◌, ◌⊎◌, true, List, [], length, some, ◌≢◌}
use ice_test.Base.Int.{ℤ}
use ice_test.ErrorCode.{to_bool}
use ice_test.Event.{Kernel, Outcome, done, fail, new_event}
use ice_test.Event.Await.{State, await_all, resumed}
use ice_test.Event.OneShot.{KqueueState, await_all_kqueue, Agree, await_all_kqueue-Agree, seen}
use ice_test.Net.Errno.{Errno, IsPosix}
use ice_test.Net.Freebsd.Connection.{
  connect_once-round, connect_once, connector_queues, connect-IsQueuedBy,
}
use ice_test.Net.Freebsd.Datagram
use ice_test.Net.Freebsd.Stream.{
  sender_queues, receiver_queues, acceptor_queues, send-IsQueuedBy, send_some-IsQueuedBy,
  recv-IsQueuedBy, accept-IsQueuedBy,
}
use ice_test.Net.Tcp.{send, send_some, Sender, new_sender, ok, send_result, or_throw}
use ice_test.Net.Tcp.Complete.{send_complete}
use ice_test.Net.Tcp.Connect.{connect, Connector, connect_round}
use ice_test.Net.Tcp.Receive.{recv, accept, Receiver, Acceptor}
use ice_test.Net.Udp

-- An operation that has just been constructed, on Linux and on FreeBSD.
abbrev fresh : {S : Type 0} → S → State S
fresh own = record { event = new_event; own = own }

abbrev pub fresh_kqueue : {S : Type 0} → S → KqueueState S
fresh_kqueue own = record { event = record { ec_ = record { value_ = 0 }; calls = [] }; own = own }

module _ (e : Errno) (k : Kernel) (n : ℕ) (bytes : List ℕ) where
  -- The seven operations come to the same on the two systems, from the fields given.
  abbrev pub OperationsAgree :
      Sender
      → Receiver
      → Acceptor
      → Udp.Sender
      → Udp.Receiver
      → (accept4 : ℕ → Outcome) (peer_size : ℕ → ℕ) → Type 0
  OperationsAgree o o' o'' d d' accept4 peer_size =
      Agree (await_all_kqueue (send e bytes) sender_queues k n (fresh_kqueue o))
        (await_all (send e bytes) k n (fresh o))
      × Agree (await_all_kqueue (send_some e bytes) sender_queues k n (fresh_kqueue o))
          (await_all (send_some e bytes) k n (fresh o))
      × Agree (await_all_kqueue (recv e) receiver_queues k n (fresh_kqueue o'))
          (await_all (recv e) k n (fresh o'))
      × Agree (await_all_kqueue (accept e accept4) acceptor_queues k n (fresh_kqueue o''))
          (await_all (accept e accept4) k n (fresh o''))
      × Agree (await_all_kqueue (Udp.send e bytes) Datagram.sender_queues k n (fresh_kqueue d))
          (await_all (Udp.send e bytes) k n (fresh d))
      × Agree (await_all_kqueue (Udp.send_some e bytes) Datagram.sender_queues k n (fresh_kqueue d))
          (await_all (Udp.send_some e bytes) k n (fresh d))
      × Agree
          (await_all_kqueue (Udp.recv e peer_size) Datagram.receiver_queues k n (fresh_kqueue d'))
          (await_all (Udp.recv e peer_size) k n (fresh d'))

  -- Each of send, send_some, recv and accept of a stream socket and send, send_some and recv of a
  -- datagram socket, started from the same fields with no error, has on FreeBSD, after any number
  -- of reports, the fields, the error and the suspended or resumed coroutine that it has on Linux
  -- after as many, when the calls on the socket and those that register have the same answers; and
  -- its calls of kevent have been for EVFILT_READ where Linux has asked epoll for EPOLLIN, and for
  -- EVFILT_WRITE where it has asked for EPOLLOUT, with the same descriptors, order and success.
  pub operations_agree :
      (o : Sender) (o' : Receiver) (o'' : Acceptor) (d : Udp.Sender) (d' : Udp.Receiver)
      (accept4 : ℕ → Outcome) (peer_size : ℕ → ℕ)
      → OperationsAgree o o' o'' d d' accept4 peer_size
  operations_agree o o' o'' d d' accept4 peer_size = (
    await_all_kqueue-Agree _ _ (send-IsQueuedBy e bytes) k n _ _ refl refl refl,
    await_all_kqueue-Agree _ _ (send_some-IsQueuedBy e bytes) k n _ _ refl refl refl,
    await_all_kqueue-Agree _ _ (recv-IsQueuedBy e) k n _ _ refl refl refl,
    await_all_kqueue-Agree _ _ (accept-IsQueuedBy e accept4) k n _ _ refl refl refl,
    await_all_kqueue-Agree _ _ (Datagram.send-IsQueuedBy e bytes) k n _ _ refl refl refl,
    await_all_kqueue-Agree _ _ (Datagram.send_some-IsQueuedBy e bytes) k n _ _ refl refl refl,
    await_all_kqueue-Agree _ _ (Datagram.recv-IsQueuedBy e peer_size) k n _ _ refl refl refl,
  )

-- On FreeBSD too, when the coroutine that awaits send goes on, the operation has an error, or
-- await_resume returns the size of the data and the kernel has taken exactly the data.
pub send_complete_kqueue :
    (e : Errno) (k : Kernel) (posix : IsPosix k) (bytes : List ℕ)
    → length bytes < 2 ^ 64
    → ((t size : ℕ) → k.io t size ≡ done 0 → size ≡ 0)
    → (context socket : ℤ) (n : ℕ)
    → (await_all_kqueue
        (send e bytes)
        sender_queues
        k
        n
        (fresh_kqueue (new_sender context socket bytes).own)).1
      ≡ resumed
    → let s =
        (await_all_kqueue
          (send e bytes)
          sender_queues
          k
          n
          (fresh_kqueue (new_sender context socket bytes).own)).0 in
      (to_bool s.event.ec_ ≡ true)
      ⊎ ((send_result (seen s) ≡ ok (length bytes)) × (s.own.wire ≡ bytes))
unfolding send_result or_throw
send_complete_kqueue e k posix bytes small writes context socket n goes_on =
    let (own, error, phase, calls) =
      await_all_kqueue-Agree _ _ (send-IsQueuedBy e bytes) k n
        (fresh_kqueue (new_sender context socket bytes).own) (new_sender context socket bytes) refl
        refl refl in
    rw (own, error)
      (send_complete e k posix bytes small writes context socket n (sym phase ∙ goes_on))

-- If the one call of connect on FreeBSD is not interrupted by a signal, then the loop of
-- await_ready on Linux ends with its first call and comes to the same, and connect has on FreeBSD,
-- after any number of reports, the fields, the error, the suspended or resumed coroutine and, as
-- calls of kevent for EVFILT_WRITE, the registrations that it has on Linux after as many, when
-- getsockopt and the calls that register have the same answers.
pub connect_agrees :
    (e : Errno) (k : Kernel) (so_error : ℕ → Outcome) (n : ℕ) (o : Connector) (a : Outcome)
    → a ≢ fail e.eintr
    → (connect_round e a ≡ some (connect_once e a))
      × Agree
          (await_all_kqueue
            (connect so_error (connect_once e a))
            connector_queues
            k
            n
            (fresh_kqueue o))
          (await_all (connect so_error (connect_once e a)) k n (fresh o))
connect_agrees e k so_error n o a other = (
  connect_once-round e a other,
  await_all_kqueue-Agree _ _ (connect-IsQueuedBy so_error (connect_once e a)) k n _ _ refl refl
      refl,
)
