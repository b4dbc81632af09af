-- ===== src/Net/Udp/Examples.antt =====
-- include/ice/net/udp/socket.h: a datagram of three bytes, on a kernel that takes it at the second try.
use ice_test.Base.{ℕ, zero, suc, ◌≡◌, ◌≤◌, ◌<◌, ◌^◌, refl, [], ◌∷◌, none, arith}
use ice_test.Base.Int.{pos}
use ice_test.Event.{Kernel, Outcome, done, fail, queue_send, remove}
use ice_test.Event.Await.{State, resumed, await_all, reports, co_await, await_resume, await_suspend}
use ice_test.Event.Stages.{ends}
use ice_test.Net.Errno.{linux, IsPosix}
use ice_test.Net.Tcp.Receive.{call_failed}
use ice_test.Net.Udp.{
  Sender, new_sender, take_datagram, send, send_some, send_ready, send_some_ready, send_suspend,
}
use ice_test.Net.Udp.Datagrams.{Leaves, send_one_datagram}

abbrev answer : ℕ → ℕ → Outcome
answer zero size = fail 11
answer (suc t) size = done size

abbrev kernel : Kernel
kernel = record { io = answer; ctl = λ t. none }

takes_whole : (t size count : ℕ) → answer t size ≡ done count → count ≡ size
takes_whole zero size count q = absurd (cc)
takes_whole (suc t) size count q = cc

follows-IsPosix : IsPosix kernel
follows-IsPosix = record {
  io_errno = io_errno;
  ctl_errno = λ t errno q. ground (arith, q);
  io_count = io_count;
}
  where
    io_errno : (t size errno : ℕ) → answer t size ≡ fail errno → (0 < errno) × (errno < 2 ^ 28)
    io_errno zero size errno q = ground (arith, q)
    io_errno (suc t) size errno q = ground (arith, q)

    io_count : (t size count : ℕ) → answer t size ≡ done count → count ≤ size
    io_count zero size count q = ground (arith, q)
    io_count (suc t) size count q = ground (arith, q)

abbrev start : State Sender
start = new_sender (pos 3) (pos 4) (72 ∷ 101 ∷ 121 ∷ [])

send_goes_on : (await_all (send linux (72 ∷ 101 ∷ 121 ∷ [])) kernel 1 start).1 ≡ resumed
unfolding await_all co_await reports await_resume await_suspend send_ready send_suspend call_failed
    take_datagram queue_send remove
send_goes_on = refl

send_some_goes_on : (await_all (send_some linux (72 ∷ 101 ∷ 121 ∷ [])) kernel 1 start).1 ≡ resumed
unfolding await_all co_await reports await_resume await_suspend send_some_ready send_suspend
    call_failed take_datagram queue_send remove
send_some_goes_on = refl

send_one_datagram_example :
    Leaves
      (pos 3)
      (pos 4)
      (72 ∷ 101 ∷ 121 ∷ [])
      ends
      (await_all (send linux (72 ∷ 101 ∷ 121 ∷ [])) kernel 1 start).0
    × Leaves
        (pos 3)
        (pos 4)
        (72 ∷ 101 ∷ 121 ∷ [])
        ends
        (await_all (send_some linux (72 ∷ 101 ∷ 121 ∷ [])) kernel 1 start).0
send_one_datagram_example =
    send_one_datagram linux kernel follows-IsPosix (72 ∷ 101 ∷ 121 ∷ []) (omega arith) takes_whole
      (pos 3) (pos 4) 1 send_goes_on send_some_goes_on
