-- ===== src/Net/Tcp/Examples.antt =====
-- include/ice/net/tcp/socket.h: sends on a kernel that takes two bytes at a time, the first time later.
use Prim.Native.Nat.{min}
use ice_test.Base.{
  false, some, ℕ, zero, suc, ◌≡◌, ◌≤◌, ◌<◌, refl, true, ◌⊎◌, List, [], ◌∷◌, none, ◌^◌, arith,
}
use ice_test.Net.Tcp.Connect.{connect_ready, new_connector, connect}
use ice_test.Net.Tcp.Connected.{connect_keeps_error}
use ice_test.Net.Tcp.Overlapped
use ice_test.Net.Tcp.Overlapped.{resume, suspend, sent}
use ice_test.Net.Tcp.Resent.{resume_resends}
use ice_test.Event.Ends.{await_all_ends}
use ice_test.Handle.{valid, reset}
use ice_test.Net.Tcp.Receive.{
  recv, new_receiver, accept, accept_ready, take_client, new_acceptor, Acceptor,
}
use ice_test.Net.Tcp.Received.{await_all-recv_fits, await_all-accept-valid}
use ice_test.Base.Equality.{int_comparable}
use ice_test.Base.Int.{minus_one, pos}
use ice_test.ErrorCode.{to_bool}
use ice_test.Event.{new_event, Kernel, Outcome, done, fail, queue_send, remove}
use ice_test.Event.Await.{State, resumed, await_all, reports, co_await, await_resume, await_suspend}
use ice_test.Event.Registration.{Tracks, await_all-Tracks}
use ice_test.Net.Errno.{linux, is_transient, IsPosix}
use ice_test.Net.Tcp.{
  failed, Sender, ok, send, send_some, send_ready, send_suspend, write_failed, new_sender, advance,
  send_result, or_throw,
}
use ice_test.Net.Tcp.Send.{IsSent, await_all-IsSent}
use ice_test.Net.Tcp.Complete.{send_complete}
use ice_test.Net.Tcp.Progress.{await_all-send_resumed}
use ice_test.Net.Tcp.Queued.{send-IsQueued}

abbrev answer : ℕ → ℕ → Outcome
answer zero size = fail 11
answer (suc t) size = done (min size 2)

abbrev kernel : Kernel
kernel = record { io = answer; ctl = λ t. none }

kernel-IsPosix : IsPosix kernel
kernel-IsPosix = record {
  io_errno = io_errno;
  ctl_errno = λ t errno q. ground (arith, q);
  io_count = io_count;
}
  where
    io_errno : (t size errno : ℕ) → answer t size ≡ fail errno → (0 < errno) × (errno < 2 ^ 28)
    io_errno zero size errno q = ground (arith, q)
    io_errno (suc t) size errno q = ground (arith, q)

    io_count : (t size count : ℕ) → answer t size ≡ done count → count ≤ size
    io_count zero size count q = ground (arith, q)
    io_count (suc t) size count q = ground (arith, q)

takes_some : (t size : ℕ) → answer t size ≡ done 0 → size ≡ 0
takes_some zero size q = ground (arith, q)
takes_some (suc t) size q = ground (arith, q)

answers_later :
    (t size errno : ℕ) → answer t size ≡ fail errno → is_transient linux errno ≡ true → t < 1
answers_later zero size errno q b = omega arith
answers_later (suc t) size errno q b = ground (arith, q)

abbrev bytes : List ℕ
bytes = 72 ∷ 101 ∷ 121 ∷ []

abbrev start : State Sender
start = new_sender (pos 3) (pos 4) bytes

goes_on : (await_all (send linux bytes) kernel 5 start).1 ≡ resumed
goes_on =
    await_all-send_resumed linux kernel kernel-IsPosix bytes (omega arith) 1 answers_later (pos 3)
      (pos 4)

await_all-IsSent_example :
    IsSent bytes (await_all (send linux bytes) kernel 1 start).0.own
    × IsSent bytes (await_all (send_some linux bytes) kernel 1 start).0.own
await_all-IsSent_example =
    await_all-IsSent linux kernel kernel-IsPosix bytes (omega arith) (pos 3) (pos 4) 1

send_complete_example :
    let s = (await_all (send linux bytes) kernel 5 start).0 in
    (to_bool s.event.ec_ ≡ true) ⊎ ((send_result s ≡ ok 3) × (s.own.wire ≡ bytes))
send_complete_example =
    send_complete linux kernel kernel-IsPosix bytes (omega arith) takes_some (pos 3) (pos 4) 5
      goes_on

await_all-send_resumed_example : (await_all (send linux bytes) kernel 5 start).1 ≡ resumed
await_all-send_resumed_example =
    await_all-send_resumed linux kernel kernel-IsPosix bytes (omega arith) 1 answers_later (pos 3)
      (pos 4)

await_all-Tracks_example :
    Tracks
      (await_all (send linux bytes) kernel 1 start).1
      (await_all (send linux bytes) kernel 1 start).0.event
await_all-Tracks_example =
    await_all-Tracks (send linux bytes) (λ o. o.context_) (λ o. o.socket_)
      (send-IsQueued linux bytes) kernel 1 start refl refl refl

-- Two rounds: two bytes, then one.
sends_in_two_rounds : send_result (await_all (send linux bytes) kernel 2 start).0 ≡ ok 3
unfolding await_all co_await reports await_resume await_suspend send_ready send_suspend write_failed
    advance send_result or_throw queue_send remove to_bool
sends_in_two_rounds = refl

-- Nobody asks to connect at first; then a client gets the descriptor 1000.
abbrev accept4 : ℕ → Outcome
accept4 zero = fail 11
accept4 (suc t) = done 1000

accept4_errno : (t errno : ℕ) → accept4 t ≡ fail errno → (0 < errno) × (errno < 2 ^ 28)
accept4_errno zero errno q = ground (arith, q)
accept4_errno (suc t) errno q = absurd (cc)

accept_finishes :
    (t : ℕ) (s : State Acceptor) → 1 ≤ t → (accept_ready linux accept4 kernel t s).1 ≡ true
unfolding accept_ready take_client valid reset
accept_finishes zero s le = absurd (omega arith)
accept_finishes (suc t) s le = refl

await_all-recv_fits_example :
    (await_all (recv linux) kernel 2 (new_receiver (pos 3) (pos 4) 1024)).0.own.buffer_.size ≤ 1024
await_all-recv_fits_example = await_all-recv_fits linux kernel kernel-IsPosix 1024 (pos 3) (pos 4) 2

await_all-accept-valid_example :
    let s = (await_all (accept linux accept4) kernel 2 (new_acceptor (pos 3) (pos 4))).0 in
    (s.own.closed ≡ []) × ((to_bool s.event.ec_ ≡ true) ⊎ (valid minus_one s.own.client_ ≡ true))
await_all-accept-valid_example =
    await_all-accept-valid linux kernel kernel-IsPosix accept4 accept4_errno (pos 3) (pos 4) 2 (
      await_all_ends (accept linux accept4) kernel 1 accept_finishes (new_acceptor (pos 3) (pos 4)))

-- A signal, and then nobody listens.
abbrev refused : ℕ → Outcome
refused zero = fail 4
refused (suc i) = fail 111

interrupted_once : (i : ℕ) → i < 1 → refused i ≡ fail 4
interrupted_once zero lt = refl
interrupted_once (suc i) lt = absurd (omega arith)

connect_keeps_error_example :
    (connect_ready linux refused 2 (new_connector (pos 3) (pos 4))
      ≡ some (failed 111 (new_connector (pos 3) (pos 4)), false))
    × (to_bool
          (await_all
            (connect (λ t. done 0) (false, some 111))
            kernel
            3
            (new_connector (pos 3) (pos 4))).0.event.ec_
        ≡ true)
connect_keeps_error_example =
    connect_keeps_error kernel kernel-IsPosix (λ t. done 0) (λ t. omega arith) linux refused 1 2 111
      interrupted_once refl (omega arith) refl refl refl (omega arith, omega arith) 3
      (new_connector (pos 3) (pos 4))

-- Three bytes, of which the first is reported alone.
abbrev overlapped_start : State Overlapped.Sender
overlapped_start = record {
  event = new_event;
  own = record { buffer_ = record { offset = 0; size = 3 }; size_ = 0; bytes_ = 0; wire = [] };
}

resume_resends_example :
    let r = resume bytes (done 1) overlapped_start in
    (r.1 ≡ false)
    × (suspend bytes (λ i. sent 3) 0 1 r.0
        ≡ some (record r.0 { own = Overlapped.advance bytes 3 r.0.own }, false))
    × ((Overlapped.advance bytes 3 r.0.own).wire ≡ 72 ∷ 72 ∷ 101 ∷ 121 ∷ [])
resume_resends_example =
    resume_resends bytes 1 overlapped_start (omega arith) (omega arith) (omega arith)
