-- ===== src/Net/Ssh/Examples.antt =====
-- src/ice/net/ssh: errors and waits of the transport, and, of the channel, a write of three bytes of which the first
-- call takes one, and a read into a buffer that holds an earlier one.
use ice_test.Base.{
  ℕ, zero, suc, ◌+◌, ◌≡◌, ◌<◌, refl, true, none, some, [], ◌∷◌, ◌++◌, take, drop, length, arith,
}
use ice_test.Base.Int.{ℤ, pos, negsuc}
use ice_test.Event.{Kernel, Outcome, done, fail, Interest, add}
use ice_test.Event.Await.{State}
use ice_test.Net.Errno.{linux}
use ice_test.Net.Ssh.Transport.{Transport, new_transport, on_recv, on_send, suspend}
use ice_test.Net.Ssh.Waiting.{waits_for_callback}
use ice_test.Net.Ssh.{co_returns, write}
use ice_test.Net.Ssh.Channel.{write_repeats}
use ice_test.Net.Ssh.Reading.{
  Channel, Stream, ReadEx, reads, refuses, read, view, read_views, start_up_exec,
}

-- `LIBSSH2_ERROR_EAGAIN`
abbrev eagain : ℤ
eagain = negsuc 36

abbrev takes_one : ℕ → ℤ
takes_one zero = pos 1
takes_one (suc i) = pos 3

write_repeats_example :
    write eagain (72 ∷ 101 ∷ 121 ∷ []) takes_one 3
    ≡ some (co_returns (record { written = 1 + 3; wire = 72 ∷ 72 ∷ 101 ∷ 121 ∷ [] }))
write_repeats_example =
    write_repeats eagain (72 ∷ 101 ∷ 121 ∷ []) takes_one 1 3 (omega arith) (omega arith)
      (omega arith) refl refl

abbrev interrupted_once : ℕ → Outcome
interrupted_once zero = fail 4
interrupted_once (suc i) = fail 11

one_interrupt : (i : ℕ) → i < 1 → interrupted_once i ≡ fail 4
one_interrupt zero lt = refl
one_interrupt (suc i) lt = absurd (omega (arith, lt))

abbrev transport : State Transport
transport = new_transport (pos 3) (pos 4)

abbrev kernel : Kernel
kernel = record { io = λ t size. done 0; ctl = λ t. none }

waits_for_callback_example :
    ((r : State Transport) × (on_recv linux interrupted_once 2 transport ≡ some (r, negsuc 10))
      × ((suspend linux kernel 0 r).0.event.calls
          ≡ (add (pos 3) (pos 4) Interest.readable, true) ∷ [])
      × ((suspend linux kernel 0 r).1 ≡ true))
    × ((r : State Transport) × (on_send linux interrupted_once 2 transport ≡ some (r, negsuc 10))
        × ((suspend linux kernel 0 r).0.event.calls
            ≡ (add (pos 3) (pos 4) Interest.writable, true) ∷ [])
        × ((suspend linux kernel 0 r).1 ≡ true))
waits_for_callback_example =
    waits_for_callback linux interrupted_once 1 2 one_interrupt (omega arith) kernel 0 11 transport
      refl refl refl

-- A channel whose buffer holds the four bytes of an earlier read.
abbrev channel : Channel
channel = record {
  handle_ = record { value_ = 7 };
  socket_ = 1;
  transport_ = 2;
  buffer_ = 80 ∷ 79 ∷ 78 ∷ 71 ∷ [];
}

abbrev once_more : ℕ → ℕ → ℕ → ReadEx
once_more zero id size = refuses 36
once_more (suc i) id size = reads (72 ∷ 105 ∷ [])

asked_once : (i : ℕ) → i < 1 → once_more i 1 4 ≡ refuses 36
asked_once zero lt = refl
asked_once (suc i) lt = absurd (omega (arith, lt))

read_views_example :
    (c' : Channel) × (read eagain once_more 2 Stream.err channel ≡ some (c', co_returns 2))
    × (view c' 2 ≡ 72 ∷ 105 ∷ [])
    × (length c'.buffer_ ≡ 4)
    × (c'.handle_ ≡ channel.handle_)
    × ((m : ℕ) → view c' m ≡ take m (72 ∷ 105 ∷ []) ++ drop 2 (view channel m))
read_views_example =
    read_views eagain once_more 1 2 36 Stream.err channel (72 ∷ 105 ∷ []) refl asked_once refl
      (omega arith) (omega arith)

starts_ls : start_up_exec (b'l' ∷ b's' ∷ []) ≡ record {
  request = b'e' ∷ b'x' ∷ b'e' ∷ b'c' ∷ [];
  request_size = 4;
  text = b'l' ∷ b's' ∷ [];
  text_size = 2;
}
unfolding start_up_exec
starts_ls = refl
