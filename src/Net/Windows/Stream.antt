-- ===== src/Net/Windows/Stream.antt =====
-- src/ice/net/tcp/socket.cpp, on Windows: `tcp::recv`, `tcp::send_some` and `tcp::connect`.
use ice_test.Base.{
  ℕ, ◌+◌, ◌-◌, ◌%◌, ◌^◌, Bool, true, false, List, ◌++◌, take, drop, Option, none, some,
}
use ice_test.Event.{new_event}
use ice_test.Event.Await.{State}
use ice_test.Net.Tcp.{Buffer, Result, or_throw, add_size, failed}
use ice_test.Net.Tcp.Overlapped.{sent, pending, refused, Sender, advance}
use ice_test.Net.Windows.{completes, breaks, Calls, Overlapping}

-- `tcp::recv`: the size of the buffer is an `unsigned long`, of 32 bits.
pub record Receiver : Type 0 where
  pub buffer_ : Buffer
  pub bytes_ : ℕ

abbrev pub new_receiver : ℕ → State Receiver
new_receiver size = record {
  event = new_event;
  own = record { buffer_ = record { offset = 0; size = size % 2 ^ 32 }; bytes_ = 0 };
}

-- `bytes_` is set by a call, and becomes the size of the buffer.
abbrev pub received : ℕ → State Receiver → State Receiver
received n s = record s { own = record { buffer_ = record s.own.buffer_ { size = n }; bytes_ = n } }

module _ (w : Calls) where
  unfoldable pub recv_suspend : ℕ → State Receiver → State Receiver × Bool
  recv_suspend t s = elim (w.start t s.own.buffer_.size) [
    | sent n ↦ (received n s, false)
    | pending ↦ (s, true)
    | refused errno ↦ (failed errno s, false)
  ]

  unfoldable pub recv_resume : ℕ → State Receiver → State Receiver × Bool
  recv_resume t s = elim (w.complete t) [
    | completes n ↦ (received n s, true)
    | breaks n errno ↦ (received n (failed errno s), true)
  ]

  abbrev pub recv : Overlapping Receiver
  recv = record { suspend = recv_suspend; resume = recv_resume }

-- `tcp::send_some`, with the fields of `tcp::send`.
module _ (w : Calls) (bytes : List ℕ) where
  unfoldable pub send_some_suspend : ℕ → State Sender → State Sender × Bool
  unfolding advance
  send_some_suspend t s = elim (w.start t s.own.buffer_.size) [
    | sent n ↦ (record s { own = advance bytes n s.own }, false)
    | pending ↦ (s, true)
    | refused errno ↦ (failed errno s, false)
  ]

  -- `buffer_.data` moves on and back again.
  unfoldable pub send_some_resume : ℕ → State Sender → State Sender × Bool
  send_some_resume t s = elim (w.complete t) [
    | completes n ↦ (
      record s {
        own = record s.own {
          buffer_ = record s.own.buffer_ { offset = s.own.buffer_.offset + n - n };
          size_ = add_size s.own.size_ n;
          bytes_ = n;
          wire = s.own.wire ++ take n (drop s.own.buffer_.offset bytes);
        };
      },
      true,
    )
    | breaks n errno ↦ (record (failed errno s) { own = record s.own { bytes_ = n } }, true)
  ]

  abbrev pub send_some : Overlapping Sender
  send_some = record { suspend = send_some_suspend; resume = send_some_resume }

-- What loading `ConnectEx` came to: `connect_ex`, by the answers of `WSASocket` and of `WSAIoctl`,
-- where `some` is an error.
unfoldable pub connect_ex : Option ℕ → Option ℕ → Option ℕ
connect_ex (some errno) ioctl = some errno
connect_ex none (some errno) = some errno
connect_ex none none = none

-- `tcp::connect`: its own fields do not change.
abbrev pub Connector : Type 0
Connector = Unit {0}

-- The constructor, by the answer of `bind`.
unfoldable pub new_connector : Option ℕ → State Connector
new_connector none = record { event = new_event; own = tt }
new_connector (some errno) = failed errno (record { event = new_event; own = tt })

module _ (w : Calls) (loaded : Option ℕ) where
  unfoldable pub connect_suspend : ℕ → State Connector → State Connector × Bool
  connect_suspend t s = elim loaded [
    | some errno ↦ (failed errno s, false)
    | none ↦ elim (w.start t 0) [
      | sent n ↦ (s, false)
      | pending ↦ (s, true)
      | refused errno ↦ (failed errno s, false)
    ]
  ]

  unfoldable pub connect_resume : ℕ → State Connector → State Connector × Bool
  connect_resume t s = elim (w.complete t) [
    | completes n ↦ (s, true)
    | breaks n errno ↦ (failed errno s, true)
  ]

  abbrev pub connect : Overlapping Connector
  connect = record { suspend = connect_suspend; resume = connect_resume }

-- `await_resume` of the three operations.
unfoldable pub recv_result : State Receiver → Result ℕ
unfolding or_throw
recv_result s = or_throw s.event s.own.buffer_.size

unfoldable pub send_some_result : State Sender → Result ℕ
unfolding or_throw
send_some_result s = or_throw s.event s.own.size_

unfoldable pub connect_result : State Connector → Result (Unit {0})
unfolding or_throw
connect_result s = or_throw s.event tt
