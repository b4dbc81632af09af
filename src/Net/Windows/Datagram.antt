-- ===== src/Net/Windows/Datagram.antt =====
-- src/ice/net/udp/socket.cpp, on Windows: `udp::recv`, `udp::send` and `udp::send_some`.
use ice_test.Base.{
  ℕ, zero, suc, ◌+◌, ◌-◌, ◌%◌, ◌^◌, ◌==◌, ltb, Bool, true, false, ◌&&◌, ◌||◌, List, [], ◌∷◌, ◌++◌,
  take, drop, length, Option, none, some, if◌then◌else◌,
}
use ice_test.Event.{new_event}
use ice_test.Event.Await.{State}
use ice_test.Net.Tcp.{Buffer, Result, or_throw, add_size, failed}
use ice_test.Net.Tcp.Overlapped.{Started, sent, pending, refused, sub_long}
use ice_test.Net.Windows.{Completion, completes, breaks, Calls, Overlapping}

-- `udp::recv`, with the size of the endpoint that it is given.
pub record Receiver : Type 0 where
  pub endpoint_size : ℕ
  pub buffer_ : Buffer
  pub size_ : ℕ
  pub bytes_ : ℕ

abbrev pub new_receiver : ℕ → ℕ → State Receiver
new_receiver endpoint_size size = record {
  event = new_event;
  own = record {
    endpoint_size = endpoint_size;
    buffer_ = record { offset = 0; size = size % 2 ^ 32 };
    size_ = 0;
    bytes_ = 0;
  };
}

abbrev pub received : ℕ → ℕ → State Receiver → State Receiver
received peer n s = record s {
  own = record s.own { endpoint_size = peer; size_ = add_size s.own.size_ n; bytes_ = n };
}

-- `WSARecvFrom` is given the size of the endpoint as it stands, and `peer_size` is what the system makes
-- of it.
module _ (start : (time size endpoint_size : ℕ) → Started) (complete : (time : ℕ) → Completion)
    (peer_size : ℕ → ℕ) where
  unfoldable pub recv_suspend : ℕ → State Receiver → State Receiver × Bool
  recv_suspend t s = elim (start t s.own.buffer_.size s.own.endpoint_size) [
    | sent n ↦ (received (peer_size t) n s, false)
    | pending ↦ (s, true)
    | refused errno ↦ (failed errno s, false)
  ]

  unfoldable pub recv_resume : ℕ → State Receiver → State Receiver × Bool
  recv_resume t s = elim (complete t) [
    | completes n ↦ (received (peer_size t) n s, true)
    | breaks n errno ↦ (received s.own.endpoint_size n (failed errno s), true)
  ]

  abbrev pub recv : Overlapping Receiver
  recv = record { suspend = recv_suspend; resume = recv_resume }

-- `udp::send` and `udp::send_some`; `datagrams` is what the system has taken so far.
pub record Sender : Type 0 where
  pub buffer_ : Buffer
  pub size_ : ℕ
  pub bytes_ : ℕ
  pub datagrams : List (List ℕ)

abbrev pub new_sender : List ℕ → State Sender
new_sender bytes = record {
  event = new_event;
  own = record {
    buffer_ = record { offset = 0; size = length bytes % 2 ^ 32 };
    size_ = 0;
    bytes_ = 0;
    datagrams = [];
  };
}

-- What one round of the loop in `suspend` does: go on, or return.
pub data Round : Type 0 where
  again : State Sender → Round
  returns : State Sender → Bool → Round

module _ (bytes : List ℕ) where
  unfoldable pub advance : ℕ → Sender → Sender
  advance n o = record {
    buffer_ = record { offset = o.buffer_.offset + n; size = sub_long o.buffer_.size n };
    size_ = add_size o.size_ n;
    bytes_ = n;
    datagrams = o.datagrams ++ (take n (drop o.buffer_.offset bytes) ∷ []);
  }

  unfoldable pub round : Started → State Sender → Round
  unfolding advance
  round pending s = returns s true
  round (refused errno) s = returns (failed errno s) false
  round (sent n) s =
      let s' = record s { own = advance n s.own } in
      if n == 0 || s'.own.buffer_.size == 0 then returns s' false else again s'

  -- `send::suspend`, by the answers for each round and size: `none` if the rounds given are not enough.
  unfoldable pub suspend : (ℕ → ℕ → Started) → ℕ → ℕ → State Sender → Option (State Sender × Bool)
  unfolding round
  suspend answer i zero s = none
  suspend answer i (suc fuel) s =
      let rest = suspend answer (suc i) fuel in
      if ltb 0 s.own.buffer_.size
      then elim (round (answer i s.own.buffer_.size) s) [
        | again s' ↦ rest s'
        | returns s' waits ↦ some (s', waits)
      ]
      else some (s, false)

  -- A completed call: `buffer_.data` moves on and back again.
  unfoldable pub sent_whole : ℕ → Sender → Sender
  sent_whole n o = record {
    buffer_ = record o.buffer_ { offset = o.buffer_.offset + n - n };
    size_ = add_size o.size_ n;
    bytes_ = n;
    datagrams = o.datagrams ++ (take n (drop o.buffer_.offset bytes) ∷ []);
  }

  -- `send::resume`
  unfoldable pub resume : Completion → State Sender → State Sender × Bool
  unfolding sent_whole
  resume (breaks n errno) s = (record (failed errno s) { own = record s.own { bytes_ = n } }, true)
  resume (completes n) s =
      let own = sent_whole n s.own in
      (record s { own = own }, if ltb 0 n && ltb 0 own.buffer_.size then false else true)

module _ (w : Calls) (bytes : List ℕ) where
  unfoldable pub send_some_suspend : ℕ → State Sender → State Sender × Bool
  unfolding advance
  send_some_suspend t s = elim (w.start t s.own.buffer_.size) [
    | sent n ↦ (record s { own = advance bytes n s.own }, false)
    | pending ↦ (s, true)
    | refused errno ↦ (failed errno s, false)
  ]

  unfoldable pub send_some_resume : ℕ → State Sender → State Sender × Bool
  unfolding sent_whole
  send_some_resume t s = elim (w.complete t) [
    | completes n ↦ (record s { own = sent_whole bytes n s.own }, true)
    | breaks n errno ↦ (record (failed errno s) { own = record s.own { bytes_ = n } }, true)
  ]

  abbrev pub send_some : Overlapping Sender
  send_some = record { suspend = send_some_suspend; resume = send_some_resume }

-- `recv::await_resume`, and that of `send` and `send_some`.
unfoldable pub recv_result : State Receiver → Result ℕ
unfolding or_throw
recv_result s = or_throw s.event s.own.size_

unfoldable pub send_result : State Sender → Result ℕ
unfolding or_throw
send_result s = or_throw s.event s.own.size_
