-- ===== src/Net/Udp.antt =====
-- include/ice/net/udp/socket.h and src/ice/net/udp/socket.cpp, on Linux: the operations on a datagram
-- socket.
pub mod Datagrams
mod Examples
use ice_test.Base.{
  ℕ, ◌+◌, ◌-◌, ◌%◌, ◌^◌, ◌==◌, Bool, true, false, not, List, [], ◌∷◌, ◌++◌, take, drop, length,
  if◌then◌else◌,
}
use ice_test.Base.Int.{ℤ}
use ice_test.Event.{Event, Kernel, Outcome, done, fail, queue_recv, queue_send, new_event}
use ice_test.Event.Await.{State, Operation}
use ice_test.Net.Errno.{Errno}
use ice_test.Net.Tcp.{Buffer, Result, or_throw, add_size, sub_size}
use ice_test.Net.Tcp.Receive.{call_failed, capacity}

-- `udp::recv`, with the size of the endpoint that it is given.
pub record Receiver : Type 0 where
  pub context_ : ℤ
  pub socket_ : ℤ
  pub endpoint_size : ℕ
  pub buffer_ : Buffer
  pub size_ : ℕ

abbrev pub new_receiver : ℤ → ℤ → ℕ → ℕ → State Receiver
new_receiver context socket endpoint_size size = record {
  event = new_event;
  own = record {
    context_ = context;
    socket_ = socket;
    endpoint_size = endpoint_size;
    buffer_ = record { offset = 0; size = size };
    size_ = 0;
  };
}

-- `udp::send` and `udp::send_some`; `datagrams` is what the kernel has taken so far.
pub record Sender : Type 0 where
  pub context_ : ℤ
  pub socket_ : ℤ
  pub buffer_ : Buffer
  pub size_ : ℕ
  pub datagrams : List (List ℕ)

abbrev pub new_sender : ℤ → ℤ → List ℕ → State Sender
new_sender context socket bytes = record {
  event = new_event;
  own = record {
    context_ = context;
    socket_ = socket;
    buffer_ = record { offset = 0; size = length bytes };
    size_ = 0;
    datagrams = [];
  };
}

-- A datagram of `rc` bytes leaves, and the fields are those that follow the call.
unfoldable pub take_datagram : List ℕ → ℕ → Sender → Sender
take_datagram bytes rc o = record o {
  buffer_ = record { offset = o.buffer_.offset + rc; size = sub_size o.buffer_.size rc };
  size_ = add_size o.size_ rc;
  datagrams = o.datagrams ++ (take rc (drop o.buffer_.offset bytes) ∷ []);
}

module _ (e : Errno) where
  -- The size of the endpoint is set before the call. `peer_size` is what the kernel makes of it.
  unfoldable pub recv_ready : (ℕ → ℕ) → Kernel → ℕ → State Receiver → State Receiver × Bool
  unfolding call_failed
  recv_ready peer_size k t s = elim (k.io t s.own.buffer_.size) [
    | done rc ↦ (
      record s {
        own = record s.own { endpoint_size = peer_size t; size_ = add_size s.own.size_ rc };
      },
      true,
    )
    | fail errno ↦
        let s' = record s { own = record s.own { endpoint_size = capacity } } in
        if errno == e.econnreset
        then (record s' { own = record s'.own { size_ = 0 } }, true)
        else call_failed e errno s'
  ]

  unfoldable pub recv_suspend : Kernel → ℕ → State Receiver → State Receiver × Bool
  unfolding queue_recv
  recv_suspend k t s =
      let (ev, queued) = queue_recv (k.ctl t) s.own.context_ s.own.socket_ s.event in
      (record s { event = ev }, queued)

  abbrev pub recv : (ℕ → ℕ) → Operation Receiver
  recv peer_size = record {
    await_ready = recv_ready peer_size;
    suspend = recv_suspend;
    resume = recv_ready peer_size;
  }

module _ (e : Errno) (bytes : List ℕ) where
  -- Nothing was left to send when the call answers 0, but an empty datagram has gone out.
  unfoldable pub send_ready : Kernel → ℕ → State Sender → State Sender × Bool
  unfolding call_failed take_datagram
  send_ready k t s = elim (k.io t s.own.buffer_.size) [
    | done rc ↦
        let own = take_datagram bytes rc s.own in
        if rc == 0
        then (record s { own = record s.own { datagrams = own.datagrams } }, true)
        else (record s { own = own }, own.buffer_.size == 0)
    | fail errno ↦ call_failed e errno s
  ]

  unfoldable pub send_some_ready : Kernel → ℕ → State Sender → State Sender × Bool
  unfolding call_failed take_datagram
  send_some_ready k t s = elim (k.io t s.own.buffer_.size) [
    | done rc ↦
        let own = take_datagram bytes rc s.own in
        if rc == 0
        then (record s { own = record s.own { datagrams = own.datagrams } }, true)
        else (record s { own = own }, true)
    | fail errno ↦ call_failed e errno s
  ]

  unfoldable pub send_suspend : Kernel → ℕ → State Sender → State Sender × Bool
  unfolding queue_send
  send_suspend k t s =
      let (ev, queued) = queue_send (k.ctl t) s.own.context_ s.own.socket_ s.event in
      (record s { event = ev }, queued)

  abbrev pub send : Operation Sender
  send = record { await_ready = send_ready; suspend = send_suspend; resume = send_ready }

  abbrev pub send_some : Operation Sender
  send_some = record {
    await_ready = send_some_ready;
    suspend = send_suspend;
    resume = send_some_ready;
  }

-- `recv::await_resume` and `send::await_resume`
unfoldable pub recv_result : State Receiver → Result ℕ
unfolding or_throw
recv_result s = or_throw s.event s.own.size_

unfoldable pub send_result : State Sender → Result ℕ
unfolding or_throw
send_result s = or_throw s.event s.own.size_
