-- ===== src/Net/Tcp/Receive.antt =====
-- include/ice/net/tcp/socket.h and src/ice/net/tcp/socket.cpp, on Linux: `tcp::recv`, `tcp::accept` and
-- `tcp::connect`.
use ice_test.Base.{ℕ, ◌==◌, Bool, true, false, not, List, [], if◌then◌else◌}
use ice_test.Base.Int.{ℤ, pos, minus_one}
use ice_test.Base.Equality.{int_comparable}
use ice_test.Event.{Kernel, Outcome, done, fail, queue_recv, new_event}
use ice_test.Event.Await.{State, Operation}
use ice_test.Handle.{Handle, default_handle, reset, valid}
use ice_test.Net.Errno.{Errno, is_transient}
use ice_test.Net.Tcp.{Buffer, Result, or_throw, failed}

pub record Receiver : Type 0 where
  pub context_ : ℤ
  pub socket_ : ℤ
  pub buffer_ : Buffer

-- `recv::recv(socket, data, size)`
abbrev pub new_receiver : ℤ → ℤ → ℕ → State Receiver
new_receiver context socket size = record {
  event = new_event;
  own = record {
    context_ = context;
    socket_ = socket;
    buffer_ = record { offset = 0; size = size };
  };
}

abbrev pub resize : ℕ → State Receiver → State Receiver
resize size s = record s { own = record s.own { buffer_ = record s.own.buffer_ { size = size } } }

-- `tcp::accept`: the socket to return as its handle and the size of its endpoint, with the log of
-- what that handle closes.
pub record Acceptor : Type 0 where
  pub context_ : ℤ
  pub socket_ : ℤ
  pub client_ : Handle ℤ
  pub size : ℕ
  pub closed : List ℤ

abbrev pub new_acceptor : ℤ → ℤ → State Acceptor
new_acceptor context socket = record {
  event = new_event;
  own = record {
    context_ = context;
    socket_ = socket;
    client_ = default_handle minus_one;
    size = 0;
    closed = [];
  };
}

-- `sockaddr_storage_size`
abbrev pub capacity : ℕ
capacity = 128

module _ (e : Errno) where
  -- What follows a call that fails: an error that is not transient ends the operation.
  unfoldable pub call_failed : {S : Type 0} → ℕ → State S → State S × Bool
  call_failed errno s = if not (is_transient e errno) then (failed errno s, true) else (s, false)

  unfoldable pub recv_ready : Kernel → ℕ → State Receiver → State Receiver × Bool
  unfolding call_failed
  recv_ready k t s = elim (k.io t s.own.buffer_.size) [
    | done rc ↦ (resize rc s, true)
    | fail errno ↦ if errno == e.econnreset then (resize 0 s, true) else call_failed errno s
  ]

  unfoldable pub recv_suspend : Kernel → ℕ → State Receiver → State Receiver × Bool
  unfolding queue_recv
  recv_suspend k t s =
      let (ev, queued) = queue_recv (k.ctl t) s.own.context_ s.own.socket_ s.event in
      (record s { event = ev }, queued)

  abbrev pub recv : Operation Receiver
  recv = record { await_ready = recv_ready; suspend = recv_suspend; resume = recv_ready }

  -- The handle of the client takes what `accept4` returns.
  unfoldable pub take_client : ℤ → State Acceptor → State Acceptor
  unfolding reset
  take_client fd s =
      let (h, closed) = reset minus_one fd s.own.client_ s.own.closed in
      record s { own = record s.own { client_ = h; size = capacity; closed = closed } }

  -- The answers of `accept4` by time: the descriptor of a client, or an error.
  module _ (accept4 : ℕ → Outcome) where
    unfoldable pub accept_ready : Kernel → ℕ → State Acceptor → State Acceptor × Bool
    unfolding take_client call_failed valid
    accept_ready k t s = elim (accept4 t) [
      | done fd ↦ let s' = take_client (pos fd) s in (s', valid minus_one s'.own.client_)
      | fail errno ↦ call_failed errno (take_client minus_one s)
    ]

    unfoldable pub accept_suspend : Kernel → ℕ → State Acceptor → State Acceptor × Bool
    unfolding queue_recv
    accept_suspend k t s =
        let (ev, queued) = queue_recv (k.ctl t) s.own.context_ s.own.socket_ s.event in
        (record s { event = ev }, queued)

    abbrev pub accept : Operation Acceptor
    accept = record { await_ready = accept_ready; suspend = accept_suspend; resume = accept_ready }

-- `recv::await_resume`
unfoldable pub recv_result : State Receiver → Result ℕ
unfolding or_throw
recv_result s = or_throw s.event s.own.buffer_.size

-- `accept::await_resume`: the handle of the socket that is moved out.
unfoldable pub accept_result : State Acceptor → Result ℤ
unfolding or_throw
accept_result s = or_throw s.event s.own.client_.value_
