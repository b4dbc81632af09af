-- ===== src/Net/Tcp.antt =====
-- include/ice/net/tcp/socket.h and src/ice/net/tcp/socket.cpp, on Linux: the operations on a stream
-- socket that a coroutine awaits. A pointer into a buffer is an offset from its start.
pub mod Send
pub mod Complete
pub mod Progress
pub mod Receive
pub mod Connect
pub mod Connected
pub mod Received
pub mod Overlapped
pub mod Resent
pub mod Queued
mod Examples
use ice_test.Base.{
  ℕ, ◌+◌, ◌-◌, ◌%◌, ◌^◌, Bool, true, false, not, List, [], ◌++◌, take, drop, length, ◌==◌,
  if◌then◌else◌,
}
use ice_test.Base.Int.{ℤ, pos}
use ice_test.ErrorCode.{ErrorCode, of_integral, to_bool, system_error, SystemError}
use ice_test.Event.{Event, Kernel, Outcome, done, fail, queue_recv, queue_send, new_event}
use ice_test.Event.Await.{State, Operation}
use ice_test.Net.Errno.{Errno, is_transient}

-- `net::basic_buffer`
pub record Buffer : Type 0 where
  pub offset : ℕ
  pub size : ℕ

-- `a + b` and `a - b` at the type `std::size_t`, of 64 bits.
abbrev pub add_size : ℕ → ℕ → ℕ
add_size a b = (a + b) % 2 ^ 64

abbrev pub sub_size : ℕ → ℕ → ℕ
sub_size a b = (a + 2 ^ 64 - b) % 2 ^ 64

-- What `await_resume` of an operation returns: a value, or the exception thrown.
pub data Result (A : Type 0) : Type 0 where
  ok : A → Result A
  throw : SystemError → Result A

unfoldable pub or_throw : {A : Type 0} → Event → A → Result A
or_throw ev a = if to_bool ev.ec_ then throw (system_error ev.ec_) else ok a

-- `ec_ = errno`
abbrev pub failed : {S : Type 0} → ℕ → State S → State S
failed errno s = record s { event = record s.event { ec_ = of_integral (pos errno) } }

-- `tcp::send` and `tcp::send_some`; `wire` is what the kernel has taken so far.
pub record Sender : Type 0 where
  pub context_ : ℤ
  pub socket_ : ℤ
  pub buffer_ : Buffer
  pub size_ : ℕ
  pub wire : List ℕ

-- The constructor: the whole of `data` is to be sent.
abbrev pub new_sender : ℤ → ℤ → List ℕ → State Sender
new_sender context socket bytes = record {
  event = new_event;
  own = record {
    context_ = context;
    socket_ = socket;
    buffer_ = record { offset = 0; size = length bytes };
    size_ = 0;
    wire = [];
  };
}

-- The buffer moves on by what `write` has taken of it.
unfoldable pub advance : List ℕ → ℕ → Sender → Sender
advance bytes rc o = record o {
  buffer_ = record { offset = o.buffer_.offset + rc; size = sub_size o.buffer_.size rc };
  size_ = add_size o.size_ rc;
  wire = o.wire ++ take rc (drop o.buffer_.offset bytes);
}

module _ (e : Errno) (bytes : List ℕ) where
  -- What follows a `write` that fails.
  write_failed : ℕ → State Sender → State Sender × Bool
  write_failed errno s = if not (is_transient e errno) then (failed errno s, true) else (s, false)

  unfoldable pub send_ready : Kernel → ℕ → State Sender → State Sender × Bool
  unfolding write_failed advance
  send_ready k t s = elim (k.io t s.own.buffer_.size) [
    | done rc ↦
        if rc == 0
        then (s, true)
        else let own = advance bytes rc s.own in (record s { own = own }, own.buffer_.size == 0)
    | fail errno ↦ write_failed errno s
  ]

  unfoldable pub send_some_ready : Kernel → ℕ → State Sender → State Sender × Bool
  unfolding write_failed advance
  send_some_ready k t s = elim (k.io t s.own.buffer_.size) [
    | done rc ↦ if rc == 0 then (s, true) else (record s { own = advance bytes rc s.own }, true)
    | fail errno ↦ write_failed errno s
  ]

  unfoldable pub send_suspend : Kernel → ℕ → State Sender → State Sender × Bool
  unfolding queue_send
  send_suspend k t s =
      let (ev, queued) = queue_send (k.ctl t) s.own.context_ s.own.socket_ s.event in
      (record s { event = ev }, queued)

  -- `resume` calls `await_ready`.
  abbrev pub send : Operation Sender
  send = record { await_ready = send_ready; suspend = send_suspend; resume = send_ready }

  abbrev pub send_some : Operation Sender
  send_some = record {
    await_ready = send_some_ready;
    suspend = send_suspend;
    resume = send_some_ready;
  }

-- `send::await_resume`
unfoldable pub send_result : State Sender → Result ℕ
unfolding or_throw
send_result s = or_throw s.event s.own.size_
