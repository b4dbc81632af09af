-- ===== src/Event.antt =====
-- include/ice/event.h and src/ice/event.cpp, on Linux: an operation that a coroutine waits for, and its
-- registration with epoll. What the system calls answer is a parameter.
pub mod Await
pub mod Registration
pub mod Stages
pub mod Ends
pub mod Kqueue
pub mod OneShot
use ice_test.Base.{ℕ, Bool, true, false, not, List, [], ◌∷◌, Option, none, some, ◌&&◌}
use ice_test.Base.Int.{ℤ, pos, ◌==ℤ◌, minus_one}
use ice_test.ErrorCode.{ErrorCode, of_integral}

-- What a call that transfers data answers: a count, or `errno`.
pub data Outcome : Type 0 where
  done : ℕ → Outcome
  fail : ℕ → Outcome

-- The answers of the kernel by time: of a call on the socket for a number of bytes, and of
-- `epoll_ctl`, where `none` is success and `some` an `errno`.
pub record Kernel : Type 0 where
  pub io : (time size : ℕ) → Outcome
  pub ctl : (time : ℕ) → Option ℕ

-- `EPOLLIN | EPOLLONESHOT` and `EPOLLOUT | EPOLLONESHOT`
pub data Interest : Type 0 where
  readable writable : Interest

-- A call of `epoll_ctl`: its operation, with the descriptors of the context and of the socket.
pub data Ctl : Type 0 where
  add : (context id : ℤ) → Interest → Ctl
  modify : (context id : ℤ) → Interest → Ctl
  delete : (context id : ℤ) → Ctl

-- `ice::event`, with the calls of `epoll_ctl` made so far, the last one first, and their success.
pub record Event : Type 0 where
  pub ec_ : ErrorCode
  pub native_context_ : ℤ
  pub native_id_ : ℤ
  pub calls : List (Ctl × Bool)

-- `event::event()`
abbrev pub new_event : Event
new_event = record {
  ec_ = record { value_ = 0 };
  native_context_ = minus_one;
  native_id_ = minus_one;
  calls = [];
}

-- The end of the three functions below: `errno` becomes the error of the event.
abbrev answered : Ctl → Option ℕ → Event → Event × Bool
answered c none ev = (record ev { calls = (c, true) ∷ ev.calls }, true)
answered c (some errno) ev =
    (record ev { ec_ = of_integral (pos errno); calls = (c, false) ∷ ev.calls }, false)

unfoldable pub queue_recv : Option ℕ → ℤ → ℤ → Event → Event × Bool
queue_recv answer context id ev =
    answered (add context id Interest.readable) answer
      (record ev { native_context_ = context; native_id_ = id })

unfoldable pub queue_send : Option ℕ → ℤ → ℤ → Event → Event × Bool
queue_send answer context id ev =
    answered (add context id Interest.writable) answer
      (record ev { native_context_ = context; native_id_ = id })

unfoldable pub queue_note : Option ℕ → ℤ → ℤ → Event → Event × Bool
queue_note answer context id ev = answered (modify context id Interest.writable) answer ev

-- The answer of `EPOLL_CTL_DEL` is not looked at.
unfoldable pub remove : Event → Event
remove ev = elim (not (ev.native_context_ ==ℤ minus_one) && not (ev.native_id_ ==ℤ minus_one)) [
  | true ↦ record ev {
    native_context_ = minus_one;
    native_id_ = minus_one;
    calls = (delete ev.native_context_ ev.native_id_, true) ∷ ev.calls;
  }
  | false ↦ ev
]
