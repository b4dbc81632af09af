-- ===== src/Context.antt =====
-- include/ice/context.h and src/ice/context.cpp, on Linux: the atomic word of a context, and the event
-- that wakes up a thread in `run`.
pub mod System
pub mod Stop
pub mod Descent
pub mod Drain
pub mod Lost
pub mod Schedule
pub mod Create
pub mod Loop
pub mod Looped
pub mod Port
pub mod Packets
pub mod Emptied
pub mod Current
mod Examples
mod CurrentExamples
use Prim.Native.Nat.{bit_and, bit_or}
use ice_test.Base.{ℕ, ◌+◌, ◌-◌, ◌/◌, ◌%◌, ◌^◌, Bool, true, false, not, ◌==◌, Option, none, some}

abbrev pub stop_requested_flag : ℕ
stop_requested_flag = 1

abbrev pub thread_count_increment : ℕ
thread_count_increment = 2

-- What the event of the context is to report, to one call of `epoll_wait` since it is registered with
-- `EPOLLONESHOT`: nothing, an interrupt, or the `schedule` of a coroutine.
pub data Pending : Type 0 where
  idle : Pending
  interrupting : Pending
  scheduling : (coroutine : ℕ) → Pending

abbrev pub is_interrupting : Pending → Bool
is_interrupting interrupting = true
is_interrupting idle = false
is_interrupting (scheduling coroutine) = false

-- The word `state_`, of 32 bits, and the registration of the event, of which there is one.
pub record Shared : Type 0 where
  pub state_ : ℕ
  pub pending : Pending

-- An interrupt waits to be reported.
abbrev pub armed : Shared → Bool
armed m = is_interrupting m.pending

-- `context::context()`: the event is registered with no interest yet.
unfoldable pub new_context : Shared
new_context = record { state_ = 0; pending = idle }

-- `interrupt`, by the answer of `epoll_ctl`, which is not looked at: a failure changes nothing.
unfoldable pub interrupt : Option ℕ → Shared → Shared
interrupt none m = record m { pending = interrupting }
interrupt (some errno) m = m

-- `schedule::suspend` of a coroutine, by the answer of `epoll_ctl`: the registration is replaced.
unfoldable pub queue_schedule : Option ℕ → (coroutine : ℕ) → Shared → Shared
queue_schedule none coroutine m = record m { pending = scheduling coroutine }
queue_schedule (some errno) coroutine m = m

-- `run`, before and after its loop.
unfoldable pub count_in : Shared → Shared
count_in m = record m { state_ = (m.state_ + thread_count_increment) % 2 ^ 32 }

unfoldable pub count_out : Shared → Shared
count_out m = record m { state_ = (m.state_ + 2 ^ 32 - thread_count_increment) % 2 ^ 32 }

-- The test after a batch that had the event in it.
unfoldable pub stop_requested : Shared → Bool
stop_requested m = not (bit_and m.state_ stop_requested_flag == 0)

-- `stop`, up to its call of `interrupt`: what it is going to return is the second part.
unfoldable pub request_stop : Shared → Shared × Bool
request_stop m = (
  record m { state_ = bit_or m.state_ stop_requested_flag },
  m.state_ / thread_count_increment == 0,
)

-- What the destructor asserts.
unfoldable pub destroy_context_assert : Shared → Bool
destroy_context_assert m = m.state_ / thread_count_increment == 0
