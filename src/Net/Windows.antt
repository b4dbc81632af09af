-- ===== src/Net/Windows.antt =====
-- src/ice/net and include/ice/event.h, on Windows: operations that start an overlapped call and wait for
-- its completion.
pub mod Stream
pub mod Datagram
pub mod Acceptance
pub mod Awaited
pub mod Received
pub mod Accepted
pub mod Pieces
pub mod Creation
mod Examples
use ice_test.Base.{ℕ, zero, suc, ◌+◌, Bool, true, false, if◌then◌else◌}
use ice_test.Event.Await.{State, Phase, suspended, resumed}
use ice_test.Net.Tcp.Overlapped.{Started}

-- What `GetOverlappedResult` comes to: success, or an error, with what the count then holds.
pub data Completion : Type 0 where
  completes : (bytes : ℕ) → Completion
  breaks : (bytes errno : ℕ) → Completion

-- The answers of the system by time: of a call that is started for a number of bytes, and of
-- `GetOverlappedResult`.
pub record Calls : Type 0 where
  pub start : (time size : ℕ) → Started
  pub complete : (time : ℕ) → Completion

-- The functions that a class derived from `event` overrides; `await_ready` is false on Windows.
pub record Overlapping (S : Type 0) : Type 0 where
  pub suspend : ℕ → State S → State S × Bool
  pub resume : ℕ → State S → State S × Bool

module _ {S : Type 0} (op : Overlapping S) where
  -- `event::await_suspend`
  unfoldable pub await_suspend : ℕ → State S → State S × Phase
  await_suspend t s = let (s', waits) = op.suspend t s in (s', if waits then suspended else resumed)

  -- `event::await_resume`, which removes nothing on Windows.
  unfoldable pub await_resume : ℕ → State S → State S × Phase
  unfolding await_suspend
  await_resume t s =
      let (s', finished) = op.resume t s in
      if finished then (s', resumed) else await_suspend (t + 1) s'

  -- Up to `n` completions that the loop of the context takes from the port.
  unfoldable pub completions : ℕ → ℕ → State S × Phase → State S × Phase
  unfolding await_resume
  completions zero t r = r
  completions (suc n) t (s, resumed) = (s, resumed)
  completions (suc n) t (s, suspended) = completions n (t + 2) (await_resume t s)

  unfoldable pub await_all : ℕ → State S → State S × Phase
  unfolding await_suspend completions
  await_all n s = completions n 1 (await_suspend 0 s)
