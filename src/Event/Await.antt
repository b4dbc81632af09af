-- ===== src/Event/Await.antt =====
-- include/ice/event.h: how a coroutine waits for an event, and how the loop of a context goes on with it.
use ice_test.Base.{ℕ, zero, suc, ◌+◌, Bool, if◌then◌else◌}
use ice_test.Event.{Event, Kernel, remove}

-- An operation: its event, and the fields of its own.
pub record State (S : Type 0) : Type 0 where
  pub event : Event
  pub own : S

-- The functions that a class derived from `event` overrides. Each may make one call of the kernel, at
-- the given time.
pub record Operation (S : Type 0) : Type 0 where
  pub await_ready : Kernel → ℕ → State S → State S × Bool
  pub suspend : Kernel → ℕ → State S → State S × Bool
  pub resume : Kernel → ℕ → State S → State S × Bool

-- Whether the coroutine that awaits is suspended, or has been resumed.
pub data Phase : Type 0 where
  suspended resumed : Phase

module _ {S : Type 0} (op : Operation S) (k : Kernel) where
  -- `event::await_suspend`: the awaiter is stored, and goes on at once if `suspend` is false.
  unfoldable pub await_suspend : ℕ → State S → State S × Phase
  await_suspend t s =
      let (s', queued) = op.suspend k t s in (s', if queued then suspended else resumed)

  -- `co_await` of the operation.
  unfoldable pub co_await : ℕ → State S → State S × Phase
  unfolding await_suspend
  co_await t s =
      let (s', ready) = op.await_ready k t s in
      if ready then (s', resumed) else await_suspend (t + 1) s'

  -- `event::await_resume`, called by the loop of the context when the kernel reports the event.
  unfoldable pub await_resume : ℕ → State S → State S × Phase
  unfolding remove await_suspend
  await_resume t s =
      let (s', finished) = op.resume k t (record s { event = remove s.event }) in
      if finished then (s', resumed) else await_suspend (t + 1) s'

  -- Up to `n` reports of the kernel, while the coroutine is suspended.
  unfoldable pub reports : ℕ → ℕ → State S × Phase → State S × Phase
  reports zero t r = r
  reports (suc n) t (s, resumed) = (s, resumed)
  reports (suc n) t (s, suspended) = reports n (t + 2) (await_resume t s)

  unfoldable pub await_all : ℕ → State S → State S × Phase
  unfolding co_await reports
  await_all n s = reports n 2 (co_await 0 s)
