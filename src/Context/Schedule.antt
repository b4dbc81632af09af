-- ===== src/Context/Schedule.antt =====
-- include/ice/context.h and src/ice/context.cpp, on Linux: `schedule`, by which a coroutine goes on in a
-- thread that runs the context.
use ice_test.Base.{
  ℕ, zero, suc, ◌≡◌, refl, Bool, true, false, not, ◌&&◌, List, [], ◌∷◌, Option, none, some,
}
use ice_test.Base.Int.{ℤ}
use ice_test.Event.{Kernel, Ctl, modify, Interest, new_event, queue_note, remove}
use ice_test.Event.Await.{
  State, Operation, resumed, await_all, co_await, reports, await_resume, await_suspend,
}

pub record Scheduler : Type 0 where
  pub context_ : ℤ
  pub handle_ : ℤ
  pub ready_ : Bool

-- `schedule::schedule(context, queue)`, where `is_current` is the context's answer.
abbrev pub new_scheduler : (context events : ℤ) → (queue is_current : Bool) → State Scheduler
new_scheduler context events queue is_current = record {
  event = new_event;
  own = record { context_ = context; handle_ = events; ready_ = not queue && is_current };
}

unfoldable pub schedule_suspend : Kernel → ℕ → State Scheduler → State Scheduler × Bool
unfolding queue_note
schedule_suspend k t s =
    let (ev, queued) = queue_note (k.ctl t) s.own.context_ s.own.handle_ s.event in
    (record s { event = ev }, queued)

abbrev pub schedule : Operation Scheduler
schedule = record {
  await_ready = λ k t s. (s, s.own.ready_);
  suspend = schedule_suspend;
  resume = λ k t s. (s, true);
}

-- The calls that one use of `schedule` makes.
abbrev pub calls_of : Option ℕ → ℤ → ℤ → Bool → List (Ctl × Bool)
calls_of answer context events true = []
calls_of none context events false = (modify context events Interest.writable, true) ∷ []
calls_of (some errno) context events false = (modify context events Interest.writable, false) ∷ []

module _ (k : Kernel) (context events : ℤ) where
  abbrev not_ready : State Scheduler
  not_ready = record {
    event = new_event;
    own = record { context_ = context; handle_ = events; ready_ = false };
  }

  queued :
      (n : ℕ) (a : Option ℕ)
      → k.ctl 1 ≡ a
      → let r = await_all schedule k (suc n) not_ready in
        (r.1 ≡ resumed) × (r.0.event.calls ≡ calls_of a context events false)
  unfolding await_all co_await reports await_resume await_suspend schedule_suspend queue_note remove
  queued zero none e = rw e (refl, refl)
  queued zero (some errno) e = rw e (refl, refl)
  queued (suc n) none e = rw e (refl, refl)
  queued (suc n) (some errno) e = rw e (refl, refl)

  -- The coroutine that awaits schedule goes on after at most one report of the kernel, whatever the
  -- kernel answers; it makes no call if it is in a thread of the context and did not ask to be
  -- queued, and otherwise exactly one call, which changes the interest in the event of the context.
  pub await_all-schedule :
      (n : ℕ) (queue is_current : Bool)
      → let r = await_all schedule k (suc n) (new_scheduler context events queue is_current) in
        (r.1 ≡ resumed)
        × (r.0.event.calls ≡ calls_of (k.ctl 1) context events (not queue && is_current))
  unfolding await_all co_await reports
  await_all-schedule n false true = (refl, refl)
  await_all-schedule n false false = queued n (k.ctl 1) refl
  await_all-schedule n true is_current = queued n (k.ctl 1) refl
