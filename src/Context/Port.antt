-- ===== src/Context/Port.antt =====
-- src/ice/context.cpp, on Windows: `schedule`, through the completion port of the context.
use ice_test.Base.{
  ℕ, ◌≡◌, refl, Bool, true, false, not, ◌&&◌, Option, none, some, ◌<◌, ◌^◌, if◌then◌else◌,
}
use ice_test.Base.Int.{pos}
use ice_test.ErrorCode.{system_error, of_integral, to_bool}
use ice_test.Event.{new_event}
use ice_test.Event.Await.{State, Phase, resumed}
use ice_test.Net.Tcp.{Result, ok, throw, or_throw, failed}
use ice_test.Net.Tcp.Complete.{errno-to_bool}
use ice_test.Net.Windows.{Overlapping, await_all}
use ice_test.Net.Windows.Awaited.{started_once, completed_once}

-- `schedule`: whether it is ready from the start.
pub record PortScheduler : Type 0 where
  pub ready_ : Bool

abbrev pub new_port_scheduler : (queue is_current : Bool) → State PortScheduler
new_port_scheduler queue is_current = record {
  event = new_event;
  own = record { ready_ = not queue && is_current };
}

-- By the error of `PostQueuedCompletionStatus`.
unfoldable pub schedule_port : Option ℕ → Overlapping PortScheduler
schedule_port posted = record {
  suspend = λ t s. elim posted [ none ↦ (s, true) | some errno ↦ (failed errno s, false) ];
  resume = λ t s. (s, true);
}

-- `co_await` of it, with one completion at most.
unfoldable pub co_schedule : Option ℕ → State PortScheduler → State PortScheduler × Phase
unfolding schedule_port
co_schedule posted s = if s.own.ready_ then (s, resumed) else await_all (schedule_port posted) 1 s

unfoldable pub schedule_result : State PortScheduler → Result (Unit {0})
unfolding or_throw
schedule_result s = or_throw s.event tt

-- What it comes to when it is queued.
abbrev pub queued_result : Option ℕ → Result (Unit {0})
queued_result none = ok tt
queued_result (some errno) = throw (system_error (of_integral (pos errno)))

pub co_schedule_queued :
    (posted : Option ℕ)
    → ((errno : ℕ) → posted ≡ some errno → (0 < errno) × (errno < 2 ^ 28))
    → let r = co_schedule posted (new_port_scheduler true true) in
      (r.1 ≡ resumed) × (schedule_result r.0 ≡ queued_result posted)
unfolding co_schedule schedule_port schedule_result or_throw to_bool
co_schedule_queued none errors =
    let s = new_port_scheduler true true in
    rw (completed_once (schedule_port none) s s s refl refl) (refl, refl)
co_schedule_queued (some errno) errors =
    let s = new_port_scheduler true true in
    rw (started_once (schedule_port (some errno)) s (failed errno s) refl)
      (refl, rw (errno-to_bool errno (errors errno refl)) refl)
