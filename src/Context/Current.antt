-- ===== src/Context/Current.antt =====
-- include/ice/context.h: `schedule` asks whether its thread is in `run`, through the key of the context.
use ice_test.Base.{ℕ, suc, ◌≡◌, Bool, true, not, ◌&&◌}
use ice_test.Base.Int.{ℤ}
use ice_test.Event.{Kernel}
use ice_test.Event.Await.{resumed, await_all}
use ice_test.Context.Schedule.{schedule, new_scheduler, calls_of, await_all-schedule}
use ice_test.Utility.{Keys, IsKeys, ThreadLocalStorage, is_current}
use ice_test.Utility.Threads.{Threads, Reach, key_of, known, is_current_iff}

-- In every state that any number of threads can bring any number of contexts into, each with a key
-- of its own, the coroutine that awaits schedule of one of them goes on after at most one report of
-- the kernel, whatever the kernel answers; it makes no call if its thread is in run of that context
-- and it did not ask to be queued, and otherwise exactly one call, which changes the interest in
-- the event of the context. A thread does not call run of a context within that run, and the keys
-- of the system are as IsKeys says.
pub schedule_stays :
    (keys : Keys)
    → IsKeys keys
    → (s : Threads keys) → Reach keys s
    → (thread : ℕ) (c : ThreadLocalStorage) → known keys (key_of keys c) s.contexts ≡ true
    → (k : Kernel) (context events : ℤ) (n : ℕ) (queue : Bool)
    → let r =
        await_all schedule k
          (suc n)
          (new_scheduler context events queue (is_current keys thread c s.table)) in
      (r.1 ≡ resumed)
      × (r.0.event.calls
          ≡ calls_of (k.ctl 1) context events (not queue && s.inside thread (key_of keys c)))
schedule_stays keys laws s r thread c kn k context events n queue =
    rw (is_current_iff keys laws s r thread c kn)
      (await_all-schedule k context events n queue (s.inside thread (key_of keys c)))
