-- ===== src/Net/Windows/Awaited.antt =====
-- include/ice/event.h, on Windows: an operation that is started and completed, by what its functions give.
use ice_test.Base.{ℕ, ◌+◌, Bool, true, false, ◌≡◌, ap, ◌∙◌, if◌then◌else◌}
use ice_test.Event.Await.{State, suspended, resumed}
use ice_test.Net.Windows.{Overlapping, await_suspend, await_resume, completions, await_all}

module _ {S : Type 0} (op : Overlapping S) where
  pub await_suspend_lem :
      (t : ℕ) (s s' : State S) (waits : Bool)
      → op.suspend t s ≡ (s', waits)
      → await_suspend op t s ≡ (s', if waits then suspended else resumed)
  unfolding await_suspend
  await_suspend_lem t s s' waits started =
      ap (λ (r : State S × Bool). (r.0, if r.1 then suspended else resumed)) started

  pub await_resume_lem :
      (t : ℕ) (s s' : State S) (finished : Bool)
      → op.resume t s ≡ (s', finished)
      → await_resume op t s ≡ (if finished then (s', resumed) else await_suspend op (t + 1) s')
  unfolding await_resume
  await_resume_lem t s s' finished ended =
      ap (λ (r : State S × Bool). if r.1 then (r.0, resumed) else await_suspend op (t + 1) r.0)
        ended

  pub started_once :
      (s s' : State S) → op.suspend 0 s ≡ (s', false) → await_all op 1 s ≡ (s', resumed)
  unfolding await_all completions
  started_once s s' started = ap (completions op 1 1) (await_suspend_lem 0 s s' false started)

  pub completed_once :
      (s s' s'' : State S)
      → op.suspend 0 s ≡ (s', true)
      → op.resume 1 s' ≡ (s'', true)
      → await_all op 1 s ≡ (s'', resumed)
  unfolding await_all completions
  completed_once s s' s'' started ended =
      ap (completions op 1 1) (await_suspend_lem 0 s s' true started)
      ∙ await_resume_lem 1 s' s'' true ended
