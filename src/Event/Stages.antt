-- ===== src/Event/Stages.antt =====
-- include/ice/event.h: an argument about an operation that is awaited, from what its functions do.
use ice_test.Base.{ℕ, zero, suc, ◌+◌, Bool, true, false, if◌then◌else◌, Bool-cases, inl, inr, subst}
use ice_test.Event.{Kernel, remove}
use ice_test.Event.Await.{
  State, Operation, Phase, suspended, resumed, await_suspend, co_await, await_resume, reports,
  await_all,
}

-- The operation runs, the coroutine is suspended, the coroutine goes on.
pub data Stage : Type 0 where
  runs waits ends : Stage

abbrev pub stage : Phase → Stage
stage suspended = waits
stage resumed = ends

-- What holds at each stage, by what each function does.
pub record Stages {S : Type 0} (op : Operation S) (k : Kernel) (P : Stage → State S → Type 0)
    : Type 0 where
  pub ready_stage :
      (t : ℕ) (s : State S)
      → P runs s
      → P (if (op.await_ready k t s).1 then ends else runs) (op.await_ready k t s).0
  pub suspend_stage :
      (t : ℕ) (s : State S)
      → P runs s
      → P (if (op.suspend k t s).1 then waits else ends) (op.suspend k t s).0
  pub wake_stage : (s : State S) → P waits s → P runs (record s { event = remove s.event })
  pub resume_stage :
      (t : ℕ) (s : State S)
      → P runs s
      → P (if (op.resume k t s).1 then ends else runs) (op.resume k t s).0

module _ {S : Type 0} (op : Operation S) (k : Kernel) (P : Stage → State S → Type 0)
    (g : Stages op k P) where
  stage_of_queued :
      (b : Bool) (s : State S)
      → P (if b then waits else ends) s
      → P (stage (if b then suspended else resumed)) s
  stage_of_queued true s h = h
  stage_of_queued false s h = h

  await_suspend_stage :
      (t : ℕ) (s : State S)
      → P runs s
      → P (stage (await_suspend op k t s).1) (await_suspend op k t s).0
  unfolding await_suspend
  await_suspend_stage t s h = stage_of_queued (op.suspend k t s).1 _ (g.suspend_stage t s h)

  co_await_stage :
      (t : ℕ) (s : State S) → P runs s → P (stage (co_await op k t s).1) (co_await op k t s).0
  unfolding co_await
  co_await_stage t s h = elim (Bool-cases (op.await_ready k t s).1) [
    | inl ready ↦
        rw (ready, co_await)
          (subst (λ b. P (if b then ends else runs) (op.await_ready k t s).0) ready
            (g.ready_stage t s h))
    | inr not_yet ↦
        rw (not_yet, co_await)
          (await_suspend_stage (t + 1) _ (
            subst (λ b. P (if b then ends else runs) (op.await_ready k t s).0) not_yet
              (g.ready_stage t s h)))
  ]

  pub await_resume_stage :
      (t : ℕ) (s : State S)
      → P waits s
      → P (stage (await_resume op k t s).1) (await_resume op k t s).0
  unfolding await_resume
  await_resume_stage t s h =
      let s' : State S = record s { event = remove s.event } in
      let h' = g.resume_stage t s' (g.wake_stage s h) in
      elim (Bool-cases (op.resume k t s').1) [
        | inl finished ↦
            rw (finished, await_resume)
              (subst (λ b. P (if b then ends else runs) (op.resume k t s').0) finished h')
        | inr again ↦
            rw (again, await_resume)
              (await_suspend_stage (t + 1) _
                (subst (λ b. P (if b then ends else runs) (op.resume k t s').0) again h'))
      ]

  reports_stage :
      (n t : ℕ) (s : State S) (p : Phase)
      → P (stage p) s
      → P (stage (reports op k n t (s, p)).1) (reports op k n t (s, p)).0
  unfolding reports
  reports_stage zero t s p h = h
  reports_stage (suc n) t s resumed h = h
  reports_stage (suc n) t s suspended h =
      reports_stage n (t + 2) (await_resume op k t s).0 (await_resume op k t s).1
        (await_resume_stage t s h)

  pub await_all_stage :
      (n : ℕ) (s : State S) → P runs s → P (stage (await_all op k n s).1) (await_all op k n s).0
  unfolding await_all
  await_all_stage n s h =
      reports_stage n 2 (co_await op k 0 s).0 (co_await op k 0 s).1 (co_await_stage 0 s h)
