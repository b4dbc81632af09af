-- ===== src/Event/Ends.antt =====
-- include/ice/event.h: an operation that one report of the kernel finishes.
use ice_test.Base.{ℕ, zero, suc, ◌+◌, ◌≤◌, ◌≡◌, refl, true, arith}
use ice_test.Event.{Kernel, remove}
use ice_test.Event.Await.{
  State, Operation, Phase, suspended, resumed, co_await, await_resume, reports, await_all,
}

module _ {S : Type 0} (op : Operation S) (k : Kernel) (from : ℕ)
    (finishes : (t : ℕ) (s : State S) → from ≤ t → (op.resume k t s).1 ≡ true) where
  await_resume_ends : (t : ℕ) (s : State S) → from ≤ t → (await_resume op k t s).1 ≡ resumed
  unfolding await_resume
  await_resume_ends t s le =
      rw (finishes t (record s { event = remove s.event }) le, await_resume) refl

  reports_ends :
      (n t : ℕ) (s : State S) (p : Phase)
      → suc from ≤ n + t
      → 1 ≤ n
      → (reports op k n t (s, p)).1 ≡ resumed
  unfolding reports
  reports_ends zero t s p le some_left = absurd (omega arith)
  reports_ends (suc n) t s resumed le some_left = refl
  reports_ends (suc zero) t s suspended le some_left = await_resume_ends t s (omega arith)
  reports_ends (suc (suc n)) t s suspended le some_left =
      reports_ends (suc n) (t + 2) (await_resume op k t s).0 (await_resume op k t s).1 (omega arith)
        (omega arith)

  -- If from some time on resume of an operation always finishes, then the coroutine that awaits the
  -- operation goes on after at most that time plus one reports of the kernel.
  pub await_all_ends : (s : State S) → (await_all op k (from + 1) s).1 ≡ resumed
  unfolding await_all
  await_all_ends s =
      reports_ends (from + 1) 2 (co_await op k 0 s).0 (co_await op k 0 s).1 (omega arith)
        (omega arith)
