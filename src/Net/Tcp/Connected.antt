-- ===== src/Net/Tcp/Connected.antt =====
-- src/ice/net/tcp/socket.cpp, `tcp::connect`: an error of the system call reaches the coroutine, though
-- `await_ready` tells the coroutine to suspend.
use ice_test.Base.{
  not, ◌&&◌, ==_iff, ℕ, ◌<◌, ◌^◌, ◌≡◌, refl, ◌==◌, true, false, none, some, if◌then◌else◌, arith,
  Bool-cases, Option-cases, inl, inr,
}
use ice_test.Base.Int.{◌==ℤ◌, minus_one}
use ice_test.ErrorCode.{to_bool}
use ice_test.Event.{Event, Kernel, Outcome, done, fail, queue_send, remove}
use ice_test.Event.Await.{State, await_all, co_await}
use ice_test.Event.Stages.{Stage, Stages, runs, waits, ends, await_all_stage}
use ice_test.Net.Errno.{Errno, IsPosix}
use ice_test.Net.Socket.Rounds.{rounds_end}
use ice_test.Net.Tcp.{failed}
use ice_test.Net.Tcp.Complete.{errno-to_bool}
use ice_test.Net.Tcp.Connect.{
  Connector, connect, connect_ready, connect_round, connect_suspend, connect_resume, resumed_with,
}

-- The operation has an error; when it starts, it is about to store one.
abbrev HasError : Stage → State Connector → Type 0
HasError runs s = to_bool s.event.ec_ ≡ true
HasError waits s = to_bool s.event.ec_ ≡ true
HasError ends s = to_bool s.event.ec_ ≡ true

-- The range of the errors that `SO_ERROR` reports.
abbrev pub IsRange : Outcome → Type 0
IsRange (done code) = code < 2 ^ 28
IsRange (fail errno) = (0 < errno) × (errno < 2 ^ 28)

module _ (k : Kernel) (posix : IsPosix k) (so_error : ℕ → Outcome)
    (range : (t : ℕ) → IsRange (so_error t)) where
  resumed_with-HasError :
      (a : Outcome) (s : State Connector)
      → IsRange a
      → to_bool s.event.ec_ ≡ true
      → to_bool (resumed_with a s).event.ec_ ≡ true
  resumed_with-HasError (done code) s r h = elim (Bool-cases (code == 0)) [
    | inl nothing ↦ rw nothing h
    | inr error ↦ rw error (errno-to_bool code (ground (arith, error), r))
  ]
  resumed_with-HasError (fail errno) s r h = errno-to_bool errno r

  connect_suspend-HasError :
      (t : ℕ) (s : State Connector)
      → to_bool s.event.ec_ ≡ true
      → HasError (if (connect_suspend k t s).1 then waits else ends) (connect_suspend k t s).0
  unfolding connect_suspend queue_send
  connect_suspend-HasError t s h = elim (Option-cases (k.ctl t)) [
    | inl queued ↦ rw (queued, connect_suspend, queue_send) h
    | inr (errno, q) ↦
        rw (q, connect_suspend, queue_send) (errno-to_bool errno (posix.ctl_errno t errno q))
  ]

  remove_keeps : (ev : Event) → (remove ev).ec_ ≡ ev.ec_
  unfolding remove
  remove_keeps ev =
      elim (Bool-cases
        (not (ev.native_context_ ==ℤ minus_one) && not (ev.native_id_ ==ℤ minus_one))) [
          | inl registered ↦ rw (registered, remove) refl
          | inr not_there ↦ rw (not_there, remove) refl
        ]

  connect_stages :
      (errno : ℕ)
      → (0 < errno) × (errno < 2 ^ 28)
      → Stages (connect so_error (false, some errno)) k HasError
  unfolding connect_resume
  connect_stages errno r = record {
    ready_stage = λ t s h. errno-to_bool errno r;
    suspend_stage = connect_suspend-HasError;
    wake_stage = λ s h. rw (remove_keeps s.event) h;
    resume_stage = resume_stage;
  }
    where
      resume_stage :
          (t : ℕ) (s : State Connector)
          → to_bool s.event.ec_ ≡ true
          → HasError
              (if (connect_resume so_error k t s).1 then ends else runs)
              (connect_resume so_error k t s).0
      resume_stage t s h = resumed_with-HasError (so_error t) s (range t) h

  error_of_stage : (st : Stage) (s : State Connector) → HasError st s → to_bool s.event.ec_ ≡ true
  error_of_stage runs s h = h
  error_of_stage waits s h = h
  error_of_stage ends s h = h

  starts_failed :
      (errno n : ℕ) (s : State Connector)
      → await_all (connect so_error (false, some errno)) k n s
        ≡ await_all (connect so_error (false, some errno)) k n (failed errno s)
  unfolding await_all co_await
  starts_failed errno n s = refl

  module _ (e : Errno) (answer : ℕ → Outcome) (j fuel errno : ℕ)
      (interrupted : (i : ℕ) → i < j → answer i ≡ fail e.eintr) (last : answer j ≡ fail errno)
      (enough : j < fuel) (not_begun : (errno == e.einprogress) ≡ false)
      (not_interrupted : (errno == e.eintr) ≡ false) (apart : (e.eintr == e.einprogress) ≡ false)
      (valid_errno : (0 < errno) × (errno < 2 ^ 28)) where
    again_at : (i : ℕ) → i < j → connect_round e (answer i) ≡ none
    again_at i lt = rw (interrupted i lt, apart) (rw ((==_iff e.eintr e.eintr).1 refl) refl)

    ends_at : connect_round e (answer j) ≡ some (false, some errno)
    ends_at = rw (last, not_begun, not_interrupted) refl

    -- If ::connect is interrupted j times and then fails for good, more than j rounds are enough
    -- for await_ready, which stores the error and tells the coroutine to suspend; the operation
    -- still has an error after any number of reports, whatever getsockopt answers within range. The
    -- kernel follows POSIX, the error is neither EINPROGRESS nor EINTR, and those two differ.
    pub connect_keeps_error :
        (n : ℕ) (s : State Connector)
        → (connect_ready e answer fuel s ≡ some (failed errno s, false))
          × (to_bool (await_all (connect so_error (false, some errno)) k n s).0.event.ec_ ≡ true)
    unfolding connect_ready
    connect_keeps_error n s = (
      rw
          (
            rounds_end (connect_round e) answer j (false, some errno) again_at ends_at fuel enough,
            connect_ready,
          )
          refl,
      rw (starts_failed errno n s) (
          error_of_stage _ _ (
            await_all_stage (connect so_error (false, some errno)) k HasError
              (connect_stages errno valid_errno) n (failed errno s)
              (errno-to_bool errno valid_errno))),
    )
