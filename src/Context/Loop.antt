-- ===== src/Context/Loop.antt =====
-- src/ice/context.cpp: the loop of `run` in one thread, by what each wait for events gives and what the
-- thread then reads of the word of the context.
use ice_test.Base.{
  ℕ, zero, suc, Bool, true, false, ◌&&◌, ◌==◌, List, [], ◌∷◌, ◌++◌, Option, none, some,
  if◌then◌else◌,
}
use ice_test.Base.Int.{pos}
use ice_test.ErrorCode.{ErrorCode, SystemError, system_error, of_integral, of_combined, to_bool}

-- What the wait for events gives: the events of a batch, `none` for that of the context, or `errno`.
pub data Wait : Type 0 where
  batch : List (Option ℕ) → Wait
  broken : ℕ → Wait

-- The local variables: `ec`, and the events that have been resumed.
pub record Running : Type 0 where
  pub ec : ErrorCode
  pub resumed : List ℕ

abbrev pub new_running : Running
new_running = record { ec = of_combined 0; resumed = [] }

-- The `for` loop over a batch: the events are resumed, and `interrupted` is the result.
unfoldable pub resume_all : List (Option ℕ) → List ℕ → List ℕ × Bool
resume_all [] resumed = (resumed, false)
resume_all (some ev ∷ entries) resumed = resume_all entries (resumed ++ (ev ∷ []))
resume_all (none ∷ entries) resumed =
    let (all, interrupted) = resume_all entries resumed in (all, true)

-- What a round of the loop comes to.
pub data Turn : Type 0 where
  continues : Running → Turn
  breaks : Running → Turn

-- What a failed wait means: the loop goes round again, ends with the error, or ends without one.
pub data Failure : Type 0 where
  retries fails closes : Failure

-- `epoll_wait` and `kevent`, by the number of `EINTR`.
unfoldable pub posix_failure : (eintr : ℕ) → ℕ → Failure
posix_failure eintr errno = if errno == eintr then retries else fails

-- `GetQueuedCompletionStatusEx`, by the number of `ERROR_ABANDONED_WAIT_0`.
unfoldable pub windows_failure : (abandoned : ℕ) → ℕ → Failure
windows_failure abandoned rc = if rc == abandoned then closes else fails

unfoldable pub turn : (ℕ → Failure) → Wait → (stop_requested : Bool) → Running → Turn
unfolding resume_all
turn failure (broken errno) stop_requested s = elim (failure errno) [
  | retries ↦ continues s
  | fails ↦ breaks (record s { ec = of_integral (pos errno) })
  | closes ↦ breaks s
]
turn failure (batch entries) stop_requested s =
    let (all, interrupted) = resume_all entries s.resumed in
    let s' = record s { resumed = all } in
    if interrupted && stop_requested then breaks s' else continues s'

-- The loop: `none` if the rounds given are not enough.
unfoldable pub run_loop : (ℕ → Failure) → (ℕ → Wait) → (ℕ → Bool) → ℕ → ℕ → Running → Option Running
unfolding turn
run_loop failure wait stop_requested i zero s = none
run_loop failure wait stop_requested i (suc fuel) s =
    let rest = run_loop failure wait stop_requested (suc i) fuel in
    elim (turn failure (wait i) (stop_requested i) s) [
      | continues s' ↦ rest s'
      | breaks s' ↦ some s'
    ]

-- The end of `run`: the exception, if any.
unfoldable pub run_result : Running → Option SystemError
unfolding to_bool
run_result s = if to_bool s.ec then some (system_error s.ec) else none
