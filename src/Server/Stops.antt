-- ===== src/Server/Stops.antt =====
-- src/main.cpp: when `main` returns.
use ice_test.Base.{
  ℕ, zero, suc, ◌≡◌, refl, ap, ◌∙◌, Bool, true, false, not, ◌&&◌, List, [], ◌∷◌, Option, none, some,
  ◌==◌, arith,
}
use ice_test.ErrorCode.{SystemError, of_combined, to_bool}
use ice_test.Base.Int.{ℤ}
use ice_test.Handle.{Handle}
use ice_test.Context.Create.{made}
use ice_test.Context.{armed, interrupt, request_stop, new_context}
use ice_test.Context.Loop.{
  Wait, batch, broken, Running, new_running, posix_failure, run_loop, run_result,
}
use ice_test.Context.Looped.{goes_on, run_loop_lem, after, wakes}
use ice_test.Server.Startup.{
  Setup, Action, accepting, unwound, server, on_scope_exit, run_served, main,
}

-- Whether `epoll_ctl` has not failed.
abbrev pub succeeded : Option ℕ → Bool
succeeded none = true
succeeded (some errno) = false

-- The system calls of the loop fail with `EINTR` alone.
abbrev pub IsInterrupted : ℕ → Wait → Type 0
IsInterrupted eintr (batch entries) = Unit {0}
IsInterrupted eintr (broken errno) = (errno == eintr) ≡ true

not_stopping : (entries : List (Option ℕ)) → not (wakes entries && false) ≡ true
not_stopping entries = ground arith

module _ (answer : Option ℕ) (eintr : ℕ) (wait : ℕ → Wait) where
  goes_on_unstopped :
      (w : Wait) → IsInterrupted eintr w → goes_on (posix_failure eintr) w false ≡ true
  unfolding posix_failure
  goes_on_unstopped (batch entries) h = not_stopping entries
  goes_on_unstopped (broken errno) h = rw (h, goes_on, posix_failure) refl

  run_loop_unstopped :
      (rounds i : ℕ) (s : Running)
      → ((k : ℕ) → IsInterrupted eintr (wait k))
      → run_loop (posix_failure eintr) wait (λ k. false) i rounds s ≡ none
  unfolding run_loop after
  run_loop_unstopped zero i s h = refl
  run_loop_unstopped (suc rounds) i s h =
      run_loop_lem (posix_failure eintr) wait (λ k. false) i rounds s
      ∙ rw (goes_on_unstopped (wait i) (h i))
          (run_loop_unstopped rounds (suc i) (record s { resumed = _ }) h)

  stopped_loop :
      (rounds : ℕ)
      → wait 0 ≡ batch (none ∷ [])
      → run_loop (posix_failure eintr) wait (λ k. true) 0 (suc rounds) new_running
        ≡ some new_running
  unfolding after
  stopped_loop rounds woken =
      run_loop_lem (posix_failure eintr) wait (λ k. true) 0 rounds new_running ∙ rw (woken) refl

  stopped_run :
      (a : Option ℕ) (rounds : ℕ) (actions : List Action) (error : SystemError)
      → wait 0 ≡ batch (none ∷ [])
      → run_served a eintr wait (suc rounds) (unwound actions error) ≡ some none
  unfolding run_served run_result of_combined to_bool new_context
  stopped_run none rounds actions error woken =
      ap (λ (r : Option Running). elim r [ none ↦ none | some s ↦ some (run_result s) ])
        (stopped_loop rounds woken)
  stopped_run (some errno) rounds actions error woken =
      ap (λ (r : Option Running). elim r [ none ↦ none | some s ↦ some (run_result s) ])
        (stopped_loop rounds woken)

  armed_after : (a : Option ℕ) → armed (interrupt a (request_stop new_context).0) ≡ succeeded a
  unfolding interrupt request_stop new_context
  armed_after none = refl
  armed_after (some errno) = refl

  -- If the context has been made and server throws before it waits for a client, then an interrupt
  -- waits to be reported exactly if epoll_ctl did not fail, and if the first call of epoll_wait
  -- reports it, main returns after the first round of run and prints nothing itself: the exception
  -- has gone to the handler of the task.
  pub main_stops :
      (handle_ events_ : Handle ℤ) (closed : List ℤ) (rounds answered : ℕ) (a : Setup)
      (actions : List Action) (error : SystemError)
      → server a answered ≡ unwound actions error
      → wait 0 ≡ batch (none ∷ [])
      → (armed (on_scope_exit answer (server a answered) new_context) ≡ succeeded answer)
        × (main (made handle_ events_ closed) answer eintr wait (suc rounds) a answered ≡ some none)
  unfolding main on_scope_exit
  main_stops handle_ events_ closed rounds answered a actions error ended woken = (
    ap (λ r. armed (on_scope_exit answer r new_context)) ended ∙ armed_after answer,
    ap (run_served answer eintr wait (suc rounds)) ended
        ∙ stopped_run answer rounds actions error woken,
  )

  pub main_serves :
      (handle_ events_ : Handle ℤ) (closed : List ℤ) (rounds answered : ℕ) (a : Setup)
      (actions : List Action)
      → server a answered ≡ accepting actions
      → ((k : ℕ) → IsInterrupted eintr (wait k))
      → main (made handle_ events_ closed) answer eintr wait rounds a answered ≡ none
  unfolding main run_served new_context
  main_serves handle_ events_ closed rounds answered a actions waiting h =
      ap (run_served answer eintr wait rounds) waiting
      ∙ ap (λ (r : Option Running). elim r [ none ↦ none | some s ↦ some (run_result s) ])
          (run_loop_unstopped rounds 0 new_running h)
