-- ===== src/Server/Startup.antt =====
-- src/main.cpp and include/ice/async.h: the coroutine `server`, which accepts clients, the task that it is,
-- and `main`.
use ice_test.Base.{◌-◌, ◌^◌, ℕ, zero, suc, List, [], ◌∷◌, ◌++◌, Option, none, some}
use ice_test.Base.Int.{ℤ}
use ice_test.Context.{Shared, new_context, interrupt, count_in, stop_requested, request_stop}
use ice_test.Context.Create.{Created, made, thrown}
use ice_test.Context.Loop.{Wait, new_running, posix_failure, run_loop, run_result}
use ice_test.ErrorCode.{SystemError}

-- What `co_await socket.accept()` gives.
pub data Accepted : Type 0 where
  client : ℤ → Accepted
  refuses : SystemError → Accepted

-- What the calls in `server` give: the constructors of the endpoint and of the socket, `bind`, `listen` and
-- `accept`, where `some` is the exception thrown. The error of `set` is not looked at.
pub record Setup : Type 0 where
  pub endpoint : Option SystemError
  pub socket : Option SystemError
  pub bind : Option SystemError
  pub listen : Option SystemError
  pub accept : ℕ → Accepted

-- The calls on the socket, and of `handle`.
pub data Action : Type 0 where
  sets_reuse_address binds listens : Action
  handles : ℤ → Action

-- The coroutine waits for a client, or has ended by an exception.
pub data Serving : Type 0 where
  accepting : List Action → Serving
  unwound : List Action → SystemError → Serving

-- The `while` loop, for a number of calls of `accept` that are answered.
unfoldable pub accept_loop : (ℕ → Accepted) → ℕ → ℕ → List Action → Serving
accept_loop accept i zero actions = accepting actions
accept_loop accept i (suc answered) actions = elim (accept i) [
  | client fd ↦ accept_loop accept (suc i) answered (actions ++ (handles fd ∷ []))
  | refuses error ↦ unwound actions error
]

-- A call that may throw, and what follows it.
abbrev pub then_does : Option SystemError → List Action → Serving → Serving
then_does none actions rest = rest
then_does (some error) actions rest = unwound actions error

unfoldable pub server : Setup → ℕ → Serving
unfolding accept_loop
server a answered = then_does a.endpoint [] (
    then_does a.socket [] (
      then_does a.bind (sets_reuse_address ∷ []) (
        then_does a.listen (sets_reuse_address ∷ binds ∷ [])
          (accept_loop a.accept 0 answered (sets_reuse_address ∷ binds ∷ listens ∷ [])))))

-- The guard `se`: the context is stopped when the coroutine is unwound; `epoll_ctl` answers the call of
-- `interrupt` in `stop`.
unfoldable pub on_scope_exit : Option ℕ → Serving → Shared → Shared
unfolding interrupt request_stop
on_scope_exit answer (accepting actions) m = m
on_scope_exit answer (unwound actions error) m = interrupt answer (request_stop m).0

-- `exception_handler`, to which `promise_type::unhandled_exception` leaves an exception: what it
-- returns, an `int` as its bit pattern, after it has printed the exception.
pub data Exception : Type 0 where
  system : SystemError → Exception
  standard : Exception
  unhandled : Exception

unfoldable pub exception_handler : Exception → ℕ
exception_handler (system error) = error.code
exception_handler standard = 2 ^ 32 - 1
exception_handler unhandled = 2 ^ 32 - 1

-- `run` in `main`, after the call of `server`: the exception, if any, and `none` if the rounds given are
-- not enough.
unfoldable pub run_served :
    (answer : Option ℕ) (eintr : ℕ) → (ℕ → Wait) → ℕ → Serving → Option (Option SystemError)
unfolding on_scope_exit stop_requested count_in run_loop posix_failure run_result
run_served answer eintr wait rounds served =
    let m = count_in (on_scope_exit answer served new_context) in
    elim (run_loop (posix_failure eintr) wait (λ i. stop_requested m) 0 rounds new_running) [
      | none ↦ none
      | some s ↦ some (run_result s)
    ]

-- `main`, by what the constructor of the context comes to: the task is started, and what it throws
-- goes to the handler and not to `main`; then the context runs. The result is the exception that the
-- `catch` of `main` prints, if any.
unfoldable pub main :
    Created
    → (answer : Option ℕ) (eintr : ℕ) → (ℕ → Wait)
    → ℕ
    → Setup
    → ℕ
    → Option (Option SystemError)
unfolding server run_served
main (thrown error closed) answer eintr wait rounds a answered = some (some error)
main (made handle_ events_ closed) answer eintr wait rounds a answered =
    run_served answer eintr wait rounds (server a answered)
