-- ===== src/Net/Windows/Received.antt =====
-- src/ice/net/tcp/socket.cpp, on Windows: what `co_await` of `tcp::recv` and `tcp::connect` comes to.
use ice_test.Base.{ℕ, ◌%◌, ◌^◌, ◌<◌, ◌≡◌, refl, true, false, none}
use ice_test.Base.Int.{pos}
use ice_test.ErrorCode.{system_error, of_integral, to_bool}
use ice_test.Event.Await.{State, Phase, resumed}
use ice_test.Net.Tcp.{Result, ok, throw, or_throw, failed}
use ice_test.Net.Tcp.Complete.{errno-to_bool}
use ice_test.Net.Tcp.Overlapped.{Started, sent, pending, refused}
use ice_test.Net.Windows.{Completion, completes, breaks, Calls, Overlapping, await_all}
use ice_test.Net.Windows.Awaited.{started_once, completed_once}
use ice_test.Net.Windows.Stream.{
  new_receiver, received, recv, recv_suspend, recv_resume, recv_result, new_connector, connect,
  connect_suspend, connect_resume, connect_result,
}

-- An error number is positive, and below 2 ^ 28.
abbrev pub IsError : ℕ → Type 0
IsError errno = (0 < errno) × (errno < 2 ^ 28)

pub record IsWindows (w : Calls) : Type 0 where
  pub start_errno : (t size errno : ℕ) → w.start t size ≡ refused errno → IsError errno
  pub complete_errno : (t n errno : ℕ) → w.complete t ≡ breaks n errno → IsError errno

abbrev throws : {A : Type 0} → ℕ → Result A
throws errno = throw (system_error (of_integral (pos errno)))

-- What an operation comes to that is started once, by the two answers.
abbrev pub once : {A : Type 0} → (ℕ → A) → Started → Completion → Result A
once give (sent n) c = ok (give n)
once give (refused errno) c = throws errno
once give pending (completes n) = ok (give n)
once give pending (breaks n errno) = throws errno

or_throw-failed :
    {S A : Type 0} (errno : ℕ) (s : State S) (a : A)
    → IsError errno
    → or_throw (failed errno s).event a ≡ throws errno
unfolding or_throw
or_throw-failed errno s a small = rw (errno-to_bool errno small) refl

-- The coroutine has been resumed, and the operation gives the result.
Comes : {S A : Type 0} → (State S → Result A) → State S × Phase → Result A → Type 0
Comes result r answer = (r.1 ≡ resumed) × (result r.0 ≡ answer)

module _ {S A : Type 0} (op : Overlapping S) (result : State S → Result A) (s : State S) where
  Comes-at_once :
      (s' : State S) (answer : Result A)
      → op.suspend 0 s ≡ (s', false)
      → result s' ≡ answer
      → Comes result (await_all op 1 s) answer
  unfolding Comes
  Comes-at_once s' answer started same = rw (started_once op s s' started) (refl, same)

  Comes-later :
      (s' s'' : State S) (answer : Result A)
      → op.suspend 0 s ≡ (s', true)
      → op.resume 1 s' ≡ (s'', true)
      → result s'' ≡ answer
      → Comes result (await_all op 1 s) answer
  unfolding Comes
  Comes-later s' s'' answer started ended same =
      rw (completed_once op s s' s'' started ended) (refl, same)

module _ (w : Calls) (windows : IsWindows w) (size : ℕ) where
  recv_by_start :
      (r : Started) (c : Completion)
      → w.start 0 (size % 2 ^ 32) ≡ r
      → w.complete 1 ≡ c
      → Comes recv_result (await_all (recv w) 1 (new_receiver size)) (once (λ n. n) r c)
  unfolding recv_suspend recv_resume recv_result or_throw to_bool
  recv_by_start (sent n) c q q' =
      Comes-at_once (recv w) recv_result (new_receiver size) (received n (new_receiver size)) (ok n)
        (rw (q, recv_suspend) refl) refl
  recv_by_start (refused errno) c q q' =
      Comes-at_once (recv w) recv_result (new_receiver size) (failed errno (new_receiver size))
        (throws errno) (rw (q, recv_suspend) refl)
        (or_throw-failed errno (new_receiver size) (size % 2 ^ 32)
          (windows.start_errno 0 (size % 2 ^ 32) errno q))
  recv_by_start pending (completes n) q q' =
      Comes-later (recv w) recv_result (new_receiver size) (new_receiver size)
        (received n (new_receiver size)) (ok n) (rw (q, recv_suspend) refl)
        (rw (q', recv_resume) refl) refl
  recv_by_start pending (breaks n errno) q q' =
      Comes-later (recv w) recv_result (new_receiver size) (new_receiver size)
        (received n (failed errno (new_receiver size))) (throws errno) (rw (q, recv_suspend) refl)
        (rw (q', recv_resume) refl)
        (or_throw-failed errno (new_receiver size) n (windows.complete_errno 1 n errno q'))

  -- On Windows the coroutine that awaits a recv on a stream socket goes on after at most one
  -- completion, and the recv returns the number of bytes that the call of WSARecv took at once or
  -- that its completion has, or throws the error of the one or of the other. The system gives
  -- errors that are positive and below 2 ^ 28.
  pub recv-once :
      ((await_all (recv w) 1 (new_receiver size)).1 ≡ resumed)
      × (recv_result (await_all (recv w) 1 (new_receiver size)).0
          ≡ once (λ n. n) (w.start 0 (size % 2 ^ 32)) (w.complete 1))
  unfolding Comes
  recv-once = recv_by_start (w.start 0 (size % 2 ^ 32)) (w.complete 1) refl refl

module _ (w : Calls) (windows : IsWindows w) where
  -- The socket is bound, and `ConnectEx` has been loaded.
  connect_by_start :
      (r : Started) (c : Completion)
      → w.start 0 0 ≡ r
      → w.complete 1 ≡ c
      → Comes connect_result
          (await_all (connect w none) 1 (new_connector none))
          (once (λ n. tt) r c)
  unfolding connect_suspend connect_resume connect_result or_throw new_connector to_bool
  connect_by_start (sent n) c q q' =
      Comes-at_once (connect w none) connect_result (new_connector none) (new_connector none)
        (ok tt) (rw (q, connect_suspend) refl) refl
  connect_by_start (refused errno) c q q' =
      Comes-at_once (connect w none) connect_result (new_connector none)
        (failed errno (new_connector none)) (throws errno) (rw (q, connect_suspend) refl)
        (or_throw-failed errno (new_connector none) tt (windows.start_errno 0 0 errno q))
  connect_by_start pending (completes n) q q' =
      Comes-later (connect w none) connect_result (new_connector none) (new_connector none)
        (new_connector none) (ok tt) (rw (q, connect_suspend) refl) (rw (q', connect_resume) refl)
        refl
  connect_by_start pending (breaks n errno) q q' =
      Comes-later (connect w none) connect_result (new_connector none) (new_connector none)
        (failed errno (new_connector none)) (throws errno) (rw (q, connect_suspend) refl)
        (rw (q', connect_resume) refl)
        (or_throw-failed errno (new_connector none) tt (windows.complete_errno 1 n errno q'))

  pub connect-once :
      let r = await_all (connect w none) 1 (new_connector none) in
      (r.1 ≡ resumed) × (connect_result r.0 ≡ once (λ n. tt) (w.start 0 0) (w.complete 1))
  unfolding Comes
  connect-once = connect_by_start (w.start 0 0) (w.complete 1) refl refl
