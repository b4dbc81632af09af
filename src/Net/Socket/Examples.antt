-- ===== src/Net/Socket/Examples.antt =====
-- src/ice/net/socket.cpp: a call that two signals interrupt before it succeeds.
use ice_test.Base.{ℕ, zero, suc, ◌≡◌, ◌<◌, ◌≢◌, refl, arith, some, []}
use ice_test.Event.{Outcome, done, fail}
use ice_test.Net.Endpoint.{with_inet}
use ice_test.Net.Errno.{linux}
use ice_test.Net.Socket.{new_socket, bind}
use ice_test.Net.Socket.Rounds.{bound, bind_ends}

abbrev answers : ℕ → Outcome
answers zero = fail 4
answers (suc zero) = fail 4
answers (suc (suc i)) = done 0

interrupted_twice : (i : ℕ) → i < 2 → answers i ≡ fail 4
interrupted_twice zero lt = refl
interrupted_twice (suc zero) lt = refl
interrupted_twice (suc (suc i)) lt = absurd (omega arith)

succeeds : answers 2 ≢ fail 4
succeeds e = absurd (cc)

bind_after_two :
    bind linux answers 3 new_socket (with_inet 8080 [])
    ≡ some (bound (done 0) new_socket (with_inet 8080 []))
bind_after_two =
    bind_ends linux answers 2 3 interrupted_twice succeeds (omega arith) new_socket
      (with_inet 8080 [])
