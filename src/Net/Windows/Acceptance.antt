-- ===== src/Net/Windows/Acceptance.antt =====
-- src/ice/net/tcp/socket.cpp, on Windows: `tcp::accept`.
use ice_test.Base.{ℕ, zero, suc, ◌+◌, ◌==◌, Bool, true, false, Option, none, some, if◌then◌else◌}
use ice_test.Event.{new_event}
use ice_test.Event.Await.{State, Phase, suspended, resumed}
use ice_test.Net.Endpoint.{
  unspecified, inet, inet6, Storage, Endpoint, new_endpoint, sockaddr_in_size, sockaddr_in6_size,
}
use ice_test.Net.Socket.{rounds}
use ice_test.Net.Tcp.{Result, or_throw, failed}
use ice_test.Net.Tcp.Overlapped.{Started, sent, pending, refused}
use ice_test.Net.Windows.{Completion, completes, breaks}

-- `tcp::accept`: the endpoint of the socket that is made beforehand for the client.
pub record Acceptor : Type 0 where
  pub client_endpoint : Endpoint

abbrev pub new_acceptor : State Acceptor
new_acceptor = record { event = new_event; own = record { client_endpoint = new_endpoint } }

-- The body of the loop of `suspend`: what it returns, and the error it stores before. The number of
-- `WSAECONNRESET` is a parameter.
abbrev pub accept_round : ℕ → Started → Option (Bool × Option ℕ)
accept_round wsaeconnreset (sent n) = some (false, none)
accept_round wsaeconnreset pending = some (true, none)
accept_round wsaeconnreset (refused rc) =
    if rc == wsaeconnreset then none else some (false, some rc)

abbrev pub stored : Option ℕ → State Acceptor → State Acceptor
stored none s = s
stored (some rc) s = failed rc s

-- `suspend`, by the answers of `AcceptEx`: `none` if the rounds given are not enough.
unfoldable pub accept_suspend :
    ℕ → (ℕ → Started) → ℕ → State Acceptor → Option (State Acceptor × Bool)
accept_suspend wsaeconnreset answer fuel s =
    elim (rounds (accept_round wsaeconnreset) answer 0 fuel) [
      | none ↦ none
      | some (waits, error) ↦ some (stored error s, waits)
    ]

-- The address in the second half of the buffer goes to the client.
unfoldable pub fill_endpoint : Storage → Endpoint → Endpoint
fill_endpoint addr e = elim addr.sin_family [
  | inet ↦ record {
    storage_ = record e.storage_ {
      sin_family = addr.sin_family;
      sin_port = addr.sin_port;
      sin_addr = addr.sin_addr;
    };
    size_ = sockaddr_in_size;
  }
  | inet6 ↦ record {
    storage_ = record e.storage_ {
      sin_family = addr.sin_family;
      sin_port = addr.sin_port;
      sin6_addr = addr.sin6_addr;
    };
    size_ = sockaddr_in6_size;
  }
  | unspecified ↦ e
]

unfoldable pub accept_resume : ℕ → Storage → Completion → State Acceptor → State Acceptor × Bool
unfolding fill_endpoint
accept_resume wsaeconnreset addr (breaks n rc) s =
    if rc == wsaeconnreset then (s, false) else (failed rc s, true)
accept_resume wsaeconnreset addr (completes n) s =
    (record s { own = record { client_endpoint = fill_endpoint addr s.own.client_endpoint } }, true)

-- The operation, by the answers of the system by time: of the rounds of `AcceptEx`, of which no
-- more than `fuel` are looked at, of `GetOverlappedResult`, and the address in the buffer.
module _ (wsaeconnreset : ℕ) (answer : (time round : ℕ) → Started) (fuel : ℕ)
    (complete : ℕ → Completion) (addr : ℕ → Storage) where
  -- `event::await_suspend`: `none` if the rounds are not enough, here and below.
  unfoldable pub await_accept : ℕ → State Acceptor → Option (State Acceptor × Phase)
  unfolding accept_suspend
  await_accept t s = elim (accept_suspend wsaeconnreset (answer t) fuel s) [
    | none ↦ none
    | some (s', waits) ↦ some (s', if waits then suspended else resumed)
  ]

  -- `event::await_resume`
  unfoldable pub resume_accept : ℕ → State Acceptor → Option (State Acceptor × Phase)
  unfolding await_accept accept_resume
  resume_accept t s =
      let (s', finished) = accept_resume wsaeconnreset (addr t) (complete t) s in
      if finished then some (s', resumed) else await_accept (t + 1) s'

  -- Up to `n` completions that the loop of the context takes from the port.
  unfoldable pub accept_completions :
      ℕ → ℕ → Option (State Acceptor × Phase) → Option (State Acceptor × Phase)
  unfolding resume_accept
  accept_completions zero t r = r
  accept_completions (suc n) t none = none
  accept_completions (suc n) t (some (s, resumed)) = some (s, resumed)
  accept_completions (suc n) t (some (s, suspended)) =
      accept_completions n (t + 2) (resume_accept t s)

  -- `co_await` of the operation, and up to `n` completions.
  unfoldable pub accept_all : ℕ → State Acceptor → Option (State Acceptor × Phase)
  unfolding await_accept accept_completions
  accept_all n s = accept_completions n 1 (await_accept 0 s)

-- `await_resume`: the endpoint of the socket that is moved out.
unfoldable pub accept_result : State Acceptor → Result Endpoint
unfolding or_throw
accept_result s = or_throw s.event s.own.client_endpoint
