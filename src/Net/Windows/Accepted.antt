-- ===== src/Net/Windows/Accepted.antt =====
-- src/ice/net/tcp/socket.cpp, on Windows: the endpoint of a client that `tcp::accept` takes.
use ice_test.Base.{ℕ, suc, ◌<◌, ◌≡◌, refl, ap, false, none, some, arith}
use ice_test.ErrorCode.{to_bool}
use ice_test.Event.Await.{State, resumed}
use ice_test.Net.Endpoint.{
  Family, unspecified, inet, inet6, Storage, Endpoint, new_endpoint, family, port, ntohs,
}
use ice_test.Net.Socket.Rounds.{rounds_end}
use ice_test.Net.Tcp.Overlapped.{Started, sent, pending, refused}
use ice_test.Net.Tcp.{ok, or_throw}
use ice_test.Net.Windows.{Completion}
use ice_test.Net.Windows.Acceptance.{
  Acceptor, new_acceptor, accept_round, accept_suspend, await_accept, accept_completions,
  accept_all, accept_result, fill_endpoint,
}

-- The calls of AcceptEx at a time are refused with an error for some rounds, fewer than `fuel`, and
-- the next one is pending.
abbrev pub Waits : ℕ → ℕ → (ℕ → Started) → Type 0
Waits reset fuel answer =
    (j : ℕ) × (j < fuel) × ((r : ℕ) → r < j → answer r ≡ refused reset) × (answer j ≡ pending)

-- The endpoint names the address, if the address has a family; otherwise it is a new one.
abbrev pub NamesBy : Family → Storage → Endpoint → Type 0
NamesBy inet addr e =
    (family e ≡ inet)
    × (port e ≡ ntohs addr.sin_port)
    × (e.storage_.sin_family ≡ inet)
    × (e.storage_.sin_addr ≡ addr.sin_addr)
NamesBy inet6 addr e =
    (family e ≡ inet6)
    × (port e ≡ ntohs addr.sin_port)
    × (e.storage_.sin_family ≡ inet6)
    × (e.storage_.sin6_addr ≡ addr.sin6_addr)
NamesBy unspecified addr e = e ≡ new_endpoint

module _ (reset : ℕ) (answer : ℕ → ℕ → Started) (fuel : ℕ) (complete : ℕ → Completion)
    (addr : ℕ → Storage) where
  taken : ℕ → State Acceptor → State Acceptor
  taken t s = record s {
    own = record { client_endpoint = fill_endpoint (addr t) s.own.client_endpoint };
  }

-- A connection that AcceptEx takes at once.
pub accept_at_once :
    (reset fuel m : ℕ) (answer : ℕ → ℕ → Started) (complete : ℕ → Completion) (addr : ℕ → Storage)
    → answer 0 0 ≡ sent m
    → (accept_all reset answer (suc fuel) complete addr 1 new_acceptor
        ≡ some (new_acceptor, resumed))
      × (accept_result new_acceptor ≡ ok new_endpoint)
      × (family new_endpoint ≡ unspecified)
      × (port new_endpoint ≡ 0)
unfolding accept_result or_throw to_bool family port new_endpoint accept_all await_accept
    accept_suspend accept_completions
accept_at_once reset fuel m answer complete addr taken_now =
    let once =
      rounds_end (accept_round reset) (answer 0) 0 (false, none) (λ i lt. absurd (omega arith))
        (rw taken_now refl) (suc fuel) (omega arith) in
    let started : await_accept reset answer (suc fuel) complete addr 0 new_acceptor
        ≡ some (new_acceptor, resumed) =
      rw (once, await_accept, accept_suspend) refl in
    (ap (accept_completions reset answer (suc fuel) complete addr 1 1) started, refl, refl, refl)
