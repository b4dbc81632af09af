-- ===== src/Net/Socket.antt =====
-- include/ice/net/socket.h and src/ice/net/socket.cpp, on POSIX systems: the socket that the protocols
-- share. What the system calls answer is a parameter; those in a loop have one answer for each round.
pub mod Rounds
pub mod Options
pub mod Carried
mod Examples
mod OptionExamples
use ice_test.Base.{
  ℕ, zero, suc, ◌+◌, ◌*◌, ◌==◌, Bool, true, false, not, List, [], ◌∷◌, Option, none, some, ltb,
  if◌then◌else◌,
}
use ice_test.Base.Int.{ℤ, pos, minus_one}
use ice_test.Base.Equality.{int_comparable}
use ice_test.ErrorCode.{ErrorCode, SystemError, system_error, of_integral, of_combined}
use ice_test.Event.{Outcome, done, fail}
use ice_test.Handle.{Handle, default_handle, reset, valid}
use ice_test.Net.Endpoint.{Endpoint, new_endpoint, assign}
use ice_test.Net.Errno.{Errno}
use ice_test.Net.Option.{of_pattern}
use ice_test.ErrorCode.{to_int}

-- A loop around a call. `decide` is its body: `none` goes round again. The result is `none` when the
-- fuel is used up.
unfoldable pub rounds : {A B : Type 0} → (B → Option A) → (ℕ → B) → ℕ → ℕ → Option A
rounds decide answer i zero = none
rounds decide answer i (suc fuel) =
    let rest = rounds decide answer (suc i) fuel in
    elim (decide (answer i)) [ some a ↦ some a | none ↦ rest ]

-- `ice::net::socket`
pub record Socket : Type 0 where
  pub endpoint_ : Endpoint
  pub handle_ : Handle ℤ
  pub family_ : ℤ

-- What a member function does: it returns with the socket, or throws and leaves the socket.
pub data Returned : Type 0 where
  returns : Socket → Returned
  throws : SystemError → Returned

-- `socket(ice::context& context)`
unfoldable pub new_socket : Socket
new_socket = record {
  endpoint_ = new_endpoint;
  handle_ = default_handle minus_one;
  family_ = pos 0;
}

-- `socket(ice::context& context, int family, int type, int protocol)`, by the answer of `::socket`.
unfoldable pub create : Outcome → ℤ → Returned
create (done fd) family = returns (record new_socket {
  handle_ = (reset minus_one (pos fd) (default_handle minus_one) []).0;
  family_ = family;
})
create (fail errno) family = throws (system_error (of_integral (pos errno)))

module _ (e : Errno) where
  -- The loop of `close_type::operator()`: an error that is not `EINTR` ends it too.
  abbrev pub close_round : Outcome → Option (Unit {0})
  close_round (done n) = some tt
  close_round (fail errno) = if errno == e.eintr then none else some tt

  unfoldable pub close_type : (ℕ → Outcome) → ℕ → Option (Unit {0})
  close_type answer fuel = rounds close_round answer 0 fuel

  -- The body of the loop of `bind`: `some none` is its end, `some (some _)` is the exception.
  abbrev pub bind_round : Outcome → Option (Option SystemError)
  bind_round (done n) = some none
  bind_round (fail errno) =
      if not (errno == e.eintr) then some (some (system_error (of_integral (pos errno)))) else none

  unfoldable pub bind : (ℕ → Outcome) → ℕ → Socket → Endpoint → Option Returned
  bind answer fuel s endpoint = elim (rounds bind_round answer 0 fuel) [
    | none ↦ none
    | some none ↦ some (returns (record s { endpoint_ = assign s.endpoint_ endpoint }))
    | some (some error) ↦ some (throws error)
  ]

-- `net::shutdown` and `SHUT_RD`, `SHUT_WR`, `SHUT_RDWR`.
pub data Shutdown : Type 0 where
  recv send both : Shutdown

abbrev pub shutdown_value : Shutdown → ℕ
shutdown_value Shutdown.recv = 0
shutdown_value Shutdown.send = 1
shutdown_value Shutdown.both = 2

-- `shutdown`: the answer of the call depends on its argument.
unfoldable pub shutdown : (ℕ → Outcome) → Socket → Shutdown → Returned
shutdown answer s direction = elim (answer (shutdown_value direction)) [
  | done n ↦ returns s
  | fail errno ↦ throws (system_error (of_integral (pos errno)))
]

-- `close`, with the log of what is closed.
unfoldable pub close : Socket → List ℤ → Socket × List ℤ
unfolding reset
close s closed =
    let (h, closed') = reset minus_one minus_one s.handle_ closed in
    (record s { handle_ = h }, closed')

-- `get` and `set`: the error, if any.
unfoldable pub option_error : Outcome → ErrorCode
option_error (done n) = of_combined 0
option_error (fail errno) = of_integral (pos errno)

-- `type` and `protocol`: the `int` that `getsockopt` has written, or 0 when it fails.
unfoldable pub int_option : Outcome → ℤ
int_option (done value) = of_pattern value
int_option (fail errno) = pos 0

-- The argument that `tcp::socket::listen` gives to `::listen`, where `somaxconn` is the platform's.
unfoldable pub backlog_size : ℤ → ℕ → ℤ
backlog_size somaxconn backlog =
    if ltb 0 backlog then of_pattern (to_int (pos backlog)) else somaxconn

unfoldable pub listen : (ℤ → Outcome) → ℤ → Socket → ℕ → Returned
unfolding backlog_size
listen answer somaxconn s backlog = elim (answer (backlog_size somaxconn backlog)) [
  | done n ↦ returns s
  | fail errno ↦ throws (system_error (of_integral (pos errno)))
]
