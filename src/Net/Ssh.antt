-- ===== src/Net/Ssh.antt =====
-- include/ice/net/ssh and src/ice/net/ssh: the loops around the calls of libssh2 that do not block. The
-- library's answers are parameters, one for each round; between two rounds the coroutine waits for
-- the transport.
pub mod Channel
pub mod Reading
pub mod Errors
pub mod Transport
pub mod Session
pub mod Waiting
mod Examples
use ice_test.Base.{
  ℕ, zero, suc, ◌+◌, ◌%◌, ◌^◌, Bool, true, false, List, [], ◌∷◌, ◌++◌, take, length, Option, none,
  some, ltb, if◌then◌else◌,
}
use ice_test.Base.Int.{ℤ, pos, negsuc, ◌==ℤ◌}
use ice_test.Net.Socket.{rounds}

-- `ssh::domain_error(code, what)`, without the text.
pub record DomainError : Type 0 where
  pub code : ℤ

-- What a coroutine comes to.
pub data Answer (A : Type 0) : Type 0 where
  co_returns : A → Answer A
  co_throws : DomainError → Answer A

-- What `channel::write` has done: its local variable, and what the library has taken.
pub record Writing : Type 0 where
  pub written : ℕ
  pub wire : List ℕ

module _ (eagain : ℤ) where
  -- The body of the loops of `exec`, of the handshake and of the authentication.
  abbrev pub zero_round : ℤ → Option (Answer (Unit {0}))
  zero_round rv =
      if rv ==ℤ pos 0
      then some (co_returns tt)
      else if rv ==ℤ eagain
      then none
      else some (co_throws (record { code = rv }))

  -- `channel::exec`
  unfoldable pub exec : (ℕ → ℤ) → ℕ → Option (Answer (Unit {0}))
  exec answer fuel = rounds zero_round answer 0 fuel

  -- `session::connect` on a socket that is connected: the handshake, then the authentication.
  unfoldable pub connect : (ℕ → ℤ) → (ℕ → ℤ) → ℕ → Option (Answer (Unit {0}))
  connect handshake password fuel = elim (rounds zero_round handshake 0 fuel) [
    | none ↦ none
    | some (co_throws error) ↦ some (co_throws error)
    | some (co_returns done) ↦ rounds zero_round password 0 fuel
  ]

  -- The body of the loop of `session::open`: the handle, or the session's last error.
  abbrev pub open_round : {H : Type 0} → Option H × ℤ → Option (Answer H)
  open_round (some channel, rc) = some (co_returns channel)
  open_round (none, rc) = if rc ==ℤ eagain then none else some (co_throws (record { code = rc }))

  unfoldable pub open_channel : {H : Type 0} → (ℕ → Option H × ℤ) → ℕ → Option (Answer H)
  open_channel answer fuel = rounds open_round answer 0 fuel

  module _ (bytes : List ℕ) where
    -- The body of the loop of `channel::write`: the whole of the data is passed on each time.
    abbrev pub write_round : ℤ → Writing → Answer Writing
    write_round (pos n) s =
        co_returns (record { written = (s.written + n) % 2 ^ 64; wire = s.wire ++ take n bytes })
    write_round (negsuc n) s =
        if negsuc n ==ℤ eagain then co_returns s else co_throws (record { code = negsuc n })

    unfoldable pub write_from : (ℕ → ℤ) → ℕ → ℕ → Writing → Option (Answer Writing)
    write_from answer i zero s = none
    write_from answer i (suc fuel) s =
        let rest = write_from answer (suc i) fuel in
        if ltb s.written (length bytes)
        then elim (write_round (answer i) s) [
          | co_returns s' ↦ rest s'
          | co_throws error ↦ some (co_throws error)
        ]
        else some (co_returns s)

    unfoldable pub write : (ℕ → ℤ) → ℕ → Option (Answer Writing)
    unfolding write_from
    write answer fuel = write_from answer 0 fuel (record { written = 0; wire = [] })
