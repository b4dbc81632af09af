-- ===== src/Net/Ssh/Session.antt =====
-- include/ice/net/ssh/session.h and src/ice/net/ssh/session.cpp: the set-up of a session of libssh2 on a
-- socket, its end, and the callbacks that the library is given. A session of the library is its
-- address, and null is 0.
use ice_test.Base.{
  ℕ, map, Bool-cases, inl, inr, ◌==◌, ◌≡◌, refl, Bool, true, false, List, [], ◌∷◌, ◌++◌, Option,
  none, some, if◌then◌else◌,
}
use ice_test.Base.Equality.{number_comparable, int_comparable}
use ice_test.Base.Int.{ℤ, pos, minus_one}
use ice_test.ErrorCode.{SystemError}
use ice_test.Event.{Outcome, done, fail}
use ice_test.Event.Await.{State}
use ice_test.Handle.{Handle, of_value, valid, destroy}
use ice_test.Net.Errno.{Errno}
use ice_test.Net.Socket.{Socket, create, returns, throws}
use ice_test.Net.Ssh.{DomainError}
use ice_test.Net.Ssh.Transport.{Transport, new_transport, on_recv, on_send}

-- What is given back to the library and to the kernel.
pub data Release : Type 0 where
  disconnects frees : ℕ → Release
  closes : ℤ → Release

-- The members, and what the library has been told: where its transport is, and whether to block.
pub record Session : Type 0 where
  pub handle_ : Handle ℕ
  pub socket_ : Socket
  pub transport_ : State Transport
  pub abstract : Bool
  pub blocking : Bool

-- What the constructor comes to, with the log of what has been given back, in order.
pub data Constructed : Type 0 where
  constructed : Session → Constructed
  throws_system : SystemError → List Release → Constructed
  throws_domain : DomainError → List Release → Constructed

-- The members go in the reverse order of their declaration; the transport owns nothing.
abbrev pub destroy_members : Handle ℕ → Socket → List Release
destroy_members handle_ socket_ =
    map closes (destroy minus_one socket_.handle_ []) ++ map frees (destroy 0 handle_ [])

-- The constructor, by the answers of `libssh2_session_init` and `::socket`.
unfoldable pub create_session :
    (alloc : ℤ) (context : ℤ) → (session : ℕ) → Outcome → (family : ℤ) → Constructed
unfolding of_value create valid destroy
create_session alloc context session answer family =
    let handle_ = of_value session in
    elim (create answer family) [
      | throws error ↦ throws_system error (map frees (destroy 0 handle_ []))
      | returns socket_ ↦
          if valid 0 handle_
          then constructed (record {
            handle_ = handle_;
            socket_ = socket_;
            transport_ = new_transport context socket_.handle_.value_;
            abstract = true;
            blocking = false;
          })
          else throws_domain (record { code = alloc }) (destroy_members handle_ socket_)
    ]

-- `~session`
unfoldable pub destroy_session : Session → List Release
unfolding destroy
destroy_session s = disconnects s.handle_.value_ ∷ destroy_members s.handle_ s.socket_

-- The callbacks: without a transport the library makes the call itself.
unfoldable pub recv_callback :
    Errno
    → Option (State Transport)
    → (recv : ℤ) → (ℕ → Outcome)
    → ℕ
    → Option (Option (State Transport) × ℤ)
recv_callback e none recv answer fuel = some (none, recv)
recv_callback e (some transport) recv answer fuel = elim (on_recv e answer fuel transport) [
  | none ↦ none
  | some (transport', size) ↦ some (some transport', size)
]

unfoldable pub send_callback :
    Errno
    → Option (State Transport)
    → (send : ℤ) → (ℕ → Outcome)
    → ℕ
    → Option (Option (State Transport) × ℤ)
send_callback e none send answer fuel = some (none, send)
send_callback e (some transport) send answer fuel = elim (on_send e answer fuel transport) [
  | none ↦ none
  | some (transport', size) ↦ some (some transport', size)
]

-- All that is given back up to the end of the session, or of the constructor.
abbrev pub released : Constructed → List Release
unfolding destroy_session
released (constructed s) = destroy_session s
released (throws_system error log) = log
released (throws_domain error log) = log

-- What has to be given back, in order.
abbrev pub owed : (session : ℕ) → Outcome → List Release
owed session (fail errno) = if session == 0 then [] else frees session ∷ []
owed session (done fd) =
    if session == 0
    then closes (pos fd) ∷ []
    else disconnects session ∷ closes (pos fd) ∷ frees session ∷ []

pub create_session-released :
    (alloc context : ℤ) (session : ℕ) (answer : Outcome) (family : ℤ)
    → released (create_session alloc context session answer family) ≡ owed session answer
unfolding create_session create destroy_session destroy valid of_value
create_session-released alloc context session (fail errno) family =
    elim (Bool-cases (session == 0)) [
      | inl null ↦ rw (valid, destroy, null) refl
      | inr other ↦ rw (valid, destroy, other) refl
    ]
create_session-released alloc context session (done fd) family = elim (Bool-cases (session == 0)) [
  | inl null ↦ rw (valid, destroy, null) refl
  | inr other ↦ rw (valid, destroy, other) (rw (destroy_session, destroy, valid, other) refl)
]
