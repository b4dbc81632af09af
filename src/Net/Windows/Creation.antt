-- ===== src/Net/Windows/Creation.antt =====
-- src/ice/net/socket.cpp and the `listen` of src/ice/net/tcp/socket.cpp, on Windows: a socket is made, bound
-- and put to listening. Its handle is an unsigned word, and the greatest one is invalid.
use ice_test.Base.{
  ℕ, ◌-◌, ◌^◌, ◌≡◌, refl, false, List, [], ◌∷◌, ◌++◌, Option, none, some, ◌<◌, arith, if◌then◌else◌,
}
use ice_test.Base.Int.{ℤ, pos}
use ice_test.Base.Equality.{number_comparable}
use ice_test.ErrorCode.{ErrorCode, SystemError, system_error, of_integral, of_combined}
use ice_test.Event.{Outcome, done, fail}
use ice_test.Handle.{Handle, default_handle, valid, reset, destroy}
use ice_test.Net.Endpoint.{Endpoint, new_endpoint, assign}
use ice_test.Net.Socket.{Shutdown}

-- `INVALID_SOCKET`
abbrev pub invalid_socket : ℕ
invalid_socket = 2 ^ 64 - 1

pub record WindowsSocket : Type 0 where
  pub endpoint_ : Endpoint
  pub handle_ : Handle ℕ
  pub family_ : ℤ

-- What a function comes to, with the log of what has been closed.
pub data Outcomes : Type 0 where
  gives : WindowsSocket → (closed : List ℕ) → Outcomes
  raises : SystemError → (closed : List ℕ) → Outcomes

-- The exception leaves the constructor, and the handle that has been made is closed.
abbrev pub raised : ℕ → Handle ℕ → List ℕ → Outcomes
raised errno handle_ closed =
    raises (system_error (of_integral (pos errno))) (destroy invalid_socket handle_ closed)

-- The constructor, by the answers of `WSASocket`, `CreateIoCompletionPort` and
-- `SetFileCompletionNotificationModes`.
unfoldable pub create : Outcome → Option ℕ → Option ℕ → ℤ → Outcomes
unfolding reset default_handle destroy
create answer port modes family = elim answer [
  | fail errno ↦
      let (handle_, closed) =
        reset invalid_socket invalid_socket (default_handle invalid_socket) [] in
      raised errno handle_ closed
  | done fd ↦
      let (handle_, closed) = reset invalid_socket fd (default_handle invalid_socket) [] in
      elim port [
        | some errno ↦ raised errno handle_ closed
        | none ↦ elim modes [
          | some errno ↦ raised errno handle_ closed
          | none ↦
              gives (record { endpoint_ = new_endpoint; handle_ = handle_; family_ = family })
                closed
        ]
      ]
]

-- What the kernel has opened.
abbrev pub opened : Outcome → List ℕ
opened (done fd) = fd ∷ []
opened (fail errno) = []

-- What is closed, or held by the socket made.
abbrev pub accounted : Outcomes → List ℕ
accounted (gives s closed) =
    (if valid invalid_socket s.handle_ then s.handle_.value_ ∷ [] else []) ++ closed
accounted (raises error closed) = closed

valid_test : (fd : ℕ) → fd < invalid_socket → number_comparable.same fd invalid_socket ≡ false
valid_test fd lt = ground (arith, lt)

pub create_keeps :
    (answer : Outcome) (port modes : Option ℕ) (family : ℤ)
    → ((fd : ℕ) → answer ≡ done fd → fd < invalid_socket)
    → accounted (create answer port modes family) ≡ opened answer
unfolding create reset default_handle destroy valid
create_keeps (fail errno) port modes family small = refl
create_keeps (done fd) (some errno) modes family small = rw (valid_test fd (small fd refl)) refl
create_keeps (done fd) none (some errno) family small = rw (valid_test fd (small fd refl)) refl
create_keeps (done fd) none none family small = rw (valid_test fd (small fd refl)) refl

-- `bind`, by the error of the call.
unfoldable pub bind : Option ℕ → WindowsSocket → Endpoint → Outcomes
unfolding assign
bind none s endpoint = gives (record s { endpoint_ = assign s.endpoint_ endpoint }) []
bind (some errno) s endpoint = raises (system_error (of_integral (pos errno))) []

-- `SD_RECEIVE`, `SD_SEND` and `SD_BOTH`.
abbrev pub shutdown_value : Shutdown → ℕ
shutdown_value Shutdown.recv = 0
shutdown_value Shutdown.send = 1
shutdown_value Shutdown.both = 2

unfoldable pub shutdown : (ℕ → Option ℕ) → WindowsSocket → Shutdown → Outcomes
shutdown answer s direction = elim (answer (shutdown_value direction)) [
  | none ↦ gives s []
  | some errno ↦ raises (system_error (of_integral (pos errno))) []
]

-- `get` and `set`: the error, if any.
unfoldable pub option_error : Option ℕ → ErrorCode
option_error none = of_combined 0
option_error (some errno) = of_integral (pos errno)
