-- ===== src/Net/Tcp/Connect.antt =====
-- include/ice/net/tcp/socket.h and src/ice/net/tcp/socket.cpp, on Linux: `tcp::connect`. The calls of
-- `::connect` have one answer for each round of the loop, and `getsockopt` with `SO_ERROR` one at each
-- time.
use ice_test.Base.{ℕ, ◌==◌, Bool, true, false, Option, none, some, if◌then◌else◌}
use ice_test.Base.Int.{ℤ}
use ice_test.Event.{Kernel, Outcome, done, fail, queue_send, new_event}
use ice_test.Event.Await.{State, Operation}
use ice_test.Net.Errno.{Errno}
use ice_test.Net.Socket.{rounds}
use ice_test.Net.Tcp.{failed}

pub record Connector : Type 0 where
  pub context_ : ℤ
  pub socket_ : ℤ

-- The constructor.
abbrev pub new_connector : ℤ → ℤ → State Connector
new_connector context socket = record {
  event = new_event;
  own = record { context_ = context; socket_ = socket };
}

-- The body of the loop of `await_ready`: what it returns, and the error it stores before.
abbrev pub connect_round : Errno → Outcome → Option (Bool × Option ℕ)
connect_round e (done n) = some (true, none)
connect_round e (fail errno) =
    if errno == e.einprogress
    then some (false, none)
    else if errno == e.eintr
    then none
    else some (false, some errno)

abbrev pub stored : Option ℕ → State Connector → State Connector
stored none s = s
stored (some errno) s = failed errno s

-- `await_ready`: `none` if the rounds given are not enough.
unfoldable pub connect_ready :
    Errno → (ℕ → Outcome) → ℕ → State Connector → Option (State Connector × Bool)
connect_ready e answer fuel s = elim (rounds (connect_round e) answer 0 fuel) [
  | none ↦ none
  | some (ready, error) ↦ some (stored error s, ready)
]

unfoldable pub connect_suspend : Kernel → ℕ → State Connector → State Connector × Bool
unfolding queue_send
connect_suspend k t s =
    let (ev, queued) = queue_send (k.ctl t) s.own.context_ s.own.socket_ s.event in
    (record s { event = ev }, queued)

-- `resume`
abbrev pub resumed_with : Outcome → State Connector → State Connector
resumed_with (done code) s = if code == 0 then s else failed code s
resumed_with (fail errno) s = failed errno s

unfoldable pub connect_resume :
    (ℕ → Outcome) → Kernel → ℕ → State Connector → State Connector × Bool
connect_resume so_error k t s = (resumed_with (so_error t) s, true)

-- The operation, by what its loop has come to.
abbrev pub connect : (ℕ → Outcome) → Bool × Option ℕ → Operation Connector
connect so_error r = record {
  await_ready = λ k t s. (stored r.1 s, r.0);
  suspend = connect_suspend;
  resume = connect_resume so_error;
}
