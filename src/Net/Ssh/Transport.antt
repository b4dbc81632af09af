-- ===== src/Net/Ssh/Transport.antt =====
-- include/ice/net/ssh/transport.h and src/ice/net/ssh/transport.cpp: the callbacks through which libssh2
-- reads and writes the socket, and the wait for it.
use ice_test.Base.{
  ℕ, ◌-◌, ◌==◌, Bool, true, false, List, [], ◌++◌, take, drop, length, Option, none, some,
  if◌then◌else◌, ltb,
}
use ice_test.Base.Int.{ℤ, pos, negsuc}
use ice_test.ErrorCode.{of_std_errc}
use ice_test.Event.{Kernel, Outcome, done, fail, queue_recv, queue_send, new_event}
use ice_test.Event.Await.{State}
use ice_test.Net.Errno.{Errno}
use ice_test.Net.Socket.{rounds}
use ice_test.Net.Tcp.{failed}
use ice_test.Net.Tcp.Overlapped.{Started, sent, pending, refused}
use ice_test.Net.Windows.{Completion, completes, breaks}

-- `transport::operation`
pub data TransportOperation : Type 0 where
  idle recv send : TransportOperation

pub record Transport : Type 0 where
  pub operation_ : TransportOperation
  pub context_ : ℤ
  pub socket_ : ℤ

abbrev pub new_transport : ℤ → ℤ → State Transport
new_transport context socket = record {
  event = new_event;
  own = record { operation_ = idle; context_ = context; socket_ = socket };
}

-- `ec_ = ice::error_code(std::errc::invalid_argument)`
abbrev pub invalid_operation : {S : Type 0} → ℕ → State S → State S
invalid_operation einval s = record s { event = record s.event { ec_ = of_std_errc einval } }

-- `errno > 0 ? -errno : errno`
abbrev pub negative : ℕ → ℤ
negative errno = if ltb 0 errno then negsuc (errno - 1) else pos errno

module _ (e : Errno) where
  unfoldable pub suspend : Kernel → ℕ → State Transport → State Transport × Bool
  unfolding queue_recv queue_send
  suspend k t s = elim s.own.operation_ [
    | idle ↦ (invalid_operation e.einval s, false)
    | recv ↦
        let (ev, queued) = queue_recv (k.ctl t) s.own.context_ s.own.socket_ s.event in
        (record s { event = ev }, queued)
    | send ↦
        let (ev, queued) = queue_send (k.ctl t) s.own.context_ s.own.socket_ s.event in
        (record s { event = ev }, queued)
  ]

  unfoldable pub resume : Kernel → ℕ → State Transport → State Transport × Bool
  resume k t s = (s, true)

  -- The body of the loops: a call that a signal has interrupted is made again.
  abbrev pub call_round : Outcome → Option Outcome
  call_round (done n) = some (done n)
  call_round (fail errno) = if errno == e.eintr then none else some (fail errno)

  -- The end of both callbacks.
  abbrev pub ended : TransportOperation → Outcome → State Transport → State Transport × ℤ
  ended op (done n) s = (s, pos n)
  ended op (fail errno) s = (record s { own = record s.own { operation_ = op } }, negative errno)

  -- By the answers of the rounds; `none` if those given are not enough.
  unfoldable pub on_recv : (ℕ → Outcome) → ℕ → State Transport → Option (State Transport × ℤ)
  on_recv answer fuel s = elim (rounds call_round answer 0 fuel) [
    | none ↦ none
    | some a ↦ some (ended recv a s)
  ]

  unfoldable pub on_send : (ℕ → Outcome) → ℕ → State Transport → Option (State Transport × ℤ)
  on_send answer fuel s = elim (rounds call_round answer 0 fuel) [
    | none ↦ none
    | some a ↦ some (ended send a s)
  ]

-- The members on Windows: the data goes through a buffer of 4096 bytes.
pub record OverlappedTransport : Type 0 where
  pub operation_ : TransportOperation
  pub storage_ : List ℕ
  pub buffer_size : ℕ
  pub ready_ : Bool
  pub bytes_ : ℕ

abbrev pub storage_size : ℕ
storage_size = 4096

abbrev pub min_size : ℕ → ℕ → ℕ
min_size a b = if ltb b a then b else a

-- Bytes are written over the start of a buffer.
abbrev pub memcpy : List ℕ → List ℕ → List ℕ
memcpy data_bytes buffer = data_bytes ++ drop (length data_bytes) buffer

abbrev pub start_ended : Started → State OverlappedTransport → State OverlappedTransport × Bool
start_ended (sent n) s = (record s { own = record s.own { bytes_ = n; ready_ = true } }, false)
start_ended pending s = (s, true)
start_ended (refused errno) s =
    (record (failed errno s) { own = record s.own { ready_ = true } }, false)

-- By what the call of `WSARecv` or `WSASend` for the buffer comes to.
unfoldable pub suspend_overlapped :
    ℕ
    → (TransportOperation → ℕ → Started)
    → State OverlappedTransport
    → State OverlappedTransport × Bool
suspend_overlapped einval start s = elim s.own.operation_ [
  | idle ↦ (invalid_operation einval s, false)
  | recv ↦ start_ended (start recv s.own.buffer_size) s
  | send ↦ start_ended (start send s.own.buffer_size) s
]

unfoldable pub resume_overlapped :
    Completion → State OverlappedTransport → State OverlappedTransport × Bool
resume_overlapped (completes n) s =
    (record s { own = record s.own { bytes_ = n; ready_ = true } }, true)
resume_overlapped (breaks n errno) s =
    (record (failed errno s) { own = record s.own { bytes_ = n; ready_ = true } }, true)

module _ (eagain : ℕ) where
  -- The bytes that the caller's buffer gets, and the result.
  unfoldable pub on_recv_overlapped :
      ℕ → State OverlappedTransport → State OverlappedTransport × (List ℕ × ℤ)
  on_recv_overlapped size s =
      if s.own.ready_
      then (
        record s { own = record s.own { ready_ = false } },
        (take s.own.bytes_ s.own.storage_, pos s.own.bytes_),
      )
      else (
        record s {
          own = record s.own { operation_ = recv; buffer_size = min_size size storage_size };
        },
        ([], negative eagain),
      )

  unfoldable pub on_send_overlapped :
      List ℕ → State OverlappedTransport → State OverlappedTransport × ℤ
  on_send_overlapped data_bytes s =
      let size = min_size (length data_bytes) storage_size in
      if s.own.ready_
      then (record s { own = record s.own { ready_ = false } }, pos s.own.bytes_)
      else (
        record s {
          own = record s.own {
            operation_ = send;
            buffer_size = size;
            storage_ = memcpy (take size data_bytes) s.own.storage_;
          };
        },
        negative eagain,
      )
