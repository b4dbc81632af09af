-- ===== src/Net/Windows/Examples.antt =====
-- src/ice/net, on Windows: operations on calls that are pending, on two connections of which the first one
-- is reset, and a datagram socket that takes half of the data at a time.
use ice_test.Base.{ℕ, zero, suc, ◌+◌, ◌/◌, ◌≡◌, refl, Bool, List, [], ◌∷◌, some, arith}
use ice_test.Event.Await.{State, resumed}
use ice_test.Net.Endpoint.{inet, Storage, Endpoint}
use ice_test.Net.Tcp.{ok}
use ice_test.Net.Tcp.Overlapped.{Started, sent, pending, refused}
use ice_test.Net.Windows.{Completion, completes, breaks, Calls, await_all}
use ice_test.Net.Windows.Stream.{recv, new_receiver, recv_result}
use ice_test.Net.Windows.Datagram.{Sender, suspend, new_sender}
use ice_test.Net.Windows.Received.{IsWindows, recv-once}
use ice_test.Net.Windows.Pieces.{IsSending, IsPieces, Ended, suspend_ends}

abbrev calls : Calls
calls = record { start = λ t size. pending; complete = λ t. completes 5 }

calls-IsWindows : IsWindows calls
calls-IsWindows = record {
  start_errno = λ t size errno q. absurd (cc);
  complete_errno = λ t n errno q. absurd (cc);
}

recv-once_example :
    ((await_all (recv calls) 1 (new_receiver 10)).1 ≡ resumed)
    × (recv_result (await_all (recv calls) 1 (new_receiver 10)).0 ≡ ok 5)
recv-once_example = recv-once calls calls-IsWindows 10

-- `WSAECONNRESET`
abbrev reset : ℕ
reset = 10054

abbrev second_completes : ℕ → Completion
second_completes (suc zero) = breaks 0 reset
second_completes t = completes 0

abbrev client : Storage
client = record {
  sin_family = inet;
  sin_port = 20480;
  sin_addr = 127 ∷ 0 ∷ 0 ∷ 1 ∷ [];
  sin6_addr = [];
}

-- AcceptEx is refused once, too, and then pending.
abbrev starts : (time round : ℕ) → Started
starts t zero = refused reset
starts t (suc r) = pending

abbrev half : ℕ → ℕ → Started
half i size = sent ((size + 1) / 2)

sent_count : (n m : ℕ) → sent n ≡ sent m → n ≡ m
sent_count n m same = cc

half-IsSending : IsSending half
half-IsSending = record {
  count = λ i size n q. omega (arith, sent_count ((size + 1) / 2) n q);
  errno = λ i size errno q. absurd (cc);
}

abbrev bytes : List ℕ
bytes = 72 ∷ 101 ∷ 121 ∷ []

suspend_ends_example :
    (r : State Sender × Bool) × (suspend bytes half 0 4 (new_sender bytes) ≡ some r)
    × IsPieces bytes r.0.own
    × Ended r
suspend_ends_example =
    suspend_ends bytes (omega arith) half half-IsSending 4 0 (new_sender bytes)
      (record { pieces = refl; at_size = refl; left = refl }) (omega arith)
