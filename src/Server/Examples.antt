-- ===== src/Server/Examples.antt =====
-- src/main.cpp: two requests in three pieces, the second of which is split within its end, and a port that is
-- taken.
use ice_test.Base.{
  if◌then◌else◌, ◌==◌, ◌≡◌, ℕ, List, [], ◌∷◌, refl, true, none, some, ◌≢◌, inl, arith,
}
use ice_test.Mutex.{update, apart, holding, takes}
use ice_test.Mutex.Line.{Line, line, line-IsMutex}
use ice_test.Base.Int.{pos}
use ice_test.Context.{armed, new_context}
use ice_test.Handle.{of_value}
use ice_test.Context.Create.{made}
use ice_test.Context.Loop.{batch}
use ice_test.ErrorCode.{SystemError, Category}
use ice_test.Server.Startup.{
  Setup, client, sets_reuse_address, unwound, server, on_scope_exit, main,
}
use ice_test.Server.Stops.{main_stops}
use Prim.Native.Nat.{min}
use ice_test.Event.{Kernel, done}
use ice_test.Event.Await.{await_all}
use ice_test.Net.Errno.{linux, IsPosix}
use ice_test.Net.Tcp.{send, new_sender}
use ice_test.Server.Delivered.{Delivers, send_refines}
use ice_test.Server.Orderly.{Orderly, responses_whole}
use ice_test.Server.Responses.{Sending, Sends, begin, goes_on, locks, writes}
use ice_test.Server.{handle, new_loop, on_chunk, on_byte}
use ice_test.Server.Requests.{handle-new_loop}

abbrev chunks : List (List ℕ)
chunks =
    (71 ∷ 13 ∷ 10 ∷ 13 ∷ 10 ∷ 71 ∷ []) ∷ (13 ∷ 10 ∷ 13 ∷ []) ∷ (10 ∷ []) ∷ [] ∷ (10 ∷ 10 ∷ []) ∷ []

handle-new_loop_example : (handle new_loop chunks).responses ≡ 2
handle-new_loop_example = handle-new_loop chunks

two_responses : (handle new_loop chunks).responses ≡ 2
unfolding handle new_loop on_chunk on_byte
two_responses = refl

abbrev in_use : SystemError
in_use = record { code = 98; category = Category.native_category }

abbrev taken_port : Setup
taken_port = record {
  endpoint = none;
  socket = none;
  bind = some in_use;
  listen = none;
  accept = λ i. client (pos 5);
}

bind_fails : server taken_port 0 ≡ unwound (sets_reuse_address ∷ []) in_use
unfolding server
bind_fails = refl

main_stops_example :
    (armed (on_scope_exit none (server taken_port 0) new_context) ≡ true)
    × (main
          (made (of_value (pos 3)) (of_value (pos 4)) [])
          none
          4
          (λ i. batch (none ∷ []))
          1
          taken_port
          0
        ≡ some none)
main_stops_example =
    main_stops none 4 (λ i. batch (none ∷ [])) (of_value (pos 3)) (of_value (pos 4)) [] 0 0
      taken_port (sets_reuse_address ∷ []) in_use bind_fails refl

-- The coroutine at 16 has locked the mutex and sent one byte of its two.
abbrev pub two_bytes : ℕ → List ℕ
two_bytes a = if a == 16 then 72 ∷ 105 ∷ [] else []

pub apart_holds_nothing : apart ≢ holding
apart_holds_nothing same = cc

abbrev pub Found : Type 0
Found = (s : Sending line) × Sends line two_bytes s

abbrev first_locks : Line
first_locks = record { roles = update (λ c. apart) 16 holding; waits = [] }

abbrev pub locked_once : Found
locked_once = (
  _,
  goes_on begin (
      locks {t = first_locks} (takes 16 (inl refl) (λ c. apart_holds_nothing) refl (λ c. refl) refl)
        (λ a held left. absurd (apart_holds_nothing held))),
)

abbrev pub sent_once : Found
sent_once = (_, goes_on locked_once.1 (writes 16 1 refl refl (omega arith)))

one_byte_sent : sent_once.0.wire ≡ 72 ∷ []
one_byte_sent = refl

responses_whole_example : Orderly line two_bytes sent_once.0
responses_whole_example = responses_whole line line-IsMutex two_bytes sent_once.0 sent_once.1

-- The kernel takes one byte of each write.
abbrev byte_kernel : Kernel
byte_kernel = record { io = λ t size. done (min size 1); ctl = λ t. none }

byte_kernel-IsPosix : IsPosix byte_kernel
byte_kernel-IsPosix = record {
  io_errno = λ t size errno q. ground (arith, q);
  ctl_errno = λ t errno q. ground (arith, q);
  io_count = λ t size count q. ground (arith, q);
}

send_refines_example :
    Delivers line two_bytes locked_once.0 16
      (await_all
        (send linux (two_bytes 16))
        byte_kernel
        2
        (new_sender (pos 3) (pos 4) (two_bytes 16))).0.own
send_refines_example =
    send_refines line two_bytes locked_once.0 locked_once.1 16 refl refl refl linux byte_kernel
      byte_kernel-IsPosix (omega arith) (pos 3) (pos 4) 2
