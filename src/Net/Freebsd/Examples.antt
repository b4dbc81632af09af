-- ===== src/Net/Freebsd/Examples.antt =====
-- src/ice/net/tcp/socket.cpp, on FreeBSD: a kernel that asks to wait once and then answers 2.
use ice_test.Base.{ℕ, ◌==◌, ◌≡◌, ◌≢◌, List, [], ◌∷◌, none, some, if◌then◌else◌, arith}
use ice_test.Base.Int.{pos}
use ice_test.Event.{Kernel, done, fail, new_event}
use ice_test.Event.Await.{await_all}
use ice_test.Event.OneShot.{Agree, await_all_kqueue}
use ice_test.Net.Errno.{linux}
use ice_test.Net.Freebsd.Agreement.{operations_agree, OperationsAgree, connect_agrees, fresh_kqueue}
use ice_test.Net.Freebsd.Connection.{connect_once, connector_queues}
use ice_test.Net.Tcp.{new_sender}
use ice_test.Net.Tcp.Connect.{connect, connect_round, new_connector}
use ice_test.Net.Tcp.Receive.{new_receiver, new_acceptor}
use ice_test.Net.Udp

abbrev kernel : Kernel
kernel = record { io = λ t size. if t == 0 then fail 11 else done 2; ctl = λ t. none }

abbrev hi : List ℕ
hi = 104 ∷ 105 ∷ []

operations_agree_example :
    OperationsAgree linux kernel 2 hi
      (new_sender (pos 3) (pos 4) hi).own
      (new_receiver (pos 3) (pos 4) 16).own
      (new_acceptor (pos 3) (pos 5)).own
      (Udp.new_sender (pos 3) (pos 6) hi).own
      (Udp.new_receiver (pos 3) (pos 6) 128 16).own
      (λ t. if t == 0 then fail 11 else done 1000)
      (λ t. 16)
operations_agree_example =
    operations_agree linux kernel 2 hi (new_sender (pos 3) (pos 4) hi).own
      (new_receiver (pos 3) (pos 4) 16).own (new_acceptor (pos 3) (pos 5)).own
      (Udp.new_sender (pos 3) (pos 6) hi).own (Udp.new_receiver (pos 3) (pos 6) 128 16).own
      (λ t. if t == 0 then fail 11 else done 1000) (λ t. 16)

under_way : fail 115 ≢ fail linux.eintr
under_way e = absurd (omega (arith, number 115 4 e))
  where
    number : (n m : ℕ) → fail n ≡ fail m → n ≡ m
    number n m e = cc

connect_agrees_example :
    let o = (new_connector (pos 3) (pos 4)).own in
    (connect_round linux (fail 115) ≡ some (connect_once linux (fail 115)))
    × Agree
        (await_all_kqueue
          (connect (λ t. done 0) (connect_once linux (fail 115)))
          connector_queues
          kernel
          1
          (fresh_kqueue o))
        (await_all
          (connect (λ t. done 0) (connect_once linux (fail 115)))
          kernel
          1
          (record { event = new_event; own = o }))
connect_agrees_example =
    connect_agrees linux kernel (λ t. done 0) 1 (new_connector (pos 3) (pos 4)).own (fail 115)
      under_way
