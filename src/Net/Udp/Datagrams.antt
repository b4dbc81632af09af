-- ===== src/Net/Udp/Datagrams.antt =====
-- include/ice/net/udp/socket.h, `udp::send` and `udp::send_some`: which datagrams leave.
use ice_test.Base.{
  ℕ, ◌^◌, ◌<◌, ◌≡◌, ◌⊎◌, ◌==◌, refl, ap, ◌∙◌, subst, true, List, [], ◌∷◌, length, if◌then◌else◌,
  arith, Bool-cases, Option-cases, inl, inr,
}
use ice_test.Base.Int.{ℤ}
use ice_test.ErrorCode.{to_bool}
use ice_test.Event.{Kernel, Outcome, done, fail, queue_send}
use ice_test.Event.Await.{State, resumed, await_all}
use ice_test.Event.Stages.{Stage, runs, waits, ends, stage, Stages, await_all_stage}
use ice_test.Net.Errno.{Errno, is_transient, IsPosix}
use ice_test.Net.Tcp.Send.{take_all}
use ice_test.Net.Tcp.Complete.{errno-to_bool}
use ice_test.Net.Tcp.Receive.{call_failed}
use ice_test.Net.Udp.{
  Sender, new_sender, take_datagram, send, send_some, send_ready, send_some_ready, send_suspend,
}

module _ (context socket : ℤ) (bytes : List ℕ) where
  -- Nothing has left before the coroutine goes on; then the whole has, or there is an error.
  abbrev pub Leaves : Stage → State Sender → Type 0
  Leaves runs s = s.own ≡ (new_sender context socket bytes).own
  Leaves waits s = s.own ≡ (new_sender context socket bytes).own
  Leaves ends s =
      (to_bool s.event.ec_ ≡ true) ⊎ ((s.own.datagrams ≡ bytes ∷ []) × (s.own.size_ ≡ length bytes))

module _ (e : Errno) (k : Kernel) (posix : IsPosix k) (bytes : List ℕ)
    (small : length bytes < 2 ^ 64)
    (whole : (t size count : ℕ) → k.io t size ≡ done count → count ≡ size)
    (context socket : ℤ) where
  failed-Leaves :
      (t errno : ℕ) (s : State Sender)
      → k.io t s.own.buffer_.size ≡ fail errno
      → Leaves context socket bytes runs s
      → Leaves context socket bytes
          (if (call_failed e errno s).1 then ends else runs)
          (call_failed e errno s).0
  unfolding call_failed
  failed-Leaves t errno s q h = elim (Bool-cases (is_transient e errno)) [
    | inl again ↦ rw (again, call_failed) h
    | inr final ↦
        rw (final, call_failed)
          (inl (errno-to_bool errno (posix.io_errno t s.own.buffer_.size errno q)))
  ]

  one_datagram :
      (o : Sender)
      → o ≡ (new_sender context socket bytes).own
      → let o' = take_datagram bytes (length bytes) o in
        (o'.datagrams ≡ bytes ∷ []) × (o'.size_ ≡ length bytes) × ((o'.buffer_.size == 0) ≡ true)
  unfolding take_datagram
  one_datagram o h = rw (h, take_datagram, take_all bytes) (refl, omega arith, ground arith)

  counts :
      (t rc : ℕ) (s : State Sender)
      → k.io t s.own.buffer_.size ≡ done rc
      → Leaves context socket bytes runs s
      → rc ≡ length bytes
  counts t rc s q h = whole t s.own.buffer_.size rc q ∙ ap (λ o. o.buffer_.size) h

  send_ready-Leaves :
      (t : ℕ) (s : State Sender)
      → Leaves context socket bytes runs s
      → Leaves context socket bytes
          (if (send_ready e bytes k t s).1 then ends else runs)
          (send_ready e bytes k t s).0
        × Leaves context socket bytes
            (if (send_some_ready e bytes k t s).1 then ends else runs)
            (send_some_ready e bytes k t s).0
  unfolding send_ready send_some_ready
  send_ready-Leaves t s h = by_answer (k.io t s.own.buffer_.size) refl
    where
      by_answer :
          (a : Outcome)
          → k.io t s.own.buffer_.size ≡ a
          → Leaves context socket bytes
              (if (send_ready e bytes k t s).1 then ends else runs)
              (send_ready e bytes k t s).0
            × Leaves context socket bytes
                (if (send_some_ready e bytes k t s).1 then ends else runs)
                (send_some_ready e bytes k t s).0
      by_answer (done rc) q =
          let count = counts t rc s q h in
          let (one, size, empty) = one_datagram s.own h in
          elim (Bool-cases (length bytes == 0)) [
            | inl nothing ↦
                rw (q ∙ ap done count, nothing, send_ready, send_some_ready)
                  (
                    inr (one, ground (arith, nothing, ap (λ o. o.size_) h)),
                    inr (one, ground (arith, nothing, ap (λ o. o.size_) h)),
                  )
            | inr something ↦
                rw (q ∙ ap done count, something, send_ready, send_some_ready)
                  (rw empty (inr (one, size)), inr (one, size))
          ]
      by_answer (fail errno) q =
          rw (q, send_ready, send_some_ready)
            (failed-Leaves t errno s q h, failed-Leaves t errno s q h)

  send_suspend-Leaves :
      (t : ℕ) (s : State Sender)
      → Leaves context socket bytes runs s
      → Leaves context socket bytes
          (if (send_suspend e bytes k t s).1 then waits else ends)
          (send_suspend e bytes k t s).0
  unfolding send_suspend queue_send
  send_suspend-Leaves t s h = elim (Option-cases (k.ctl t)) [
    | inl queued ↦ rw (queued, send_suspend, queue_send) h
    | inr (errno, q) ↦
        rw (q, send_suspend, queue_send) (inl (errno-to_bool errno (posix.ctl_errno t errno q)))
  ]

  send_stages :
      Stages (send e bytes) k (Leaves context socket bytes)
      × Stages (send_some e bytes) k (Leaves context socket bytes)
  send_stages = (
    record {
      ready_stage = λ t s h. (send_ready-Leaves t s h).0;
      suspend_stage = send_suspend-Leaves;
      wake_stage = λ s h. h;
      resume_stage = λ t s h. (send_ready-Leaves t s h).0;
    },
    record {
      ready_stage = λ t s h. (send_ready-Leaves t s h).1;
      suspend_stage = send_suspend-Leaves;
      wake_stage = λ s h. h;
      resume_stage = λ t s h. (send_ready-Leaves t s h).1;
    },
  )

  -- When the coroutines that await send and send_some have gone on, each operation has an error, or
  -- the kernel has taken exactly one datagram, the whole of the data, and size_ is the size of the
  -- data. The kernel follows POSIX and takes a datagram whole or not at all, and the data is
  -- shorter than 2 ^ 64.
  pub send_one_datagram :
      (n : ℕ)
      → (await_all (send e bytes) k n (new_sender context socket bytes)).1 ≡ resumed
      → (await_all (send_some e bytes) k n (new_sender context socket bytes)).1 ≡ resumed
      → Leaves context socket bytes ends
          (await_all (send e bytes) k n (new_sender context socket bytes)).0
        × Leaves context socket bytes ends
            (await_all (send_some e bytes) k n (new_sender context socket bytes)).0
  send_one_datagram n goes_on goes_on' = (
    subst
        (λ p.
          Leaves context socket bytes (stage p)
            (await_all (send e bytes) k n (new_sender context socket bytes)).0)
        goes_on
        (await_all_stage (send e bytes) k (Leaves context socket bytes) send_stages.0 n
          (new_sender context socket bytes) refl),
    subst
        (λ p.
          Leaves context socket bytes (stage p)
            (await_all (send_some e bytes) k n (new_sender context socket bytes)).0)
        goes_on'
        (await_all_stage (send_some e bytes) k (Leaves context socket bytes) send_stages.1 n
          (new_sender context socket bytes) refl),
  )
