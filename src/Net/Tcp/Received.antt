-- ===== src/Net/Tcp/Received.antt =====
-- include/ice/net/tcp/socket.h, `tcp::recv` and `tcp::accept`: what the coroutine that goes on gets.
use ice_test.Base.{
  ℕ, ◌^◌, ◌<◌, ◌≤◌, ◌≡◌, ◌⊎◌, ◌==◌, refl, subst, true, [], if◌then◌else◌, arith, Bool-cases,
  Option-cases, inl, inr,
}
use ice_test.Base.Int.{ℤ, pos, minus_one}
use ice_test.Base.Equality.{int_comparable}
use ice_test.ErrorCode.{to_bool}
use ice_test.Event.{Kernel, Outcome, done, fail, queue_recv}
use ice_test.Event.Await.{State, Phase, resumed, await_all}
use ice_test.Event.Stages.{Stage, runs, waits, ends, stage, Stages, await_all_stage}
use ice_test.Handle.{default_handle, valid, reset}
use ice_test.Net.Errno.{Errno, is_transient, IsPosix}
use ice_test.Net.Tcp.Complete.{errno-to_bool}
use ice_test.Net.Tcp.Receive.{
  Receiver, recv, recv_ready, recv_suspend, new_receiver, call_failed, Acceptor, accept,
  accept_ready, accept_suspend, take_client, new_acceptor,
}

-- The size of the buffer at each stage, where `asked` was given to `recv`.
abbrev pub Fits : ℕ → Stage → State Receiver → Type 0
Fits asked runs s = s.own.buffer_.size ≡ asked
Fits asked waits s = s.own.buffer_.size ≡ asked
Fits asked ends s = s.own.buffer_.size ≤ asked

module _ (e : Errno) (k : Kernel) (posix : IsPosix k) (asked : ℕ) where
  call_failed-Fits :
      (errno : ℕ) (s : State Receiver)
      → s.own.buffer_.size ≡ asked
      → Fits asked (if (call_failed e errno s).1 then ends else runs) (call_failed e errno s).0
  unfolding call_failed
  call_failed-Fits errno s h = elim (Bool-cases (is_transient e errno)) [
    | inl again ↦ rw (again, call_failed) h
    | inr final ↦ rw (final, call_failed) (ground (arith, h))
  ]

  recv_ready-Fits :
      (t : ℕ) (s : State Receiver)
      → s.own.buffer_.size ≡ asked
      → Fits asked (if (recv_ready e k t s).1 then ends else runs) (recv_ready e k t s).0
  unfolding recv_ready
  recv_ready-Fits t s h = by_answer (k.io t s.own.buffer_.size) refl
    where
      by_answer :
          (a : Outcome)
          → k.io t s.own.buffer_.size ≡ a
          → Fits asked (if (recv_ready e k t s).1 then ends else runs) (recv_ready e k t s).0
      by_answer (done rc) q =
          rw (q, recv_ready) (ground (arith, h, posix.io_count t s.own.buffer_.size rc q))
      by_answer (fail errno) q = elim (Bool-cases (errno == e.econnreset)) [
        | inl reset_by_peer ↦ rw (q, reset_by_peer, recv_ready) (omega arith)
        | inr other ↦ rw (q, other, recv_ready) (call_failed-Fits errno s h)
      ]

  recv_suspend-Fits :
      (t : ℕ) (s : State Receiver)
      → s.own.buffer_.size ≡ asked
      → Fits asked (if (recv_suspend e k t s).1 then waits else ends) (recv_suspend e k t s).0
  unfolding recv_suspend queue_recv
  recv_suspend-Fits t s h = elim (Option-cases (k.ctl t)) [
    | inl queued ↦ rw (queued, recv_suspend, queue_recv) h
    | inr (errno, q) ↦ rw (q, recv_suspend, queue_recv) (ground (arith, h))
  ]

  recv_stages : Stages (recv e) k (Fits asked)
  recv_stages = record {
    ready_stage = recv_ready-Fits;
    suspend_stage = recv_suspend-Fits;
    wake_stage = λ s h. h;
    resume_stage = recv_ready-Fits;
  }

  -- After any number of reports the size that recv returns is at most the size of the buffer that
  -- it was given. The kernel follows POSIX.
  pub await_all-recv_fits :
      (context socket : ℤ) (n : ℕ)
      → (await_all (recv e) k n (new_receiver context socket asked)).0.own.buffer_.size ≤ asked
  await_all-recv_fits context socket n =
      fits_of_stage _ (await_all (recv e) k n (new_receiver context socket asked)).1 (
        await_all_stage (recv e) k (Fits asked) recv_stages n (new_receiver context socket asked)
          refl)
    where
      fits_of_stage :
          (s : State Receiver) (p : Phase) → Fits asked (stage p) s → s.own.buffer_.size ≤ asked
      fits_of_stage s Phase.suspended h = ground (arith, h)
      fits_of_stage s Phase.resumed h = h

-- The accepted socket at each stage.
abbrev pub Accepts : Stage → State Acceptor → Type 0
Accepts runs s = (s.own.closed ≡ []) × (s.own.client_ ≡ default_handle minus_one)
Accepts waits s = (s.own.closed ≡ []) × (s.own.client_ ≡ default_handle minus_one)
Accepts ends s =
    (s.own.closed ≡ []) × ((to_bool s.event.ec_ ≡ true) ⊎ (valid minus_one s.own.client_ ≡ true))

module _ (e : Errno) (k : Kernel) (posix : IsPosix k) (accept4 : ℕ → Outcome)
    (accept4_errno : (t errno : ℕ) → accept4 t ≡ fail errno → (0 < errno) × (errno < 2 ^ 28)) where
  accept_failed-Accepts :
      (t errno : ℕ) (s : State Acceptor)
      → accept4 t ≡ fail errno
      → Accepts runs s
      → Accepts (if (call_failed e errno s).1 then ends else runs) (call_failed e errno s).0
  unfolding call_failed
  accept_failed-Accepts t errno s q h = elim (Bool-cases (is_transient e errno)) [
    | inl again ↦ rw (again, call_failed) h
    | inr final ↦ rw (final, call_failed) (h.0, inl (errno-to_bool errno (accept4_errno t errno q)))
  ]

  take_nothing : (s : State Acceptor) → Accepts runs s → Accepts runs (take_client e minus_one s)
  unfolding take_client reset valid default_handle
  take_nothing s h = rw (h.1, take_client, reset, valid) (h.0, refl)

  take_one :
      (fd : ℕ) (s : State Acceptor)
      → Accepts runs s
      → ((take_client e (pos fd) s).own.closed ≡ [])
        × (valid minus_one (take_client e (pos fd) s).own.client_ ≡ true)
  unfolding take_client reset valid default_handle
  take_one fd s h = rw (h.1, take_client, reset, valid) (h.0, refl)

  accept_ready-Accepts :
      (t : ℕ) (s : State Acceptor)
      → Accepts runs s
      → Accepts
          (if (accept_ready e accept4 k t s).1 then ends else runs)
          (accept_ready e accept4 k t s).0
  unfolding accept_ready
  accept_ready-Accepts t s h = by_answer (accept4 t) refl
    where
      by_answer :
          (a : Outcome)
          → accept4 t ≡ a
          → Accepts
              (if (accept_ready e accept4 k t s).1 then ends else runs)
              (accept_ready e accept4 k t s).0
      by_answer (done fd) q =
          let (nothing_closed, is_valid) = take_one fd s h in
          rw (q, accept_ready) (rw is_valid (nothing_closed, inr is_valid))
      by_answer (fail errno) q =
          rw (q, accept_ready)
            (accept_failed-Accepts t errno (take_client e minus_one s) q (take_nothing s h))

  accept_suspend-Accepts :
      (t : ℕ) (s : State Acceptor)
      → Accepts runs s
      → Accepts
          (if (accept_suspend e accept4 k t s).1 then waits else ends)
          (accept_suspend e accept4 k t s).0
  unfolding accept_suspend queue_recv
  accept_suspend-Accepts t s h = elim (Option-cases (k.ctl t)) [
    | inl queued ↦ rw (queued, accept_suspend, queue_recv) h
    | inr (errno, q) ↦
        rw (q, accept_suspend, queue_recv)
          (h.0, inl (errno-to_bool errno (posix.ctl_errno t errno q)))
  ]

  accept_stages : Stages (accept e accept4) k Accepts
  accept_stages = record {
    ready_stage = accept_ready-Accepts;
    suspend_stage = accept_suspend-Accepts;
    wake_stage = λ s h. h;
    resume_stage = accept_ready-Accepts;
  }

  -- When the coroutine that awaits accept goes on, after any number of reports, either the
  -- operation has an error, or the handle of the accepted socket is valid; in both cases the
  -- operation has closed nothing. The kernel follows POSIX, and the errors of accept4 are positive
  -- and below 2 ^ 28.
  pub await_all-accept-valid :
      (context socket : ℤ) (n : ℕ)
      → (await_all (accept e accept4) k n (new_acceptor context socket)).1 ≡ resumed
      → let s = (await_all (accept e accept4) k n (new_acceptor context socket)).0 in
        (s.own.closed ≡ [])
        × ((to_bool s.event.ec_ ≡ true) ⊎ (valid minus_one s.own.client_ ≡ true))
  await_all-accept-valid context socket n goes_on =
      subst
        (λ p. Accepts (stage p) (await_all (accept e accept4) k n (new_acceptor context socket)).0)
        goes_on
        (await_all_stage (accept e accept4) k Accepts accept_stages n (new_acceptor context socket)
          (refl, refl))
