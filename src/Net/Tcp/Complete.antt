-- ===== src/Net/Tcp/Complete.antt =====
-- include/ice/net/tcp/socket.h, `tcp::send`: what has been sent when the coroutine goes on.
use ice_test.Base.{
  ℕ, ◌-◌, ◌^◌, ◌≤◌, ◌<◌, ◌≡◌, refl, Bool, true, List, length, ◌==◌, if◌then◌else◌, arith,
  Bool-cases, Option-cases, inl, inr, ◌⊎◌, subst,
}
use ice_test.Base.Int.{ℤ, pos}
use ice_test.ErrorCode.{of_integral, to_bool}
use ice_test.Event.{Kernel, done, queue_send}
use ice_test.Event.Await.{State, resumed, await_all}
use ice_test.Event.Stages.{Stage, runs, waits, ends, Stages, stage, await_all_stage}
use ice_test.Net.Errno.{Errno, IsPosix}
use ice_test.Net.Tcp.{
  Sender, ok, send_result, or_throw, advance, send_suspend, failed, send, new_sender,
}
use ice_test.Net.Tcp.Send.{
  IsSent, Tried, moved, taken_none, failing, retried, write-Tried, Tried-IsSent, new_sender-IsSent,
  take_all,
}

-- The coroutine goes on with the exception, or with all the data sent.
abbrev pub Completes : List ℕ → Stage → State Sender → Type 0
Completes bytes ends s =
    IsSent bytes s.own × ((to_bool s.event.ec_ ≡ true) ⊎ (s.own.size_ ≡ length bytes))
Completes bytes runs s = IsSent bytes s.own
Completes bytes waits s = IsSent bytes s.own

pub errno-to_bool :
    (errno : ℕ) → (0 < errno) × (errno < 2 ^ 28) → to_bool (of_integral (pos errno)) ≡ true
unfolding to_bool of_integral
errno-to_bool errno h = ground (arith, h)

pub advance_size :
    (bytes : List ℕ) (rc : ℕ) (o : Sender)
    → o.buffer_.size < 2 ^ 64
    → rc ≤ o.buffer_.size
    → (advance bytes rc o).buffer_.size ≡ o.buffer_.size - rc
unfolding advance
advance_size bytes rc o small le = omega arith

module _ (e : Errno) (k : Kernel) (posix : IsPosix k) (bytes : List ℕ)
    (small : length bytes < 2 ^ 64) (writes : (t size : ℕ) → k.io t size ≡ done 0 → size ≡ 0) where
  Tried-Completes :
      (t : ℕ) (s : State Sender) (r r' : State Sender × Bool)
      → Tried e k bytes t s r r'
      → IsSent bytes s.own
      → Completes bytes (if r.1 then ends else runs) r.0
  Tried-Completes t s r r' (moved rc q some_taken) h =
      let h' = (Tried-IsSent e k posix bytes small t s _ _ (moved rc q some_taken) h).0 in
      elim (Bool-cases ((advance bytes rc s.own).buffer_.size == 0)) [
        | inl all ↦ rw all (h', inr (ground (arith, h'.left, all)))
        | inr rest ↦ rw rest h'
      ]
  Tried-Completes t s r r' (taken_none q) h =
      (h, inr (ground (arith, h.left, writes t s.own.buffer_.size q)))
  Tried-Completes t s r r' (failing errno q) h =
      (h, inl (errno-to_bool errno (posix.io_errno t s.own.buffer_.size errno q)))
  Tried-Completes t s r r' (retried errno q b) h = h

  suspend-Completes :
      (t : ℕ) (s : State Sender)
      → IsSent bytes s.own
      → Completes bytes
          (if (send_suspend e bytes k t s).1 then waits else ends)
          (send_suspend e bytes k t s).0
  unfolding send_suspend queue_send
  suspend-Completes t s h = elim (Option-cases (k.ctl t)) [
    | inl queued ↦ rw (queued, send_suspend, queue_send) h
    | inr (errno, q) ↦
        rw (q, send_suspend, queue_send) (h, inl (errno-to_bool errno (posix.ctl_errno t errno q)))
  ]

  send_stages : Stages (send e bytes) k (Completes bytes)
  send_stages = record {
    ready_stage = λ t s h. Tried-Completes t s _ _ (write-Tried e k bytes t s) h;
    suspend_stage = suspend-Completes;
    wake_stage = λ s h. h;
    resume_stage = λ t s h. Tried-Completes t s _ _ (write-Tried e k bytes t s) h;
  }

  result_of_sent :
      (s : State Sender)
      → Completes bytes ends s
      → (to_bool s.event.ec_ ≡ true) ⊎ ((send_result s ≡ ok (length bytes)) × (s.own.wire ≡ bytes))
  unfolding send_result or_throw
  result_of_sent s (h, inl failed) = inl failed
  result_of_sent s (h, inr all) = elim (Bool-cases (to_bool s.event.ec_)) [
    | inl failed ↦ inl failed
    | inr fine ↦ inr (rw (fine, all, send_result, or_throw) refl, rw (h.sent, all) (take_all bytes))
  ]

  -- Whatever reports of the kernel arrive, when the coroutine that awaits send goes on, the
  -- operation has an error, or await_resume returns the size of the data and the kernel has taken
  -- exactly the data. The kernel follows POSIX, takes none of a write only if nothing is left, and
  -- the data is shorter than 2 ^ 64.
  pub send_complete :
      (context socket : ℤ) (n : ℕ)
      → (await_all (send e bytes) k n (new_sender context socket bytes)).1 ≡ resumed
      → let s = (await_all (send e bytes) k n (new_sender context socket bytes)).0 in
        (to_bool s.event.ec_ ≡ true) ⊎ ((send_result s ≡ ok (length bytes)) × (s.own.wire ≡ bytes))
  send_complete context socket n goes_on =
      let h =
        await_all_stage _ k _ send_stages n _
          (new_sender-IsSent e k posix bytes small context socket) in
      result_of_sent _ (
        subst
          (λ p.
            Completes bytes (stage p)
              (await_all (send e bytes) k n (new_sender context socket bytes)).0)
          goes_on h)
