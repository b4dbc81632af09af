-- ===== src/Net/Tcp/Progress.antt =====
-- include/ice/net/tcp/socket.h, `tcp::send`: the coroutine that awaits goes on.
use ice_test.Base.{
  ℕ, zero, suc, ◌+◌, ◌-◌, ◌^◌, ◌<◌, ◌≡◌, refl, Bool, true, List, length, ◌==◌, if◌then◌else◌, arith,
  Bool-cases, inl, inr, ◌⊎◌,
}
use ice_test.Base.Int.{ℤ}
use ice_test.Event.{Kernel, fail, remove}
use ice_test.Event.Await.{
  State, Phase, suspended, resumed, await_all, await_resume, await_suspend, co_await, reports,
}
use ice_test.Net.Errno.{Errno, is_transient, IsPosix}
use ice_test.Net.Tcp.{Sender, advance, send_suspend, send, new_sender}
use ice_test.Net.Tcp.Send.{
  IsSent, Tried, moved, taken_none, failing, retried, write-Tried, Tried-IsSent, new_sender-IsSent,
}
use ice_test.Net.Tcp.Complete.{advance_size}

-- When every `write` from a time on takes something or fails for good.
module _ (e : Errno) (k : Kernel) (posix : IsPosix k) (bytes : List ℕ)
    (small : length bytes < 2 ^ 64) (from : ℕ)
    (answers : (t size errno : ℕ)
      → k.io t size ≡ fail errno
      → is_transient e errno ≡ true
      → t < from) where
  -- A round either lets the coroutine go on or makes this smaller.
  abbrev rank : ℕ → State Sender → ℕ
  rank t s = (from - t) + s.own.buffer_.size

  suspended_lower :
      (t : ℕ) (s : State Sender) (most : ℕ)
      → IsSent bytes s.own
      → rank (t + 2) s < most
      → let r = await_suspend (send e bytes) k (t + 1) s in
        (r.1 ≡ resumed) ⊎ (IsSent bytes r.0.own × (rank (t + 2) r.0 < most))
  unfolding await_suspend send_suspend
  suspended_lower t s most h lt = inr (h, lt)

  Tried-lower :
      (t : ℕ) (s : State Sender) (r r' : State Sender × Bool)
      → Tried e k bytes t s r r'
      → IsSent bytes s.own
      → let next = if r.1 then (r.0, resumed) else await_suspend (send e bytes) k (t + 1) r.0 in
        (next.1 ≡ resumed) ⊎ (IsSent bytes next.0.own × (rank (t + 2) next.0 < rank t s))
  Tried-lower t s r r' (moved rc q some_taken) h =
      let h' = (Tried-IsSent e k posix bytes small t s _ _ (moved rc q some_taken) h).0 in
      let le = posix.io_count t s.own.buffer_.size rc q in
      elim (Bool-cases ((advance bytes rc s.own).buffer_.size == 0)) [
        | inl all ↦ rw all (inl refl)
        | inr rest ↦ rw rest (
            suspended_lower t (record s { own = advance bytes rc s.own }) (rank t s) h'
              (omega (arith, advance_size bytes rc s.own (omega (arith, h.left)) le, le)))
      ]
  Tried-lower t s r r' (taken_none q) h = inl refl
  Tried-lower t s r r' (failing errno q) h = inl refl
  Tried-lower t s r r' (retried errno q b) h =
      suspended_lower t s _ h (ground (arith, answers t s.own.buffer_.size errno q b))

  round_lower :
      (t : ℕ) (s : State Sender)
      → IsSent bytes s.own
      → let next = await_resume (send e bytes) k t s in
        (next.1 ≡ resumed) ⊎ (IsSent bytes next.0.own × (rank (t + 2) next.0 < rank t s))
  unfolding await_resume
  round_lower t s h =
      let s' : State Sender = record s { event = remove s.event } in
      Tried-lower t s' _ _ (write-Tried e k bytes t s') h

  reports_of_resumed :
      (n t : ℕ) (s : State Sender) → (reports (send e bytes) k n t (s, resumed)).1 ≡ resumed
  unfolding reports
  reports_of_resumed zero t s = refl
  reports_of_resumed (suc n) t s = refl

  reports_end :
      (n t : ℕ) (s : State Sender) (p : Phase)
      → (p ≡ resumed) ⊎ (IsSent bytes s.own × (rank t s < n))
      → (reports (send e bytes) k n t (s, p)).1 ≡ resumed
  unfolding reports
  reports_end n t s p (inl goes_on) = rw goes_on (reports_of_resumed n t s)
  reports_end n t s resumed (inr h) = reports_of_resumed n t s
  reports_end zero t s suspended (inr h) = absurd (omega (arith, h.1))
  reports_end (suc n) t s suspended (inr (h, lt)) =
      reports_end n (t + 2) (await_resume (send e bytes) k t s).0
        (await_resume (send e bytes) k t s).1
        (elim (round_lower t s h) [
          | inl goes_on ↦ inl goes_on
          | inr (h', lower) ↦ inr (h', omega (arith, lower, lt))
        ])

  co_await_start :
      (s : State Sender)
      → IsSent bytes s.own
      → let next = co_await (send e bytes) k 0 s in
        (next.1 ≡ resumed) ⊎ (IsSent bytes next.0.own × (rank 2 next.0 < from + length bytes + 1))
  unfolding co_await
  co_await_start s h = elim (Tried-lower 0 s _ _ (write-Tried e k bytes 0 s) h) [
    | inl goes_on ↦ inl goes_on
    | inr (h', lower) ↦ inr (h', omega (arith, lower, h.left))
  ]

  -- If from some time on no write asks to be tried again, then the coroutine that awaits send goes
  -- on after at most that time, plus the size of the data, plus one reports of the kernel. The
  -- kernel follows POSIX and the data is shorter than 2 ^ 64.
  pub await_all-send_resumed :
      (context socket : ℤ)
      → (await_all (send e bytes) k (from + length bytes + 1) (new_sender context socket bytes)).1
        ≡ resumed
  unfolding await_all
  await_all-send_resumed context socket =
      let s = new_sender context socket bytes in
      reports_end (from + length bytes + 1) 2 (co_await (send e bytes) k 0 s).0
        (co_await (send e bytes) k 0 s).1
        (co_await_start s (new_sender-IsSent e k posix bytes small context socket))
