-- ===== src/Net/Tcp/Send.antt =====
-- include/ice/net/tcp/socket.h, `tcp::send` and `tcp::send_some`: which bytes the kernel gets, and when the
-- coroutine goes on.
use ice_test.Base.{
  ℕ, zero, suc, ◌+◌, ◌%◌, ◌^◌, ◌≤◌, ◌<◌, ◌≡◌, refl, Bool, true, false, List, [], ◌∷◌, ◌++◌, take,
  drop, length, ◌==◌, arith, Bool-cases, inl, inr,
}
use ice_test.Event.{Kernel, Outcome, done, fail}
use ice_test.Event.Await.{State, Operation, await_all}
use ice_test.Event.Stages.{Stages, await_all_stage}
use ice_test.Base.Int.{ℤ}
use ice_test.Net.Errno.{Errno, is_transient, IsPosix}
use ice_test.Net.Tcp.{
  Sender, advance, send_ready, send_some_ready, write_failed, failed, send, send_some, new_sender,
  send_suspend,
}

-- The kernel has got the first bytes of the data, and the fields of the operation say which.
pub record IsSent (bytes : List ℕ) (o : Sender) : Type 0 where
  pub sent : o.wire ≡ take o.size_ bytes
  pub at_size : o.buffer_.offset ≡ o.size_
  pub left : o.buffer_.size + o.size_ ≡ length bytes

pub take-add :
    {A : Type 0} (m n both : ℕ) (xs : List A)
    → m + n ≡ both
    → take m xs ++ take n (drop m xs) ≡ take both xs
take-add zero n both xs e = ground (arith, e)
take-add (suc m) zero zero [] e = refl
take-add (suc m) zero (suc both) [] e = refl
take-add (suc m) (suc n) zero [] e = refl
take-add (suc m) (suc n) (suc both) [] e = refl
take-add (suc m) n zero (x ∷ xs) e = absurd (omega arith)
take-add (suc m) n (suc both) (x ∷ xs) e = rw (take-add m n both xs (omega arith))

suc_is_not_zero : (n : ℕ) → (suc n == 0) ≡ false
suc_is_not_zero n = ground arith

pub take_all : {A : Type 0} (xs : List A) → take (length xs) xs ≡ xs
take_all [] = refl
take_all (x ∷ xs) = rw (take_all xs)

advance-IsSent :
    (bytes : List ℕ) (rc : ℕ) (o : Sender)
    → length bytes < 2 ^ 64
    → IsSent bytes o
    → rc ≤ o.buffer_.size
    → IsSent bytes (advance bytes rc o)
unfolding advance
advance-IsSent bytes rc o small h le = record {
  sent = rw (at_size, h.sent, h.at_size) (take-add o.size_ rc _ bytes refl);
  at_size = ground (arith, h.at_size, h.left);
  left = ground (arith, h.left);
}
  where
    at_size : (o.size_ + rc) % 2 ^ 64 ≡ o.size_ + rc
    at_size = ground (arith, h.left)

-- What a call of `write` comes to.
pub data Tried (e : Errno) (k : Kernel) (bytes : List ℕ) (t : ℕ) (s : State Sender)
    : State Sender × Bool → State Sender × Bool → Type 0 where
  moved :
      (rc : ℕ)
      → k.io t s.own.buffer_.size ≡ done rc
      → 0 < rc
      → Tried e k bytes t s
          (record s { own = advance bytes rc s.own }, (advance bytes rc s.own).buffer_.size == 0)
          (record s { own = advance bytes rc s.own }, true)
  taken_none : k.io t s.own.buffer_.size ≡ done 0 → Tried e k bytes t s (s, true) (s, true)
  failing :
      (errno : ℕ)
      → k.io t s.own.buffer_.size ≡ fail errno
      → Tried e k bytes t s (failed errno s, true) (failed errno s, true)
  retried :
      (errno : ℕ)
      → k.io t s.own.buffer_.size ≡ fail errno
      → is_transient e errno ≡ true
      → Tried e k bytes t s (s, false) (s, false)

pub write-Tried :
    (e : Errno) (k : Kernel) (bytes : List ℕ) (t : ℕ) (s : State Sender)
    → Tried e k bytes t s (send_ready e bytes k t s) (send_some_ready e bytes k t s)
unfolding send_ready send_some_ready write_failed
write-Tried e k bytes t s = with_answer (k.io t s.own.buffer_.size) refl
  where
    with_answer :
        (a : Outcome)
        → k.io t s.own.buffer_.size ≡ a
        → Tried e k bytes t s (send_ready e bytes k t s) (send_some_ready e bytes k t s)
    with_answer (done zero) q = rw (q, send_ready, send_some_ready) (taken_none q)
    with_answer (done (suc rc)) q =
        rw (q, send_ready, send_some_ready, suc_is_not_zero rc) (moved (suc rc) q (omega arith))
    with_answer (fail errno) q = elim (Bool-cases (is_transient e errno)) [
      | inl again ↦ rw (q, again, send_ready, send_some_ready, write_failed) (retried errno q again)
      | inr final ↦ rw (q, final, send_ready, send_some_ready, write_failed) (failing errno q)
    ]

module _ (e : Errno) (k : Kernel) (posix : IsPosix k) (bytes : List ℕ)
    (small : length bytes < 2 ^ 64) where
  pub Tried-IsSent :
      (t : ℕ) (s : State Sender) (r r' : State Sender × Bool)
      → Tried e k bytes t s r r'
      → IsSent bytes s.own
      → IsSent bytes r.0.own × IsSent bytes r'.0.own
  Tried-IsSent t s r r' (moved rc q pos) h =
      let h' = advance-IsSent bytes rc s.own small h (posix.io_count t s.own.buffer_.size rc q) in
      (h', h')
  Tried-IsSent t s r r' (taken_none q) h = (h, h)
  Tried-IsSent t s r r' (failing errno q) h = (h, h)
  Tried-IsSent t s r r' (retried errno q b) h = (h, h)

  send_ready-IsSent :
      (t : ℕ) (s : State Sender)
      → IsSent bytes s.own
      → IsSent bytes (send_ready e bytes k t s).0.own
  send_ready-IsSent t s h = (Tried-IsSent t s _ _ (write-Tried e k bytes t s) h).0

  send_some_ready-IsSent :
      (t : ℕ) (s : State Sender)
      → IsSent bytes s.own
      → IsSent bytes (send_some_ready e bytes k t s).0.own
  send_some_ready-IsSent t s h = (Tried-IsSent t s _ _ (write-Tried e k bytes t s) h).1

  in_stage :
      (op : Operation Sender)
      → ((t : ℕ) (s : State Sender)
          → IsSent bytes s.own
          → IsSent bytes (op.await_ready k t s).0.own)
      → ((t : ℕ) (s : State Sender) → IsSent bytes s.own → IsSent bytes (op.resume k t s).0.own)
      → ((t : ℕ) (s : State Sender) → (op.suspend k t s).0.own ≡ s.own)
      → Stages op k (λ stage s. IsSent bytes s.own)
  in_stage op ready resume suspend = record {
    ready_stage = ready;
    suspend_stage = λ t s h. rw (suspend t s) h;
    wake_stage = λ s h. h;
    resume_stage = resume;
  }

  send_suspend_own : (t : ℕ) (s : State Sender) → (send_suspend e bytes k t s).0.own ≡ s.own
  unfolding send_suspend
  send_suspend_own t s = refl

  pub new_sender-IsSent : (context socket : ℤ) → IsSent bytes (new_sender context socket bytes).own
  new_sender-IsSent context socket = record { sent = refl; at_size = refl; left = omega arith }

  -- After any number of reports, of send and of send_some alike, the kernel has taken the first
  -- size_ bytes of the data in order, the buffer starts after them, and its size is what is left.
  -- The kernel follows POSIX and the data is shorter than 2 ^ 64.
  pub await_all-IsSent :
      (context socket : ℤ) (n : ℕ)
      → let s = new_sender context socket bytes in
        IsSent bytes (await_all (send e bytes) k n s).0.own
        × IsSent bytes (await_all (send_some e bytes) k n s).0.own
  await_all-IsSent context socket n = (
    await_all_stage _ k _
        (in_stage (send e bytes) send_ready-IsSent send_ready-IsSent send_suspend_own) n _
        (new_sender-IsSent context socket),
    await_all_stage _ k _
        (in_stage (send_some e bytes) send_some_ready-IsSent send_some_ready-IsSent
          send_suspend_own)
        n _ (new_sender-IsSent context socket),
  )
