-- ===== src/Server/Delivered.antt =====
-- src/main.cpp: the send of a coroutine of `respond`, as tcp::socket has it, as steps on its client.
use ice_test.Base.{
  ℕ, ◌+◌, ◌^◌, ◌<◌, ◌≡◌, refl, sym, ap, ◌∙◌, true, false, ◌==◌, ==_iff, not, Bool-cases, inl, inr,
  List, ◌++◌, take, drop, length, arith,
}
use ice_test.Base.Int.{ℤ}
use ice_test.Event.{Kernel}
use ice_test.Event.Await.{await_all}
use ice_test.Mutex.{update, holding, Mutex}
use ice_test.Net.Errno.{Errno, IsPosix}
use ice_test.Net.Tcp.{Sender, send, new_sender}
use ice_test.Net.Tcp.Send.{IsSent, await_all-IsSent}
use ice_test.Server.Responses.{Sending, Sends, goes_on, writes, breaks_off, ended}

-- The client has got what the operation has given to the kernel, and nobody's turn has changed.
abbrev pub Delivers : (M : Mutex) → (ℕ → List ℕ) → Sending M → ℕ → Sender → Type 0
Delivers M bytes s a o =
    ((s' : Sending M) × Sends M bytes s'
      × (s'.lock ≡ s.lock)
      × (s'.wire ≡ s.wire ++ o.wire)
      × (s'.offset a ≡ o.size_)
      × (s'.failed a ≡ false))
    × ((s' : Sending M) × Sends M bytes s'
        × (s'.lock ≡ s.lock)
        × (s'.wire ≡ s.wire ++ o.wire)
        × (s'.failed a ≡ not (o.size_ == length (bytes a)))
        × (ended M bytes s' a ≡ true))

update_here : {A : Type 0} (f : ℕ → A) (a : ℕ) (v : A) → update f a v a ≡ v
update_here f a v = rw ((==_iff a a).1 refl) refl

-- One write of all that the operation has sent.
abbrev after : (M : Mutex) → (ℕ → List ℕ) → Sending M → ℕ → Sender → Sending M
after M bytes s a o = record s {
  offset = update s.offset a (s.offset a + o.size_);
  wire = s.wire ++ take o.size_ (drop (s.offset a) (bytes a));
}

module _ (M : Mutex) (bytes : ℕ → List ℕ) (s : Sending M) (a : ℕ) (o : Sender) (r : Sends M bytes s)
    (held : M.role s.lock a ≡ holding) (unbroken : s.failed a ≡ false) (fresh : s.offset a ≡ 0)
    (h : IsSent (bytes a) o) where
  reached : Sends M bytes (after M bytes s a o)
  reached = goes_on r (writes a o.size_ held unbroken (omega (arith, fresh, h.left)))

  wire_after : (after M bytes s a o).wire ≡ s.wire ++ o.wire
  wire_after =
      ap (λ m. s.wire ++ take o.size_ (drop m (bytes a))) fresh ∙ ap (λ w. s.wire ++ w) (sym h.sent)

  offset_after : (after M bytes s a o).offset a ≡ o.size_
  offset_after = update_here s.offset a (s.offset a + o.size_) ∙ omega (arith, fresh)

  IsSent-Delivers : Delivers M bytes s a o
  IsSent-Delivers = (
    (after M bytes s a o, reached, refl, wire_after, offset_after, unbroken),
    elim (Bool-cases (o.size_ == length (bytes a))) [
      | inl whole ↦ (
        after M bytes s a o,
        reached,
        refl,
        wire_after,
        rw whole unbroken,
        rw (offset_after, whole) refl,
      )
      | inr short ↦ (
        record (after M bytes s a o) { failed = update s.failed a true },
        goes_on reached (breaks_off a held),
        refl,
        wire_after,
        rw short (update_here s.failed a true),
        rw (update_here s.failed a true) (rw (offset_after, short) refl),
      )
    ],
  )

-- If a coroutine of respond holds the lock and has sent nothing yet, then, whatever reports of the
-- kernel its send gets, two histories of the client and the mutex are possible from there, in which
-- the mutex stays as it is and the client gets just the bytes that the send has given to the
-- kernel. In the one the send has not ended early and its count of bytes is size_; in the other it
-- has ended, and early exactly if size_ is not the size of the data, which is what respond tests.
-- The kernel follows POSIX and the data is shorter than 2 ^ 64.
pub send_refines :
    (M : Mutex) (bytes : ℕ → List ℕ) (s : Sending M)
    → Sends M bytes s
    → (a : ℕ) → M.role s.lock a ≡ holding
    → s.failed a ≡ false
    → s.offset a ≡ 0
    → (e : Errno) (k : Kernel) → IsPosix k
    → length (bytes a) < 2 ^ 64
    → (context socket : ℤ) (n : ℕ)
    → Delivers M bytes s a
        (await_all (send e (bytes a)) k n (new_sender context socket (bytes a))).0.own
send_refines M bytes s r a held unbroken fresh e k posix small context socket n =
    IsSent-Delivers M bytes s a _ r held unbroken fresh
      (await_all-IsSent e k posix (bytes a) small context socket n).0
