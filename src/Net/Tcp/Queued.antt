-- ===== src/Net/Tcp/Queued.antt =====
-- include/ice/net/tcp/socket.h: the operations register with the kernel in `suspend` alone.
use ice_test.Base.{ℕ, ◌≡◌, refl, Bool, List, ◌∷◌, Option-cases, inl, inr}
use ice_test.Event.{Kernel, add, Interest, queue_send}
use ice_test.Event.Await.{State}
use ice_test.Event.Registration.{IsQueued}
use ice_test.Net.Errno.{Errno}
use ice_test.Net.Tcp.{advance, Sender, send_suspend, send, send_some}
use ice_test.Net.Tcp.Send.{Tried, moved, taken_none, failing, retried, write-Tried}

abbrev Keeps : State Sender → State Sender → Type 0
Keeps s s' =
    (s'.event.calls ≡ s.event.calls)
    × (s'.own.context_ ≡ s.own.context_)
    × (s'.own.socket_ ≡ s.own.socket_)

module _ (e : Errno) (bytes : List ℕ) where
  Tried-Keeps :
      (k : Kernel) (t : ℕ) (s : State Sender) (r r' : State Sender × Bool)
      → Tried e k bytes t s r r'
      → Keeps s r.0 × Keeps s r'.0
  unfolding advance
  Tried-Keeps k t s r r' (moved rc q some_taken) = ((refl, refl, refl), (refl, refl, refl))
  Tried-Keeps k t s r r' (taken_none q) = ((refl, refl, refl), (refl, refl, refl))
  Tried-Keeps k t s r r' (failing errno q) = ((refl, refl, refl), (refl, refl, refl))
  Tried-Keeps k t s r r' (retried errno q b) = ((refl, refl, refl), (refl, refl, refl))

  suspend_adds :
      (k : Kernel) (t : ℕ) (s : State Sender)
      → let r = send_suspend e bytes k t s in
        (w : Interest) × (r.0.event.calls
          ≡ (add s.own.context_ s.own.socket_ w, r.1) ∷ s.event.calls)
        × (r.0.event.native_context_ ≡ s.own.context_)
        × (r.0.event.native_id_ ≡ s.own.socket_)
        × (r.0.own.context_ ≡ s.own.context_)
        × (r.0.own.socket_ ≡ s.own.socket_)
  unfolding send_suspend queue_send
  suspend_adds k t s = elim (Option-cases (k.ctl t)) [
    | inl queued ↦
        rw (queued, send_suspend, queue_send) (Interest.writable, refl, refl, refl, refl, refl)
    | inr (errno, q) ↦
        rw (q, send_suspend, queue_send) (Interest.writable, refl, refl, refl, refl, refl)
  ]

  pub send-IsQueued : IsQueued (send e bytes) (λ o. o.context_) (λ o. o.socket_)
  send-IsQueued = record {
    ready_keeps = λ k t s. (Tried-Keeps k t s _ _ (write-Tried e k bytes t s)).0;
    resume_keeps = λ k t s. (Tried-Keeps k t s _ _ (write-Tried e k bytes t s)).0;
    suspend_adds = suspend_adds;
  }

  pub send_some-IsQueued : IsQueued (send_some e bytes) (λ o. o.context_) (λ o. o.socket_)
  send_some-IsQueued = record {
    ready_keeps = λ k t s. (Tried-Keeps k t s _ _ (write-Tried e k bytes t s)).1;
    resume_keeps = λ k t s. (Tried-Keeps k t s _ _ (write-Tried e k bytes t s)).1;
    suspend_adds = suspend_adds;
  }
