-- ===== src/Event/Registration.antt =====
-- src/ice/event.cpp: what an operation that is awaited adds to the interest list of epoll it takes off.
use ice_test.Base.{
  ℕ, ◌≡◌, refl, Bool, true, false, List, [], ◌∷◌, Option, none, some, if◌then◌else◌,
}
use ice_test.Base.Int.{ℤ, minus_one, ◌==ℤ◌}
use ice_test.Event.{Event, Kernel, Ctl, add, modify, delete, Interest, remove}
use ice_test.Event.Stages.{Stage, Stages, runs, waits, ends, stage, await_all_stage}
use ice_test.Event.Await.{State, Operation, Phase, suspended, resumed, await_all}

-- The descriptors that a list of calls leaves registered, if any.
abbrev pub registered : List (Ctl × Bool) → Option (ℤ × ℤ)
registered [] = none
registered ((add c i w, true) ∷ r) = some (c, i)
registered ((add c i w, false) ∷ r) = registered r
registered ((modify c i w, b) ∷ r) = registered r
registered ((delete c i, b) ∷ r) = none

-- Nothing is added while something is registered, and what is deleted is what is registered.
abbrev pub IsTidy : List (Ctl × Bool) → Type 0
IsTidy [] = Unit {0}
IsTidy ((add c i w, b) ∷ r) = (registered r ≡ none) × IsTidy r
IsTidy ((modify c i w, b) ∷ r) = IsTidy r
IsTidy ((delete c i, b) ∷ r) = (registered r ≡ some (c, i)) × IsTidy r

-- An operation that leaves the registration to `event`: it registers in `suspend` alone, under the
-- descriptors that its fields hold.
pub record IsQueued {S : Type 0} (op : Operation S) (context_of socket_of : S → ℤ) : Type 0 where
  pub ready_keeps :
      (k : Kernel) (t : ℕ) (s : State S)
      → let s' = (op.await_ready k t s).0 in
        (s'.event.calls ≡ s.event.calls)
        × (context_of s'.own ≡ context_of s.own)
        × (socket_of s'.own ≡ socket_of s.own)
  pub resume_keeps :
      (k : Kernel) (t : ℕ) (s : State S)
      → let s' = (op.resume k t s).0 in
        (s'.event.calls ≡ s.event.calls)
        × (context_of s'.own ≡ context_of s.own)
        × (socket_of s'.own ≡ socket_of s.own)
  pub suspend_adds :
      (k : Kernel) (t : ℕ) (s : State S)
      → let r = op.suspend k t s in
        (w : Interest) × (r.0.event.calls
          ≡ (add (context_of s.own) (socket_of s.own) w, r.1) ∷ s.event.calls)
        × (r.0.event.native_context_ ≡ context_of s.own)
        × (r.0.event.native_id_ ≡ socket_of s.own)
        × (context_of r.0.own ≡ context_of s.own)
        × (socket_of r.0.own ≡ socket_of s.own)

-- What holds of an event while its coroutine is in the given phase.
abbrev pub Tracks : Phase → Event → Type 0
Tracks suspended ev =
    IsTidy ev.calls
    × (registered ev.calls ≡ some (ev.native_context_, ev.native_id_))
    × ((ev.native_context_ ==ℤ minus_one) ≡ false)
    × ((ev.native_id_ ==ℤ minus_one) ≡ false)
Tracks resumed ev = IsTidy ev.calls × (registered ev.calls ≡ none)

-- The event after a call that adds, by the success of the call.
added-Tracks :
    (b : Bool) (ev ev' : Event) (c i : ℤ) (w : Interest)
    → Tracks resumed ev
    → (c ==ℤ minus_one) ≡ false
    → (i ==ℤ minus_one) ≡ false
    → ev'.calls ≡ (add c i w, b) ∷ ev.calls
    → ev'.native_context_ ≡ c
    → ev'.native_id_ ≡ i
    → Tracks (if b then suspended else resumed) ev'
added-Tracks true ev ev' c i w h hc hi e ec ei = rw (e, ec, ei) ((h.1, h.0), refl, hc, hi)
added-Tracks false ev ev' c i w h hc hi e ec ei = rw e ((h.1, h.0), h.1)

removed-Tracks : (ev : Event) → Tracks suspended ev → Tracks resumed (remove ev)
unfolding remove
removed-Tracks ev h = rw (h.2, h.3, remove) ((h.1, h.0), refl)

same-Tracks : (ev ev' : Event) → ev'.calls ≡ ev.calls → Tracks resumed ev → Tracks resumed ev'
same-Tracks ev ev' e h = rw e h

-- A descriptor that is not the invalid value of `ice::handle`.
abbrev pub IsValid : ℤ → Type 0
IsValid i = (i ==ℤ minus_one) ≡ false

module _ {S : Type 0} (op : Operation S) (context_of socket_of : S → ℤ)
    (queued : IsQueued op context_of socket_of) (k : Kernel) where
  abbrev Holds : Stage → State S → Type 0
  Holds waits s = Tracks suspended s.event × IsValid (context_of s.own) × IsValid (socket_of s.own)
  Holds runs s = Tracks resumed s.event × IsValid (context_of s.own) × IsValid (socket_of s.own)
  Holds ends s = Tracks resumed s.event × IsValid (context_of s.own) × IsValid (socket_of s.own)

  running : (b : Bool) (s : State S) → Holds runs s → Holds (if b then ends else runs) s
  running true s h = h
  running false s h = h

  kept :
      (s s' : State S)
      → (s'.event.calls ≡ s.event.calls)
        × (context_of s'.own ≡ context_of s.own)
        × (socket_of s'.own ≡ socket_of s.own)
      → Holds runs s
      → Holds runs s'
  kept s s' (e, ec, ei) h = rw (e, ec, ei) h

  suspending :
      (t : ℕ) (s : State S)
      → Holds runs s
      → Holds (if (op.suspend k t s).1 then waits else ends) (op.suspend k t s).0
  suspending t s (h, hc, hi) =
      let (w, e, ec, ei, oc, oi) = queued.suspend_adds k t s in
      let r = op.suspend k t s in
      by_phase r.1 r.0
        (added-Tracks r.1 s.event r.0.event (context_of s.own) (socket_of s.own) w h hc hi e ec ei)
        (rw oc hc) (rw oi hi)
    where
      by_phase :
          (b : Bool) (s' : State S)
          → Tracks (if b then suspended else resumed) s'.event
          → IsValid (context_of s'.own)
          → IsValid (socket_of s'.own)
          → Holds (if b then waits else ends) s'
      by_phase true s' h hc hi = (h, hc, hi)
      by_phase false s' h hc hi = (h, hc, hi)

  stages : Stages op k Holds
  stages = record {
    ready_stage = λ t s h.
        running (op.await_ready k t s).1 (op.await_ready k t s).0
          (kept s (op.await_ready k t s).0 (queued.ready_keeps k t s) h);
    suspend_stage = suspending;
    wake_stage = λ s h. (removed-Tracks s.event h.0, h.1, h.2);
    resume_stage = λ t s h.
        running (op.resume k t s).1 (op.resume k t s).0
          (kept s (op.resume k t s).0 (queued.resume_keeps k t s) h);
  }

  Holds-Tracks : (p : Phase) (s : State S) → Holds (stage p) s → Tracks p s.event
  Holds-Tracks suspended s h = h.0
  Holds-Tracks resumed s h = h.0

  -- An operation that leaves its registration to event never adds a descriptor to the interest list
  -- while it has one there, deletes just what it added, and has nothing registered when its
  -- coroutine goes on, after any number of reports, when it starts with no calls made and both of
  -- its descriptors differ from -1.
  pub await_all-Tracks :
      (n : ℕ) (s : State S)
      → s.event.calls ≡ []
      → IsValid (context_of s.own)
      → IsValid (socket_of s.own)
      → Tracks (await_all op k n s).1 (await_all op k n s).0.event
  await_all-Tracks n s e hc hi =
      Holds-Tracks _ _ (await_all_stage op k Holds stages n s ((rw e (tt, refl)), hc, hi))
