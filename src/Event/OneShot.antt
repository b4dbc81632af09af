-- ===== src/Event/OneShot.antt =====
-- include/ice/event.h, on FreeBSD: how a coroutine waits for an event that kqueue reports. It is as on
-- Linux, but for the registration and for `remove`, which is not called.
use ice_test.Base.{
  ℕ, zero, suc, ◌+◌, ◌≡◌, refl, sym, ap, subst, List, [], ◌∷◌, ◌∙◌, not, ◌&&◌, Bool, true, false,
  Bool-cases, inl, inr, Option, none, some, if◌then◌else◌,
}
use ice_test.Base.Int.{ℤ, ◌==ℤ◌, minus_one}
use ice_test.Event.{
  Event, Kernel, Interest, Ctl, add, modify, delete, new_event, queue_recv, queue_send, remove,
}
use ice_test.Event.Await.{
  State, Operation, Phase, suspended, resumed, await_suspend, co_await, await_resume, reports,
  await_all,
}
use ice_test.Event.Kqueue.{Filter, Change, KqueueEvent, queue_recv_kqueue, queue_send_kqueue}

-- An operation: its event, and the fields of its own.
pub record KqueueState (S : Type 0) : Type 0 where
  pub event : KqueueEvent
  pub own : S

-- The functions that a class overrides see the error of the event and their own fields.
abbrev pub seen : {S : Type 0} → KqueueState S → State S
seen s = record { event = record new_event { ec_ = s.event.ec_ }; own = s.own }

abbrev pub put_back : {S : Type 0} → KqueueState S → State S × Bool → KqueueState S × Bool
put_back s (s', b) = (record { event = record s.event { ec_ = s'.event.ec_ }; own = s'.own }, b)

-- What `suspend` of an operation registers for.
pub record Queues (S : Type 0) : Type 0 where
  pub context_of : S → ℤ
  pub socket_of : S → ℤ
  pub interest : Interest

-- `queue_recv` or `queue_send`, on either system.
abbrev pub queue_kqueue_by : Interest → Option ℕ → ℤ → ℤ → KqueueEvent → KqueueEvent × Bool
queue_kqueue_by Interest.readable = queue_recv_kqueue
queue_kqueue_by Interest.writable = queue_send_kqueue

abbrev pub queue_by : Interest → Option ℕ → ℤ → ℤ → Event → Event × Bool
queue_by Interest.readable = queue_recv
queue_by Interest.writable = queue_send

module _ {S : Type 0} (op : Operation S) (q : Queues S) (k : Kernel) where
  unfoldable pub suspend_kqueue : ℕ → KqueueState S → KqueueState S × Bool
  suspend_kqueue t s =
      let (ev, queued) =
        queue_kqueue_by q.interest (k.ctl t) (q.context_of s.own) (q.socket_of s.own) s.event in
      (record s { event = ev }, queued)

  -- `event::await_suspend`
  unfoldable pub await_suspend_kqueue : ℕ → KqueueState S → KqueueState S × Phase
  unfolding suspend_kqueue
  await_suspend_kqueue t s =
      let (s', queued) = suspend_kqueue t s in (s', if queued then suspended else resumed)

  unfoldable pub co_await_kqueue : ℕ → KqueueState S → KqueueState S × Phase
  unfolding await_suspend_kqueue
  co_await_kqueue t s =
      let (s', ready) = put_back s (op.await_ready k t (seen s)) in
      if ready then (s', resumed) else await_suspend_kqueue (t + 1) s'

  -- `event::await_resume`
  unfoldable pub await_resume_kqueue : ℕ → KqueueState S → KqueueState S × Phase
  unfolding await_suspend_kqueue
  await_resume_kqueue t s =
      let (s', finished) = put_back s (op.resume k t (seen s)) in
      if finished then (s', resumed) else await_suspend_kqueue (t + 1) s'

  unfoldable pub reports_kqueue : ℕ → ℕ → KqueueState S × Phase → KqueueState S × Phase
  reports_kqueue zero t r = r
  reports_kqueue (suc n) t (s, resumed) = (s, resumed)
  reports_kqueue (suc n) t (s, suspended) = reports_kqueue n (t + 2) (await_resume_kqueue t s)

  unfoldable pub await_all_kqueue : ℕ → KqueueState S → KqueueState S × Phase
  unfolding co_await_kqueue reports_kqueue
  await_all_kqueue n s = reports_kqueue n 2 (co_await_kqueue 0 s)

-- The calls of kevent that stand for calls of epoll_ctl, those to remove left out.
abbrev pub changes : List (Ctl × Bool) → List (Change × Bool)
changes [] = []
changes ((add context id Interest.readable, success) ∷ calls) =
    (record { context = context; ident = id; filter = Filter.read }, success) ∷ changes calls
changes ((add context id Interest.writable, success) ∷ calls) =
    (record { context = context; ident = id; filter = Filter.write }, success) ∷ changes calls
changes ((modify context id interest, success) ∷ calls) =
    (record { context = context; ident = id; filter = Filter.user }, success) ∷ changes calls
changes ((delete context id, success) ∷ calls) = changes calls

-- A function that reads and writes the error and the fields of its own alone, and registers nothing.
abbrev pub IsLocal : {S : Type 0} → (Kernel → ℕ → State S → State S × Bool) → Type 0
IsLocal {S} f =
    (k : Kernel) (t : ℕ) (s s' : State S)
    → s.own ≡ s'.own
    → s.event.ec_ ≡ s'.event.ec_
    → ((f k t s).0.own ≡ (f k t s').0.own)
      × ((f k t s).0.event.ec_ ≡ (f k t s').0.event.ec_)
      × ((f k t s).1 ≡ (f k t s').1)
      × ((f k t s').0.event.calls ≡ s'.event.calls)

-- An operation that is local, and registers in `suspend` as it is said to.
pub record IsQueuedBy {S : Type 0} (op : Operation S) (q : Queues S) : Type 0 where
  pub ready_local : IsLocal op.await_ready
  pub resume_local : IsLocal op.resume
  pub suspend_queues :
      (k : Kernel) (t : ℕ) (s : State S)
      → op.suspend k t s ≡ (
          let (ev, queued) =
            queue_by q.interest (k.ctl t) (q.context_of s.own) (q.socket_of s.own) s.event in
          (record s { event = ev }, queued))

-- The two systems agree on the fields and on the error of an operation, on what comes with it, and on
-- what it has been registered for so far.
abbrev pub Agree : {S A : Type 0} → KqueueState S × A → State S × A → Type 0
Agree r r' =
    (r.0.own ≡ r'.0.own)
    × (r.0.event.ec_ ≡ r'.0.event.ec_)
    × (r.1 ≡ r'.1)
    × (r.0.event.calls ≡ changes r'.0.event.calls)

ec_-remove : (ev : Event) → (remove ev).ec_ ≡ ev.ec_
unfolding remove
ec_-remove ev =
    elim (Bool-cases
      (not (ev.native_context_ ==ℤ minus_one) && not (ev.native_id_ ==ℤ minus_one))) [
        | inl both ↦ rw (both, remove) refl
        | inr other ↦ rw (other, remove) refl
      ]

changes-remove : (ev : Event) → changes (remove ev).calls ≡ changes ev.calls
unfolding remove
changes-remove ev =
    elim (Bool-cases
      (not (ev.native_context_ ==ℤ minus_one) && not (ev.native_id_ ==ℤ minus_one))) [
        | inl both ↦ rw (both, remove) refl
        | inr other ↦ rw (other, remove) refl
      ]

module _ {S : Type 0} (op : Operation S) (q : Queues S) (queued : IsQueuedBy op q)
    (k : Kernel) where
  registered_Agree :
      (w : Interest) (answer : Option ℕ) (context id : ℤ) (ev : KqueueEvent) (ev' : Event)
      → ev.ec_ ≡ ev'.ec_
      → ev.calls ≡ changes ev'.calls
      → let r = queue_kqueue_by w answer context id ev in
        let r' = queue_by w answer context id ev' in
        (r.0.ec_ ≡ r'.0.ec_) × (r.1 ≡ r'.1) × (r.0.calls ≡ changes r'.0.calls)
  unfolding queue_recv_kqueue queue_recv queue_send_kqueue queue_send
  registered_Agree Interest.readable none context id ev ev' same calls = (
    same,
    refl,
    ap (λ cs. (record { context = context; ident = id; filter = Filter.read }, true) ∷ cs) calls,
  )
  registered_Agree Interest.readable (some errno) context id ev ev' same calls = (
    refl,
    refl,
    ap (λ cs. (record { context = context; ident = id; filter = Filter.read }, false) ∷ cs) calls,
  )
  registered_Agree Interest.writable none context id ev ev' same calls = (
    same,
    refl,
    ap (λ cs. (record { context = context; ident = id; filter = Filter.write }, true) ∷ cs) calls,
  )
  registered_Agree Interest.writable (some errno) context id ev ev' same calls = (
    refl,
    refl,
    ap (λ cs. (record { context = context; ident = id; filter = Filter.write }, false) ∷ cs) calls,
  )

  suspend_Agree :
      (t : ℕ) (s : KqueueState S) (s' : State S)
      → Agree (s, t) (s', t)
      → Agree (suspend_kqueue op q k t s) (op.suspend k t s')
  unfolding suspend_kqueue
  suspend_Agree t s s' (own, error, same, calls) =
      let (error', success, calls') =
        registered_Agree q.interest (k.ctl t) (q.context_of s.own) (q.socket_of s.own) s.event
          s'.event error calls in
      rw (queued.suspend_queues k t s') (
        subst
          (λ (o : S). Agree (suspend_kqueue op q k t s) (
            let (ev, queued) =
              queue_by q.interest (k.ctl t) (q.context_of o) (q.socket_of o) s'.event in
            (record s' { event = ev }, queued)))
          own (own, error', success, calls'))

  phase_Agree :
      (r : KqueueState S × Bool) (r' : State S × Bool)
      → Agree r r'
      → Agree {A = Phase}
          (r.0, if r.1 then suspended else resumed)
          (r'.0, if r'.1 then suspended else resumed)
  phase_Agree (s, b) (s', b') (own, error, success, calls) = (own, error, rw success refl, calls)

  await_suspend-Agree :
      (t : ℕ) (s : KqueueState S) (s' : State S)
      → Agree (s, t) (s', t)
      → Agree (await_suspend_kqueue op q k t s) (await_suspend op k t s')
  unfolding await_suspend_kqueue await_suspend
  await_suspend-Agree t s s' h =
      phase_Agree (suspend_kqueue op q k t s) (op.suspend k t s') (suspend_Agree t s s' h)

  going_on :
      (t : ℕ) (r : KqueueState S × Bool) (r' : State S × Bool)
      → Agree r r'
      → Agree
          (if r.1 then (r.0, resumed) else await_suspend_kqueue op q k t r.0)
          (if r'.1 then (r'.0, resumed) else await_suspend op k t r'.0)
  going_on t (s, true) (s', true) (own, error, same, calls) = (own, error, refl, calls)
  going_on t (s, false) (s', false) (own, error, same, calls) =
      await_suspend-Agree t s s' (own, error, refl, calls)
  going_on t (s, true) (s', false) (own, error, same, calls) = absurd (cc)
  going_on t (s, false) (s', true) (own, error, same, calls) = absurd (cc)

  reports-Agree :
      (n t : ℕ) (r : KqueueState S × Phase) (r' : State S × Phase)
      → Agree r r'
      → Agree (reports_kqueue op q k n t r) (reports op k n t r')
  unfolding reports_kqueue reports await_resume_kqueue await_resume remove
  reports-Agree zero t r r' h = h
  reports-Agree (suc n) t (s, resumed) (s', resumed) h = h
  reports-Agree (suc n) t (s, suspended) (s', suspended) (own, error, same, calls) =
      let s'' : State S = record s' { event = remove s'.event } in
      let (own', error', same', kept) =
        queued.resume_local k t (seen s) s'' own (error ∙ sym (ec_-remove s'.event)) in
      reports-Agree n (t + 2) (await_resume_kqueue op q k t s) (await_resume op k t s') (
        going_on (t + 1) (put_back s (op.resume k t (seen s))) (op.resume k t s'')
          (own', error', same', calls ∙ sym (ap changes kept ∙ changes-remove s'.event)))
  reports-Agree (suc n) t (s, resumed) (s', suspended) (own, error, same, calls) = absurd (cc)
  reports-Agree (suc n) t (s, suspended) (s', resumed) (own, error, same, calls) = absurd (cc)

  pub await_all_kqueue-Agree :
      (n : ℕ) (s : KqueueState S) (s' : State S)
      → s.own ≡ s'.own
      → s.event.ec_ ≡ s'.event.ec_
      → s.event.calls ≡ changes s'.event.calls
      → Agree (await_all_kqueue op q k n s) (await_all op k n s')
  unfolding await_all_kqueue await_all co_await_kqueue co_await
  await_all_kqueue-Agree n s s' own error calls =
      let (own', error', same, kept) = queued.ready_local k 0 (seen s) s' own error in
      reports-Agree n 2 (co_await_kqueue op q k 0 s) (co_await op k 0 s') (
        going_on 1 (put_back s (op.await_ready k 0 (seen s))) (op.await_ready k 0 s')
          (own', error', same, calls ∙ sym (ap changes kept)))
