-- ===== src/Event/Kqueue.antt =====
-- src/ice/event.cpp, on FreeBSD: the registration of an event with a kqueue, whose descriptor need not be
-- remembered since a one-shot filter goes away by itself.
use ice_test.Base.{ℕ, ◌≡◌, refl, Bool, true, false, List, ◌∷◌, Option, none, some}
use ice_test.Base.Int.{ℤ, pos}
use ice_test.ErrorCode.{ErrorCode, of_integral}
use ice_test.Event.{Event, queue_recv, queue_send, queue_note}

-- `EVFILT_READ`, `EVFILT_WRITE`, and `EVFILT_USER` with `NOTE_TRIGGER`.
pub data Filter : Type 0 where
  read write user : Filter

-- `EV_SET` with `EV_ADD | EV_ONESHOT`, on a kqueue.
pub record Change : Type 0 where
  pub context : ℤ
  pub ident : ℤ
  pub filter : Filter

-- `ice::event`, with the calls of `kevent` made so far, the last one first, and their success.
pub record KqueueEvent : Type 0 where
  pub ec_ : ErrorCode
  pub calls : List (Change × Bool)

-- The end of the three functions: `errno` becomes the error of the event.
abbrev answered : Change → Option ℕ → KqueueEvent → KqueueEvent × Bool
answered c none ev = (record ev { calls = (c, true) ∷ ev.calls }, true)
answered c (some errno) ev =
    (record { ec_ = of_integral (pos errno); calls = (c, false) ∷ ev.calls }, false)

unfoldable pub queue_recv_kqueue : Option ℕ → ℤ → ℤ → KqueueEvent → KqueueEvent × Bool
queue_recv_kqueue answer context id ev =
    answered (record { context = context; ident = id; filter = read }) answer ev

unfoldable pub queue_send_kqueue : Option ℕ → ℤ → ℤ → KqueueEvent → KqueueEvent × Bool
queue_send_kqueue answer context id ev =
    answered (record { context = context; ident = id; filter = write }) answer ev

unfoldable pub queue_note_kqueue : Option ℕ → ℤ → ℤ → KqueueEvent → KqueueEvent × Bool
queue_note_kqueue answer context id ev =
    answered (record { context = context; ident = id; filter = user }) answer ev

-- The two systems agree on the result and on the error.
abbrev Agrees : Event × Bool → KqueueEvent × Bool → Type 0
Agrees r r' = (r.0.ec_ ≡ r'.0.ec_) × (r.1 ≡ r'.1)

pub queue_kqueue :
    (answer : Option ℕ) (context id : ℤ) (ev : Event) (ev' : KqueueEvent)
    → ev.ec_ ≡ ev'.ec_
    → Agrees (queue_recv answer context id ev) (queue_recv_kqueue answer context id ev')
      × Agrees (queue_send answer context id ev) (queue_send_kqueue answer context id ev')
      × Agrees (queue_note answer context id ev) (queue_note_kqueue answer context id ev')
unfolding queue_recv queue_recv_kqueue queue_send queue_send_kqueue queue_note queue_note_kqueue
queue_kqueue none context id ev ev' same = ((same, refl), (same, refl), (same, refl))
queue_kqueue (some errno) context id ev ev' same = ((refl, refl), (refl, refl), (refl, refl))
