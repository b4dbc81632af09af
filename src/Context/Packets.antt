-- ===== src/Context/Packets.antt =====
-- src/ice/context.cpp, on Windows: the threads of one context, which are woken up by packets in its completion
-- port. A packet stays until a thread takes it, and a thread may take several at once.
use ice_test.Base.{
  ℕ, zero, suc, ◌+◌, ◌≡◌, refl, true, false, List, ◌∷◌, Option, none, some, get_elem?, set, arith,
  Bool, if◌then◌else◌,
}
use ice_test.Context.{
  Shared, idle, interrupting, armed, new_context, interrupt, count_in, count_out, stop_requested,
  request_stop,
}
use ice_test.Context.System.{
  MoveKind, works, wait_fails, move_kind, IsTimely, Pc, outside, waiting, checking, leaving, left,
  stopping, enter, batch, interrupted, failing, check_stop, check_again, leave, pass_on, call_stop,
  end_stop, call_interrupt, System, by_thread, all_outside, Reach, start, later,
}

-- The word, and the packets without an event that wait in the port.
pub record Port : Type 0 where
  pub state_ : ℕ
  pub packets : ℕ

abbrev pub any_waits : ℕ → Bool
any_waits zero = false
any_waits (suc n) = true

-- What the functions on the word see.
abbrev pub seen : Port → Shared
seen m = record { state_ = m.state_; pending = if any_waits m.packets then interrupting else idle }

abbrev pub with_word : Shared → Port → Port
with_word w m = record m { state_ = w.state_ }

-- `interrupt`, by the answer of `PostQueuedCompletionStatus`, which is not looked at.
unfoldable pub post : Option ℕ → Port → Port
post none m = record m { packets = suc m.packets }
post (some errno) m = m

-- `schedule` posts a packet with its own event, which is resumed and takes no other packet's place.
pub data PortMove (m : Port) : MoveKind → Pc → Port → Pc → Type 0 where
  enters : PortMove m works outside (with_word (count_in (seen m)) m) waiting
  resumes : PortMove m works waiting m waiting
  -- A batch with one packet or more.
  takes :
      (taken rest : ℕ)
      → m.packets ≡ suc taken + rest
      → PortMove m works waiting (record m { packets = rest }) checking
  fails : PortMove m wait_fails waiting m leaving
  stops : stop_requested (seen m) ≡ true → PortMove m works checking m leaving
  goes_on : stop_requested (seen m) ≡ false → PortMove m works checking m waiting
  leaves : PortMove m works leaving (with_word (count_out (seen m)) m) left
  passes_on : (answer : Option ℕ) → PortMove m (move_kind answer) left (post answer m) outside
  calls_stop : PortMove m works outside (with_word (request_stop (seen m)).0 m) stopping
  ends_stop : (answer : Option ℕ) → PortMove m (move_kind answer) stopping (post answer m) outside
  posts : (answer : Option ℕ) → PortMove m (move_kind answer) outside (post answer m) outside

pub record PortSystem : Type 0 where
  pub port : Port
  pub pcs : List Pc

pub data PortStep (s : PortSystem) : MoveKind → PortSystem → Type 0 where
  at_thread :
      (i : ℕ) {k : MoveKind} {p p' : Pc} {m : Port}
      → get_elem? s.pcs i ≡ some p
      → PortMove s.port k p m p'
      → PortStep s k (record { port = m; pcs = set s.pcs i p' })

-- By moves that are timely.
pub data PortReach (n : ℕ) : PortSystem → Type 0 where
  created : PortReach n (record { port = record { state_ = 0; packets = 0 }; pcs = all_outside n })
  next :
      {s t : PortSystem} {k : MoveKind}
      → PortReach n s
      → PortStep s k t
      → IsTimely k (seen s.port)
      → PortReach n t

-- The same on Linux, with one thread more, which stays outside.
abbrev pub image : PortSystem → System
image s = record { mem = seen s.port; pcs = outside ∷ s.pcs }

-- The registration that stands for packets.
taken_waits : (packets taken rest : ℕ) → packets ≡ suc taken + rest → any_waits packets ≡ true
taken_waits zero taken rest q = absurd (omega (arith, q))
taken_waits (suc packets) taken rest q = refl

taken_armed : (m : Port) (taken rest : ℕ) → m.packets ≡ suc taken + rest → armed (seen m) ≡ true
taken_armed m taken rest q = rw (taken_waits m.packets taken rest q) refl

module _ (n : ℕ) where
  move-Reach :
      (m m' : Port) (pcs : List Pc) (i : ℕ) (k : MoveKind) (p p' : Pc)
      → get_elem? pcs i ≡ some p
      → PortMove m k p m' p'
      → IsTimely k (seen m)
      → Reach (suc n) (image (record { port = m; pcs = pcs }))
      → Reach (suc n) (image (record { port = m'; pcs = set pcs i p' }))
  unfolding post interrupt count_in count_out request_stop
  move-Reach m m' pcs i k p p' found enters timely r =
      later r (by_thread (suc i) found enter) timely
  move-Reach m m' pcs i k p p' found resumes timely r =
      later r (by_thread (suc i) found batch) timely
  move-Reach m m' pcs i k p p' found (takes taken zero q) timely r =
      later r (by_thread (suc i) found (interrupted (taken_armed m taken zero q))) timely
  move-Reach m m' pcs i k p p' found (takes taken (suc rest) q) timely r =
      later (later r (by_thread (suc i) found (interrupted (taken_armed m taken (suc rest) q))) tt)
        (by_thread 0 refl (call_interrupt none)) tt
  move-Reach m m' pcs i k p p' found fails timely r =
      later r (by_thread (suc i) found failing) timely
  move-Reach m m' pcs i k p p' found (stops e) timely r =
      later r (by_thread (suc i) found (check_stop e)) timely
  move-Reach m m' pcs i k p p' found (goes_on e) timely r =
      later r (by_thread (suc i) found (check_again e)) timely
  move-Reach m m' pcs i k p p' found leaves timely r =
      later r (by_thread (suc i) found leave) timely
  move-Reach m m' pcs i k p p' found (passes_on none) timely r =
      later r (by_thread (suc i) found (pass_on none)) timely
  move-Reach m m' pcs i k p p' found (passes_on (some errno)) timely r =
      later r (by_thread (suc i) found (pass_on (some errno))) timely
  move-Reach m m' pcs i k p p' found (ends_stop none) timely r =
      later r (by_thread (suc i) found (end_stop none)) timely
  move-Reach m m' pcs i k p p' found (ends_stop (some errno)) timely r =
      later r (by_thread (suc i) found (end_stop (some errno))) timely
  move-Reach m m' pcs i k p p' found (posts none) timely r =
      later r (by_thread (suc i) found (call_interrupt none)) timely
  move-Reach m m' pcs i k p p' found (posts (some errno)) timely r =
      later r (by_thread (suc i) found (call_interrupt (some errno))) timely
  move-Reach m m' pcs i k p p' found calls_stop timely r =
      later r (by_thread (suc i) found call_stop) timely

  pub PortReach-Reach : (s : PortSystem) → PortReach n s → Reach (suc n) (image s)
  unfolding new_context
  PortReach-Reach s created = start
  PortReach-Reach s (next {s = s'} r (at_thread i found move) timely) =
      move-Reach s'.port s.port s'.pcs i _ _ _ found move timely (PortReach-Reach s' r)
