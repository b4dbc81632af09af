-- ===== src/Context/System.antt =====
-- src/ice/context.cpp: any number of threads that run, stop and interrupt one context, interleaved at each
-- access to the word and at each system call. Coroutines that await `schedule` use the event of the
-- context too.
use ice_test.Base.{
  ℕ, zero, suc, ◌≡◌, true, false, List, [], ◌∷◌, get_elem?, set, Option, none, some,
}
use ice_test.Context.{
  Shared, idle, scheduling, armed, new_context, interrupt, queue_schedule, count_in, count_out,
  stop_requested, request_stop,
}

-- Where a thread stands. One that calls `stop` from within an event counts as a thread of its own.
pub data Pc : Type 0 where
  outside : Pc
  -- `run`, in `epoll_wait` or resuming the coroutines of a batch
  waiting : Pc
  -- `run`, with `interrupted` set, before it looks at the word
  checking : Pc
  -- `run`, after its loop
  leaving : Pc
  -- `run`, before its call of `interrupt`
  left : Pc
  -- `stop`, before its call of `interrupt`
  stopping : Pc

-- What a move is: the work of `run`, `stop` and `interrupt`, a wait that fails, an interrupt that fails,
-- or a coroutine that awaits `schedule`.
pub data MoveKind : Type 0 where
  works wait_fails interrupt_fails schedules : MoveKind

abbrev pub move_kind : Option ℕ → MoveKind
move_kind none = works
move_kind (some errno) = interrupt_fails

pub data Move (m : Shared) : MoveKind → Pc → Shared → Pc → Type 0 where
  enter : Move m works outside (count_in m) waiting
  -- A batch without the event, or `EINTR`.
  batch : Move m works waiting m waiting
  -- A batch with the event, for a coroutine that is resumed.
  resumed :
      (coroutine : ℕ)
      → m.pending ≡ scheduling coroutine
      → Move m works waiting (record m { pending = idle }) waiting
  interrupted : armed m ≡ true → Move m works waiting (record m { pending = idle }) checking
  -- `epoll_wait` fails.
  failing : Move m wait_fails waiting m leaving
  check_stop : stop_requested m ≡ true → Move m works checking m leaving
  check_again : stop_requested m ≡ false → Move m works checking m waiting
  leave : Move m works leaving (count_out m) left
  pass_on : (answer : Option ℕ) → Move m (move_kind answer) left (interrupt answer m) outside
  call_stop : Move m works outside (request_stop m).0 stopping
  end_stop : (answer : Option ℕ) → Move m (move_kind answer) stopping (interrupt answer m) outside
  call_interrupt :
      (answer : Option ℕ) → Move m (move_kind answer) outside (interrupt answer m) outside
  -- A coroutine awaits `schedule`, in a thread of its own or in a batch of `run`.
  schedule_outside :
      (answer : Option ℕ) (coroutine : ℕ)
      → Move m schedules outside (queue_schedule answer coroutine m) outside
  schedule_within :
      (answer : Option ℕ) (coroutine : ℕ)
      → Move m schedules waiting (queue_schedule answer coroutine m) waiting

pub record System : Type 0 where
  pub mem : Shared
  pub pcs : List Pc

pub data Step (s : System) : MoveKind → System → Type 0 where
  by_thread :
      (i : ℕ) {k : MoveKind} {p p' : Pc} {m : Shared}
      → get_elem? s.pcs i ≡ some p
      → Move s.mem k p m p'
      → Step s k (record { mem = m; pcs = set s.pcs i p' })

abbrev pub all_outside : ℕ → List Pc
all_outside zero = []
all_outside (suc n) = outside ∷ all_outside n

-- Interrupts that fail, and coroutines that await `schedule`, come before a stop is requested.
abbrev pub IsTimely : MoveKind → Shared → Type 0
IsTimely works m = Unit {0}
IsTimely wait_fails m = Unit {0}
IsTimely interrupt_fails m = stop_requested m ≡ false
IsTimely schedules m = stop_requested m ≡ false

-- The states that `n` threads can bring a new context into, by moves that are timely.
pub data Reach (n : ℕ) : System → Type 0 where
  start : Reach n (record { mem = new_context; pcs = all_outside n })
  later : {s t : System} {k : MoveKind} → Reach n s → Step s k t → IsTimely k s.mem → Reach n t
