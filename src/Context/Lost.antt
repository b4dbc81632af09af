-- ===== src/Context/Lost.antt =====
-- src/ice/context.cpp: a request to stop that a coroutine which awaits `schedule` takes the event from.
use ice_test.Base.{
  ℕ, zero, suc, ◌≡◌, refl, ap, ◌∙◌, sym, true, List, [], ◌∷◌, none, some, get_elem?, set, arith,
  if◌then◌else◌,
}
use ice_test.Context.{Shared, is_interrupting, idle, stop_requested, queue_schedule}
use ice_test.Context.Stop.{in_run, carries, population, total-set}
use ice_test.Context.System.{
  Pc, outside, waiting, checking, leaving, left, stopping, MoveKind, works, schedules, Move, enter,
  batch, interrupted, failing, check_stop, check_again, leave, pass_on, call_stop, end_stop,
  call_interrupt, schedule_outside, schedule_within, resumed, System, Step, by_thread,
}

set_same : (ps : List Pc) (i : ℕ) (p : Pc) → get_elem? ps i ≡ some p → set ps i p ≡ ps
set_same [] i p found = absurd (cc)
set_same (q ∷ ps) zero p found = ap (λ r. r ∷ ps) (sym (some_eq q p found))
  where
    some_eq : (q p : Pc) → some q ≡ some p → q ≡ p
    some_eq q p e = cc
set_same (q ∷ ps) (suc i) p found = ap (λ rs. q ∷ rs) (set_same ps i p found)

-- In run, without an event to be reported, a thread that waits goes on waiting.
waits_on :
    (m : Shared) (k : MoveKind) (p : Pc) (m' : Shared) (p' : Pc)
    → m.pending ≡ idle
    → k ≡ works
    → p ≡ waiting
    → Move m k p m' p'
    → (m' ≡ m) × (p' ≡ waiting)
waits_on m _ _ _ _ nothing at_work here batch = (refl, refl)
waits_on m _ _ _ _ nothing at_work here (resumed c e) = absurd (cc)
waits_on m _ _ _ _ nothing at_work here (interrupted e) =
    let off = ap is_interrupting nothing in absurd (cc)
waits_on m _ _ _ _ nothing at_work here failing = absurd (cc)
waits_on m _ _ _ _ nothing at_work here enter = absurd (cc)
waits_on m _ _ _ _ nothing at_work here (check_stop e) = absurd (cc)
waits_on m _ _ _ _ nothing at_work here (check_again e) = absurd (cc)
waits_on m _ _ _ _ nothing at_work here leave = absurd (cc)
waits_on m _ _ _ _ nothing at_work here (pass_on a) = absurd (cc)
waits_on m _ _ _ _ nothing at_work here call_stop = absurd (cc)
waits_on m _ _ _ _ nothing at_work here (end_stop a) = absurd (cc)
waits_on m _ _ _ _ nothing at_work here (call_interrupt a) = absurd (cc)
waits_on m _ _ _ _ nothing at_work here (schedule_outside a c) = absurd (cc)
waits_on m _ _ _ _ nothing at_work here (schedule_within a c) = absurd (cc)

-- Where nobody carries the request, the threads in run are those that wait.
quiet_waits :
    (ps : List Pc) (i : ℕ) (p : Pc)
    → population carries ps ≡ 0
    → get_elem? ps i ≡ some p
    → in_run p ≡ true
    → p ≡ waiting
quiet_waits ps i waiting quiet found inside = refl
quiet_waits ps i checking quiet found inside =
    absurd (
      ground
        (arith, quiet, total-set (λ p. if carries p then 1 else 0) ps i checking outside found))
quiet_waits ps i leaving quiet found inside =
    absurd (
      ground (arith, quiet, total-set (λ p. if carries p then 1 else 0) ps i leaving outside found))
quiet_waits ps i outside quiet found inside = absurd (cc)
quiet_waits ps i left quiet found inside = absurd (cc)
quiet_waits ps i stopping quiet found inside = absurd (cc)

-- The threads in run go on waiting, however they work.
abbrev pub IsStuck : System → Type 0
IsStuck u =
    (l : ℕ) (p : Pc) (m : Shared) (p' : Pc)
    → get_elem? u.pcs l ≡ some p
    → in_run p ≡ true
    → Move u.mem works p m p'
    → (m ≡ u.mem) × (p' ≡ waiting)

module _ (s : System) (i j coroutine : ℕ) where
  -- In any state in which a stop has been requested, a thread waits in run, another thread is
  -- outside, and no thread has yet to look at the word or to call interrupt, two moves at most lose
  -- the request: a coroutine in the thread outside awaits schedule, and the waiting thread resumes
  -- it. The stop is requested still and all threads stand as before, but each thread in run goes on
  -- waiting, whatever it does while no system call fails: nothing is left to wake it up.
  pub request_lost :
      get_elem? s.pcs i ≡ some waiting
      → get_elem? s.pcs j ≡ some outside
      → stop_requested s.mem ≡ true
      → population carries s.pcs ≡ 0
      → (t : System) × (u : System) × Step s schedules t
        × Step t works u
        × (stop_requested u.mem ≡ true)
        × (u.pcs ≡ s.pcs)
        × IsStuck u
  unfolding queue_schedule stop_requested
  request_lost inside apart asked quiet =
      let kept = set_same s.pcs j outside apart in
      let there : get_elem? (set s.pcs j outside) i ≡ some waiting =
        ap (λ ps. get_elem? ps i) kept ∙ inside in
      let same : set (set s.pcs j outside) i waiting ≡ s.pcs =
        set_same (set s.pcs j outside) i waiting there ∙ kept in
      (
        _,
        _,
        by_thread j apart (schedule_outside none coroutine),
        by_thread i there (resumed coroutine refl),
        asked,
        same,
        λ l p m p' found inside move.
            waits_on _ works p m p' refl refl
              (quiet_waits s.pcs l p quiet (ap (λ ps. get_elem? ps l) (sym same) ∙ found) inside)
              move,
      )
