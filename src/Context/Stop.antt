-- ===== src/Context/Stop.antt =====
-- src/ice/context.cpp: what the word of a context counts, and that a stop reaches every thread.
use ice_test.Base.{
  ℕ, zero, suc, ◌+◌, ◌*◌, ◌%◌, ◌^◌, ◌≤◌, ◌<◌, ◌≡◌, ◌↔◌, ◌⊎◌, inl, inr, refl, Bool, true, false, not,
  List, [], ◌∷◌, none, some, get_elem?, set, length, length-set, if◌then◌else◌, arith, ◌==◌, ◌∙◌,
  ap,
}
use ice_test.Base.Bits.{bit_or-one, bit_and-one}
use ice_test.Context.{
  Shared, is_interrupting, armed, new_context, interrupt, queue_schedule, count_in, count_out,
  stop_requested, request_stop, destroy_context_assert,
}
use ice_test.Context.System.{
  Pc, outside, waiting, checking, leaving, left, stopping, MoveKind, IsTimely, Move, enter, batch,
  resumed, schedule_outside, schedule_within, interrupted, failing, check_stop, check_again, leave,
  pass_on, call_stop, end_stop, call_interrupt, System, by_thread, all_outside, Reach, start, later,
}

-- The threads between the two changes of the count in `run`.
abbrev pub in_run : Pc → Bool
in_run waiting = true
in_run checking = true
in_run leaving = true
in_run outside = false
in_run left = false
in_run stopping = false

-- The threads that have yet to look at the word, or to call `interrupt`.
abbrev pub carries : Pc → Bool
carries checking = true
carries leaving = true
carries left = true
carries stopping = true
carries outside = false
carries waiting = false

abbrev pub total : (Pc → ℕ) → List Pc → ℕ
total g [] = 0
total g (p ∷ ps) = g p + total g ps

abbrev pub population : (Pc → Bool) → List Pc → ℕ
population f ps = total (λ p. if f p then 1 else 0) ps

pub total-set :
    (g : Pc → ℕ) (ps : List Pc) (i : ℕ) (p p' : Pc)
    → get_elem? ps i ≡ some p
    → total g (set ps i p') + g p ≡ total g ps + g p'
total-set g [] i p p' found = cc
total-set g (q ∷ ps) zero p p' found = ground (arith, ap g (some_eq q p found))
  where
    some_eq : (q p : Pc) → some q ≡ some p → q ≡ p
    some_eq q p e = cc
total-set g (q ∷ ps) (suc i) p p' found = ground (arith, total-set g ps i p p' found)

population-set :
    (f : Pc → Bool) (ps : List Pc) (i : ℕ) (p p' : Pc)
    → get_elem? ps i ≡ some p
    → population f (set ps i p') + (if f p then 1 else 0)
      ≡ population f ps + (if f p' then 1 else 0)
population-set f ps i p p' found = total-set (λ p. if f p then 1 else 0) ps i p p' found

population_le : (f : Pc → Bool) (ps : List Pc) → population f ps ≤ length ps
population_le f [] = omega arith
population_le f (p ∷ ps) = ground (arith, population_le f ps)

-- The word counts the threads that run, and a stop that was requested is on its way to a thread.
pub record IsCounted (n : ℕ) (s : System) : Type 0 where
  pub threads : length s.pcs ≡ n
  pub counted : s.mem.state_ ≡ 2 * population in_run s.pcs + s.mem.state_ % 2
  pub on_its_way : (s.mem.state_ % 2 ≡ 0) ⊎ (armed s.mem ≡ true) ⊎ (0 < population carries s.pcs)

start-IsCounted : (n : ℕ) → IsCounted n (record { mem = new_context; pcs = all_outside n })
unfolding new_context
start-IsCounted n = record {
  threads = count n;
  counted = omega (arith, nobody n);
  on_its_way = inl refl;
}
  where
    count : (n : ℕ) → length (all_outside n) ≡ n
    count zero = refl
    count (suc n) = omega (arith, count n)

    nobody : (n : ℕ) → population in_run (all_outside n) ≡ 0
    nobody zero = refl
    nobody (suc n) = omega (arith, nobody n)

pub stop_requested_iff : (m : Shared) → stop_requested m ≡ not (m.state_ % 2 == 0)
unfolding stop_requested
stop_requested_iff m = ground (arith, bit_and-one m.state_)

module _ (n : ℕ) (small : n < 2 ^ 31) (s : System) (h : IsCounted n s) (i : ℕ) where
  -- A move that comes before a stop is requested.
  early : stop_requested s.mem ≡ false → s.mem.state_ % 2 ≡ 0
  early e = ground (arith, e, stop_requested_iff s.mem)

  Move-IsCounted :
      (k : MoveKind) (p : Pc) (m : Shared) (p' : Pc)
      → get_elem? s.pcs i ≡ some p
      → Move s.mem k p m p'
      → IsTimely k s.mem
      → IsCounted n (record { mem = m; pcs = set s.pcs i p' })
  unfolding count_in count_out interrupt request_stop queue_schedule
  Move-IsCounted k p m p' found move timely = record {
    threads = length-set s.pcs i p' ∙ h.threads;
    counted = count_kept k p m p' found move;
    on_its_way = way_kept k p m p' found move timely;
  }
    where
      count_kept :
          (k : MoveKind) (p : Pc) (m : Shared) (p' : Pc)
          → get_elem? s.pcs i ≡ some p
          → Move s.mem k p m p'
          → m.state_ ≡ 2 * population in_run (set s.pcs i p') + m.state_ % 2
      count_kept _ _ _ _ found enter = ground (
        arith,
        h.counted,
        h.threads,
        population_le in_run (set s.pcs i waiting),
        length-set s.pcs i waiting,
        population-set in_run s.pcs i outside waiting found,
      )
      count_kept _ _ _ _ found leave = ground (
        arith,
        h.counted,
        h.threads,
        small,
        population_le in_run s.pcs,
        population-set in_run s.pcs i leaving left found,
      )
      count_kept _ _ _ _ found batch =
          ground (arith, h.counted, population-set in_run s.pcs i waiting waiting found)
      count_kept _ _ _ _ found (interrupted e) =
          ground (arith, h.counted, population-set in_run s.pcs i waiting checking found)
      count_kept _ _ _ _ found failing =
          ground (arith, h.counted, population-set in_run s.pcs i waiting leaving found)
      count_kept _ _ _ _ found (check_stop e) =
          ground (arith, h.counted, population-set in_run s.pcs i checking leaving found)
      count_kept _ _ _ _ found (check_again e) =
          ground (arith, h.counted, population-set in_run s.pcs i checking waiting found)
      count_kept _ _ _ _ found (pass_on none) =
          ground (arith, h.counted, population-set in_run s.pcs i left outside found)
      count_kept _ _ _ _ found (pass_on (some errno)) =
          ground (arith, h.counted, population-set in_run s.pcs i left outside found)
      count_kept _ _ _ _ found call_stop = ground (
        arith,
        h.counted,
        bit_or-one s.mem.state_,
        population-set in_run s.pcs i outside stopping found,
      )
      count_kept _ _ _ _ found (end_stop none) =
          ground (arith, h.counted, population-set in_run s.pcs i stopping outside found)
      count_kept _ _ _ _ found (end_stop (some errno)) =
          ground (arith, h.counted, population-set in_run s.pcs i stopping outside found)
      count_kept _ _ _ _ found (call_interrupt none) =
          ground (arith, h.counted, population-set in_run s.pcs i outside outside found)
      count_kept _ _ _ _ found (call_interrupt (some errno)) =
          ground (arith, h.counted, population-set in_run s.pcs i outside outside found)
      count_kept _ _ _ _ found (resumed c e) =
          ground (arith, h.counted, population-set in_run s.pcs i waiting waiting found)
      count_kept _ _ _ _ found (schedule_outside none c) =
          ground (arith, h.counted, population-set in_run s.pcs i outside outside found)
      count_kept _ _ _ _ found (schedule_outside (some errno) c) =
          ground (arith, h.counted, population-set in_run s.pcs i outside outside found)
      count_kept _ _ _ _ found (schedule_within none c) =
          ground (arith, h.counted, population-set in_run s.pcs i waiting waiting found)
      count_kept _ _ _ _ found (schedule_within (some errno) c) =
          ground (arith, h.counted, population-set in_run s.pcs i waiting waiting found)

      way_kept :
          (k : MoveKind) (p : Pc) (m : Shared) (p' : Pc)
          → get_elem? s.pcs i ≡ some p
          → Move s.mem k p m p'
          → IsTimely k s.mem
          → (m.state_ % 2 ≡ 0) ⊎ (armed m ≡ true) ⊎ (0 < population carries (set s.pcs i p'))
      way_kept _ _ _ _ found enter timely =
          ground (arith, h.on_its_way, population-set carries s.pcs i outside waiting found)
      way_kept _ _ _ _ found (check_again go) timely = ground (
        arith,
        go,
        stop_requested_iff s.mem,
        h.on_its_way,
        population-set carries s.pcs i checking waiting found,
      )
      way_kept _ _ _ _ found batch timely =
          ground (arith, h.on_its_way, population-set carries s.pcs i waiting waiting found)
      way_kept _ _ _ _ found (interrupted e) timely =
          ground (arith, h.on_its_way, population-set carries s.pcs i waiting checking found)
      way_kept _ _ _ _ found failing timely =
          ground (arith, h.on_its_way, population-set carries s.pcs i waiting leaving found)
      way_kept _ _ _ _ found (check_stop e) timely =
          ground (arith, h.on_its_way, population-set carries s.pcs i checking leaving found)
      way_kept _ _ _ _ found leave timely = ground (
        arith,
        h.on_its_way,
        h.counted,
        h.threads,
        small,
        population_le in_run s.pcs,
        population-set carries s.pcs i leaving left found,
      )
      way_kept _ _ _ _ found call_stop timely =
          ground (arith, h.on_its_way, population-set carries s.pcs i outside stopping found)
      way_kept _ _ _ _ found (pass_on none) timely = inr (inl refl)
      way_kept _ _ _ _ found (pass_on (some errno)) timely = inl (early timely)
      way_kept _ _ _ _ found (end_stop none) timely = inr (inl refl)
      way_kept _ _ _ _ found (end_stop (some errno)) timely = inl (early timely)
      way_kept _ _ _ _ found (call_interrupt none) timely = inr (inl refl)
      way_kept _ _ _ _ found (call_interrupt (some errno)) timely = inl (early timely)
      way_kept _ _ _ _ found (resumed c e) timely = ground (
        arith,
        ap is_interrupting e,
        h.on_its_way,
        population-set carries s.pcs i waiting waiting found,
      )
      way_kept _ _ _ _ found (schedule_outside none c) timely = inl (early timely)
      way_kept _ _ _ _ found (schedule_outside (some errno) c) timely = inl (early timely)
      way_kept _ _ _ _ found (schedule_within none c) timely = inl (early timely)
      way_kept _ _ _ _ found (schedule_within (some errno) c) timely = inl (early timely)

pub Reach-IsCounted : (n : ℕ) → n < 2 ^ 31 → (s : System) → Reach n s → IsCounted n s
Reach-IsCounted n small _ start = start-IsCounted n
Reach-IsCounted n small _
      (later {s = s} r (by_thread i {k = k} {p = p} {p' = p'} {m = m} found move) timely) =
    Move-IsCounted n small s (Reach-IsCounted n small s r) i k p m p' found move timely

-- In every state that fewer than 2 ^ 31 threads can bring a context into, stop returns true exactly
-- when no thread is counted as running, between its two changes of the count in run, and the
-- assertion of the destructor holds exactly then too. The moves before are timely: an interrupt
-- that fails, and a coroutine that awaits schedule, which takes the event of the context for
-- itself, come before a stop is requested.
pub request_stop_iff :
    (n : ℕ) (s : System)
    → n < 2 ^ 31
    → Reach n s
    → (((request_stop s.mem).1 ≡ true) ↔ (population in_run s.pcs ≡ 0))
      × ((destroy_context_assert s.mem ≡ true) ↔ (population in_run s.pcs ≡ 0))
unfolding request_stop destroy_context_assert
request_stop_iff n s small r =
    let h = Reach-IsCounted n small s r in (ground (arith, h.counted), ground (arith, h.counted))
