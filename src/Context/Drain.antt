-- ===== src/Context/Drain.antt =====
-- src/ice/context.cpp: once a stop has been requested, the threads in `run` wake each other up until all
-- of them have left.
use ice_test.Base.{
  ℕ, suc, ◌%◌, ◌^◌, ◌<◌, ◌≡◌, ◌⊎◌, inl, inr, refl, Bool, true, false, List, [], ◌∷◌, none, some,
  get_elem?, arith, Bool-cases,
}
use ice_test.Context.{armed, stop_requested, count_out, interrupt}
use ice_test.Context.Descent.{Descent, descend}
use ice_test.Context.System.{
  works, Pc, outside, waiting, checking, leaving, left, stopping, interrupted, check_stop, leave,
  pass_on, end_stop, System, Step, by_thread, Reach, later,
}
use ice_test.Context.Stop.{
  in_run, carries, population, total, total-set, IsCounted, Reach-IsCounted, stop_requested_iff,
}

-- How many steps a thread has to go.
abbrev pub rank : Pc → ℕ
rank outside = 0
rank stopping = 1
rank left = 1
rank leaving = 2
rank checking = 3
rank waiting = 4

-- Steps of `run` and `stop` at work that each bring a thread nearer to the outside; no thread enters or
-- goes back to wait, and no call fails.
abbrev pub Steps : System → System → Type 0
Steps = Descent (λ s t. Step s works t) (λ s. total rank s.pcs)

pub find :
    (f : Pc → Bool) (ps : List Pc)
    → (population f ps ≡ 0) ⊎ ((i : ℕ) × (p : Pc) × (get_elem? ps i ≡ some p) × (f p ≡ true))
find f [] = inl refl
find f (p ∷ ps) = elim (Bool-cases (f p)) [
  | inl here ↦ inr (0, p, refl, here)
  | inr not_here ↦ elim (find f ps) [
    | inl nowhere ↦ inl (ground (arith, not_here, nowhere))
    | inr (i, q, found, there) ↦ inr (suc i, q, found, there)
  ]
]

-- A step on the way out, which leaves the request to stop as it is.
abbrev Outward : System → Type 0
Outward s =
    (t : System) × Step s works t × (t.mem.state_ % 2 ≡ 1) × (total rank t.pcs < total rank s.pcs)

module _ (s : System) (flag : s.mem.state_ % 2 ≡ 1) (i : ℕ) where
  requested : stop_requested s.mem ≡ true
  requested = ground (arith, flag, stop_requested_iff s.mem)

  carry : (p : Pc) → get_elem? s.pcs i ≡ some p → carries p ≡ true → Outward s
  unfolding count_out interrupt
  carry checking found e = (
    _,
    by_thread i found (check_stop requested),
    flag,
    ground (arith, total-set rank s.pcs i checking leaving found),
  )
  carry leaving found e = (
    _,
    by_thread i found leave,
    ground (arith, flag),
    ground (arith, total-set rank s.pcs i leaving left found),
  )
  carry left found e = (
    _,
    by_thread i found (pass_on none),
    flag,
    ground (arith, total-set rank s.pcs i left outside found),
  )
  carry stopping found e = (
    _,
    by_thread i found (end_stop none),
    flag,
    ground (arith, total-set rank s.pcs i stopping outside found),
  )
  carry outside found e = absurd (cc)
  carry waiting found e = absurd (cc)

  wake :
      (p : Pc)
      → get_elem? s.pcs i ≡ some p
      → in_run p ≡ true
      → carries p ≡ false
      → armed s.mem ≡ true
      → Outward s
  wake waiting found e e' is_armed = (
    _,
    by_thread i found (interrupted is_armed),
    flag,
    ground (arith, total-set rank s.pcs i waiting checking found),
  )
  wake checking found e e' is_armed = absurd (cc)
  wake leaving found e e' is_armed = absurd (cc)
  wake outside found e e' is_armed = absurd (cc)
  wake left found e e' is_armed = absurd (cc)
  wake stopping found e e' is_armed = absurd (cc)

module _ (n : ℕ) (small : n < 2 ^ 31) where
  armed_when_quiet :
      (s : System)
      → IsCounted n s
      → s.mem.state_ % 2 ≡ 1
      → population carries s.pcs ≡ 0
      → armed s.mem ≡ true
  armed_when_quiet s h flag quiet = ground (arith, h.on_its_way, flag, quiet)

  -- The states from which threads are led out.
  abbrev IsAsked : System → Type 0
  IsAsked s = Reach n s × (s.mem.state_ % 2 ≡ 1)

  onward :
      (s : System)
      → Reach n s
      → Outward s
      → (t : System) × Step s works t × IsAsked t × (total rank t.pcs < total rank s.pcs)
  onward s r (t, step, flag, lower) = (t, step, (later r step tt, flag), lower)

  go-Outward :
      (s : System)
      → IsAsked s
      → (population in_run s.pcs ≡ 0)
        ⊎ ((t : System) × Step s works t × IsAsked t × (total rank t.pcs < total rank s.pcs))
  go-Outward s (r, flag) = elim (find carries s.pcs) [
    | inr (i, p, found, e) ↦ inr (onward s r (carry s flag i p found e))
    | inl quiet ↦ elim (find in_run s.pcs) [
      | inl nobody ↦ inl nobody
      | inr (i, p, found, e) ↦ elim (Bool-cases (carries p)) [
        | inl e' ↦ inr (onward s r (carry s flag i p found e'))
        | inr e' ↦
            let is_armed = armed_when_quiet s (Reach-IsCounted n small s r) flag quiet in
            inr (onward s r (wake s flag i p found e e' is_armed))
      ]
    ]
  ]

  -- From every state that fewer than 2 ^ 31 threads can bring a context into, if a stop has been
  -- requested, then steps at work, in which no system call fails, each of which takes some thread
  -- nearer to the end of run or of stop, lead to a state in which no thread is counted as running.
  -- The moves before are timely: an interrupt that fails, and a coroutine that awaits schedule,
  -- which takes the event of the context for itself, come before a stop is requested.
  pub stop_drains :
      (s : System)
      → Reach n s
      → stop_requested s.mem ≡ true
      → (t : System) × Steps s t × (population in_run t.pcs ≡ 0)
  stop_drains s r asked =
      descend (λ s t. Step s works t) (λ s. total rank s.pcs) IsAsked
        (λ t. population in_run t.pcs ≡ 0) go-Outward (suc (total rank s.pcs)) s
        (r, ground (arith, asked, stop_requested_iff s.mem)) (omega arith)

  -- In every state that fewer than 2 ^ 31 threads can bring a context into, if a stop has been
  -- requested, then an interrupt waits to be reported, or some thread has yet to look at the word
  -- or to call interrupt: the request is not lost between threads. The moves before are timely: an
  -- interrupt that fails, and a coroutine that awaits schedule, which takes the event of the
  -- context for itself, come before a stop is requested.
  pub stop_reaches :
      (s : System)
      → Reach n s
      → stop_requested s.mem ≡ true
      → (armed s.mem ≡ true) ⊎ (0 < population carries s.pcs)
  stop_reaches s r asked =
      ground (arith, asked, stop_requested_iff s.mem, (Reach-IsCounted n small s r).on_its_way)
