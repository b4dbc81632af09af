-- ===== src/Context/Emptied.antt =====
-- src/ice/context.cpp, on Windows: once a stop has been requested, the packets lead all threads out of `run`.
use ice_test.Base.{
  ℕ, zero, suc, ◌%◌, ◌^◌, ◌<◌, ◌≡◌, ◌⊎◌, inl, inr, refl, true, false, none, some, get_elem?, arith,
  Bool, Bool-cases, if◌then◌else◌,
}
use ice_test.Context.{
  is_interrupting, interrupting, idle, stop_requested, count_out, destroy_context_assert,
}
use ice_test.Context.Descent.{Descent, descend}
use ice_test.Context.Drain.{rank, find}
use ice_test.Context.Packets.{
  seen, any_waits, post, takes, stops, leaves, passes_on, ends_stop, PortSystem, PortStep,
  at_thread, PortReach, next, image, PortReach-Reach,
}
use ice_test.Context.Stop.{
  in_run, carries, population, total, total-set, Reach-IsCounted, request_stop_iff,
  stop_requested_iff,
}
use ice_test.Context.System.{works, Pc, outside, waiting, checking, leaving, left, stopping}

seen_armed : (b : Bool) → is_interrupting (if b then interrupting else idle) ≡ b
seen_armed true = refl
seen_armed false = refl

abbrev OutwardStep : PortSystem → Type 0
OutwardStep s =
    (t : PortSystem) × PortStep s works t
    × (t.port.state_ % 2 ≡ 1)
    × (total rank t.pcs < total rank s.pcs)

module _ (s : PortSystem) (flag : s.port.state_ % 2 ≡ 1) (i : ℕ) where
  requested : stop_requested (seen s.port) ≡ true
  requested = ground (arith, flag, stop_requested_iff (seen s.port))

  carry_port : (p : Pc) → get_elem? s.pcs i ≡ some p → carries p ≡ true → OutwardStep s
  unfolding count_out post
  carry_port checking found e = (
    _,
    at_thread i found (stops requested),
    flag,
    ground (arith, total-set rank s.pcs i checking leaving found),
  )
  carry_port leaving found e = (
    _,
    at_thread i found leaves,
    ground (arith, flag),
    ground (arith, total-set rank s.pcs i leaving left found),
  )
  carry_port left found e = (
    _,
    at_thread i found (passes_on none),
    flag,
    ground (arith, total-set rank s.pcs i left outside found),
  )
  carry_port stopping found e = (
    _,
    at_thread i found (ends_stop none),
    flag,
    ground (arith, total-set rank s.pcs i stopping outside found),
  )
  carry_port outside found e = absurd (cc)
  carry_port waiting found e = absurd (cc)

  wake_port :
      (p : Pc) (packets : ℕ)
      → s.port.packets ≡ packets
      → get_elem? s.pcs i ≡ some p
      → in_run p ≡ true
      → carries p ≡ false
      → any_waits packets ≡ true
      → OutwardStep s
  wake_port waiting (suc rest) q found e e' waits = (
    _,
    at_thread i found (takes 0 rest omega (arith, q)),
    flag,
    ground (arith, total-set rank s.pcs i waiting checking found),
  )
  wake_port waiting zero q found e e' waits = absurd (cc)
  wake_port checking packets q found e e' waits = absurd (cc)
  wake_port leaving packets q found e e' waits = absurd (cc)
  wake_port outside packets q found e e' waits = absurd (cc)
  wake_port left packets q found e e' waits = absurd (cc)
  wake_port stopping packets q found e e' waits = absurd (cc)

-- No thread is counted as running, and the destructor may be called.
abbrev pub IsEmptied : PortSystem → Type 0
IsEmptied s = (population in_run s.pcs ≡ 0) × (destroy_context_assert (seen s.port) ≡ true)

module _ (n : ℕ) (small : suc n < 2 ^ 31) where
  abbrev IsAskedPort : PortSystem → Type 0
  IsAskedPort s = PortReach n s × (s.port.state_ % 2 ≡ 1)

  onward_port :
      (s : PortSystem)
      → PortReach n s
      → OutwardStep s
      → (t : PortSystem) × PortStep s works t
        × IsAskedPort t
        × (total rank t.pcs < total rank s.pcs)
  onward_port s r (t, step, flag, lower) = (t, step, (next r step tt, flag), lower)

  waits_when_quiet :
      (s : PortSystem)
      → IsAskedPort s
      → population carries s.pcs ≡ 0
      → any_waits s.port.packets ≡ true
  waits_when_quiet s (r, flag) quiet = ground (
    arith,
    (Reach-IsCounted (suc n) small (image s) (PortReach-Reach n s r)).on_its_way,
    seen_armed (any_waits s.port.packets),
    flag,
    quiet,
  )

  emptied : (s : PortSystem) → PortReach n s → population in_run s.pcs ≡ 0 → IsEmptied s
  emptied s r nobody = (
    nobody,
    (request_stop_iff (suc n) (image s) small (PortReach-Reach n s r)).1.1 (omega (arith, nobody)),
  )

  go_on_port :
      (s : PortSystem)
      → IsAskedPort s
      → IsEmptied s
        ⊎ ((t : PortSystem) × PortStep s works t
            × IsAskedPort t
            × (total rank t.pcs < total rank s.pcs))
  go_on_port s (r, flag) = elim (find carries s.pcs) [
    | inr (i, p, found, e) ↦ inr (onward_port s r (carry_port s flag i p found e))
    | inl quiet ↦ elim (find in_run s.pcs) [
      | inl nobody ↦ inl (emptied s r nobody)
      | inr (i, p, found, e) ↦ elim (Bool-cases (carries p)) [
        | inl e' ↦ inr (onward_port s r (carry_port s flag i p found e'))
        | inr e' ↦
            let waits = waits_when_quiet s (r, flag) quiet in
            inr (onward_port s r (wake_port s flag i p s.port.packets refl found e e' waits))
      ]
    ]
  ]

  -- On Windows, from every state that fewer than 2 ^ 31 - 1 threads can bring a context into, if a
  -- stop has been requested, then steps at work, in which no system call fails, each of which takes
  -- some thread nearer to the end of run or of stop, lead to a state in which no thread is counted
  -- as running and the assertion of the destructor holds. A packet that cannot be posted for an
  -- interrupt comes before a stop is requested.
  pub stop_drains_port :
      (s : PortSystem)
      → PortReach n s
      → stop_requested (seen s.port) ≡ true
      → (t : PortSystem) × Descent (λ s t. PortStep s works t) (λ u. total rank u.pcs) s t
        × IsEmptied t
  stop_drains_port s r asked =
      descend (λ s t. PortStep s works t) (λ u. total rank u.pcs) IsAskedPort IsEmptied go_on_port
        (suc (total rank s.pcs)) s (r, ground (arith, asked, stop_requested_iff (seen s.port)))
        (omega arith)
