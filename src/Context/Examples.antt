-- ===== src/Context/Examples.antt =====
-- src/ice/context.cpp: two threads, of which one waits in `run` and the other calls `stop`; three batches; and
-- a constructor that gets both descriptors.
use ice_test.Base.Int.{pos}
use ice_test.Event.{Kernel, done}
use ice_test.Context.Create.{create_linux, Accounts, is_made, create_linux_keeps}
use ice_test.Context.Loop.{
  Wait, batch, broken, Running, new_running, posix_failure, run_loop, run_result,
}
use ice_test.Context.Looped.{goes_on, run_resumes}
use ice_test.Base.{ℕ, zero, suc, some, none, ◌≡◌, ◌↔◌, ◌⊎◌, ◌<◌, refl, true, arith, ◌∷◌, []}
use ice_test.Context.{
  armed, interrupting, new_context, count_in, request_stop, destroy_context_assert, stop_requested,
}
use ice_test.Context.System.{
  Pc, System, Reach, start, later, by_thread, Step, works, schedules, enter, call_stop, waiting,
  stopping,
}
use ice_test.Context.Stop.{request_stop_iff, population, in_run, carries}
use ice_test.Context.Drain.{Steps, rank, stop_drains, stop_reaches}
use ice_test.Context.Lost.{IsStuck, request_lost}
use ice_test.Context.Descent.{Descent}
use ice_test.Context.Emptied.{IsEmptied, stop_drains_port}
use ice_test.Context.Packets.{
  Port, seen, with_word, PortSystem, PortStep, PortReach, created, next, at_thread, enters,
  calls_stop,
}
use ice_test.Context.Stop.{total}

abbrev one_runs : System
one_runs = record { mem = count_in new_context; pcs = waiting ∷ Pc.outside ∷ [] }

abbrev one_stops : System
one_stops = record { mem = (request_stop (count_in new_context)).0; pcs = waiting ∷ stopping ∷ [] }

one_runs_reached : Reach 2 one_runs
one_runs_reached = later start (by_thread 0 refl enter) tt

one_stops_reached : Reach 2 one_stops
one_stops_reached = later one_runs_reached (by_thread 1 refl call_stop) tt

stop_asked : stop_requested one_stops.mem ≡ true
unfolding stop_requested request_stop count_in new_context
stop_asked = refl

request_stop_iff_example :
    (((request_stop one_runs.mem).1 ≡ true) ↔ (population in_run one_runs.pcs ≡ 0))
    × ((destroy_context_assert one_runs.mem ≡ true) ↔ (population in_run one_runs.pcs ≡ 0))
request_stop_iff_example = request_stop_iff 2 one_runs (omega arith) one_runs_reached

stop_drains_example : (t : System) × Steps one_stops t × (population in_run t.pcs ≡ 0)
stop_drains_example = stop_drains 2 (omega arith) one_stops one_stops_reached stop_asked

stop_reaches_example : (armed one_stops.mem ≡ true) ⊎ (0 < population carries one_stops.pcs)
stop_reaches_example = stop_reaches 2 (omega arith) one_stops one_stops_reached stop_asked

-- The stop has reached nobody yet, and its interrupt waits.
abbrev one_waits : System
one_waits = record {
  mem = record { state_ = 3; pending = interrupting };
  pcs = waiting ∷ Pc.outside ∷ [];
}

request_lost_example :
    (t : System) × (u : System) × Step one_waits schedules t
    × Step t works u
    × (stop_requested u.mem ≡ true)
    × (u.pcs ≡ one_waits.pcs)
    × IsStuck u
unfolding stop_requested
request_lost_example = request_lost one_waits 0 1 5 refl refl refl refl

-- A kernel that lets every call succeed.
abbrev kernel : Kernel
kernel = record { io = λ t size. done size; ctl = λ t. none }

create_linux_keeps_example :
    (Accounts (pos 3 ∷ []) (pos 4 ∷ []) (create_linux (done 3) (done 4) none))
    × (is_made (create_linux (done 3) (done 4) none) ≡ true)
create_linux_keeps_example = create_linux_keeps (done 3) (done 4) none

abbrev three_batches : ℕ → Wait
three_batches zero = batch (some 7 ∷ [])
three_batches (suc zero) = broken 4
three_batches i = batch (none ∷ some 8 ∷ [])

two_go_on : (k : ℕ) → k < 2 → goes_on (posix_failure 4) (three_batches k) true ≡ true
unfolding posix_failure
two_go_on zero lt = refl
two_go_on (suc zero) lt = refl
two_go_on (suc (suc k)) lt = absurd (omega (arith, lt))

run_resumes_example :
    (r : Running) × (run_loop (posix_failure 4) three_batches (λ i. true) 0 3 new_running ≡ some r)
    × (r.resumed ≡ 7 ∷ 8 ∷ [])
    × (run_result r ≡ none)
run_resumes_example =
    run_resumes (posix_failure 4) three_batches (λ i. true) 2 3 two_go_on refl
      (λ errno q. absurd (cc)) (omega arith)

-- The same two threads on Windows.
abbrev no_packets : Port
no_packets = record { state_ = 0; packets = 0 }

abbrev one_takes : Port
one_takes = with_word (count_in (seen no_packets)) no_packets

abbrev both_ports : PortSystem
both_ports = record {
  port = with_word (request_stop (seen one_takes)).0 one_takes;
  pcs = waiting ∷ stopping ∷ [];
}

both_ports_reached : PortReach 2 both_ports
both_ports_reached =
    next (next created (at_thread 0 refl enters) tt) (at_thread 1 refl calls_stop) tt

port_stop_asked : stop_requested (seen both_ports.port) ≡ true
unfolding stop_requested request_stop count_in
port_stop_asked = refl

stop_drains_port_example :
    (t : PortSystem) × Descent (λ s t. PortStep s works t) (λ u. total rank u.pcs) both_ports t
    × IsEmptied t
stop_drains_port_example =
    stop_drains_port 2 (omega arith) both_ports both_ports_reached port_stop_asked
