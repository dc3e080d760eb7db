-- ===== src/Registry/Tests.antt =====
-- registry.go at concrete answers, and the runs that Stop does not prevent.
use xphone_go.Prelude.{ℕ, ◌+◌, ◌≤◌, ◌<◌, ◌≡◌, ◌↔◌, refl, Bool, true, ◌==◌, if◌then◌else◌}
use xphone_go.Registry.Defs.{
  Answer, transport_error, answered, success, registered, is_ok, run_attempts, begin, settle, stop,
  handle_drop,
}
use xphone_go.Registry.Steps.{
  System, Reachable, new_system, dropped, initial, after, begins, foreground_settles, drops, stops,
  background_settles,
}
use xphone_go.Registry.Retries.{Waited, run_attempts-success}
use xphone_go.Registry.InFlight.{Reachable-in_flight}

abbrev third : ℕ → Answer
third i = if i == 2 then answered 200 else transport_error

abbrev always : ℕ → Bool
always i = true

run_attempts-success_example :
    (run_attempts always third 5 ≡ success)
    ↔ ((i : ℕ) × (i < 5) × (is_ok (third i) ≡ true) × Waited always third 0 i)
run_attempts-success_example = run_attempts-success always third 5

-- A phone that registered and lost its connection.
abbrev started : System
started = record new_system { registry = begin new_system.registry; starting = 1 }

abbrev online : System
online = record started { registry = (settle success started.registry).0; starting = 0 }

abbrev lost : System
lost = dropped (handle_drop online.registry) online

lost-Reachable : Reachable lost
lost-Reachable =
    after (after (after initial (begins new_system)) (foreground_settles started 0 success refl))
      (drops online)

Reachable-in_flight_example :
    (lost.running + lost.settled ≤ 1)
    × (lost.registry.reregistering ≡ true → 0 < lost.running + lost.settled)
Reachable-in_flight_example = Reachable-in_flight lost-Reachable

-- The phone is stopped while the registration after the drop is under way, and then its answer comes.
abbrev stopped : System
stopped = record lost { registry = stop lost.registry }

abbrev answered_late : System
answered_late = record stopped {
  registry = (settle success stopped.registry).0;
  running = 0;
  settled = 1;
}

lost_running : lost.running ≡ 1
unfolding dropped handle_drop settle begin
lost_running = refl

registered_after_stop : Reachable answered_late × (answered_late.registry.state ≡ registered)
unfolding dropped handle_drop settle begin stop
registered_after_stop =
    (after (after lost-Reachable (stops lost)) (background_settles stopped 0 success refl), refl)
