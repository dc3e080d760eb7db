-- ===== src/Registry/Steps.antt =====
-- registry.go: the steps of the goroutines that share a registry. Each step is one section under the lock. A registration that runs in the background
-- is counted until it has cleared `reregistering`; it settles, with any outcome, before it does.
use xphone_go.Prelude.{ℕ, suc, ◌≡◌, Bool, true, if◌then◌else◌, List}
use xphone_go.Registry.Defs.{
  Registry, Answer, Outcome, Call, new_registry, begin, settle, stop, handle_drop, reregistered,
  refresh,
}

-- The registry with the number of calls of Start that have not settled, of background registrations that run and of those that have settled but not yet cleared the flag.
pub record System : Type 0 where
  pub registry : Registry
  pub starting : ℕ
  pub running : ℕ
  pub settled : ℕ

abbrev pub first : Registry × List Call × Bool → Registry
first (r, calls, spawned) = r

abbrev pub spawns : Registry × List Call × Bool → Bool
spawns (r, calls, spawned) = spawned

-- Start's lifecycleCancel when register fails.
abbrev pub cancelled_by_start : Registry → Registry
cancelled_by_start r = record r { cancelled = true }

unfoldable pub dropped : Registry × List Call × Bool → System → System
dropped result s = record s {
  registry = first result;
  running = if spawns result then suc s.running else s.running;
}

pub data Step : System → System → Type 0 where
  begins :
      (s : System) → Step s (record s { registry = begin s.registry; starting = suc s.starting })
  foreground_settles :
      (s : System) (n : ℕ) (o : Outcome)
      → s.starting ≡ suc n
      → Step s (record s { registry = (settle o s.registry).0; starting = n })
  start_fails : (s : System) → Step s (record s { registry = cancelled_by_start s.registry })
  stops : (s : System) → Step s (record s { registry = stop s.registry })
  drops : (s : System) → Step s (dropped (handle_drop s.registry) s)
  refreshes : (s : System) (a : Answer) → Step s (dropped (refresh a s.registry) s)
  background_settles :
      (s : System) (n : ℕ) (o : Outcome)
      → s.running ≡ suc n
      → Step s
          (record s { registry = (settle o s.registry).0; running = n; settled = suc s.settled })
  background_clears :
      (s : System) (n : ℕ)
      → s.settled ≡ suc n
      → Step s (record s { registry = reregistered s.registry; settled = n })

abbrev pub new_system : System
new_system = record { registry = new_registry; starting = 0; running = 0; settled = 0 }

-- The systems that come from a new registry.
pub data Reachable : System → Type 0 where
  initial : Reachable new_system
  after : {s t : System} → Reachable s → Step s t → Reachable t
