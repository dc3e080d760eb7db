-- ===== src/Call/Invariant.antt =====
-- call.go: the invariant of a call: it ends once, and then holds nothing.
use xphone_go.Prelude.{ℕ, ◌+◌, ◌≡◌, ◌≢◌, false, List, [], ◌∷◌, if◌then◌else◌}
use xphone_go.Call.State.{Call, ended, Action, ended_fired, is_state}
use xphone_go.Call.Release.{Released}

abbrev is_end : Action → ℕ
is_end (ended_fired r) = 1
is_end _ = 0

-- How often the OnEnded callbacks were dispatched.
abbrev pub ended_count : List Action → ℕ
ended_count [] = 0
ended_count (a ∷ rest) = is_end a + ended_count rest

pub record IsValid (c : Call) : Type 0 where
  pub released : c.state ≡ ended → Released c
  pub once : ended_count c.log ≡ (if is_state ended c.state then 1 else 0)
  pub open_while_live : c.state ≢ ended → c.callbacks_closed ≡ false
