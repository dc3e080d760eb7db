-- ===== src/Registry/Defs.antt =====
-- registry.go. The answers of the transport, and whether the wait before an attempt ends before the context does, are given by the number
-- of the attempt. A callback that is called is a line of the list of calls; every callback is set, and log lines are left
-- out.
use xphone_go.Prelude.{
  ℕ, zero, suc, ◌+◌, Bool, true, false, not, ◌&&◌, ◌||◌, Option, none, some, List, [], ◌∷◌, ltb,
  ◌==◌, if◌then◌else◌,
}

pub data PhoneState : Type 0 where
  disconnected registering registered unregistering registration_failed prepared : PhoneState

abbrev pub is_disconnected : PhoneState → Bool
is_disconnected disconnected = true
is_disconnected registering = false
is_disconnected registered = false
is_disconnected registration_failed = false
is_disconnected unregistering = false
is_disconnected prepared = false

abbrev pub is_registered : PhoneState → Bool
is_registered disconnected = false
is_registered registering = false
is_registered registered = true
is_registered registration_failed = false
is_registered unregistering = false
is_registered prepared = false

-- What SendRequest returns.
pub data Answer : Type 0 where
  transport_error : Answer
  answered : ℕ → Answer

abbrev pub is_ok : Answer → Bool
is_ok transport_error = false
is_ok (answered code) = code == 200

pub data Call : Type 0 where
  on_registered on_unregistered on_error : Call

-- `ctx_set` is whether `ctx` is not nil; `cancelled` whether `cancel` was called.
pub record Registry : Type 0 where
  pub state : PhoneState
  pub ctx_set : Bool
  pub cancelled : Bool
  pub reregistering : Bool

-- newRegistry.
abbrev pub new_registry : Registry
new_registry = record {
  state = disconnected;
  ctx_set = false;
  cancelled = false;
  reregistering = false;
}

-- How the loop of register ends, with the last answer where every attempt failed.
pub data Outcome : Type 0 where
  success : Outcome
  exhausted : Option Answer → Outcome
  ctx_done : Outcome

-- The loop of register, from one attempt on.
unfoldable pub attempts : (ℕ → Bool) → (ℕ → Answer) → ℕ → ℕ → Option Answer → Outcome
attempts waits answer attempt zero last = exhausted last
attempts waits answer attempt (suc left) last =
    let rest = attempts waits answer (attempt + 1) left (some (answer attempt)) in
    if ltb 0 attempt && not (waits attempt)
    then ctx_done
    else if is_ok (answer attempt)
    then success
    else rest

unfoldable pub run_attempts : (ℕ → Bool) → (ℕ → Answer) → ℕ → Outcome
unfolding attempts
run_attempts waits answer max_retry = attempts waits answer 0 max_retry none

-- What register does to the registry when its loop has ended, with the callback it calls.
unfoldable pub settle : Outcome → Registry → Registry × List Call
settle success r = (record r { state = registered }, on_registered ∷ [])
settle (exhausted last) r = (record r { state = registration_failed }, on_error ∷ [])
settle ctx_done r = (r, [])

unfoldable pub register : (ℕ → Bool) → (ℕ → Answer) → ℕ → Registry → Registry × List Call
unfolding run_attempts settle
register waits answer max_retry r = settle (run_attempts waits answer max_retry) r

-- Start up to its call of register.
unfoldable pub begin : Registry → Registry
begin r = record r { state = registering; ctx_set = true; cancelled = false }

-- Start: the lifecycle context is cancelled again when register fails; the result is whether it succeeds.
unfoldable pub start : (ℕ → Bool) → (ℕ → Answer) → ℕ → Registry → Registry × List Call × Bool
unfolding begin register run_attempts settle
start waits answer max_retry r = elim (run_attempts waits answer max_retry) [
  | success ↦ let (r', calls) = settle success (begin r) in (r', calls, true)
  | exhausted last ↦
      let (r', calls) = settle (exhausted last) (begin r) in
      (record r' { cancelled = true }, calls, false)
  | ctx_done ↦ (record (begin r) { cancelled = true }, [], false)
]

-- Stop.
unfoldable pub stop : Registry → Registry
stop r = record r { state = disconnected; cancelled = r.ctx_set || r.cancelled }

-- handleDrop, with whether it starts a registration in the background.
unfoldable pub handle_drop : Registry → Registry × List Call × Bool
handle_drop r =
    if is_disconnected r.state || r.reregistering
    then (r, [], false)
    else (record r { state = registering; reregistering = true }, on_unregistered ∷ [], r.ctx_set)

-- The end of that registration.
unfoldable pub reregistered : Registry → Registry
reregistered r = record r { reregistering = false }

-- refresh: nothing happens on a 200.
unfoldable pub refresh : Answer → Registry → Registry × List Call × Bool
unfolding handle_drop
refresh answer r = if is_ok answer then (r, [], false) else handle_drop r

-- UnregisterCtx: whether it sends a REGISTER that expires at once; the state stays.
unfoldable pub unregister : Registry → Bool
unregister r = is_registered r.state

-- OnRegistered: whether the callback is called at once.
unfoldable pub set_on_registered : Registry → List Call
set_on_registered r = if is_registered r.state then on_registered ∷ [] else []
