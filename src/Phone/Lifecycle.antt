-- ===== src/Phone/Lifecycle.antt =====
-- xphone.go: Connect, Prepare, Register, Unregister and Disconnect, one function for each section
-- under the lock. The generation is a natural number, a transport the number it was made with; the
-- registry, the MWI subscriber and the subscription manager are there or nil. What a section does
-- after its unlock is a list of effects.
use xphone_go.Prelude.{
  ℕ, suc, Bool, true, false, not, ◌&&◌, Option, none, some, List, [], ◌∷◌, ◌==◌, if◌then◌else◌,
}
use xphone_go.Text.Defs.{Text, is_empty}

-- events.go.
pub data PhoneState : Type 0 where
  disconnected registering registered unregistering registration_failed prepared : PhoneState

pub record Phone : Type 0 where
  pub state : PhoneState
  pub preparing : Bool
  pub lifecycle_gen : ℕ
  pub local_ip : Text
  pub tr : Option ℕ
  pub reg : Bool
  pub mwi : Bool
  pub sub_mgr : Bool
  pub reg_cancel : Option ℕ
  pub calls : List Text

abbrev pub new_phone : Text → Phone
new_phone ip = record {
  state = disconnected;
  preparing = false;
  lifecycle_gen = 0;
  local_ip = ip;
  tr = none;
  reg = false;
  mwi = false;
  sub_mgr = false;
  reg_cancel = none;
  calls = [];
}

pub data LifecycleError : Type 0 where
  already_connected invalid_state not_connected context_done : LifecycleError

pub data Effect : Type 0 where
  close : ℕ → Effect
  cancel_registration : ℕ → Effect
  end_call : Text → Effect
  stop_sub_mgr stop_mwi unregister_and_stop fire_unregistered : Effect

-- Which method an attempt runs in.
pub data Kind : Type 0 where
  connect prepare register : Kind

-- How a method's first section ends: an error, nil at once, or an attempt whose transport is to be
-- set up, or that registers on the one it has.
pub data Began : Type 0 where
  refused : LifecycleError → Began
  satisfied : Began
  sets_up registers_now : Phone → Began

abbrev pub begin_registering : Phone → Phone
begin_registering p = record p { state = registering; lifecycle_gen = suc p.lifecycle_gen }

abbrev pub connect_from : PhoneState → Phone → Began
connect_from disconnected p = sets_up (begin_registering p)
connect_from registering p = refused already_connected
connect_from registered p = refused already_connected
connect_from unregistering p = refused already_connected
connect_from registration_failed p = refused already_connected
connect_from prepared p = refused already_connected

-- Connect up to prepareTransport.
unfoldable pub begin_connect : Phone → Began
begin_connect p = connect_from p.state p

abbrev pub has_transport : Option ℕ → Bool
has_transport none = false
has_transport (some t) = true

abbrev pub if_attached : Phone → Began
if_attached p = if has_transport p.tr then satisfied else refused invalid_state

abbrev pub prepare_from : PhoneState → Phone → Began
prepare_from disconnected p =
    sets_up (record p { preparing = true; lifecycle_gen = suc p.lifecycle_gen })
prepare_from registering p = if_attached p
prepare_from registered p = if_attached p
prepare_from unregistering p = if_attached p
prepare_from registration_failed p = if_attached p
prepare_from prepared p = if_attached p

-- Prepare up to prepareTransport; the flag says that the context is not done.
unfoldable pub begin_prepare : Bool → Phone → Began
begin_prepare live p =
    if not live
    then refused context_done
    else if p.preparing
    then refused invalid_state
    else prepare_from p.state p

abbrev pub again : Phone → Began
again p = registers_now (begin_registering (record p { reg = true }))

abbrev pub register_from : PhoneState → Phone → Began
register_from disconnected p = sets_up (begin_registering p)
register_from registering p = refused invalid_state
register_from registered p = satisfied
register_from unregistering p = refused invalid_state
register_from registration_failed p = again p
register_from prepared p = again p

-- Register up to prepareTransport or runRegistration.
unfoldable pub begin_register : Bool → Phone → Began
begin_register live p = if not live then refused context_done else register_from p.state p

abbrev pub is_registering : PhoneState → Bool
is_registering registering = true
is_registering disconnected = false
is_registering registered = false
is_registering unregistering = false
is_registering registration_failed = false
is_registering prepared = false

-- The closures stillValid.
unfoldable pub still_valid : Kind → Bool → ℕ → Phone → Bool
still_valid connect live gen p = live && (p.lifecycle_gen == gen) && is_registering p.state
still_valid prepare live gen p = live && (p.lifecycle_gen == gen) && p.preparing
still_valid register live gen p = live && (p.lifecycle_gen == gen) && is_registering p.state

-- prepareTransport after STUN, with the address found or the empty text; `none` is the error.
unfoldable pub after_stun : Kind → Bool → ℕ → Text → Phone → Option Phone
after_stun kind live gen ip p =
    if not (still_valid kind live gen p)
    then none
    else some (if is_empty ip then p else record p { local_ip = ip })

-- prepareTransport once the transport is built.
unfoldable pub attach : Kind → Bool → ℕ → ℕ → Phone → Option Phone
attach kind live gen t p =
    if not (still_valid kind live gen p) then none else some (record p { tr = some t; reg = true })

-- teardownAfterPrepareError, whose callers' marker is Registering.
unfoldable pub teardown : ℕ → Phone → Phone
teardown gen p =
    if (p.lifecycle_gen == gen) && is_registering p.state
    then record p { state = disconnected; tr = none; reg = false }
    else p

-- The last section of Prepare; the flag says whether prepareTransport succeeded.
unfoldable pub end_prepare : Bool → ℕ → Phone → Phone
end_prepare ok gen p =
    if not (p.lifecycle_gen == gen)
    then p
    else if ok
    then record p { preparing = false; state = prepared }
    else record p { preparing = false; tr = none; reg = false }

-- The first section of runRegistration; `none` is ErrInvalidState.
unfoldable pub begin_run : ℕ → Phone → Option Phone
begin_run gen p =
    if not (p.lifecycle_gen == gen) then none else some (record p { reg_cancel = some gen })

-- The section after the registry's Start; `none` leaves a stale result alone.
unfoldable pub publish : Bool → ℕ → Phone → Option Phone
publish ok gen p =
    if not ((p.lifecycle_gen == gen) && is_registering p.state)
    then none
    else some
        (record p { reg_cancel = none; state = if ok then registered else registration_failed })

abbrev pub is_registered : PhoneState → Bool
is_registered registered = true
is_registered disconnected = false
is_registered registering = false
is_registered unregistering = false
is_registered registration_failed = false
is_registered prepared = false

-- The guarded assignments of the services; one that comes too late is stopped.
unfoldable pub store_mwi : ℕ → Phone → Phone × List Effect
store_mwi gen p =
    if (p.lifecycle_gen == gen) && is_registered p.state
    then (record p { mwi = true }, [])
    else (p, stop_mwi ∷ [])

unfoldable pub store_sub_mgr : ℕ → Phone → Phone × List Effect
store_sub_mgr gen p =
    if (p.lifecycle_gen == gen) && is_registered p.state
    then (record p { sub_mgr = true }, [])
    else (p, stop_sub_mgr ∷ [])

abbrev pub close_all : Option ℕ → List Effect
close_all none = []
close_all (some t) = close t ∷ []

-- Connect after a failed runRegistration.
unfoldable pub fail_connect : ℕ → Phone → Phone × List Effect
fail_connect gen p =
    if not (p.lifecycle_gen == gen)
    then (p, [])
    else (record p { tr = none; reg = false; state = disconnected }, close_all p.tr)
