-- ===== src/Phone/Ending.antt =====
-- xphone.go: the sections of Unregister and Disconnect.
use xphone_go.Prelude.{
  ℕ, suc, Bool, false, Option, none, some, List, [], ◌∷◌, ◌++◌, map, if◌then◌else◌,
}
use xphone_go.Phone.Lifecycle.{
  PhoneState, Phone, Effect, close_all, disconnected, registering, registered, unregistering,
  registration_failed, prepared, cancel_registration, end_call, stop_sub_mgr, stop_mwi,
  unregister_and_stop, fire_unregistered,
}

abbrev pub when : Bool → Effect → List Effect
when c e = if c then e ∷ [] else []

abbrev pub leave : Phone → Phone × List Effect
leave p = (
  record p { state = unregistering; reg = false; mwi = false; sub_mgr = false },
  when p.sub_mgr stop_sub_mgr ++ (when p.mwi stop_mwi ++ when p.reg unregister_and_stop),
)

abbrev pub unregister_from : PhoneState → Phone → Option (Phone × List Effect)
unregister_from registered p = some (leave p)
unregister_from registration_failed p = some (leave p)
unregister_from disconnected p = none
unregister_from registering p = none
unregister_from unregistering p = none
unregister_from prepared p = none

-- Unregister up to its services; `none` is ErrInvalidState.
unfoldable pub begin_unregister : Phone → Option (Phone × List Effect)
begin_unregister p = unregister_from p.state p

abbrev pub end_from : PhoneState → Phone → Phone × List Effect
end_from unregistering p = (record p { state = prepared }, fire_unregistered ∷ [])
end_from disconnected p = (p, [])
end_from registering p = (p, [])
end_from registered p = (p, [])
end_from registration_failed p = (p, [])
end_from prepared p = (p, [])

-- The last section of Unregister.
unfoldable pub end_unregister : Phone → Phone × List Effect
end_unregister p = end_from p.state p

abbrev cancel_of : Option ℕ → List Effect
cancel_of none = []
cancel_of (some gen) = cancel_registration gen ∷ []

abbrev pub tear_down : Phone → Phone × List Effect
tear_down p = (
  record p {
    lifecycle_gen = suc p.lifecycle_gen;
    reg_cancel = none;
    state = disconnected;
    reg = false;
    tr = none;
    mwi = false;
    sub_mgr = false;
    calls = [];
  },
  cancel_of p.reg_cancel
      ++ (map (λ c. end_call c) p.calls
          ++ (when p.sub_mgr stop_sub_mgr
              ++ (when p.mwi stop_mwi
                  ++ (when p.reg unregister_and_stop
                      ++ (close_all p.tr ++ (fire_unregistered ∷ [])))))),
)

abbrev pub drop_prepare : Phone → Option (Phone × List Effect)
drop_prepare p =
    if p.preparing
    then some (
      record p { preparing = false; lifecycle_gen = suc p.lifecycle_gen; tr = none; reg = false },
      close_all p.tr,
    )
    else none

abbrev pub disconnect_from : PhoneState → Phone → Option (Phone × List Effect)
disconnect_from disconnected p = drop_prepare p
disconnect_from registering p = some (tear_down p)
disconnect_from registered p = some (tear_down p)
disconnect_from unregistering p = some (tear_down p)
disconnect_from registration_failed p = some (tear_down p)
disconnect_from prepared p = some (tear_down p)

-- Disconnect; `none` is ErrNotConnected.
unfoldable pub disconnect : Phone → Option (Phone × List Effect)
disconnect p = disconnect_from p.state p
