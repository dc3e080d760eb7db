-- ===== src/Phone/Tests.antt =====
-- xphone.go: runs of the lifecycle.
use xphone_go.Prelude.{◌≡◌, refl, arith, true, false, none, some, [], ◌∷◌}
use xphone_go.Text.Defs.{ascii}
use xphone_go.Phone.Lifecycle.{
  Phone, new_phone, connect, refused, invalid_state, begin_connect, begin_prepare,
  begin_registering, end_prepare, still_valid, after_stun, attach, begin_run, publish, store_mwi,
  store_sub_mgr, fail_connect, stop_mwi, stop_sub_mgr, registered, fire_unregistered,
}
use xphone_go.Phone.Ending.{disconnect, tear_down}
use xphone_go.Phone.Attempts.{
  System, set_up_failed, new_system, Reachable, starts, goes, connects, attaches, runs_connect,
  publishes, move, setting_up, attached, running, served,
}
use xphone_go.Phone.Later.{Leads, here, then_step, overtaken_after}
use xphone_go.Phone.Marks.{is_up, is_down, HasTransport}
use xphone_go.Phone.Attached.{is_preparing, Reachable-transport}
use xphone_go.Phone.Overtaken.{begin_prepare-begin_connect}

abbrev idle_phone : Phone
idle_phone = new_phone (ascii "192.0.2.7")

abbrev preparing_phone : Phone
preparing_phone = record idle_phone { preparing = true; lifecycle_gen = 1 }

abbrev connecting_phone : Phone
connecting_phone = begin_registering preparing_phone

abbrev left_phone : Phone
left_phone = (tear_down connecting_phone).0

begin_prepare-begin_connect_example :
    (end_prepare true 1 left_phone ≡ left_phone)
    × (begin_prepare true left_phone ≡ refused invalid_state)
unfolding begin_prepare begin_connect disconnect
begin_prepare-begin_connect_example =
    begin_prepare-begin_connect true true idle_phone preparing_phone connecting_phone left_phone
      (fire_unregistered ∷ []) refl refl refl

-- A Connect that has registered.
abbrev connecting : System
connecting =
    move 1 (setting_up connect) (begin_registering idle_phone) (new_system (ascii "192.0.2.7"))

abbrev bound_phone : Phone
bound_phone = record (begin_registering idle_phone) { tr = some 0; reg = true }

abbrev bound : System
bound = record (move 1 (attached connect) bound_phone connecting) { next_tr = 1 }

abbrev waiting : System
waiting = move 1 (running connect) (record bound_phone { reg_cancel = some 1 }) bound

abbrev done : System
done = move 1 served (record bound_phone { state = registered }) waiting

done-Reachable : Reachable done
unfolding begin_connect attach still_valid begin_run publish
done-Reachable =
    goes waiting done
      (goes bound waiting
        (goes connecting bound
          (goes (new_system (ascii "192.0.2.7")) connecting (starts (ascii "192.0.2.7"))
            (connects (new_system (ascii "192.0.2.7")) (begin_registering idle_phone) refl))
          (attaches connecting 1 connect true refl))
        (runs_connect bound 1 refl))
      (publishes waiting 1 connect true refl)

Reachable-transport_example :
    (is_up done.phone.state ≡ true → HasTransport done.phone)
    × (is_down done.phone.state ≡ true
        → is_preparing (done.phase done.phone.lifecycle_gen) ≡ false
        → done.phone.tr ≡ none)
Reachable-transport_example = Reachable-transport done done-Reachable

-- The first Connect is left by Disconnect once it has its transport, and another is begun.
abbrev left : System
left = record bound { phone = (tear_down bound_phone).0 }

abbrev again : System
again = move 3 (setting_up connect) (begin_registering left.phone) left

left-again : Leads left again
unfolding begin_connect
left-again = then_step here (connects left (begin_registering left.phone) refl)

overtaken_after_example :
    (after_stun connect true 1 (ascii "198.51.100.4") again.phone ≡ none)
    × (attach connect true 1 0 again.phone ≡ none)
    × (set_up_failed 1 connect again.phone ≡ again.phone)
    × (end_prepare true 1 again.phone ≡ again.phone)
    × (begin_run 1 again.phone ≡ none)
    × (publish true 1 again.phone ≡ none)
    × (store_mwi 1 again.phone ≡ (again.phone, stop_mwi ∷ []))
    × (store_sub_mgr 1 again.phone ≡ (again.phone, stop_sub_mgr ∷ []))
    × (fail_connect 1 again.phone ≡ (again.phone, []))
overtaken_after_example =
    overtaken_after connect true true 1 0 (ascii "198.51.100.4") (omega arith) left-again
