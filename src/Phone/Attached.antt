-- ===== src/Phone/Attached.antt =====
-- xphone.go: where the phone's transport is, under every interleaving.
use xphone_go.Prelude.{ℕ, suc, ◌≡◌, refl, Bool, true, false, none, arith, ◌==◌, inl, inr}
use xphone_go.Phone.Lifecycle.{
  PhoneState, disconnected, registering, registered, unregistering, registration_failed, prepared,
  Phone, Kind, connect, prepare, register, is_registering, store_mwi, store_sub_mgr, fail_connect,
}
use xphone_go.Phone.Marks.{
  is_up, is_down, is_idle, HasTransport, Up, Marked, Fits, Sound, up_down, Fits-Up, move-Sound,
}
use xphone_go.Phone.SetUp.{
  busy_phase, current-Fits, connects-Sound, registers-Sound, registers_again-Sound, prepares-Sound,
  stuns-Sound, attaches-Sound,
}
use xphone_go.Phone.Runs.{gives_up-Sound, is_prepared-Sound, runs-Sound, publishes-Sound}
use xphone_go.Phone.Stale.{store_mwi-stale, store_sub_mgr-stale, fail_connect-stale}
use xphone_go.Phone.Leaves.{unregisters-Sound, ends_unregister-Sound, disconnects-Sound}
use xphone_go.Phone.Attempts.{
  Phase, idle, finished, served, with_mwi, setting_up, attached, setup_failed, running, run_failed,
  System, move, Step, connects, prepares, registers, registers_again, stuns, cannot_bind, attaches,
  gives_up, is_prepared, runs_connect, runs_register, publishes, starts_mwi, has_no_mwi,
  starts_sub_mgr, fails_connect, fails_register, unregisters, ends_unregister, disconnects,
  Reachable, starts, goes,
}

-- The services change neither the state nor the transport.
kept-Sound :
    (s : System) (g : ℕ) (ph next : Phase) (q : Phone)
    → Sound s
    → s.phase g ≡ ph
    → is_idle ph ≡ false
    → (Fits ph s.phone → Fits next q)
    → ((s.phone.lifecycle_gen == g) ≡ false → q ≡ s.phone)
    → q.lifecycle_gen ≡ s.phone.lifecycle_gen
    → Sound (move g next q s)
kept-Sound s g ph next q sound e busy fit stale kept =
    move-Sound s g next q sound (busy_phase s g ph e busy) stale
      (λ now. (kept, fit (current-Fits s g ph sound e now)))

store_mwi-Up : (g : ℕ) (p : Phone) → Up p → Up (store_mwi g p).0
unfolding store_mwi
store_mwi-Up g p u = ground arith

fail_connect-now :
    (g : ℕ) (p : Phone)
    → p.lifecycle_gen ≡ g
    → (fail_connect g p).0 ≡ record p { tr = none; reg = false; state = disconnected }
unfolding fail_connect
fail_connect-now g p now = ground arith

store_sub_mgr-Up : (g : ℕ) (p : Phone) → Up p → Up (store_sub_mgr g p).0
unfolding store_sub_mgr
store_sub_mgr-Up g p u = ground arith

pub store_mwi-gen : (g : ℕ) (p : Phone) → (store_mwi g p).0.lifecycle_gen ≡ p.lifecycle_gen
unfolding store_mwi
store_mwi-gen g p = ground arith

pub store_sub_mgr-gen : (g : ℕ) (p : Phone) → (store_sub_mgr g p).0.lifecycle_gen ≡ p.lifecycle_gen
unfolding store_sub_mgr
store_sub_mgr-gen g p = ground arith

fails_connect-Sound :
    (s : System) (g : ℕ)
    → Sound s
    → s.phase g ≡ run_failed connect
    → Sound (move g finished (fail_connect g s.phone).0 s)
fails_connect-Sound s g sound e =
    move-Sound s g finished (fail_connect g s.phone).0 sound
      (busy_phase s g (run_failed connect) e refl) (fail_connect-stale g s.phone)
      (λ now. rw (fail_connect-now g s.phone now) (refl, inl (refl, refl)))

next_tr-Sound : (s : System) (n : ℕ) → Sound s → Sound (record s { next_tr = n })
next_tr-Sound s n sound = record { fits = sound.fits; fresh = sound.fresh }

Step-Sound : (s s' : System) → Step s s' → Sound s → Sound s'
Step-Sound s s' (connects _ p h) sound = connects-Sound s p sound h
Step-Sound s s' (prepares _ live p h) sound = prepares-Sound s live p sound h
Step-Sound s s' (registers _ live p h) sound = registers-Sound s live p sound h
Step-Sound s s' (registers_again _ live p h) sound = registers_again-Sound s live p sound h
Step-Sound s s' (stuns _ g k live ip h) sound = stuns-Sound s g k live ip sound h
Step-Sound s s' (cannot_bind _ g k h) sound =
    kept-Sound s g (setting_up k) (setup_failed k) s.phone sound h refl (λ f. f) (λ e. refl) refl
Step-Sound s s' (attaches _ g k live h) sound =
    next_tr-Sound _ (suc s.next_tr) (attaches-Sound s g k live s.next_tr sound h)
Step-Sound s s' (gives_up _ g k h) sound = gives_up-Sound s g k sound h
Step-Sound s s' (is_prepared _ g h) sound = is_prepared-Sound s g sound h
Step-Sound s s' (runs_connect _ g h) sound = runs-Sound s g connect sound h (λ p m. m)
Step-Sound s s' (runs_register _ g h) sound = runs-Sound s g register sound h (λ p m. m)
Step-Sound s s' (publishes _ g k ok h) sound = publishes-Sound s g k ok sound h
Step-Sound s s' (starts_mwi _ g h) sound =
    kept-Sound s g served with_mwi (store_mwi g s.phone).0 sound h refl (store_mwi-Up g s.phone)
      (store_mwi-stale g s.phone) (store_mwi-gen g s.phone)
Step-Sound s s' (has_no_mwi _ g h) sound =
    kept-Sound s g served with_mwi s.phone sound h refl (λ f. f) (λ e. refl) refl
Step-Sound s s' (starts_sub_mgr _ g h) sound =
    kept-Sound s g with_mwi finished (store_sub_mgr g s.phone).0 sound h refl
      (λ f. inr (store_sub_mgr-Up g s.phone f)) (store_sub_mgr-stale g s.phone)
      (store_sub_mgr-gen g s.phone)
Step-Sound s s' (fails_connect _ g h) sound = fails_connect-Sound s g sound h
Step-Sound s s' (fails_register _ g h) sound =
    kept-Sound s g (run_failed register) finished s.phone sound h refl (λ f. inr f) (λ e. refl) refl
Step-Sound s s' (unregisters _ p es h) sound = unregisters-Sound s p es sound h
Step-Sound s s' (ends_unregister _ n h) sound = ends_unregister-Sound s n sound
Step-Sound s s' (disconnects _ p es h) sound = disconnects-Sound s p es sound h

Reachable-Sound : (s : System) → Reachable s → Sound s
Reachable-Sound s (starts ip) = record { fits = (refl, refl); fresh = λ g h. refl }
Reachable-Sound s (goes before _ r t) = Step-Sound before s t (Reachable-Sound before r)

abbrev pub is_prepare : Kind → Bool
is_prepare connect = false
is_prepare prepare = true
is_prepare register = false

-- Whether an attempt is a Prepare between its first and its last section.
abbrev pub is_preparing : Phase → Bool
is_preparing idle = false
is_preparing finished = false
is_preparing served = false
is_preparing with_mwi = false
is_preparing (setting_up k) = is_prepare k
is_preparing (attached k) = is_prepare k
is_preparing (setup_failed k) = is_prepare k
is_preparing (running k) = false
is_preparing (run_failed k) = false

down_registering : (st : PhoneState) → is_down st ≡ true → is_registering st ≡ true → ⊥
down_registering disconnected u d = absurd (ground arith)
down_registering registering u d = absurd (ground arith)
down_registering registered u d = absurd (ground arith)
down_registering unregistering u d = absurd (ground arith)
down_registering registration_failed u d = absurd (ground arith)
down_registering prepared u d = absurd (ground arith)

Marked-Down :
    (k : Kind) (p : Phone) → Marked k p → is_down p.state ≡ true → is_prepare k ≡ false → ⊥
Marked-Down connect p m d n = down_registering p.state d m
Marked-Down prepare p m d n = absurd (ground arith)
Marked-Down register p m d n = down_registering p.state d m

Fits-Down :
    (ph : Phase) (p : Phone)
    → Fits ph p
    → is_down p.state ≡ true
    → is_preparing ph ≡ false
    → p.tr ≡ none
Fits-Down idle p (d, t) down n = t
Fits-Down finished p (inl (d, t)) down n = t
Fits-Down finished p (inr (u, t)) down n = absurd (up_down p.state u down)
Fits-Down served p (u, t) down n = absurd (up_down p.state u down)
Fits-Down with_mwi p (u, t) down n = absurd (up_down p.state u down)
Fits-Down (setting_up k) p m down n = absurd (Marked-Down k p m down n)
Fits-Down (attached k) p (m, t) down n = absurd (Marked-Down k p m down n)
Fits-Down (setup_failed k) p m down n = absurd (Marked-Down k p m down n)
Fits-Down (running k) p (m, t) down n = absurd (down_registering p.state down m)
Fits-Down (run_failed k) p (u, t) down n = absurd (up_down p.state u down)

-- Under every interleaving of the sections of Connect, Prepare, Register, Unregister and
-- Disconnect, a phone that is prepared, registered, unregistering or whose registration failed has
-- a transport, and a disconnected one has none unless the current attempt is a Prepare.
pub Reachable-transport :
    (s : System)
    → Reachable s
    → (is_up s.phone.state ≡ true → HasTransport s.phone)
      × (is_down s.phone.state ≡ true
          → is_preparing (s.phase s.phone.lifecycle_gen) ≡ false
          → s.phone.tr ≡ none)
Reachable-transport s r =
    let sound = Reachable-Sound s r in
    (
      λ up. let (u, t) = Fits-Up (s.phase s.phone.lifecycle_gen) s.phone sound.fits up in t,
      λ down n. Fits-Down (s.phase s.phone.lifecycle_gen) s.phone sound.fits down n,
    )
