-- ===== src/Phone/SetUp.antt =====
-- xphone.go: the sections that begin an attempt and those of prepareTransport keep what the phases
-- say of the phone.
use xphone_go.Prelude.{ℕ, suc, ◌≡◌, refl, ap, ◌∙◌, Bool, true, false, some, arith, if◌then◌else◌}
use xphone_go.Text.Defs.{Text, is_empty}
use xphone_go.Phone.Lifecycle.{
  PhoneState, disconnected, registering, registered, unregistering, registration_failed, prepared,
  Phone, Kind, connect, prepare, register, sets_up, registers_now, begin_connect, begin_prepare,
  begin_register, begin_registering, connect_from, prepare_from, register_from, is_registering,
  after_stun, attach,
}
use xphone_go.Phone.Marks.{
  is_up, is_down, is_idle, Marked, Fits, Sound, Fits-Up, begin-Sound, move_or-Sound,
}
use xphone_go.Phone.Stale.{after_stun-stale, attach-stale}
use xphone_go.Phone.Attempts.{Phase, setting_up, attached, setup_failed, System, move, move_or}

pub busy_phase :
    (s : System) (g : ℕ) (ph : Phase)
    → s.phase g ≡ ph
    → is_idle ph ≡ false
    → is_idle (s.phase g) ≡ false
busy_phase s g ph e h = ap is_idle e ∙ h

-- What the current attempt's phase says of the phone.
pub current-Fits :
    (s : System) (g : ℕ) (ph : Phase)
    → Sound s
    → s.phase g ≡ ph
    → s.phone.lifecycle_gen ≡ g
    → Fits ph s.phone
current-Fits s g ph sound e now =
    let here : s.phase s.phone.lifecycle_gen ≡ ph = ap s.phase now ∙ e in rw⁻¹ (here) (sound.fits)

-- The sections that begin an attempt.
pub connect_from-sets_up :
    (st : PhoneState) (p q : Phone) → connect_from st p ≡ sets_up q → q ≡ begin_registering p
connect_from-sets_up disconnected p q h = ground arith
connect_from-sets_up registering p q h = absurd (ground arith)
connect_from-sets_up registered p q h = absurd (ground arith)
connect_from-sets_up unregistering p q h = absurd (ground arith)
connect_from-sets_up registration_failed p q h = absurd (ground arith)
connect_from-sets_up prepared p q h = absurd (ground arith)

pub connects-Sound :
    (s : System) (q : Phone)
    → Sound s
    → begin_connect s.phone ≡ sets_up q
    → Sound (move q.lifecycle_gen (setting_up connect) q s)
unfolding begin_connect
connects-Sound s q sound h =
    let e : q ≡ begin_registering s.phone = connect_from-sets_up s.phone.state s.phone q h in
    rw (e) (begin-Sound s (setting_up connect) (begin_registering s.phone) sound refl refl)

register_from-sets_up :
    (st : PhoneState) (p q : Phone) → register_from st p ≡ sets_up q → q ≡ begin_registering p
register_from-sets_up disconnected p q h = ground arith
register_from-sets_up registering p q h = absurd (ground arith)
register_from-sets_up registered p q h = absurd (ground arith)
register_from-sets_up unregistering p q h = absurd (ground arith)
register_from-sets_up registration_failed p q h = absurd (ground arith)
register_from-sets_up prepared p q h = absurd (ground arith)

pub registers-Sound :
    (s : System) (live : Bool) (q : Phone)
    → Sound s
    → begin_register live s.phone ≡ sets_up q
    → Sound (move q.lifecycle_gen (setting_up register) q s)
unfolding begin_register
registers-Sound s live q sound h =
    let from : register_from s.phone.state s.phone ≡ sets_up q = ground arith in
    let e : q ≡ begin_registering s.phone = register_from-sets_up s.phone.state s.phone q from in
    rw (e) (begin-Sound s (setting_up register) (begin_registering s.phone) sound refl refl)

register_from-now :
    (st : PhoneState) (p q : Phone)
    → register_from st p ≡ registers_now q
    → (q ≡ begin_registering (record p { reg = true })) × (is_up st ≡ true)
register_from-now disconnected p q h = absurd (ground arith)
register_from-now registering p q h = absurd (ground arith)
register_from-now registered p q h = absurd (ground arith)
register_from-now unregistering p q h = absurd (ground arith)
register_from-now registration_failed p q h = (ground arith, refl)
register_from-now prepared p q h = (ground arith, refl)

pub registers_again-Sound :
    (s : System) (live : Bool) (q : Phone)
    → Sound s
    → begin_register live s.phone ≡ registers_now q
    → Sound (move q.lifecycle_gen (attached register) q s)
unfolding begin_register
registers_again-Sound s live q sound h =
    let from : register_from s.phone.state s.phone ≡ registers_now q = ground arith in
    let (e, up) = register_from-now s.phone.state s.phone q from in
    let (u, t) = Fits-Up (s.phase s.phone.lifecycle_gen) s.phone sound.fits up in
    rw (e) (
      begin-Sound s (attached register) (begin_registering (record s.phone { reg = true })) sound
        refl (refl, t))

pub prepare_from-sets_up :
    (st : PhoneState) (p q : Phone)
    → prepare_from st p ≡ sets_up q
    → (is_down st ≡ true) × (q ≡ record p { preparing = true; lifecycle_gen = suc p.lifecycle_gen })
prepare_from-sets_up disconnected p q h = (refl, ground arith)
prepare_from-sets_up registering p q h = absurd (ground arith)
prepare_from-sets_up registered p q h = absurd (ground arith)
prepare_from-sets_up unregistering p q h = absurd (ground arith)
prepare_from-sets_up registration_failed p q h = absurd (ground arith)
prepare_from-sets_up prepared p q h = absurd (ground arith)

pub prepares-Sound :
    (s : System) (live : Bool) (q : Phone)
    → Sound s
    → begin_prepare live s.phone ≡ sets_up q
    → Sound (move q.lifecycle_gen (setting_up prepare) q s)
unfolding begin_prepare
prepares-Sound s live q sound h =
    let from : prepare_from s.phone.state s.phone ≡ sets_up q = ground arith in
    let (down, e) = prepare_from-sets_up s.phone.state s.phone q from in
    rw (e) (begin-Sound s (setting_up prepare) _ sound refl (down, refl))

-- The sections of prepareTransport keep the marker.
after_stun-some :
    (k : Kind) (live : Bool) (g : ℕ) (ip : Text) (p q : Phone)
    → after_stun k live g ip p ≡ some q
    → q ≡ (if is_empty ip then p else record p { local_ip = ip })
unfolding after_stun
after_stun-some k live g ip p q h = ground arith

Marked-same :
    (k : Kind) (p q : Phone)
    → q.state ≡ p.state
    → q.preparing ≡ p.preparing
    → Marked k p
    → Marked k q
Marked-same connect p q e f m = ap is_registering e ∙ m
Marked-same prepare p q e f (d, b) = (ap is_down e ∙ d, f ∙ b)
Marked-same register p q e f m = ap is_registering e ∙ m

with_ip :
    (c : Bool) (ip : Text) (p : Phone) (k : Kind)
    → Marked k p
    → ((if c then p else record p { local_ip = ip }).lifecycle_gen ≡ p.lifecycle_gen)
      × Marked k (if c then p else record p { local_ip = ip })
with_ip true ip p k m = (refl, m)
with_ip false ip p k m = (refl, Marked-same k p (record p { local_ip = ip }) refl refl m)

pub stuns-Sound :
    (s : System) (g : ℕ) (k : Kind) (live : Bool) (ip : Text)
    → Sound s
    → s.phase g ≡ setting_up k
    → Sound (move_or g (setting_up k) (setup_failed k) (after_stun k live g ip s.phone) s)
stuns-Sound s g k live ip sound e =
    move_or-Sound s g (setting_up k) (setup_failed k) (after_stun k live g ip s.phone) sound
      (busy_phase s g (setting_up k) e refl) (after_stun-stale k live g ip s.phone)
      (λ now none_found. current-Fits s g (setting_up k) sound e now)
      (λ now q found.
        rw (after_stun-some k live g ip s.phone q found)
          (with_ip (is_empty ip) ip s.phone k (current-Fits s g (setting_up k) sound e now)))

attach-some :
    (k : Kind) (live : Bool) (g t : ℕ) (p q : Phone)
    → attach k live g t p ≡ some q
    → q ≡ record p { tr = some t; reg = true }
unfolding attach
attach-some k live g t p q h = ground arith

pub attaches-Sound :
    (s : System) (g : ℕ) (k : Kind) (live : Bool) (t : ℕ)
    → Sound s
    → s.phase g ≡ setting_up k
    → Sound (move_or g (attached k) (setup_failed k) (attach k live g t s.phone) s)
attaches-Sound s g k live t sound e =
    move_or-Sound s g (attached k) (setup_failed k) (attach k live g t s.phone) sound
      (busy_phase s g (setting_up k) e refl) (attach-stale k live g t s.phone)
      (λ now none_found. current-Fits s g (setting_up k) sound e now)
      (λ now q found.
        let m = current-Fits s g (setting_up k) sound e now in
        let there = record s.phone { tr = some t; reg = true } in
        rw (attach-some k live g t s.phone q found)
          (refl, (Marked-same k s.phone there refl refl m, (t, refl))))
