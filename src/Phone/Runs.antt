-- ===== src/Phone/Runs.antt =====
-- xphone.go: the end of prepareTransport and the sections of runRegistration keep what the phases
-- say of the phone.
use xphone_go.Prelude.{ℕ, ◌≡◌, refl, Bool, true, false, none, some, arith, inl, inr, if◌then◌else◌}
use xphone_go.Phone.Lifecycle.{
  disconnected, registered, registration_failed, prepared, Phone, Kind, connect, prepare, register,
  is_registering, teardown, end_prepare, begin_run, publish,
}
use xphone_go.Phone.Marks.{HasTransport, Marked, Fits, Sound, move-Sound, move_or-Sound}
use xphone_go.Phone.SetUp.{busy_phase, current-Fits}
use xphone_go.Phone.Stale.{set_up_failed-stale, end_prepare-stale, begin_run-stale, publish-stale}
use xphone_go.Phone.Attempts.{
  finished, attached, setup_failed, running, run_failed, System, move, move_or, set_up_failed,
  run_ended,
}

gives_up-Fits :
    (k : Kind) (g : ℕ) (p : Phone)
    → p.lifecycle_gen ≡ g
    → Marked k p
    → ((set_up_failed g k p).lifecycle_gen ≡ p.lifecycle_gen) × Fits finished (set_up_failed g k p)
unfolding teardown end_prepare
gives_up-Fits connect g p now m =
    let q = record p { state = disconnected; tr = none; reg = false } in
    let e : teardown g p ≡ q = ground arith in rw (e) (refl, inl (refl, refl))
gives_up-Fits prepare g p now (d, f) =
    let q = record p { preparing = false; tr = none; reg = false } in
    let e : end_prepare false g p ≡ q = ground arith in rw (e) (refl, inl (d, refl))
gives_up-Fits register g p now m =
    let q = record p { state = disconnected; tr = none; reg = false } in
    let e : teardown g p ≡ q = ground arith in rw (e) (refl, inl (refl, refl))

pub gives_up-Sound :
    (s : System) (g : ℕ) (k : Kind)
    → Sound s
    → s.phase g ≡ setup_failed k
    → Sound (move g finished (set_up_failed g k s.phone) s)
gives_up-Sound s g k sound e =
    move-Sound s g finished (set_up_failed g k s.phone) sound
      (busy_phase s g (setup_failed k) e refl) (set_up_failed-stale k g s.phone)
      (λ now. gives_up-Fits k g s.phone now (current-Fits s g (setup_failed k) sound e now))

end_prepare-now :
    (g : ℕ) (p : Phone)
    → p.lifecycle_gen ≡ g
    → end_prepare true g p ≡ record p { preparing = false; state = prepared }
unfolding end_prepare
end_prepare-now g p now = ground arith

pub is_prepared-Sound :
    (s : System) (g : ℕ)
    → Sound s
    → s.phase g ≡ attached prepare
    → Sound (move g finished (end_prepare true g s.phone) s)
is_prepared-Sound s g sound e =
    move-Sound s g finished (end_prepare true g s.phone) sound
      (busy_phase s g (attached prepare) e refl) (end_prepare-stale true g s.phone)
      (λ now.
        let (m, t) = current-Fits s g (attached prepare) sound e now in
        rw (end_prepare-now g s.phone now) (refl, inr (refl, t)))

begin_run-some :
    (g : ℕ) (p q : Phone) → begin_run g p ≡ some q → q ≡ record p { reg_cancel = some g }
unfolding begin_run
begin_run-some g p q h = ground arith

begin_run-none : (g : ℕ) (p : Phone) → p.lifecycle_gen ≡ g → begin_run g p ≡ none → ⊥
unfolding begin_run
begin_run-none g p now h = absurd (ground arith)

pub runs-Sound :
    (s : System) (g : ℕ) (k : Kind)
    → Sound s
    → s.phase g ≡ attached k
    → ((p : Phone) → Marked k p → is_registering p.state ≡ true)
    → Sound (move_or g (running k) (run_failed k) (begin_run g s.phone) s)
runs-Sound s g k sound e marker =
    move_or-Sound s g (running k) (run_failed k) (begin_run g s.phone) sound
      (busy_phase s g (attached k) e refl) (begin_run-stale g s.phone)
      (λ now h. absurd (begin_run-none g s.phone now h))
      (λ now q found.
        let (m, t) = current-Fits s g (attached k) sound e now in
        rw (begin_run-some g s.phone q found) (refl, (marker s.phone m, t)))

publish-none :
    (ok : Bool) (g : ℕ) (p : Phone)
    → p.lifecycle_gen ≡ g
    → is_registering p.state ≡ true
    → publish ok g p ≡ none
    → ⊥
unfolding publish
publish-none ok g p now m h = absurd (ground arith)

publish-some :
    (ok : Bool) (g : ℕ) (p q : Phone)
    → publish ok g p ≡ some q
    → q ≡ record p { reg_cancel = none; state = if ok then registered else registration_failed }
unfolding publish
publish-some ok g p q h = ground arith

run_ended-Up :
    (ok : Bool) (k : Kind) (p : Phone)
    → HasTransport p
    → Fits
        (run_ended ok k)
        (record p { reg_cancel = none; state = if ok then registered else registration_failed })
run_ended-Up true k p t = (refl, t)
run_ended-Up false k p t = (refl, t)

pub publishes-Sound :
    (s : System) (g : ℕ) (k : Kind) (ok : Bool)
    → Sound s
    → s.phase g ≡ running k
    → Sound (move_or g (run_ended ok k) (run_failed k) (publish ok g s.phone) s)
publishes-Sound s g k ok sound e =
    move_or-Sound s g (run_ended ok k) (run_failed k) (publish ok g s.phone) sound
      (busy_phase s g (running k) e refl) (publish-stale ok g s.phone)
      (λ now h.
        let (m, t) = current-Fits s g (running k) sound e now in
        absurd (publish-none ok g s.phone now m h))
      (λ now q found.
        let (m, t) = current-Fits s g (running k) sound e now in
        rw (publish-some ok g s.phone q found) (refl, run_ended-Up ok k s.phone t))
