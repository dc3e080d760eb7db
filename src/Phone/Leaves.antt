-- ===== src/Phone/Leaves.antt =====
-- xphone.go: Unregister and Disconnect keep what the phases say of the phone.
use xphone_go.Prelude.{ℕ, suc, ◌≡◌, refl, ap, true, false, none, some, List, arith}
use xphone_go.Phone.Lifecycle.{
  PhoneState, disconnected, registering, registered, unregistering, registration_failed, prepared,
  Phone, Effect,
}
use xphone_go.Phone.Ending.{
  begin_unregister, unregister_from, end_unregister, end_from, disconnect, disconnect_from,
}
use xphone_go.Phone.Marks.{is_up, is_down, Down, Fits, Sound, Fits-Up, Fits-other}
use xphone_go.Phone.Attempts.{Phase, idle, System, leaves}

-- Unregister and Disconnect are not attempts.
unregister_from-leaves :
    (st : PhoneState) (p q : Phone) (effects : List Effect)
    → unregister_from st p ≡ some (q, effects)
    → (is_up st ≡ true)
      × (q ≡ record p { state = unregistering; reg = false; mwi = false; sub_mgr = false })
unregister_from-leaves registered p q es h = (refl, ground arith)
unregister_from-leaves registration_failed p q es h = (refl, ground arith)
unregister_from-leaves disconnected p q es h = absurd (ground arith)
unregister_from-leaves registering p q es h = absurd (ground arith)
unregister_from-leaves unregistering p q es h = absurd (ground arith)
unregister_from-leaves prepared p q es h = absurd (ground arith)

pub unregisters-Sound :
    (s : System) (q : Phone) (effects : List Effect)
    → Sound s
    → begin_unregister s.phone ≡ some (q, effects)
    → Sound (leaves q s)
unfolding begin_unregister
unregisters-Sound s q es sound h =
    let (up, e) = unregister_from-leaves s.phone.state s.phone q es h in
    let ph = s.phase s.phone.lifecycle_gen in
    let (u, t) = Fits-Up ph s.phone sound.fits up in
    let left = record s.phone {
      state = unregistering;
      reg = false;
      mwi = false;
      sub_mgr = false;
    } in
    rw (e)
      (record { fits = Fits-other ph s.phone left sound.fits up (refl, t); fresh = sound.fresh })

end_from-Fits :
    (st : PhoneState) (ph : Phase) (p : Phone)
    → p.state ≡ st
    → Fits ph p
    → ((end_from st p).0.lifecycle_gen ≡ p.lifecycle_gen) × Fits ph (end_from st p).0
end_from-Fits unregistering ph p e f =
    let up : is_up p.state ≡ true = ap is_up e in
    let (u, t) = Fits-Up ph p f up in
    (refl, Fits-other ph p (record p { state = prepared }) f up (refl, t))
end_from-Fits disconnected ph p e f = (refl, f)
end_from-Fits registering ph p e f = (refl, f)
end_from-Fits registered ph p e f = (refl, f)
end_from-Fits registration_failed ph p e f = (refl, f)
end_from-Fits prepared ph p e f = (refl, f)

replaced-Sound :
    (s : System) (n : ℕ) (q : Phone)
    → Sound s
    → q.lifecycle_gen ≡ s.phone.lifecycle_gen
    → Fits (s.phase s.phone.lifecycle_gen) q
    → Sound (record s { phone = q; leaving = n })
replaced-Sound s n q sound kept f = record {
  fits =
      let here : s.phase q.lifecycle_gen ≡ s.phase s.phone.lifecycle_gen = ap s.phase kept in
      rw (here) f;
  fresh = λ g above. sound.fresh g (omega arith);
}

pub ends_unregister-Sound :
    (s : System) (n : ℕ)
    → Sound s
    → Sound (record s { phone = (end_unregister s.phone).0; leaving = n })
unfolding end_unregister
ends_unregister-Sound s n sound =
    let (kept, f) =
      end_from-Fits s.phone.state (s.phase s.phone.lifecycle_gen) s.phone refl sound.fits in
    replaced-Sound s n (end_from s.phone.state s.phone).0 sound kept f

disconnect_from-Down :
    (st : PhoneState) (p q : Phone) (effects : List Effect)
    → p.state ≡ st
    → disconnect_from st p ≡ some (q, effects)
    → (q.lifecycle_gen ≡ suc p.lifecycle_gen) × Down q
disconnect_from-Down disconnected p q es e h =
    let down : is_down p.state ≡ true = ap is_down e in
    let same : q ≡ record p {
      preparing = false;
      lifecycle_gen = suc p.lifecycle_gen;
      tr = none;
      reg = false;
    } =
      ground arith in
    rw (same) (refl, (down, refl))
disconnect_from-Down registering p q es e h = ground arith
disconnect_from-Down registered p q es e h = ground arith
disconnect_from-Down unregistering p q es e h = ground arith
disconnect_from-Down registration_failed p q es e h = ground arith
disconnect_from-Down prepared p q es e h = ground arith

pub disconnects-Sound :
    (s : System) (q : Phone) (effects : List Effect)
    → Sound s
    → disconnect s.phone ≡ some (q, effects)
    → Sound (record s { phone = q })
unfolding disconnect
disconnects-Sound s q es sound h =
    let (next, down) = disconnect_from-Down s.phone.state s.phone q es refl h in
    record {
      fits =
          let here : s.phase q.lifecycle_gen ≡ idle = sound.fresh q.lifecycle_gen (omega arith) in
          rw (here) down;
      fresh = λ g above. sound.fresh g (omega arith);
    }
