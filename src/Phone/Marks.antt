-- ===== src/Phone/Marks.antt =====
-- xphone.go: what the phase of the current attempt says of the phone.
use xphone_go.Prelude.{
  ℕ, suc, ◌<◌, ◌≡◌, refl, sym, ap, ◌∙◌, Bool, true, false, Option, none, some, arith, ◌==◌, ==_iff,
  ◌⊎◌, inl, inr, Bool-cases,
}
use xphone_go.Phone.Lifecycle.{
  PhoneState, disconnected, registering, registered, unregistering, registration_failed, prepared,
  Phone, Kind, connect, prepare, register, is_registering,
}
use xphone_go.Phone.Attempts.{
  Phase, idle, finished, served, with_mwi, setting_up, attached, setup_failed, running, run_failed,
  System, put, move, move_or,
}

true_not_false : true ≡ false → ⊥
true_not_false h = absurd (ground arith)

some_not_none : {p : Phone} → some p ≡ none → ⊥
some_not_none h = absurd (ground arith)

-- The states that promise a bound transport.
abbrev pub is_up : PhoneState → Bool
is_up disconnected = false
is_up registering = false
is_up registered = true
is_up unregistering = true
is_up registration_failed = true
is_up prepared = true

abbrev pub is_down : PhoneState → Bool
is_down disconnected = true
is_down registering = false
is_down registered = false
is_down unregistering = false
is_down registration_failed = false
is_down prepared = false

abbrev pub HasTransport : Phone → Type 0
HasTransport p = (t : ℕ) × (p.tr ≡ some t)

abbrev pub Up : Phone → Type 0
Up p = (is_up p.state ≡ true) × HasTransport p

abbrev pub Down : Phone → Type 0
Down p = (is_down p.state ≡ true) × (p.tr ≡ none)

-- The marker of an attempt in prepareTransport.
abbrev pub Marked : Kind → Phone → Type 0
Marked connect p = is_registering p.state ≡ true
Marked prepare p = (is_down p.state ≡ true) × (p.preparing ≡ true)
Marked register p = is_registering p.state ≡ true

-- What the phase of the current attempt says of the phone.
abbrev pub Fits : Phase → Phone → Type 0
Fits idle p = Down p
Fits finished p = Down p ⊎ Up p
Fits served p = Up p
Fits with_mwi p = Up p
Fits (setting_up k) p = Marked k p
Fits (attached k) p = Marked k p × HasTransport p
Fits (setup_failed k) p = Marked k p
Fits (running k) p = (is_registering p.state ≡ true) × HasTransport p
Fits (run_failed k) p = Up p

pub record Sound (s : System) : Type 0 where
  pub fits : Fits (s.phase s.phone.lifecycle_gen) s.phone
  pub fresh : (g : ℕ) → s.phone.lifecycle_gen < g → s.phase g ≡ idle

pub up_down : (st : PhoneState) → is_up st ≡ true → is_down st ≡ true → ⊥
up_down disconnected u d = absurd (ground arith)
up_down registering u d = absurd (ground arith)
up_down registered u d = absurd (ground arith)
up_down unregistering u d = absurd (ground arith)
up_down registration_failed u d = absurd (ground arith)
up_down prepared u d = absurd (ground arith)

pub up_registering : (st : PhoneState) → is_up st ≡ true → is_registering st ≡ true → ⊥
up_registering disconnected u d = absurd (ground arith)
up_registering registering u d = absurd (ground arith)
up_registering registered u d = absurd (ground arith)
up_registering unregistering u d = absurd (ground arith)
up_registering registration_failed u d = absurd (ground arith)
up_registering prepared u d = absurd (ground arith)

pub Marked-Up : (k : Kind) (p : Phone) → Marked k p → is_up p.state ≡ true → ⊥
Marked-Up connect p m u = up_registering p.state u m
Marked-Up prepare p (d, f) u = up_down p.state u d
Marked-Up register p m u = up_registering p.state u m

-- A phone in a state of those has its transport, whatever the attempt.
pub Fits-Up : (ph : Phase) (p : Phone) → Fits ph p → is_up p.state ≡ true → Up p
Fits-Up idle p (d, t) u = absurd (up_down p.state u d)
Fits-Up finished p (inl (d, t)) u = absurd (up_down p.state u d)
Fits-Up finished p (inr f) u = f
Fits-Up served p f u = f
Fits-Up with_mwi p f u = f
Fits-Up (setting_up k) p m u = absurd (Marked-Up k p m u)
Fits-Up (attached k) p (m, t) u = absurd (Marked-Up k p m u)
Fits-Up (setup_failed k) p m u = absurd (Marked-Up k p m u)
Fits-Up (running k) p (m, t) u = absurd (up_registering p.state u m)
Fits-Up (run_failed k) p f u = f

-- Another phone in such a state fits the same phase.
pub Fits-other : (ph : Phase) (p q : Phone) → Fits ph p → is_up p.state ≡ true → Up q → Fits ph q
Fits-other idle p q (d, t) u f = absurd (up_down p.state u d)
Fits-other finished p q g u f = inr f
Fits-other served p q g u f = f
Fits-other with_mwi p q g u f = f
Fits-other (setting_up k) p q m u f = absurd (Marked-Up k p m u)
Fits-other (attached k) p q (m, t) u f = absurd (Marked-Up k p m u)
Fits-other (setup_failed k) p q m u f = absurd (Marked-Up k p m u)
Fits-other (running k) p q (m, t) u f = absurd (up_registering p.state u m)
Fits-other (run_failed k) p q g u f = f

pub put_self : (g : ℕ) (ph : Phase) (f : ℕ → Phase) → put g ph f g ≡ ph
put_self g ph f = ground arith

pub put_other : (g h : ℕ) (ph : Phase) (f : ℕ → Phase) → (h == g) ≡ false → put g ph f h ≡ f h
put_other g h ph f e = rw (e) refl

-- A new attempt takes the next generation.
pub begin-Sound :
    (s : System) (ph : Phase) (q : Phone)
    → Sound s
    → q.lifecycle_gen ≡ suc s.phone.lifecycle_gen
    → Fits ph q
    → Sound (move q.lifecycle_gen ph q s)
begin-Sound s ph q sound next f = record {
  fits = rw (put_self q.lifecycle_gen ph s.phase) f;
  fresh = λ g h.
      let other : (g == q.lifecycle_gen) ≡ false = ground arith in
      put_other q.lifecycle_gen g ph s.phase other ∙ sound.fresh g (omega arith);
}

abbrev pub is_idle : Phase → Bool
is_idle idle = true
is_idle finished = false
is_idle served = false
is_idle with_mwi = false
is_idle (setting_up k) = false
is_idle (attached k) = false
is_idle (setup_failed k) = false
is_idle (running k) = false
is_idle (run_failed k) = false

-- A section of an attempt that has been overtaken leaves the phone.
stale-Sound :
    (s : System) (g : ℕ) (ph : Phase)
    → Sound s
    → is_idle (s.phase g) ≡ false
    → (s.phone.lifecycle_gen == g) ≡ false
    → Sound (move g ph s.phone s)
stale-Sound s g ph sound busy e = record {
  fits = rw (put_other g s.phone.lifecycle_gen ph s.phase e) (sound.fits);
  fresh = λ h above. elim (Bool-cases (h == g)) [
    | inl same ↦
        let i : s.phase g ≡ idle = ap s.phase (sym ((==_iff h g).0 same)) ∙ sound.fresh h above in
        absurd (true_not_false (sym (ap is_idle i) ∙ busy))
    | inr other ↦ put_other g h ph s.phase other ∙ sound.fresh h above
  ];
}

current-Sound :
    (s : System) (g : ℕ) (ph : Phase) (q : Phone)
    → Sound s
    → q.lifecycle_gen ≡ s.phone.lifecycle_gen
    → s.phone.lifecycle_gen ≡ g
    → Fits ph q
    → Sound (move g ph q s)
current-Sound s g ph q sound kept now f = record {
  fits =
      let here : put g ph s.phase q.lifecycle_gen ≡ ph =
        ap (put g ph s.phase) (kept ∙ now) ∙ put_self g ph s.phase in
      rw (here) f;
  fresh = λ h above.
      let other : (h == g) ≡ false = ground arith in
      put_other g h ph s.phase other ∙ sound.fresh h (omega arith);
}

-- A section of an attempt: it may change the phone only while the attempt is the current one.
pub move-Sound :
    (s : System) (g : ℕ) (ph : Phase) (q : Phone)
    → Sound s
    → is_idle (s.phase g) ≡ false
    → ((s.phone.lifecycle_gen == g) ≡ false → q ≡ s.phone)
    → (s.phone.lifecycle_gen ≡ g → (q.lifecycle_gen ≡ s.phone.lifecycle_gen) × Fits ph q)
    → Sound (move g ph q s)
move-Sound s g ph q sound busy stale now = elim (Bool-cases (s.phone.lifecycle_gen == g)) [
  | inl e ↦
      let current = (==_iff s.phone.lifecycle_gen g).0 e in
      let (kept, f) = now current in current-Sound s g ph q sound kept current f
  | inr e ↦ rw (stale e) (stale-Sound s g ph sound busy e)
]

-- The same for a section that may fail and then leaves the phone.
pub move_or-Sound :
    (s : System) (g : ℕ) (good bad : Phase) (found : Option Phone)
    → Sound s
    → is_idle (s.phase g) ≡ false
    → ((s.phone.lifecycle_gen == g) ≡ false → found ≡ none)
    → (s.phone.lifecycle_gen ≡ g → found ≡ none → Fits bad s.phone)
    → (s.phone.lifecycle_gen ≡ g
        → (q : Phone) → found ≡ some q
        → (q.lifecycle_gen ≡ s.phone.lifecycle_gen) × Fits good q)
    → Sound (move_or g good bad found s)
move_or-Sound s g good bad none sound busy stale refuse now =
    move-Sound s g bad s.phone sound busy (λ e. refl) (λ c. (refl, refuse c refl))
move_or-Sound s g good bad (some q) sound busy stale refuse now =
    move-Sound s g good q sound busy (λ e. absurd (some_not_none (stale e))) (λ c. now c q refl)
