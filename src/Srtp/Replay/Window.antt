-- ===== src/Srtp/Replay/Window.antt =====
-- internal/srtp/srtp.go: isReplay and accept against the history of the accepted indices.
use xphone_go.Prelude.{
  ℕ, ◌+◌, ◌-◌, ◌≤◌, ◌<◌, ◌≡◌, refl, ◌↔◌, Bool, true, false, ◌||◌, List, [], ◌∷◌, arith, ltb, leb,
  if◌then◌else◌, contains, Bool-cases, inl, inr,
}
use xphone_go.Srtp.Replay.Defs.{ReplayWindow, new_window, bit, shl, is_replay, accept}
use xphone_go.Srtp.Replay.Bitmap.{
  Fits, one_bits, set_bit_self, set_bit_ne, set_bit-Fits, shl-Fits, shl_zero, bit-shl,
}

-- The window is the right summary of the indices accepted so far, the latest first.
pub record Tracks (w : ReplayWindow) (seen : List ℕ) : Type 0 where
  pub fits : Fits w.bitmap
  pub fresh : w.initialized ≡ false → seen ≡ []
  pub capped : (i : ℕ) → contains seen i ≡ true → (w.initialized ≡ true) × (i ≤ w.top)
  pub top_seen : w.initialized ≡ true → contains seen w.top ≡ true
  pub marked :
      (d : ℕ)
      → d < 128
      → d ≤ w.top
      → w.initialized ≡ true
      → (bit w.bitmap d ≡ 1) ↔ (contains seen (w.top - d) ≡ true)

-- Some accepted index is at least `b`.
abbrev pub any_from : List ℕ → ℕ → Bool
any_from [] b = false
any_from (x ∷ xs) b = leb b x || any_from xs b

pub new-Tracks : Tracks new_window []
new-Tracks = record {
  fits = omega arith;
  fresh = λ _. refl;
  capped = λ i h. ground arith;
  top_seen = λ h. ground arith;
  marked = λ d _ _ h. ground arith;
}

-- The first packet starts the window.
first-Tracks :
    (w : ReplayWindow) (index : ℕ)
    → Tracks w []
    → w.initialized ≡ false
    → Tracks (accept w index) (index ∷ [])
unfolding accept
first-Tracks w index t e = rw e (record {
  fits = omega arith;
  fresh = λ h. cc;
  capped = λ i h. ground arith;
  top_seen = λ h. ground arith;
  marked = λ d hd le h. ground (arith, one_bits d);
})

-- A newer packet moves the window, and drops it where the gap is too large.
newer_marked :
    (w : ReplayWindow) (seen : List ℕ) (index d : ℕ)
    → Tracks w seen
    → w.initialized ≡ true
    → w.top < index
    → d < 128
    → d ≤ index
    → (bit (accept w index).bitmap d ≡ 1) ↔ (contains (index ∷ seen) (index - d) ≡ true)
unfolding accept
newer_marked w seen index d t e lt hd le =
    let s : ℕ = index - w.top in
    ground (
      arith,
      t.marked (d - s),
      t.capped (index - d),
      one_bits d,
      set_bit_self (shl w.bitmap s) 0,
      set_bit_ne (shl w.bitmap s) 0 d,
      shl_zero w.bitmap s d,
      bit-shl w.bitmap s d t.fits,
    )

older_marked :
    (w : ReplayWindow) (seen : List ℕ) (index d : ℕ)
    → Tracks w seen
    → w.initialized ≡ true
    → index ≤ w.top
    → d < 128
    → d ≤ w.top
    → (bit (accept w index).bitmap d ≡ 1) ↔ (contains (index ∷ seen) (w.top - d) ≡ true)
unfolding accept
older_marked w seen index d t e le hd ld = ground (
  arith,
  t.marked d hd ld e,
  set_bit_self w.bitmap (w.top - index),
  set_bit_ne w.bitmap (w.top - index) d,
)

accept-Fits : (w : ReplayWindow) (index : ℕ) → Fits w.bitmap → Fits (accept w index).bitmap
unfolding accept
accept-Fits w index f =
    let s : ℕ = index - w.top in
    ground (
      arith,
      set_bit-Fits (shl w.bitmap s) 0 (shl-Fits w.bitmap s f),
      set_bit-Fits w.bitmap (w.top - index) f,
    )

accept-top :
    (w : ReplayWindow) (index : ℕ)
    → w.initialized ≡ true
    → ((accept w index).initialized ≡ true)
      × ((accept w index).top ≡ (if ltb w.top index then index else w.top))
unfolding accept
accept-top w index e = ground arith

later-Tracks :
    (w : ReplayWindow) (seen : List ℕ) (index : ℕ)
    → Tracks w seen
    → w.initialized ≡ true
    → Tracks (accept w index) (index ∷ seen)
later-Tracks w seen index t e = record {
  fits = accept-Fits w index t.fits;
  fresh = λ h. ground (arith, accept-top w index e);
  capped = λ i h. ground (arith, accept-top w index e, t.capped i);
  top_seen = λ h. ground (arith, accept-top w index e, t.top_seen e);
  marked = λ d hd le h. ground (
    arith,
    accept-top w index e,
    newer_marked w seen index d t e,
    older_marked w seen index d t e,
  );
}

-- An accepted packet joins the history, on every branch of accept.
pub accept-Tracks :
    (w : ReplayWindow) (seen : List ℕ) (index : ℕ)
    → Tracks w seen
    → Tracks (accept w index) (index ∷ seen)
accept-Tracks w seen index t = elim (Bool-cases w.initialized) [
  | inl e ↦ later-Tracks w seen index t e
  | inr e ↦
      let none_seen : seen ≡ [] = t.fresh e in
      rw none_seen (first-Tracks w index (rw none_seen at t) e)
]

any_from_intro : (xs : List ℕ) (b x : ℕ) → contains xs x ≡ true → b ≤ x → any_from xs b ≡ true
any_from_intro [] b x h le = cc
any_from_intro (y ∷ xs) b x h le = ground (arith, any_from_intro xs b x)

any_from_bound :
    (xs : List ℕ) (b m : ℕ)
    → ((i : ℕ) → contains xs i ≡ true → i ≤ m)
    → any_from xs b ≡ true
    → b ≤ m
any_from_bound [] b m h e = cc
any_from_bound (y ∷ xs) b m h e =
    ground (arith, h y, any_from_bound xs b m (λ i c. h i (ground arith)))

replay_started :
    (w : ReplayWindow) (seen : List ℕ) (index : ℕ)
    → Tracks w seen
    → w.initialized ≡ true
    → is_replay w index ≡ (contains seen index || any_from seen (index + 128))
unfolding is_replay
replay_started w seen index t e = ground (
  arith,
  t.capped index,
  t.top_seen e,
  t.marked (w.top - index),
  any_from_intro seen (index + 128) w.top,
  any_from_bound seen (index + 128) w.top (λ i c. (t.capped i c).1),
)

-- isReplay rejects exactly the indices that were accepted before and those that lie at least
-- 128 below an accepted one.
pub is_replay_exact :
    (w : ReplayWindow) (seen : List ℕ) (index : ℕ)
    → Tracks w seen
    → is_replay w index ≡ (contains seen index || any_from seen (index + 128))
unfolding is_replay
is_replay_exact w seen index t = elim (Bool-cases w.initialized) [
  | inl e ↦ replay_started w seen index t e
  | inr e ↦ rw (e, t.fresh e)
]
