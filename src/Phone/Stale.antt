-- ===== src/Phone/Stale.antt =====
-- xphone.go: what an attempt may do once another has taken its generation.
use xphone_go.Prelude.{ℕ, ◌≡◌, refl, Bool, false, none, [], ◌∷◌, arith, ◌==◌}
use xphone_go.Text.Defs.{Text}
use xphone_go.Phone.Lifecycle.{
  Phone, Kind, connect, prepare, register, still_valid, after_stun, attach, teardown, end_prepare,
  begin_run, publish, store_mwi, store_sub_mgr, fail_connect, stop_mwi, stop_sub_mgr,
}
use xphone_go.Phone.Attempts.{set_up_failed}

still_valid-stale :
    (k : Kind) (live : Bool) (g : ℕ) (p : Phone)
    → (p.lifecycle_gen == g) ≡ false
    → still_valid k live g p ≡ false
unfolding still_valid
still_valid-stale connect live g p e = ground arith
still_valid-stale prepare live g p e = ground arith
still_valid-stale register live g p e = ground arith

pub after_stun-stale :
    (k : Kind) (live : Bool) (g : ℕ) (ip : Text) (p : Phone)
    → (p.lifecycle_gen == g) ≡ false
    → after_stun k live g ip p ≡ none
unfolding after_stun
after_stun-stale k live g ip p e = rw (still_valid-stale k live g p e) refl

pub attach-stale :
    (k : Kind) (live : Bool) (g t : ℕ) (p : Phone)
    → (p.lifecycle_gen == g) ≡ false
    → attach k live g t p ≡ none
unfolding attach
attach-stale k live g t p e = rw (still_valid-stale k live g p e) refl

pub set_up_failed-stale :
    (k : Kind) (g : ℕ) (p : Phone) → (p.lifecycle_gen == g) ≡ false → set_up_failed g k p ≡ p
unfolding teardown end_prepare
set_up_failed-stale connect g p e = ground arith
set_up_failed-stale prepare g p e = ground arith
set_up_failed-stale register g p e = ground arith

pub end_prepare-stale :
    (ok : Bool) (g : ℕ) (p : Phone) → (p.lifecycle_gen == g) ≡ false → end_prepare ok g p ≡ p
unfolding end_prepare
end_prepare-stale ok g p e = ground arith

pub begin_run-stale : (g : ℕ) (p : Phone) → (p.lifecycle_gen == g) ≡ false → begin_run g p ≡ none
unfolding begin_run
begin_run-stale g p e = ground arith

pub publish-stale :
    (ok : Bool) (g : ℕ) (p : Phone) → (p.lifecycle_gen == g) ≡ false → publish ok g p ≡ none
unfolding publish
publish-stale ok g p e = ground arith

pub store_mwi-stale : (g : ℕ) (p : Phone) → (p.lifecycle_gen == g) ≡ false → (store_mwi g p).0 ≡ p
unfolding store_mwi
store_mwi-stale g p e = ground arith

pub store_sub_mgr-stale :
    (g : ℕ) (p : Phone) → (p.lifecycle_gen == g) ≡ false → (store_sub_mgr g p).0 ≡ p
unfolding store_sub_mgr
store_sub_mgr-stale g p e = ground arith

pub fail_connect-stale :
    (g : ℕ) (p : Phone) → (p.lifecycle_gen == g) ≡ false → (fail_connect g p).0 ≡ p
unfolding fail_connect
fail_connect-stale g p e = ground arith

-- An attempt of Connect, Prepare or Register whose generation is not the phone's any more changes
-- nothing: its checks fail, its results are not published, its failures tear nothing down, and the
-- services it started are stopped instead of stored.
pub overtaken :
    (k : Kind) (live ok : Bool) (g t : ℕ) (ip : Text) (p : Phone)
    → (p.lifecycle_gen == g) ≡ false
    → (after_stun k live g ip p ≡ none)
      × (attach k live g t p ≡ none)
      × (set_up_failed g k p ≡ p)
      × (end_prepare ok g p ≡ p)
      × (begin_run g p ≡ none)
      × (publish ok g p ≡ none)
      × (store_mwi g p ≡ (p, stop_mwi ∷ []))
      × (store_sub_mgr g p ≡ (p, stop_sub_mgr ∷ []))
      × (fail_connect g p ≡ (p, []))
unfolding store_mwi store_sub_mgr fail_connect
overtaken k live ok g t ip p e = (
  after_stun-stale k live g ip p e,
  attach-stale k live g t p e,
  set_up_failed-stale k g p e,
  end_prepare-stale ok g p e,
  begin_run-stale g p e,
  publish-stale ok g p e,
  ground arith,
  ground arith,
  ground arith,
)
