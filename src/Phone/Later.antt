-- ===== src/Phone/Later.antt =====
-- xphone.go: an attempt that another has overtaken stays overtaken.
use xphone_go.Prelude.{
  ℕ, suc, ◌≤◌, ◌<◌, ◌≡◌, refl, Bool, true, false, Option, none, some, List, [], ◌∷◌, arith, ◌==◌,
}
use xphone_go.Text.Defs.{Text}
use xphone_go.Phone.Lifecycle.{
  Phone, Kind, sets_up, registers_now, begin_connect, begin_prepare, begin_register, after_stun,
  attach, teardown, end_prepare, begin_run, publish, store_mwi, store_sub_mgr, fail_connect,
  stop_mwi, stop_sub_mgr, Effect,
}
use xphone_go.Phone.Ending.{begin_unregister, end_unregister, disconnect}
use xphone_go.Phone.Stale.{overtaken}
use xphone_go.Phone.Attached.{store_mwi-gen, store_sub_mgr-gen}
use xphone_go.Phone.Attempts.{
  Phase, System, move_or, set_up_failed, Step, connects, prepares, registers, registers_again,
  stuns, cannot_bind, attaches, gives_up, is_prepared, runs_connect, runs_register, publishes,
  starts_mwi, has_no_mwi, starts_sub_mgr, fails_connect, fails_register, unregisters,
  ends_unregister, disconnects,
}

-- A section that may fail leaves the generation.
abbrev KeepsGen : Phone → Option Phone → Type 0
KeepsGen p none = Unit
KeepsGen p (some q) = q.lifecycle_gen ≡ p.lifecycle_gen

move_or-gen :
    (g : ℕ) (good bad : Phase) (r : Option Phone) (s : System)
    → KeepsGen s.phone r
    → (move_or g good bad r s).phone.lifecycle_gen ≡ s.phone.lifecycle_gen
move_or-gen g good bad none s k = refl
move_or-gen g good bad (some q) s k = k

after_stun-gen :
    (k : Kind) (live : Bool) (g : ℕ) (ip : Text) (p : Phone) → KeepsGen p (after_stun k live g ip p)
unfolding after_stun
after_stun-gen k live g ip p = ground arith

attach-gen : (k : Kind) (live : Bool) (g t : ℕ) (p : Phone) → KeepsGen p (attach k live g t p)
unfolding attach
attach-gen k live g t p = ground arith

begin_run-gen : (g : ℕ) (p : Phone) → KeepsGen p (begin_run g p)
unfolding begin_run
begin_run-gen g p = ground arith

publish-gen : (ok : Bool) (g : ℕ) (p : Phone) → KeepsGen p (publish ok g p)
unfolding publish
publish-gen ok g p = ground arith

set_up_failed-gen :
    (g : ℕ) (k : Kind) (p : Phone) → (set_up_failed g k p).lifecycle_gen ≡ p.lifecycle_gen
unfolding teardown end_prepare
set_up_failed-gen g k p = ground arith

end_prepare-gen :
    (ok : Bool) (g : ℕ) (p : Phone) → (end_prepare ok g p).lifecycle_gen ≡ p.lifecycle_gen
unfolding end_prepare
end_prepare-gen ok g p = ground arith

fail_connect-gen : (g : ℕ) (p : Phone) → (fail_connect g p).0.lifecycle_gen ≡ p.lifecycle_gen
unfolding fail_connect
fail_connect-gen g p = ground arith

end_unregister-gen : (p : Phone) → (end_unregister p).0.lifecycle_gen ≡ p.lifecycle_gen
unfolding end_unregister
end_unregister-gen p = ground arith

begin_connect-gen :
    (p q : Phone) → begin_connect p ≡ sets_up q → q.lifecycle_gen ≡ suc p.lifecycle_gen
unfolding begin_connect
begin_connect-gen p q h = ground arith

begin_prepare-gen :
    (live : Bool) (p q : Phone)
    → begin_prepare live p ≡ sets_up q
    → q.lifecycle_gen ≡ suc p.lifecycle_gen
unfolding begin_prepare
begin_prepare-gen live p q h = ground arith

begin_register-gen :
    (live : Bool) (p q : Phone)
    → begin_register live p ≡ sets_up q
    → q.lifecycle_gen ≡ suc p.lifecycle_gen
unfolding begin_register
begin_register-gen live p q h = ground arith

begin_register-now :
    (live : Bool) (p q : Phone)
    → begin_register live p ≡ registers_now q
    → p.lifecycle_gen ≤ q.lifecycle_gen
unfolding begin_register
begin_register-now live p q h = ground arith

begin_unregister-gen :
    (p q : Phone) (es : List Effect)
    → begin_unregister p ≡ some (q, es)
    → p.lifecycle_gen ≤ q.lifecycle_gen
unfolding begin_unregister
begin_unregister-gen p q es h = ground arith

disconnect-gen :
    (p q : Phone) (es : List Effect)
    → disconnect p ≡ some (q, es)
    → p.lifecycle_gen ≤ q.lifecycle_gen
unfolding disconnect
disconnect-gen p q es h = ground arith

above : {a b : ℕ} → b ≡ a → a ≤ b
above e = omega (arith, e)

-- No section takes the generation back.
Step-gen : (s s' : System) → Step s s' → s.phone.lifecycle_gen ≤ s'.phone.lifecycle_gen
Step-gen s s' (connects _ p h) = omega (arith, begin_connect-gen s.phone p h)
Step-gen s s' (prepares _ live p h) = omega (arith, begin_prepare-gen live s.phone p h)
Step-gen s s' (registers _ live p h) = omega (arith, begin_register-gen live s.phone p h)
Step-gen s s' (registers_again _ live p h) = begin_register-now live s.phone p h
Step-gen s s' (stuns _ g k live ip h) =
    above
      (move_or-gen g _ _ (after_stun k live g ip s.phone) s (after_stun-gen k live g ip s.phone))
Step-gen s s' (cannot_bind _ g k h) = above refl
Step-gen s s' (attaches _ g k live h) = above (
    move_or-gen g _ _ (attach k live g s.next_tr s.phone) s (attach-gen k live g s.next_tr s.phone))
Step-gen s s' (gives_up _ g k h) = above (set_up_failed-gen g k s.phone)
Step-gen s s' (is_prepared _ g h) = above (end_prepare-gen true g s.phone)
Step-gen s s' (runs_connect _ g h) =
    above (move_or-gen g _ _ (begin_run g s.phone) s (begin_run-gen g s.phone))
Step-gen s s' (runs_register _ g h) =
    above (move_or-gen g _ _ (begin_run g s.phone) s (begin_run-gen g s.phone))
Step-gen s s' (publishes _ g k ok h) =
    above (move_or-gen g _ _ (publish ok g s.phone) s (publish-gen ok g s.phone))
Step-gen s s' (starts_mwi _ g h) = above (store_mwi-gen g s.phone)
Step-gen s s' (has_no_mwi _ g h) = above refl
Step-gen s s' (starts_sub_mgr _ g h) = above (store_sub_mgr-gen g s.phone)
Step-gen s s' (fails_connect _ g h) = above (fail_connect-gen g s.phone)
Step-gen s s' (fails_register _ g h) = above refl
Step-gen s s' (unregisters _ p es h) = begin_unregister-gen s.phone p es h
Step-gen s s' (ends_unregister _ n h) = above (end_unregister-gen s.phone)
Step-gen s s' (disconnects _ p es h) = disconnect-gen s.phone p es h

-- The systems that steps lead to.
pub data Leads : System → System → Type 0 where
  here : {s : System} → Leads s s
  then_step : {a b c : System} → Leads a b → Step b c → Leads a c

Leads-gen : {a b : System} → Leads a b → a.phone.lifecycle_gen ≤ b.phone.lifecycle_gen
Leads-gen here = above refl
Leads-gen (then_step {b = b} {c = c} path t) = omega (arith, Leads-gen path, Step-gen b c t)

-- Once the phone has a newer generation than an attempt of Connect, Prepare or Register, then after
-- whatever steps of whatever attempts, and of Unregister and Disconnect, the sections of that
-- attempt change nothing: its checks fail, its results are not published, its failures tear nothing
-- down, and the services it started are stopped instead of stored.
pub overtaken_after :
    {a b : System} (k : Kind) (live ok : Bool) (g t : ℕ) (ip : Text)
    → g < a.phone.lifecycle_gen
    → Leads a b
    → (after_stun k live g ip b.phone ≡ none)
      × (attach k live g t b.phone ≡ none)
      × (set_up_failed g k b.phone ≡ b.phone)
      × (end_prepare ok g b.phone ≡ b.phone)
      × (begin_run g b.phone ≡ none)
      × (publish ok g b.phone ≡ none)
      × (store_mwi g b.phone ≡ (b.phone, stop_mwi ∷ []))
      × (store_sub_mgr g b.phone ≡ (b.phone, stop_sub_mgr ∷ []))
      × (fail_connect g b.phone ≡ (b.phone, []))
overtaken_after {a = a} {b = b} k live ok g t ip lt path =
    overtaken k live ok g t ip b.phone (is_past (omega (arith, Leads-gen path)))
  where
    is_past : g < b.phone.lifecycle_gen → (b.phone.lifecycle_gen == g) ≡ false
    is_past h = ground arith
