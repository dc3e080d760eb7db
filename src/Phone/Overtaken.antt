-- ===== src/Phone/Overtaken.antt =====
-- xphone.go: a Prepare that a Connect overtakes.
use xphone_go.Prelude.{suc, ◌≡◌, Bool, true, some, List, arith, ap, sym, ◌∙◌}
use xphone_go.Phone.Lifecycle.{
  Phone, sets_up, refused, invalid_state, begin_connect, begin_prepare, begin_registering,
  prepare_from, end_prepare, Effect,
}
use xphone_go.Phone.Ending.{disconnect, tear_down}
use xphone_go.Phone.SetUp.{connect_from-sets_up, prepare_from-sets_up}

marked :
    (live : Bool) (p q : Phone)
    → begin_prepare live p ≡ sets_up q
    → q ≡ record p { preparing = true; lifecycle_gen = suc p.lifecycle_gen }
unfolding begin_prepare
marked live p q h =
    let from : prepare_from p.state p ≡ sets_up q = ground arith in
    let (down, e) = prepare_from-sets_up p.state p q from in e

torn_down :
    (q d : Phone) (effects : List Effect)
    → disconnect (begin_registering q) ≡ some (d, effects)
    → d ≡ (tear_down (begin_registering q)).0
unfolding disconnect
torn_down q d es h = ground arith

stays_marked :
    (ok : Bool) (q : Phone)
    → q.preparing ≡ true
    → (end_prepare ok q.lifecycle_gen (tear_down (begin_registering q)).0
        ≡ (tear_down (begin_registering q)).0)
      × (begin_prepare true (tear_down (begin_registering q)).0 ≡ refused invalid_state)
unfolding end_prepare begin_prepare
stays_marked ok q m = (ground arith, ground arith)

-- When a Connect begins before a Prepare has ended, and a Disconnect ends the Connect, the Prepare
-- in flight leaves the phone as it is, its mark included, and every later Prepare of the
-- disconnected phone is refused.
pub begin_prepare-begin_connect :
    (live ok : Bool) (p q r d : Phone) (effects : List Effect)
    → begin_prepare live p ≡ sets_up q
    → begin_connect q ≡ sets_up r
    → disconnect r ≡ some (d, effects)
    → (end_prepare ok q.lifecycle_gen d ≡ d) × (begin_prepare true d ≡ refused invalid_state)
unfolding begin_connect
begin_prepare-begin_connect live ok p q r d es h k t =
    let m : q.preparing ≡ true = ap (λ (x : Phone). x.preparing) (marked live p q h) in
    let e : r ≡ begin_registering q = connect_from-sets_up q.state q r k in
    let left : d ≡ (tear_down (begin_registering q)).0 =
      torn_down q d es (ap disconnect (sym e) ∙ t) in
    rw (left) (stays_marked ok q m)
