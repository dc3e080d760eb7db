-- ===== src/Call/Answer.antt =====
-- call.go: Accept and the start of the media keep the invariant.
use xphone_go.Prelude.{ℕ, ◌≡◌, ◌≢◌, Bool, Option, some, arith}
use xphone_go.Sdp.{Session, Dir}
use xphone_go.Call.State.{
  Call, ended, active, act, RemoteSdp, empty, malformed, parsed, Body, respond, enter,
}
use xphone_go.Call.Offer.{
  build_local_sdp, build_answer_sdp, negotiate, set_remote_endpoint, set_video_remote_endpoint,
}
use xphone_go.Call.Local.{
  accept_locked, accept_body, answer, start_session_timer, prepare_video, start_media,
  start_video_media,
}
use xphone_go.Call.Invariant.{IsValid}
use xphone_go.Call.Keeps
use xphone_go.Call.Step.{or_same}

build_local_sdp-IsValid :
    (alloc : Option ℕ) (d : Dir) (c : Call)
    → c.state ≢ ended
    → IsValid c
    → IsValid (build_local_sdp alloc d c).0
unfolding build_local_sdp
build_local_sdp-IsValid alloc d c h v = ground arith

pub build_answer_sdp-IsValid :
    (alloc : Option ℕ) (s : Session) (d : Dir) (c : Call)
    → c.state ≢ ended
    → IsValid c
    → IsValid (build_answer_sdp alloc s d c).0
unfolding build_answer_sdp
build_answer_sdp-IsValid alloc s d c h v = ground arith

pub negotiate-state : (s : Session) (c : Call) → (negotiate s c).state ≡ c.state
unfolding negotiate
negotiate-state s c = ground arith

answered-state :
    (alloc : Option ℕ) (s : Session) (d : Dir) (c : Call)
    → (set_remote_endpoint s (build_answer_sdp alloc s d (negotiate s c)).0).state ≡ c.state
unfolding build_answer_sdp set_remote_endpoint
answered-state alloc s d c = ground (arith, negotiate-state s c)

accept_body-state :
    (alloc : Option ℕ) (r : RemoteSdp) (c : Call) → (accept_body alloc r c).0.state ≡ c.state
unfolding build_local_sdp
accept_body-state alloc empty c = ground arith
accept_body-state alloc malformed c = ground arith
accept_body-state alloc (parsed s) c = answered-state alloc s _ c

accept_body-IsValid :
    (alloc : Option ℕ) (r : RemoteSdp) (c : Call)
    → c.state ≢ ended
    → IsValid c
    → IsValid (accept_body alloc r c).0
accept_body-IsValid alloc empty c h v = build_local_sdp-IsValid alloc _ c h v
accept_body-IsValid alloc malformed c h v = build_local_sdp-IsValid alloc _ c h v
accept_body-IsValid alloc (parsed s) c h v = Keeps.set_remote_endpoint-IsValid s _ (
    build_answer_sdp-IsValid alloc s _ _ (ground (arith, negotiate-state s c, h))
      (Keeps.negotiate-IsValid s c v))

prepare_video-IsValid : (c : Call) → IsValid c → IsValid (prepare_video c)
unfolding set_video_remote_endpoint
prepare_video-IsValid c v = ground arith

answered-IsValid :
    (c : Call) (body : Body)
    → IsValid c
    → IsValid (act (respond 200) (record c { local_sdp = some body }))
answered-IsValid c body v = ground arith

prepare_video-state : (c : Call) → (prepare_video c).state ≡ c.state
unfolding set_video_remote_endpoint
prepare_video-state c = ground arith

started-IsValid :
    (now : ℕ) (c : Call)
    → c.state ≢ ended
    → IsValid c
    → IsValid (enter active (start_session_timer (record c { start_time = some now })))
started-IsValid now c h v = ground arith

answer-IsValid :
    (now : ℕ) (c : Call) (body : Body)
    → c.state ≢ ended
    → IsValid c
    → IsValid (answer now (c, body))
answer-IsValid now c body h v =
    let c' : Call = act (respond 200) (record c { local_sdp = some body }) in
    started-IsValid now _ (ground (arith, prepare_video-state c'))
      (prepare_video-IsValid c' (answered-IsValid c body v))

pub start_media-IsValid :
    (r : Bool) (c : Call) → c.state ≢ ended → IsValid c → IsValid (or_same c (start_media r c))
unfolding start_media
start_media-IsValid r c h v = ground arith

pub start_video_media-IsValid :
    (r : Bool) (c : Call) → c.state ≢ ended → IsValid c → IsValid (start_video_media r c)
unfolding start_video_media
start_video_media-IsValid r c h v = ground arith

pub accept_locked-IsValid :
    (alloc : Option ℕ) (now : ℕ) (c : Call) → IsValid c → IsValid (accept_locked alloc now c).0
unfolding accept_locked
accept_locked-IsValid alloc now c v = ground (
  arith,
  accept_body-IsValid alloc c.remote_sdp c,
  accept_body-state alloc c.remote_sdp c,
  answer-IsValid now (accept_body alloc c.remote_sdp c).0 (accept_body alloc c.remote_sdp c).1,
)
