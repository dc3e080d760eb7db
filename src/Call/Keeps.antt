-- ===== src/Call/Keeps.antt =====
-- call.go: every entry point keeps the invariant of a call.
use xphone_go.Prelude.{ℕ, ◌≢◌, Bool, Option, List, arith}
use xphone_go.Call.State.{Call, ended, EndReason, DtmfMode, act, media_fired}
use xphone_go.Sdp.{Session}
use xphone_go.Call.Offer.{negotiate, set_remote_endpoint}
use xphone_go.Call.Release.{end_with_reason}
use xphone_go.Call.Local.{
  reject, end_call, hold, resume, mute, unmute, mute_video, unmute_video, send_dtmf, blind_transfer,
  suspend_media_timeout, restore_media_timeout, set_dtmf_mode,
}
use xphone_go.Call.Remote.{
  on_response, on_bye, on_cancel, on_notify, on_session_timer, on_media_timeout,
}
use xphone_go.Call.Invariant.{IsValid}

pub reject-IsValid : (code : ℕ) (c : Call) → IsValid c → IsValid (reject code c).0
unfolding reject
reject-IsValid code c v = ground arith

pub end_call-IsValid : (c : Call) → IsValid c → IsValid (end_call c).0
unfolding end_call
end_call-IsValid c v = ground arith

pub hold-IsValid :
    (alloc : Option ℕ) (sent : Bool) (c : Call) → IsValid c → IsValid (hold alloc sent c).0
unfolding hold
hold-IsValid alloc sent c v = ground arith

pub resume-IsValid :
    (alloc : Option ℕ) (sent : Bool) (c : Call) → IsValid c → IsValid (resume alloc sent c).0
unfolding resume
resume-IsValid alloc sent c v = ground arith

pub mute-IsValid : (c : Call) → IsValid c → IsValid (mute c).0
unfolding mute
mute-IsValid c v = ground arith

pub unmute-IsValid : (c : Call) → IsValid c → IsValid (unmute c).0
unfolding unmute
unmute-IsValid c v = ground arith

pub mute_video-IsValid : (c : Call) → IsValid c → IsValid (mute_video c).0
unfolding mute_video
mute_video-IsValid c v = ground arith

pub unmute_video-IsValid : (c : Call) → IsValid c → IsValid (unmute_video c).0
unfolding unmute_video
unmute_video-IsValid c v = ground arith

pub send_dtmf-IsValid :
    (code : Option ℕ) (sent : Bool) (c : Call) → IsValid c → IsValid (send_dtmf code sent c).0
unfolding send_dtmf
send_dtmf-IsValid code sent c v = ground arith

pub blind_transfer-IsValid :
    (target : List ℕ) (c : Call) → IsValid c → IsValid (blind_transfer target c).0
unfolding blind_transfer
blind_transfer-IsValid target c v = ground arith

pub suspend_media_timeout-IsValid : (c : Call) → IsValid c → IsValid (suspend_media_timeout c)
unfolding suspend_media_timeout
suspend_media_timeout-IsValid c v = ground arith

pub restore_media_timeout-IsValid : (c : Call) → IsValid c → IsValid (restore_media_timeout c)
unfolding restore_media_timeout
restore_media_timeout-IsValid c v = ground arith

pub set_dtmf_mode-IsValid : (m : DtmfMode) (c : Call) → IsValid c → IsValid (set_dtmf_mode m c)
unfolding set_dtmf_mode
set_dtmf_mode-IsValid m c v = ground arith

pub on_response-IsValid : (code now : ℕ) (c : Call) → IsValid c → IsValid (on_response code now c)
unfolding on_response
on_response-IsValid code now c v = ground arith

pub on_cancel-IsValid : (c : Call) → IsValid c → IsValid (on_cancel c)
unfolding on_cancel
on_cancel-IsValid c v = ground arith

-- The two entry points that do not test the state.
pub on_bye-IsValid : (c : Call) → c.state ≢ ended → IsValid c → IsValid (on_bye c)
unfolding on_bye
on_bye-IsValid c h v = ground arith

pub on_media_timeout-IsValid :
    (c : Call) → c.state ≢ ended → IsValid c → IsValid (on_media_timeout c)
unfolding on_media_timeout
on_media_timeout-IsValid c h v = ground arith

pub negotiate-IsValid : (s : Session) (c : Call) → IsValid c → IsValid (negotiate s c)
unfolding negotiate
negotiate-IsValid s c v = ground arith

pub set_remote_endpoint-IsValid :
    (s : Session) (c : Call) → IsValid c → IsValid (set_remote_endpoint s c)
unfolding set_remote_endpoint
set_remote_endpoint-IsValid s c v = ground arith

pub fired-IsValid : (c : Call) → IsValid c → IsValid (act media_fired c)
fired-IsValid c v = ground arith

pub on_notify-IsValid : (code : ℕ) (c : Call) → IsValid c → IsValid (on_notify code c)
unfolding on_notify
on_notify-IsValid code c v = ground arith

pub on_session_timer-IsValid :
    (alloc : Option ℕ) (c : Call) → IsValid c → IsValid (on_session_timer alloc c)
unfolding on_session_timer
on_session_timer-IsValid alloc c v = ground arith

pub end_with_reason-IsValid :
    (reason : EndReason) (c : Call) → IsValid c → IsValid (end_with_reason reason c)
unfolding end_with_reason
end_with_reason-IsValid reason c v = ground arith
