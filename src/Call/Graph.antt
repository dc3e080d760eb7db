-- ===== src/Call/Graph.antt =====
-- call.go: the moves between the states of a call.
use xphone_go.Prelude.{ℕ, ◌≡◌, refl, Bool, true, Option, none, some, List, arith}
use xphone_go.Sdp.{Session, Dir, dir}
use xphone_go.Call.State.{
  Call, CallState, ringing, dialing, remote_ringing, early_media, active, on_hold, ended, is_state,
  EndReason, DtmfMode, RemoteSdp, empty, malformed, parsed, signal_media_timer_reset,
}
use xphone_go.Call.Release.{end_with_reason}
use xphone_go.Call.Local.{
  accept_locked, reject, end_call, hold, resume, mute, unmute, mute_video, unmute_video, send_dtmf,
  blind_transfer, suspend_media_timeout, restore_media_timeout, set_dtmf_mode, start_media,
  start_video_media,
}
use xphone_go.Call.Remote.{
  on_response, on_bye, on_cancel, on_notify, on_session_timer, on_media_timeout,
}
use xphone_go.Call.Video
use xphone_go.Call.Upgrade.{
  turn, with_remote, reinvite_audio, begin_reinvite, signal_video_stop, release_video, key_video,
  setup_srtp, request_video, add_video, send_reinvite,
}
use xphone_go.Call.Step.{
  Op, step, or_same, accept_op, start_media_op, start_video_op, fire_media_op, reject_op, notify_op,
  end_op, mute_op, unmute_op, mute_video_op, unmute_video_op, suspend_op, restore_op, hold_op,
  resume_op, mode_op, dtmf_op, transfer_op, response_op, bye_op, cancel_op, timeout_op, reinvite_op,
  stop_video_op, release_video_op, key_video_op, srtp_op, downgrade_op, reject_video_op,
  request_video_op, accept_video_op, add_video_op, send_reinvite_op, timer_op, finish_op,
}

abbrev pub edge : CallState → CallState → Bool
edge s ended = true
edge ringing active = true
edge dialing remote_ringing = true
edge dialing early_media = true
edge dialing active = true
edge remote_ringing early_media = true
edge remote_ringing active = true
edge early_media active = true
edge active on_hold = true
edge on_hold active = true
edge s s' = is_state s s'

reject-edge : (code : ℕ) (c : Call) → edge c.state (reject code c).0.state ≡ true
unfolding reject
reject-edge code c = ground arith

end_call-edge : (c : Call) → edge c.state (end_call c).0.state ≡ true
unfolding end_call
end_call-edge c = ground arith

hold-edge :
    (alloc : Option ℕ) (sent : Bool) (c : Call) → edge c.state (hold alloc sent c).0.state ≡ true
unfolding hold
hold-edge alloc sent c = ground arith

resume-edge :
    (alloc : Option ℕ) (sent : Bool) (c : Call) → edge c.state (resume alloc sent c).0.state ≡ true
unfolding resume
resume-edge alloc sent c = ground arith

mute-edge : (c : Call) → edge c.state (mute c).0.state ≡ true
unfolding mute
mute-edge c = ground arith

unmute-edge : (c : Call) → edge c.state (unmute c).0.state ≡ true
unfolding unmute
unmute-edge c = ground arith

mute_video-edge : (c : Call) → edge c.state (mute_video c).0.state ≡ true
unfolding mute_video
mute_video-edge c = ground arith

unmute_video-edge : (c : Call) → edge c.state (unmute_video c).0.state ≡ true
unfolding unmute_video
unmute_video-edge c = ground arith

send_dtmf-edge :
    (code : Option ℕ) (sent : Bool) (c : Call) → edge c.state (send_dtmf code sent c).0.state ≡ true
unfolding send_dtmf
send_dtmf-edge code sent c = ground arith

blind_transfer-edge :
    (target : List ℕ) (c : Call) → edge c.state (blind_transfer target c).0.state ≡ true
unfolding blind_transfer
blind_transfer-edge target c = ground arith

suspend_media_timeout-edge : (c : Call) → edge c.state (suspend_media_timeout c).state ≡ true
unfolding suspend_media_timeout
suspend_media_timeout-edge c = ground arith

restore_media_timeout-edge : (c : Call) → edge c.state (restore_media_timeout c).state ≡ true
unfolding restore_media_timeout
restore_media_timeout-edge c = ground arith

set_dtmf_mode-edge : (m : DtmfMode) (c : Call) → edge c.state (set_dtmf_mode m c).state ≡ true
unfolding set_dtmf_mode
set_dtmf_mode-edge m c = ground arith

on_response-edge : (code now : ℕ) (c : Call) → edge c.state (on_response code now c).state ≡ true
unfolding on_response
on_response-edge code now c = ground arith

on_cancel-edge : (c : Call) → edge c.state (on_cancel c).state ≡ true
unfolding on_cancel
on_cancel-edge c = ground arith

on_bye-edge : (c : Call) → edge c.state (on_bye c).state ≡ true
unfolding on_bye
on_bye-edge c = ground arith

on_media_timeout-edge : (c : Call) → edge c.state (on_media_timeout c).state ≡ true
unfolding on_media_timeout
on_media_timeout-edge c = ground arith

on_notify-edge : (code : ℕ) (c : Call) → edge c.state (on_notify code c).state ≡ true
unfolding on_notify
on_notify-edge code c = ground arith

on_session_timer-edge :
    (alloc : Option ℕ) (c : Call) → edge c.state (on_session_timer alloc c).state ≡ true
unfolding on_session_timer
on_session_timer-edge alloc c = ground arith

end_with_reason-edge :
    (reason : EndReason) (c : Call) → edge c.state (end_with_reason reason c).state ≡ true
unfolding end_with_reason
end_with_reason-edge reason c = ground arith

edge_between : {a b t u : CallState} → b ≡ a → u ≡ t → edge b t ≡ true → edge a u ≡ true
edge_between {a = a} {b = b} {t = t} {u = u} p q h = ground arith

edge_refl : (s : CallState) → edge s s ≡ true
edge_refl s = ground arith

stays : {a b : CallState} → b ≡ a → edge a b ≡ true
stays {a = a} {b = b} p = edge_between refl p (edge_refl a)

start_media-state : (r : Bool) (c : Call) → (or_same c (start_media r c)).state ≡ c.state
unfolding start_media
start_media-state r c = ground arith

start_video_media-state : (r : Bool) (c : Call) → (start_video_media r c).state ≡ c.state
unfolding start_video_media
start_video_media-state r c = ground arith

turn-edge : (d : Dir) (c : Call) → edge c.state (turn d c).0.state ≡ true
unfolding signal_media_timer_reset
turn-edge d c = ground arith

reinvite_audio-edge :
    (alloc : Option ℕ) (s : Session) (c : Call)
    → edge c.state (reinvite_audio alloc s c).state ≡ true
reinvite_audio-edge alloc s c =
    edge_between (Video.with_remote-state s c) (Video.reinvite_audio-state alloc s c)
      (turn-edge (dir s) (with_remote s c))

begin_reinvite-edge :
    (alloc : Option ℕ) (remote : RemoteSdp) (c : Call)
    → edge c.state (begin_reinvite alloc remote c).0.state ≡ true
unfolding begin_reinvite
begin_reinvite-edge alloc empty c = edge_refl c.state
begin_reinvite-edge alloc malformed c = edge_refl c.state
begin_reinvite-edge alloc (parsed s) c =
    ground (arith, reinvite_audio-edge alloc s c, edge_refl c.state)

request_video-edge :
    (alloc : Option ℕ) (c : Call) → edge c.state (request_video alloc c).state ≡ true
unfolding request_video
request_video-edge none c = edge_refl c.state
request_video-edge (some port) c = edge_refl c.state

add_video-edge :
    (codecs : List ℕ) (w alloc : Option ℕ) (sent : Bool) (c : Call)
    → edge c.state (add_video codecs w alloc sent c).0.state ≡ true
unfolding add_video
add_video-edge codecs w alloc sent c = ground arith

send_reinvite-edge :
    (offer : List ℕ) (sent : Bool) (c : Call)
    → edge c.state (send_reinvite offer sent c).0.state ≡ true
unfolding send_reinvite
send_reinvite-edge offer sent c = ground arith

accept_locked-edge :
    (alloc : Option ℕ) (now : ℕ) (c : Call)
    → edge c.state (accept_locked alloc now c).0.state ≡ true
unfolding accept_locked
accept_locked-edge alloc now c = ground (arith, edge_refl c.state)

-- With every step of `Op` the state of a call stays or moves along an edge of the graph above: a call
-- is answered once, only `active` and `on_hold` alternate, and no state follows `ended`.
pub step-edge : (op : Op) (c : Call) → edge c.state (step op c).state ≡ true
unfolding step signal_video_stop release_video key_video setup_srtp
step-edge (accept_op alloc now) c = accept_locked-edge alloc now c
step-edge (start_media_op r) c = stays (start_media-state r c)
step-edge (start_video_op r) c = stays (start_video_media-state r c)
step-edge fire_media_op c = edge_refl c.state
step-edge (reject_op code) c = reject-edge code c
step-edge end_op c = end_call-edge c
step-edge mute_op c = mute-edge c
step-edge unmute_op c = unmute-edge c
step-edge mute_video_op c = mute_video-edge c
step-edge unmute_video_op c = unmute_video-edge c
step-edge suspend_op c = suspend_media_timeout-edge c
step-edge restore_op c = restore_media_timeout-edge c
step-edge (hold_op alloc sent) c = hold-edge alloc sent c
step-edge (resume_op alloc sent) c = resume-edge alloc sent c
step-edge (mode_op m) c = set_dtmf_mode-edge m c
step-edge (dtmf_op code sent) c = send_dtmf-edge code sent c
step-edge (transfer_op target) c = blind_transfer-edge target c
step-edge (response_op code now) c = on_response-edge code now c
step-edge bye_op c = on_bye-edge c
step-edge cancel_op c = on_cancel-edge c
step-edge timeout_op c = on_media_timeout-edge c
step-edge (reinvite_op alloc remote) c = begin_reinvite-edge alloc remote c
step-edge stop_video_op c = edge_refl c.state
step-edge release_video_op c = edge_refl c.state
step-edge key_video_op c = edge_refl c.state
step-edge srtp_op c = edge_refl c.state
step-edge (downgrade_op alloc s) c = stays ((Video.answer_downgrade-Mild alloc s).state_kept c)
step-edge (reject_video_op alloc s) c =
    stays ((Video.reject_video_upgrade-Guarded alloc s).state_same c)
step-edge (request_video_op alloc) c = request_video-edge alloc c
step-edge (accept_video_op alloc port s) c =
    stays ((Video.accept_video_upgrade-Guarded alloc port s).state_same c)
step-edge (add_video_op codecs w alloc sent) c = add_video-edge codecs w alloc sent c
step-edge (send_reinvite_op offer sent) c = send_reinvite-edge offer sent c
step-edge (notify_op code) c = on_notify-edge code c
step-edge (timer_op alloc) c = on_session_timer-edge alloc c
step-edge (finish_op reason) c = end_with_reason-edge reason c
