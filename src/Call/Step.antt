-- ===== src/Call/Step.antt =====
-- call.go, media.go and video_upgrade.go: what happens to a call, as steps.
use xphone_go.Prelude.{ℕ, Bool, Option, none, some, List}
use xphone_go.Call.State.{Call, media_fired, act, EndReason, DtmfMode, RemoteSdp}
use xphone_go.Call.Release.{end_with_reason}
use xphone_go.Call.Local.{
  accept_locked, start_media, start_video_media, reject, end_call, hold, resume, mute, unmute,
  mute_video, unmute_video, send_dtmf, blind_transfer, suspend_media_timeout, restore_media_timeout,
  set_dtmf_mode,
}
use xphone_go.Call.Remote.{
  on_response, on_bye, on_cancel, on_notify, on_session_timer, on_media_timeout,
}
use xphone_go.Call.Upgrade.{
  begin_reinvite, signal_video_stop, release_video, key_video, setup_srtp, answer_downgrade,
  reject_video_upgrade, request_video, accept_video_upgrade, add_video, send_reinvite,
}
use xphone_go.Sdp.{Session}

-- A startMedia that panics is no step.
abbrev pub or_same : Call → Option Call → Call
or_same c none = c
or_same c (some c') = c'

-- One constructor for each section under the lock, with what the environment answers. A section that
-- follows another in the code may come at any later time here. What the phone writes into
-- a call while it dials is not among them.
pub data Op : Type 0 where
  accept_op : Option ℕ → ℕ → Op
  start_media_op start_video_op : Bool → Op
  fire_media_op : Op
  reject_op notify_op : ℕ → Op
  end_op mute_op unmute_op mute_video_op unmute_video_op suspend_op restore_op : Op
  hold_op resume_op : Option ℕ → Bool → Op
  mode_op : DtmfMode → Op
  dtmf_op : Option ℕ → Bool → Op
  transfer_op : List ℕ → Op
  response_op : ℕ → ℕ → Op
  bye_op cancel_op timeout_op : Op
  reinvite_op : Option ℕ → RemoteSdp → Op
  stop_video_op release_video_op key_video_op srtp_op : Op
  downgrade_op reject_video_op : Option ℕ → Session → Op
  request_video_op : Option ℕ → Op
  accept_video_op : Option ℕ → ℕ → Session → Op
  add_video_op : List ℕ → Option ℕ → Option ℕ → Bool → Op
  send_reinvite_op : List ℕ → Bool → Op
  timer_op : Option ℕ → Op
  finish_op : EndReason → Op  -- endWithReason, from another call's handler

unfoldable pub step : Op → Call → Call
step (accept_op alloc now) c = (accept_locked alloc now c).0
step (start_media_op rtcp_bound) c = or_same c (start_media rtcp_bound c)
step (start_video_op rtcp_bound) c = start_video_media rtcp_bound c
step fire_media_op c = act media_fired c
step (reject_op code) c = (reject code c).0
step end_op c = (end_call c).0
step mute_op c = (mute c).0
step unmute_op c = (unmute c).0
step mute_video_op c = (mute_video c).0
step unmute_video_op c = (unmute_video c).0
step suspend_op c = suspend_media_timeout c
step restore_op c = restore_media_timeout c
step (hold_op alloc sent) c = (hold alloc sent c).0
step (resume_op alloc sent) c = (resume alloc sent c).0
step (mode_op m) c = set_dtmf_mode m c
step (dtmf_op code sent) c = (send_dtmf code sent c).0
step (transfer_op target) c = (blind_transfer target c).0
step (response_op code now) c = on_response code now c
step bye_op c = on_bye c
step cancel_op c = on_cancel c
step timeout_op c = on_media_timeout c
step (reinvite_op alloc remote) c = (begin_reinvite alloc remote c).0
step stop_video_op c = signal_video_stop c
step release_video_op c = release_video c
step key_video_op c = key_video c
step srtp_op c = setup_srtp c
step (downgrade_op alloc s) c = answer_downgrade alloc s c
step (reject_video_op alloc s) c = reject_video_upgrade alloc s c
step (request_video_op alloc) c = request_video alloc c
step (accept_video_op alloc port s) c = accept_video_upgrade alloc port s c
step (add_video_op codecs v alloc sent) c = (add_video codecs v alloc sent c).0
step (send_reinvite_op offer sent) c = (send_reinvite offer sent c).0
step (notify_op code) c = on_notify code c
step (timer_op alloc) c = on_session_timer alloc c
step (finish_op reason) c = end_with_reason reason c
