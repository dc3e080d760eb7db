-- ===== src/Call/State.antt =====
-- events.go and call.go: the states, the reasons, the call record, and the log of what a call does.
-- A socket, a channel or a timer is its state: missing, open or closed. Times are in milliseconds.
use xphone_go.Prelude.{ℕ, Bool, true, false, Option, none, some, List, [], ◌∷◌}
use xphone_go.Sdp.{Dir, Session}

pub data CallState : Type 0 where
  idle ringing dialing remote_ringing early_media active on_hold ended : CallState

pub data EndReason : Type 0 where
  by_local by_remote by_timeout by_error by_transfer by_rejected by_cancelled by_transfer_failed :
      EndReason

pub data Direction : Type 0 where
  inbound outbound : Direction

pub data DtmfMode : Type 0 where
  rfc4733 sip_info both : DtmfMode

-- The errors of a call's methods; `network` is an error of the dialog, `no_port` one of the sockets.
pub data Error : Type 0 where
  invalid_state already_muted not_muted no_video invalid_digit dtmf_not_negotiated network no_port :
      Error
  video_already_active : Error

-- A local SDP body: the arguments of the builder of internal/sdp/sdp.go that is called.
pub record Body : Type 0 where
  pub port : ℕ
  pub codecs : List ℕ
  pub direction : Dir
  pub video : Option (ℕ × List ℕ)
  pub srtp : Bool
  pub ice : Bool

-- The remote SDP text, as sdp.Parse sees it.
pub data RemoteSdp : Type 0 where
  empty malformed : RemoteSdp
  parsed : Session → RemoteSdp

-- A done channel: not made, open, or closed.
pub data Chan : Type 0 where
  unmade running closed : Chan

-- An SRTP context: nil, with its keys, or zeroized.
pub data SrtpSlot : Type 0 where
  absent keyed zeroized : SrtpSlot

-- What a call sends, and which callbacks it dispatches. `state_fired` stands for the phone's and
-- the application's OnState functions, and so for the other callbacks.
pub data Action : Type 0 where
  respond : ℕ → Action
  bye cancel : Action
  reinvite : Body → Action
  refer raw_reinvite : List ℕ → Action
  info rtp_digit : ℕ → Action
  video_requested reject_upgrade media_fired video_fired mute_fired unmute_fired hold_fired
        resume_fired :
      Action
  state_fired : CallState → Action
  ended_fired : EndReason → Action

pub record Call : Type 0 where
  pub state : CallState
  pub direction : Direction
  pub early_media_opt : Bool  -- opts.EarlyMedia
  pub video_prefs : List ℕ  -- opts.VideoCodecs
  pub codec_prefs : List ℕ
  pub dtmf_mode : DtmfMode
  pub dtmf_rtp_ok : Bool
  pub codec : ℕ
  pub has_video : Bool
  pub video_codec_type : ℕ
  pub start_time : Option ℕ
  pub session_expires : Option ℕ  -- the dialog's Session-Expires header, if it is a number
  pub session_timer : Option ℕ  -- its interval, from its start until it is stopped
  pub rtp_port : ℕ  -- 0: none yet
  pub rtp_conn : Bool
  pub rtcp_conn : Bool
  pub video_rtp_port : ℕ
  pub video_rtp_conn : Bool
  pub video_rtcp_conn : Bool
  pub remote_addr : Option (List ℕ × ℕ)
  pub video_remote_addr : Option (List ℕ × ℕ)
  pub local_sdp : Option Body
  pub remote_sdp : RemoteSdp
  pub srtp_offered : Bool  -- srtpLocalKey != ""
  pub srtp_in : SrtpSlot
  pub srtp_out : SrtpSlot
  pub video_srtp_in : SrtpSlot
  pub video_srtp_out : SrtpSlot
  pub ice_enabled : Bool
  pub ice_agent : Bool
  pub ice_remote : Option (List ℕ × List ℕ)
  pub media_active : Bool
  pub media_timeout : ℕ
  pub media_done : Chan
  pub timer_reset : Option (Option ℕ)  -- mediaTimerReset: nil, empty, or a value that waits
  pub video_done : Chan
  pub audio_muted : Bool  -- audioStream.muted
  pub video_muted : Option Bool  -- videoStream: nil, or its muted flag
  pub outputs_closed : Bool  -- closeChOnce
  pub video_outputs : Option Bool  -- the video channels: nil, or whether they are closed
  pub pending_upgrade : Bool
  pub notify_set : Bool  -- OnNotify
  pub callbacks_closed : Bool  -- callbackOnce
  pub log : List Action  -- the latest first

abbrev pub act : Action → Call → Call
act a c = record c { log = a ∷ c.log }

abbrev pub is_state : CallState → CallState → Bool
is_state idle idle = true
is_state ringing ringing = true
is_state dialing dialing = true
is_state remote_ringing remote_ringing = true
is_state early_media early_media = true
is_state active active = true
is_state on_hold on_hold = true
is_state ended ended = true
is_state _ _ = false

-- fireOnState, behind the assignment that always stands before it.
abbrev pub enter : CallState → Call → Call
enter s c = record c { state = s; log = state_fired s ∷ c.log }

abbrev pub default_media_timeout : ℕ
default_media_timeout = 30000

abbrev pub default_hold_media_timeout : ℕ
default_hold_media_timeout = 300000

abbrev reset_pending : Option (Option ℕ) → ℕ → Option (Option ℕ)
reset_pending none d = none
reset_pending (some pending) d = some (some d)

-- signalMediaTimerReset: the latest value wins, and nothing is sent before the media starts.
unfoldable pub signal_media_timer_reset : ℕ → Call → Call
signal_media_timer_reset d c = record c { timer_reset = reset_pending c.timer_reset d }

-- newInboundCall and newOutboundCall: the zero value of every other field.
abbrev new_call : CallState → Direction → Bool → List ℕ → Call
new_call s d early video = record {
  state = s;
  direction = d;
  early_media_opt = early;
  video_prefs = video;
  codec_prefs = [];
  dtmf_mode = rfc4733;
  dtmf_rtp_ok = false;
  codec = 0;
  has_video = false;
  video_codec_type = 0;
  start_time = none;
  session_expires = none;
  session_timer = none;
  rtp_port = 0;
  rtp_conn = false;
  rtcp_conn = false;
  video_rtp_port = 0;
  video_rtp_conn = false;
  video_rtcp_conn = false;
  remote_addr = none;
  video_remote_addr = none;
  local_sdp = none;
  remote_sdp = empty;
  srtp_offered = false;
  srtp_in = absent;
  srtp_out = absent;
  video_srtp_in = absent;
  video_srtp_out = absent;
  ice_enabled = false;
  ice_agent = false;
  ice_remote = none;
  media_active = false;
  media_timeout = 0;
  media_done = unmade;
  timer_reset = none;
  video_done = unmade;
  audio_muted = false;
  video_muted = none;
  outputs_closed = false;
  video_outputs = none;
  pending_upgrade = false;
  notify_set = false;
  callbacks_closed = false;
  log = [];
}

abbrev pub new_inbound : Call
new_inbound = new_call ringing inbound false []

abbrev pub new_outbound : Bool → List ℕ → Call
new_outbound early video = new_call dialing outbound early video
