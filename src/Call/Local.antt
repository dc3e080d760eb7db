-- ===== src/Call/Local.antt =====
-- call.go: the methods of a call that the application runs, and media.go's startMedia. Each holds the
-- lock from its test to its last change; Accept starts the media after the lock is released, so
-- that part is a function of its own. What the dialog answers and whether a port can be bound
-- are arguments. The session timer and the media goroutines are states, not their later work.
use xphone_go.Prelude.{
  ℕ, ◌*◌, ◌/◌, Bool, true, false, not, ◌&&◌, ◌||◌, Option, none, some, List, ltb, if◌then◌else◌,
}
use xphone_go.Sdp.{Dir, send_recv, send_only}
use xphone_go.Call.State.{
  Call, CallState, ringing, dialing, remote_ringing, early_media, active, on_hold, ended, idle,
  by_local, by_rejected, by_cancelled, DtmfMode, rfc4733, sip_info, both, Error, invalid_state,
  already_muted, not_muted, no_video, invalid_digit, dtmf_not_negotiated, network, Body, RemoteSdp,
  empty, malformed, parsed, running, respond, bye, cancel, reinvite, refer, info, rtp_digit,
  video_fired, mute_fired, unmute_fired, act, is_state, enter, default_media_timeout,
  default_hold_media_timeout, signal_media_timer_reset,
}
use xphone_go.Call.Offer.{
  build_local_sdp, build_answer_sdp, negotiate, set_remote_endpoint, set_video_remote_endpoint,
}
use xphone_go.Call.Release.{finish, is_made}

abbrev pub Reply : Type 0
Reply = Call × Option Error

abbrev pub effective_media_timeout : Call → ℕ
effective_media_timeout c = if ltb 0 c.media_timeout then c.media_timeout else default_media_timeout

abbrev arm : Option ℕ → Option ℕ → Option ℕ
arm none old = old
arm (some seconds) old = if ltb 0 seconds then some (seconds * 1000 / 2) else old

-- startSessionTimer: half of Session-Expires.
abbrev pub start_session_timer : Call → Call
start_session_timer c = record c { session_timer = arm c.session_expires c.session_timer }

abbrev take_endpoint : RemoteSdp → Call → Call
take_endpoint empty c = c
take_endpoint malformed c = c
take_endpoint (parsed s) c = set_video_remote_endpoint s c

-- initVideoChannels, where there are no video channels yet.
abbrev pub init_video : Option Bool → Call → Call
init_video none c = record c { video_outputs = some false; video_muted = some false }
init_video (some done) c = c

abbrev pub prepare_video : Call → Call
prepare_video c =
    if c.has_video && c.video_rtp_conn
    then (let c' = take_endpoint c.remote_sdp c in init_video c'.video_outputs c')
    else c

-- The answer to an offer that parses, else an offer of our own.
abbrev pub accept_body : Option ℕ → RemoteSdp → Call → Call × Body
accept_body alloc empty c = build_local_sdp alloc send_recv c
accept_body alloc malformed c = build_local_sdp alloc send_recv c
accept_body alloc (parsed s) c =
    let (c', body) = build_answer_sdp alloc s send_recv (negotiate s c) in
    (set_remote_endpoint s c', body)

-- What Accept does once the body is there: 200 OK, the channels, the timer, and the state.
abbrev pub answer : ℕ → Call × Body → Call
answer now (c, body) =
    let answered = act (respond 200) (record c { local_sdp = some body }) in
    enter active (start_session_timer (record (prepare_video answered) { start_time = some now }))

-- Accept, up to where it releases the lock.
unfoldable pub accept_locked : Option ℕ → ℕ → Call → Reply
accept_locked alloc now c =
    if is_state ringing c.state
    then (answer now (accept_body alloc c.remote_sdp c), none)
    else (c, some invalid_state)

-- startMedia. `none` is the panic of conn.LocalAddr() where the socket is nil.
unfoldable pub start_media : Bool → Call → Option Call
start_media rtcp_bound c =
    if is_made c.media_done
    then some c
    else if not c.rtp_conn
    then none
    else some (record c {
      media_done = running;
      timer_reset = some none;
      media_active = true;
      rtcp_conn = c.rtcp_conn || rtcp_bound;
    })

unfoldable pub start_video_media : Bool → Call → Call
start_video_media rtcp_bound c =
    if is_made c.video_done
    then c
    else act video_fired (record c {
      video_done = running;
      video_rtcp_conn = c.video_rtcp_conn || (c.video_rtp_conn && rtcp_bound);
    })

-- Reject.
unfoldable pub reject : ℕ → Call → Reply
unfolding finish
reject code c =
    if is_state ringing c.state
    then (finish by_rejected (act (respond code) c), none)
    else (c, some invalid_state)

abbrev end_by : CallState → Call → Reply
end_by ringing c = (finish by_cancelled (act (respond 487) c), none)
end_by dialing c = (finish by_cancelled (act cancel c), none)
end_by remote_ringing c = (finish by_cancelled (act cancel c), none)
end_by early_media c = (finish by_cancelled (act cancel c), none)
end_by active c = (finish by_local (act bye c), none)
end_by on_hold c = (finish by_local (act bye c), none)
end_by ended c = (c, some invalid_state)
end_by idle c = (c, some invalid_state)

-- End. A message that cannot be sent does not keep the call alive.
unfoldable pub end_call : Call → Reply
unfolding finish
end_call c = end_by c.state c

-- Hold and Resume: the state changes only if the re-INVITE was answered.
abbrev reoffer : Option ℕ → Bool → Dir → CallState → ℕ → Call → Reply
reoffer alloc sent d next timeout c =
    let (c', body) = build_local_sdp alloc d c in
    let offered = act (reinvite body) c' in
    if sent
    then (
      signal_media_timer_reset timeout (enter next (record offered { local_sdp = some body })),
      none,
    )
    else (offered, some network)

unfoldable pub hold : Option ℕ → Bool → Call → Reply
unfolding build_local_sdp signal_media_timer_reset
hold alloc sent c =
    if is_state active c.state
    then reoffer alloc sent send_only on_hold default_hold_media_timeout c
    else (c, some invalid_state)

unfoldable pub resume : Option ℕ → Bool → Call → Reply
unfolding build_local_sdp signal_media_timer_reset
resume alloc sent c =
    if is_state on_hold c.state
    then reoffer alloc sent send_recv active (effective_media_timeout c) c
    else (c, some invalid_state)

unfoldable pub suspend_media_timeout : Call → Call
unfolding signal_media_timer_reset
suspend_media_timeout c = signal_media_timer_reset default_hold_media_timeout c

unfoldable pub restore_media_timeout : Call → Call
unfolding signal_media_timer_reset
restore_media_timeout c = signal_media_timer_reset (effective_media_timeout c) c

unfoldable pub set_dtmf_mode : DtmfMode → Call → Call
set_dtmf_mode mode c = record c { dtmf_mode = mode }

abbrev mute_stream : Bool → Option Bool → Option Bool
mute_stream b none = none
mute_stream b (some old) = some b

-- Mute and Unmute switch the audio, and the video where there is any.
unfoldable pub mute : Call → Reply
mute c =
    if not (is_state active c.state)
    then (c, some invalid_state)
    else if c.audio_muted
    then (c, some already_muted)
    else (
      act mute_fired
          (record c { audio_muted = true; video_muted = mute_stream true c.video_muted }),
      none,
    )

unfoldable pub unmute : Call → Reply
unmute c =
    if not (is_state active c.state)
    then (c, some invalid_state)
    else if not c.audio_muted
    then (c, some not_muted)
    else (
      act unmute_fired
          (record c { audio_muted = false; video_muted = mute_stream false c.video_muted }),
      none,
    )

abbrev switch_video : Bool → Error → Option Bool → Call → Reply
switch_video b e none c = (c, some no_video)
switch_video true e (some true) c = (c, some e)
switch_video true e (some false) c = (record c { video_muted = some true }, none)
switch_video false e (some false) c = (c, some e)
switch_video false e (some true) c = (record c { video_muted = some false }, none)

unfoldable pub mute_video : Call → Reply
mute_video c =
    if not (is_state active c.state)
    then (c, some invalid_state)
    else if not c.has_video
    then (c, some no_video)
    else switch_video true already_muted c.video_muted c

unfoldable pub unmute_video : Call → Reply
unmute_video c =
    if not (is_state active c.state)
    then (c, some invalid_state)
    else if not c.has_video
    then (c, some no_video)
    else switch_video false not_muted c.video_muted c

abbrev info_reply : Bool → ℕ → Call → Reply
info_reply sent code c = (act (info code) c, if sent then none else some network)

abbrev send_digit : DtmfMode → Bool → Bool → ℕ → Call → Reply
send_digit sip_info rtp_ok sent code c = info_reply sent code c
send_digit both rtp_ok sent code c =
    if rtp_ok then (act (rtp_digit code) c, none) else info_reply sent code c
send_digit rfc4733 rtp_ok sent code c =
    if rtp_ok then (act (rtp_digit code) c, none) else (c, some dtmf_not_negotiated)

abbrev send_code : Option ℕ → Bool → Call → Reply
send_code none sent c = (c, some invalid_digit)
send_code (some code) sent c = send_digit c.dtmf_mode c.dtmf_rtp_ok sent code c

-- SendDTMF, for a digit with the event code that DTMFDigitCode gives it.
unfoldable pub send_dtmf : Option ℕ → Bool → Call → Reply
send_dtmf code sent c =
    if is_state active c.state then send_code code sent c else (c, some invalid_state)

-- BlindTransfer; the outcome comes in by the NOTIFY handler that it registers.
unfoldable pub blind_transfer : List ℕ → Call → Reply
blind_transfer target c =
    if is_state active c.state || is_state on_hold c.state
    then (record (act (refer target) c) { notify_set = true }, none)
    else (c, some invalid_state)
