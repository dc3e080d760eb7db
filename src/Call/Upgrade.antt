-- ===== src/Call/Upgrade.antt =====
-- video_upgrade.go and call.go: the re-INVITE of the remote side, with the upgrade to video and the
-- way back, AddVideo, SendReInvite and setupSRTP. A function is one section under the lock, with
-- the response behind it; those that follow another in the code do not test the state again. The
-- request of an upgrade is its session and the port that was bound for it; its 30 s timer and its
-- sync.Once, which leave out some runs, are not modelled. The m=video line that a rejection appends
-- to the answer is not in `Body`.
use xphone_go.Prelude.{
  ℕ, Bool, true, false, not, ◌&&◌, ◌||◌, Option, none, some, List, [], ◌∷◌, ltb, ◌==◌,
  if◌then◌else◌,
}
use xphone_go.Sdp.{
  Session, MediaDesc, Dir, dir, video_media, send_recv, send_only, recv_only, inactive,
}
use xphone_go.Call.State.{
  Call, Action, active, on_hold, ended, RemoteSdp, empty, malformed, parsed, unmade, invalid_state,
  no_port, network, video_already_active, keyed, absent, respond, reinvite, raw_reinvite,
  hold_fired, resume_fired, video_requested, act, is_state, enter, default_hold_media_timeout,
  signal_media_timer_reset,
}
use xphone_go.Call.Offer.{
  build_local_sdp, build_answer_sdp, negotiate, negotiate_audio_codec, negotiate_video_codec,
  set_remote_endpoint, set_video_remote_endpoint,
}
use xphone_go.Call.Local.{Reply, effective_media_timeout, init_video}

-- What a section of handleReInvite leaves to do: nothing, an upgrade, or a downgrade.
pub data Next : Type 0 where
  done upgrades downgrades : Next

abbrev is_empty_list : List ℕ → Bool
is_empty_list [] = true
is_empty_list (x ∷ xs) = false

abbrev wants : Option MediaDesc → Bool
wants none = false
wants (some m) = ltb 0 m.port && not (is_empty_list m.codecs)

-- A video line with a port and codecs.
abbrev pub offers_video : Session → Bool
offers_video s = wants (video_media s)

-- The hold and the resume that the remote side asks for, and the callbacks to dispatch.
abbrev pub turn : Dir → Call → Call × Option Action
turn send_only c =
    if is_state active c.state
    then (signal_media_timer_reset default_hold_media_timeout (enter on_hold c), some hold_fired)
    else (c, none)
turn send_recv c =
    if is_state on_hold c.state
    then (signal_media_timer_reset (effective_media_timeout c) (enter active c), some resume_fired)
    else (c, none)
turn recv_only c = (c, none)
turn inactive c = (c, none)

abbrev pub answer_dir : Dir → Dir
answer_dir send_only = recv_only
answer_dir _ = send_recv

abbrev pub fire : Option Action → Call → Call
fire none c = c
fire (some a) c = act a c

-- The answer is built, stored and sent.
unfoldable pub respond_sdp : Option ℕ → Session → Dir → Call → Call
unfolding build_answer_sdp
respond_sdp alloc s d c =
    let (c', body) = build_answer_sdp alloc s d c in
    act (respond 200) (record c' { local_sdp = some body })

abbrev pub with_remote : Session → Call → Call
with_remote s c = set_remote_endpoint s (record c { remote_sdp = parsed s })

-- The branch of handleReInvite for a change of the audio.
abbrev pub reinvite_audio : Option ℕ → Session → Call → Call
reinvite_audio alloc s c =
    let (c', fired) = turn (dir s) (with_remote s c) in
    fire fired (respond_sdp alloc s (answer_dir (dir s)) (negotiate s c'))

abbrev pub reinvite_parsed : Option ℕ → Session → Call → Call × Next
reinvite_parsed alloc s c =
    if c.has_video && not (offers_video s)
    then (c, downgrades)
    else if not c.has_video && offers_video s
    then (c, upgrades)
    else (reinvite_audio alloc s c, done)

-- handleReInvite, up to where it releases the lock the first time.
unfoldable pub begin_reinvite : Option ℕ → RemoteSdp → Call → Call × Next
begin_reinvite alloc empty c = (act (respond 400) c, done)
begin_reinvite alloc malformed c = (act (respond 400) c, done)
begin_reinvite alloc (parsed s) c =
    if is_state ended c.state then (c, done) else reinvite_parsed alloc s c

-- stopVideoPipeline, before and after it waits for the video goroutine.
unfoldable pub signal_video_stop : Call → Call
signal_video_stop c = record c { video_done = unmade }

unfoldable pub release_video : Call → Call
release_video c = record c {
  video_rtcp_conn = false;
  video_rtp_conn = false;
  video_srtp_in = absent;
  video_srtp_out = absent;
  has_video = false;
  video_codec_type = 0;
  video_rtp_port = 0;
  video_remote_addr = none;
  video_muted = none;
  video_outputs = none;
}

-- The rest of a downgrade.
unfoldable pub answer_downgrade : Option ℕ → Session → Call → Call
answer_downgrade alloc s c = respond_sdp alloc s (dir s) (negotiate_audio_codec s (with_remote s c))

-- The rest of an upgrade: the request is made, or 500 without a port for it. The callbacks of
-- OnVideoRequest are `video_requested`; where there are none, the rejection follows.
unfoldable pub request_video : Option ℕ → Call → Call
request_video none c = act (respond 500) c
request_video (some port) c = act video_requested (record c { pending_upgrade = true })

-- rejectVideoUpgrade.
unfoldable pub reject_video_upgrade : Option ℕ → Session → Call → Call
reject_video_upgrade alloc s c =
    if is_state ended c.state
    then c
    else respond_sdp alloc s send_recv
        (record (negotiate_audio_codec s (with_remote s c)) { pending_upgrade = false })

-- The preferences that let the answer have video, and the channels.
abbrev pub with_pref : Call → Call
with_pref c = init_video c.video_outputs (record c { video_prefs = c.video_codec_type ∷ [] })

-- The video that an accepted request brings, behind its socket.
abbrev pub take_video : Session → Call → Call
take_video s c = with_pref (set_video_remote_endpoint s (negotiate_video_codec s (with_remote s c)))

-- acceptVideoUpgrade, up to where it releases the lock.
unfoldable pub accept_video_upgrade : Option ℕ → ℕ → Session → Call → Call
accept_video_upgrade alloc port s c =
    if is_state ended c.state
    then c
    else respond_sdp alloc s send_recv
        (record (take_video s (record c { video_rtp_conn = true; video_rtp_port = port })) {
          pending_upgrade = false;
        })

-- The keys of the video, in acceptVideoUpgrade and setupSRTP.
unfoldable pub key_video : Call → Call
key_video c = record c { video_srtp_in = keyed; video_srtp_out = keyed }

-- setupSRTP, for the audio.
unfoldable pub setup_srtp : Call → Call
setup_srtp c = record c { srtp_offered = true; srtp_in = keyed; srtp_out = keyed }

-- ensureVideoRTPPort; `none` is an error.
abbrev ensure_video_rtp_port : Option ℕ → Call → Option Call
ensure_video_rtp_port alloc c =
    if c.video_rtp_port == 0
    then (elim alloc [
      | none ↦ none
      | some port ↦ some (record c { video_rtp_port = port; video_rtp_conn = true })
    ])
    else some c

abbrev offer_video : Option ℕ → Bool → Call → Option Call → Reply
offer_video alloc sent c none = (c, some no_port)
offer_video alloc sent c (some c') =
    let (c'', body) = build_local_sdp alloc send_recv c' in
    (
      act (reinvite body) (record c'' { local_sdp = some body }),
      if sent then none else some network,
    )

abbrev codecs_or_default : List ℕ → List ℕ
codecs_or_default [] = 96 ∷ 97 ∷ []
codecs_or_default (c ∷ cs) = c ∷ cs

-- AddVideo. The preferences stay where no port can be bound.
unfoldable pub add_video : List ℕ → Option ℕ → Option ℕ → Bool → Call → Reply
unfolding build_local_sdp
add_video codecs video_alloc alloc sent c =
    if not (is_state active c.state)
    then (c, some invalid_state)
    else if c.has_video
    then (c, some video_already_active)
    else (let c' = record c { video_prefs = codecs_or_default codecs } in
        offer_video alloc sent c' (ensure_video_rtp_port video_alloc c'))

-- SendReInvite. The offer is sent after the lock is released.
unfoldable pub send_reinvite : List ℕ → Bool → Call → Reply
send_reinvite offer sent c =
    if is_state active c.state || is_state on_hold c.state
    then (act (raw_reinvite offer) c, if sent then none else some network)
    else (c, some invalid_state)
