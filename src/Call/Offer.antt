-- ===== src/Call/Offer.antt =====
-- call.go: codec preferences, the SDP bodies that a call sends, and what it takes from the remote's.
-- A port that is allocated comes in as an argument, `none` where the range is exhausted.
use xphone_go.Prelude.{
  ℕ, ◌≡◌, ◌≢◌, refl, Bool, true, false, ◌&&◌, ◌||◌, Option, none, some, List, [], ◌∷◌, ◌++◌, arith,
  ltb, ◌==◌, if◌then◌else◌, contains,
}
use xphone_go.Sdp.{
  Dir, Session, MediaDesc, audio_media, video_media, codecs_of, negotiate_codec, answer_codecs,
  intersect_codecs,
}
use xphone_go.Call.State.{Call, Body, DtmfMode, rfc4733, sip_info, both}

abbrev pub dtmf_payload_type : ℕ
dtmf_payload_type = 101

abbrev pub default_codec_prefs : List ℕ
default_codec_prefs = 8 ∷ 0 ∷ 9 ∷ 101 ∷ 111 ∷ []

abbrev prefs_or_default : List ℕ → List ℕ
prefs_or_default [] = default_codec_prefs
prefs_or_default (p ∷ ps) = p ∷ ps

abbrev with_dtmf : DtmfMode → List ℕ → List ℕ
with_dtmf sip_info prefs = prefs
with_dtmf rfc4733 prefs =
    if contains prefs dtmf_payload_type then prefs else prefs ++ (dtmf_payload_type ∷ [])
with_dtmf both prefs =
    if contains prefs dtmf_payload_type then prefs else prefs ++ (dtmf_payload_type ∷ [])

unfoldable pub resolve_codec_prefs : Call → List ℕ
resolve_codec_prefs c = with_dtmf c.dtmf_mode (prefs_or_default c.codec_prefs)

abbrev bind_rtp : Option ℕ → Call → Call
bind_rtp none c = c
bind_rtp (some port) c = record c { rtp_port = port; rtp_conn = true }

-- ensureRTPPort: a port is allocated once. A failure leaves port 0 in the body.
abbrev pub ensure_rtp_port : Option ℕ → Call → Call
ensure_rtp_port alloc c = if c.rtp_port == 0 then bind_rtp alloc c else c

-- buildICEParams makes the agent with the first body.
abbrev pub build_ice_params : Call → Call
build_ice_params c = record c { ice_agent = c.ice_agent || c.ice_enabled }

abbrev has_some : List ℕ → Bool
has_some [] = false
has_some (x ∷ xs) = true

unfoldable pub build_local_sdp : Option ℕ → Dir → Call → Call × Body
unfolding resolve_codec_prefs
build_local_sdp alloc d c =
    let c' = build_ice_params (ensure_rtp_port alloc c) in
    (
      c',
      record {
        port = c'.rtp_port;
        codecs = resolve_codec_prefs c';
        direction = d;
        video =
            if has_some c'.video_prefs && ltb 0 c'.video_rtp_port
            then some (c'.video_rtp_port, c'.video_prefs)
            else none;
        srtp = c'.srtp_offered;
        ice = c'.ice_enabled;
      },
    )

abbrev pub set_remote_credentials : Session → Call → Call
set_remote_credentials s c =
    if c.ice_agent
    then (elim s.ice [ none ↦ c | some creds ↦ record c { ice_remote = some creds } ])
    else c

unfoldable pub build_answer_sdp : Option ℕ → Session → Dir → Call → Call × Body
unfolding resolve_codec_prefs
build_answer_sdp alloc remote d c =
    let c' = set_remote_credentials remote (build_ice_params (ensure_rtp_port alloc c)) in
    let offered = codecs_of (video_media remote) in
    (
      c',
      record {
        port = c'.rtp_port;
        codecs = answer_codecs (resolve_codec_prefs c') (codecs_of (audio_media remote));
        direction = d;
        video =
            if has_some c'.video_prefs && (ltb 0 c'.video_rtp_port && has_some offered)
            then some (c'.video_rtp_port, intersect_codecs c'.video_prefs offered)
            else none;
        srtp = c'.srtp_offered;
        ice = c'.ice_enabled;
      },
    )

abbrev set_codec : Option ℕ → Call → Call
set_codec none c = c
set_codec (some pt) c = record c { codec = pt }

unfoldable pub negotiate_audio_codec : Session → Call → Call
unfolding resolve_codec_prefs
negotiate_audio_codec s c =
    let offered = codecs_of (audio_media s) in
    let c' = set_codec (negotiate_codec (resolve_codec_prefs c) offered) c in
    record c' { dtmf_rtp_ok = contains offered dtmf_payload_type }

-- The first video codec offered that is H.264 (96) or VP8 (97).
abbrev pub first_video : List ℕ → Option ℕ
first_video [] = none
first_video (pt ∷ pts) = if (pt == 96) || (pt == 97) then some pt else first_video pts

abbrev set_video : Option ℕ → Call → Call
set_video none c = c
set_video (some pt) c = record c { has_video = true; video_codec_type = pt }

unfoldable pub negotiate_video_codec : Session → Call → Call
negotiate_video_codec s c = set_video (first_video (codecs_of (video_media s))) c

unfoldable pub negotiate : Session → Call → Call
unfolding negotiate_audio_codec negotiate_video_codec
negotiate s c = negotiate_video_codec s (negotiate_audio_codec s c)

abbrev endpoint : Option (List ℕ) → ℕ → Option (List ℕ × ℕ)
endpoint none port = none
endpoint (some ip) port = if ltb 0 port then some (ip, port) else none

abbrev remote_of : Option (List ℕ) → List MediaDesc → Option (List ℕ × ℕ)
remote_of ip [] = none
remote_of ip (m ∷ ms) = endpoint ip m.port

-- setRemoteEndpoint: the address of the first media line.
unfoldable pub set_remote_endpoint : Session → Call → Call
set_remote_endpoint s c = record c { remote_addr = remote_of s.connection s.media }

abbrev video_endpoint : Session → Option MediaDesc → Call → Call
video_endpoint s none c = c
video_endpoint s (some m) c = elim (endpoint s.connection m.port) [
  | none ↦ c
  | some addr ↦ record c { video_remote_addr = some addr }
]

unfoldable pub set_video_remote_endpoint : Session → Call → Call
set_video_remote_endpoint s c = video_endpoint s (video_media s) c

contains-append_last : (xs : List ℕ) (a : ℕ) → contains (xs ++ (a ∷ [])) a ≡ true
contains-append_last [] a = ground arith
contains-append_last (x ∷ xs) a = ground (arith, contains-append_last xs a)

with_dtmf-contains :
    (m : DtmfMode) (prefs : List ℕ)
    → m ≢ sip_info
    → contains (with_dtmf m prefs) dtmf_payload_type ≡ true
with_dtmf-contains sip_info prefs h = absurd (h refl)
with_dtmf-contains rfc4733 prefs h = ground (arith, contains-append_last prefs 101)
with_dtmf-contains both prefs h = ground (arith, contains-append_last prefs 101)

-- With RTP digits in use every offer has telephone-event, whatever the preferences of the call.
pub build_local_sdp-dtmf :
    (alloc : Option ℕ) (d : Dir) (c : Call)
    → c.dtmf_mode ≢ sip_info
    → contains (build_local_sdp alloc d c).1.codecs dtmf_payload_type ≡ true
unfolding build_local_sdp
build_local_sdp-dtmf alloc d c h =
    ground (arith, with_dtmf-contains c.dtmf_mode (prefs_or_default c.codec_prefs) h)

-- Building a body changes the port, the socket and the ICE agent only.
pub record SameCall (c c' : Call) : Type 0 where
  pub same_state : c'.state ≡ c.state
  pub same_log : c'.log ≡ c.log
  pub same_local : c'.local_sdp ≡ c.local_sdp
  pub same_timer : c'.timer_reset ≡ c.timer_reset
  pub same_media : c'.media_done ≡ c.media_done
  pub same_direction : c'.direction ≡ c.direction

pub build_local_sdp-SameCall :
    (alloc : Option ℕ) (d : Dir) (c : Call) → SameCall c (build_local_sdp alloc d c).0
unfolding build_local_sdp
build_local_sdp-SameCall alloc d c = ground arith
