-- ===== src/Sdp/Print.antt =====
-- internal/sdp/sdp.go: the text of an SDP body, printed. The ports and payload types that are
-- printed are not negative.
use xphone_go.Prelude.{
  ℕ, Bool, ◌||◌, Option, none, some, List, [], ◌∷◌, ◌++◌, ◌==◌, if◌then◌else◌, length,
}
use xphone_go.Text.Defs.{Text, ascii, is_empty, strip_prefix, crlf, itoa}
use xphone_go.Sdp.Body.{CryptoAttr}

pub record IceParams : Type 0 where
  pub ufrag : Text
  pub pwd : Text
  pub candidates : List Text
  pub lite : Bool

-- codecNames.
unfoldable pub codec_name : ℕ → Text
codec_name c =
    if c == 0
    then ascii "PCMU/8000"
    else if c == 8
    then ascii "PCMA/8000"
    else if c == 9
    then ascii "G722/8000"
    else if c == 18
    then ascii "G729/8000"
    else if c == 101
    then ascii "telephone-event/8000"
    else if c == 111
    then ascii "opus/48000/2"
    else if c == 96
    then ascii "H264/90000"
    else if c == 97
    then ascii "VP8/90000"
    else []

-- codecFmtp.
unfoldable pub codec_fmtp : ℕ → Text
codec_fmtp c =
    if c == 18
    then ascii "annexb=no"
    else if c == 96
    then ascii "profile-level-id=42e01f;packetization-mode=1"
    else if c == 101
    then ascii "0-16"
    else if c == 111
    then ascii "minptime=20;useinbandfec=0"
    else []

-- codecRtcpFb.
unfoldable pub codec_rtcp_fb : ℕ → List Text
codec_rtcp_fb c =
    if (c == 96) || (c == 97) then ascii "nack" ∷ ascii "nack pli" ∷ ascii "ccm fir" ∷ [] else []

abbrev pub rtcp_fb_lines : ℕ → List Text → List Text
rtcp_fb_lines c [] = []
rtcp_fb_lines c (fb ∷ fbs) = (ascii "a=rtcp-fb:" ++ (itoa c ++ (32 ∷ fb))) ∷ rtcp_fb_lines c fbs

abbrev pub fmtp_lines : ℕ → Text → List Text
fmtp_lines c fmtp = if is_empty fmtp then [] else (ascii "a=fmtp:" ++ (itoa c ++ (32 ∷ fmtp))) ∷ []

-- The lines of one codec of a media section; a codec without a name has none.
unfoldable pub codec_lines : ℕ → List Text
unfolding codec_name codec_fmtp codec_rtcp_fb
codec_lines c =
    let name = codec_name c in
    if is_empty name
    then []
    else (ascii "a=rtpmap:" ++ (itoa c ++ (32 ∷ name)))
      ∷ (fmtp_lines c (codec_fmtp c) ++ rtcp_fb_lines c (codec_rtcp_fb c))

unfoldable pub all_codec_lines : List ℕ → List Text
unfolding codec_lines
all_codec_lines [] = []
all_codec_lines (c ∷ cs) = codec_lines c ++ all_codec_lines cs

unfoldable pub spaced_codecs : List ℕ → Text
spaced_codecs [] = []
spaced_codecs (c ∷ cs) = 32 ∷ (itoa c ++ spaced_codecs cs)

-- The value of the m= line.
unfoldable pub media_line : Text → ℕ → Text → List ℕ → Text
unfolding spaced_codecs
media_line kind port_number profile_text cs =
    kind ++ (32 ∷ (itoa port_number ++ (32 ∷ (profile_text ++ spaced_codecs cs))))

abbrev pub crypto_lines : Text → List Text
crypto_lines key =
    if is_empty key then [] else (ascii "a=crypto:1 AES_CM_128_HMAC_SHA1_80 inline:" ++ key) ∷ []

abbrev pub candidate_lines : List Text → List Text
candidate_lines [] = []
candidate_lines (c ∷ cs) = (ascii "a=candidate:" ++ c) ∷ candidate_lines cs

abbrev pub ice_lines : Option IceParams → List Text
ice_lines none = []
ice_lines (some ice) =
    (ascii "a=ice-ufrag:" ++ ice.ufrag)
    ∷ (ascii "a=ice-pwd:" ++ ice.pwd)
    ∷ candidate_lines ice.candidates

-- The lines that writeMediaSection writes, each with CR LF behind it.
unfoldable pub media_section : Text → ℕ → Text → List ℕ → Text → Text → Option IceParams → List Text
unfolding media_line all_codec_lines
media_section kind port_number profile_text cs dir_text key ice =
    (ascii "m=" ++ media_line kind port_number profile_text cs)
    ∷ (all_codec_lines cs
        ++ (crypto_lines key ++ (ice_lines ice ++ ((ascii "a=" ++ dir_text) ∷ []))))

abbrev pub lite_line : Option IceParams → List Text
lite_line none = []
lite_line (some ice) = if ice.lite then ascii "a=ice-lite" ∷ [] else []

-- The lines of buildSDPMulti.
unfoldable pub body_lines :
    Text → ℕ → List ℕ → Text → Text → Text → Option IceParams → ℕ → List ℕ → List Text
unfolding media_section
body_lines ip audio_port audio_codecs dir_text profile_text key ice video_port video_codecs =
    ascii "v=0"
    ∷ (ascii "o=xphone 0 0 IN IP4 " ++ ip)
    ∷ ascii "s=xphone"
    ∷ (ascii "c=IN IP4 " ++ ip)
    ∷ ascii "t=0 0"
    ∷ (lite_line ice
        ++ (media_section (ascii "audio") audio_port profile_text audio_codecs dir_text key ice
            ++ (if length video_codecs == 0
                then []
                else media_section (ascii "video") video_port profile_text video_codecs dir_text key
                    ice)))

unfoldable pub put_lines : List Text → Text
put_lines [] = []
put_lines (l ∷ ls) = l ++ (crlf ++ put_lines ls)

-- buildSDPMulti.
unfoldable pub build_sdp_multi :
    Text → ℕ → List ℕ → Text → Text → Text → Option IceParams → ℕ → List ℕ → Text
unfolding body_lines put_lines
build_sdp_multi ip audio_port audio_codecs dir_text profile_text key ice video_port video_codecs =
    put_lines
      (body_lines ip audio_port audio_codecs dir_text profile_text key ice video_port video_codecs)

-- InlineKey.
unfoldable pub inline_key : CryptoAttr → Text
inline_key ca = elim (strip_prefix (ascii "inline:") ca.key_params) [
  | none ↦ ca.key_params
  | some key ↦ key
]
