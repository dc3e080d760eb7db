-- ===== src/Sdp/RoundTrip.antt =====
-- internal/sdp/sdp.go: Parse on a body that buildSDPMulti writes.
use xphone_go.Prelude.{
  ℕ, ◌^◌, ◌<◌, ◌≡◌, refl, ap, ◌∙◌, Bool, true, false, Option, none, some, List, [], ◌∷◌, ◌++◌,
  arith, if◌then◌else◌, Bool-cases, inl, inr, append-nil, ◌==◌, length,
}
use xphone_go.Text.Defs.{Text, ascii, fields}
use xphone_go.Text.Numbers.{no_space}
use xphone_go.Sdp.Lines.{IsWord, AllInts, fields-word, fields-last}
use xphone_go.Sdp.Body.{
  MediaDesc, Session, new_session, parse, parse_result, set_connection, reverse_media,
  parse_attribute, is_direction,
}
use xphone_go.Sdp.Print.{
  IceParams, put_lines, lite_line, media_section, body_lines, build_sdp_multi,
}
use xphone_go.Sdp.Sections.{AreClean, read, read-append, parse_lines-put_lines}
use xphone_go.Sdp.MediaLines.{read-media_section, with_ice, IsSent}

abbrev pub lite_of : Option IceParams → Bool
lite_of none = false
lite_of (some ice) = ice.lite

abbrev pub ufrag_of : Option IceParams → Text
ufrag_of none = []
ufrag_of (some ice) = ice.ufrag

abbrev pub pwd_of : Option IceParams → Text
pwd_of none = []
pwd_of (some ice) = ice.pwd

-- The session that the lines above the media sections give.
abbrev pub head_session : Text → Option IceParams → Session
head_session ip ice = record new_session {
  origin = ascii "xphone 0 0 IN IP4 " ++ ip;
  connection = ip;
  ice_lite = lite_of ice;
}

read-lite_line :
    (ice : Option IceParams) (s : Session)
    → s.ice_lite ≡ false
    → read (lite_line ice) (s, true) ≡ (record s { ice_lite = lite_of ice }, true)
unfolding read parse_attribute
read-lite_line none s h = ap (λ (b : Bool). (record s { ice_lite = b }, true)) h
read-lite_line (some ice) s h = elim (Bool-cases ice.lite) [
  | inl e ↦ rw (e) refl
  | inr e ↦ rw (e) (ap (λ (b : Bool). (record s { ice_lite = b }, true)) h)
]

fields-connection :
    (ip : Text) → IsWord ip → fields (ascii "IN IP4 " ++ ip) ≡ ascii "IN" ∷ ascii "IP4" ∷ ip ∷ []
fields-connection ip w =
    fields-word (ascii "IN") (ascii "IP4 " ++ ip) (record { not_empty = refl; unbroken = refl })
    ∙ ap (λ (ws : List Text). ascii "IN" ∷ ws)
        (fields-word (ascii "IP4") ip (record { not_empty = refl; unbroken = refl })
          ∙ ap (λ (ws : List Text). ascii "IP4" ∷ ws) (fields-last ip w))

read-head :
    (ip : Text) (ice : Option IceParams) (rest : List Text)
    → IsWord ip
    → read
        (ascii "v=0"
          ∷ (ascii "o=xphone 0 0 IN IP4 " ++ ip)
          ∷ ascii "s=xphone"
          ∷ (ascii "c=IN IP4 " ++ ip)
          ∷ ascii "t=0 0"
          ∷ (lite_line ice ++ rest))
        (new_session, false)
      ≡ read rest (head_session ip ice, true)
unfolding read
read-head ip ice rest w =
    let s : Session = record new_session { origin = ascii "xphone 0 0 IN IP4 " ++ ip } in
    ap (λ (ws : List Text). read (lite_line ice ++ rest) (set_connection ws s, true))
      (fields-connection ip w)
    ∙ read-append (lite_line ice) rest (record s { connection = ip }, true)
    ∙ ap (read rest) (read-lite_line ice (record s { connection = ip }) refl)

-- The session-level fields that the body says.
abbrev pub IsHeaded : Text → Option IceParams → Session → Type 0
IsHeaded ip ice s =
    (s.connection ≡ ip)
    × (s.ice_ufrag ≡ ufrag_of ice)
    × (s.ice_pwd ≡ pwd_of ice)
    × (s.ice_lite ≡ lite_of ice)

with_ice-IsHeaded :
    (ip : Text) (ice : Option IceParams) (ms : List MediaDesc)
    → IsHeaded ip ice (record (with_ice ice (head_session ip ice)) { media = ms })
with_ice-IsHeaded ip none ms = (refl, refl, refl, refl)
with_ice-IsHeaded ip (some ice) ms = (refl, refl, refl, refl)

with_ice_twice-IsHeaded :
    (ip : Text) (ice : Option IceParams) (ms ks : List MediaDesc)
    → IsHeaded ip ice
        (record (with_ice ice (record (with_ice ice (head_session ip ice)) { media = ms })) {
          media = ks;
        })
with_ice_twice-IsHeaded ip none ms ks = (refl, refl, refl, refl)
with_ice_twice-IsHeaded ip (some ice) ms ks = (refl, refl, refl, refl)

-- What is left of a body that is parsed to a session.
parse-read :
    (ls : List Text) (s : Session)
    → AreClean ls
    → read ls (new_session, false) ≡ (s, true)
    → parse (put_lines ls) ≡ some (record s { media = reverse_media s.media [] })
unfolding parse
parse-read ls s h e = ap parse_result (parse_lines-put_lines ls (new_session, false) h ∙ e)

module _ (ip profile_text dir_text key : Text) (ice : Option IceParams) (ip_word : IsWord ip)
    (profile_word : IsWord profile_text) (known : is_direction dir_text ≡ true)
    (key_word : no_space key ≡ true) where
  -- An audio body of lines without CR and LF is read back. The address, the profile and the key are words, the direction is one of the four
  -- known ones, the port and the payload types are ints. The session has the address and the ICE parameters, and one media line with the
  -- port, the profile, the payload types, the direction, the key and the ICE candidates that were written.
  pub parse-build_sdp_multi :
      (port_number : ℕ) (cs : List ℕ)
      → port_number < 2 ^ 63
      → AllInts cs
      → AreClean (body_lines ip port_number cs dir_text profile_text key ice 0 [])
      → (s : Session) × (md : MediaDesc) × (parse
            (build_sdp_multi ip port_number cs dir_text profile_text key ice 0 [])
          ≡ some s)
        × IsHeaded ip ice s
        × (s.media ≡ md ∷ [])
        × IsSent (ascii "audio") port_number profile_text cs dir_text key ice md
  unfolding build_sdp_multi body_lines
  parse-build_sdp_multi port_number cs b h clean =
      let audio = media_section (ascii "audio") port_number profile_text cs dir_text key ice in
      let (md, sent, section) =
        read-media_section profile_text dir_text key ice profile_word known key_word (ascii "audio")
          port_number cs (head_session ip ice) (record { not_empty = refl; unbroken = refl }) b h in
      let s = record (with_ice ice (head_session ip ice)) { media = md ∷ [] } in
      (
        s,
        md,
        parse-read (body_lines ip port_number cs dir_text profile_text key ice 0 []) s clean (
            read-head ip ice (audio ++ []) ip_word
            ∙ ap (λ (ls : List Text). read ls (head_session ip ice, true)) (append-nil audio)
            ∙ section),
        with_ice-IsHeaded ip ice (md ∷ []),
        refl,
        sent,
      )

  -- The same with a video section: the two media lines come back in their order.
  pub parse-build_sdp_multi_video :
      (audio_port : ℕ) (audio_codecs : List ℕ) (video_port c : ℕ) (cs : List ℕ)
      → audio_port < 2 ^ 63
      → AllInts audio_codecs
      → video_port < 2 ^ 63
      → AllInts (c ∷ cs)
      → AreClean
          (body_lines ip audio_port audio_codecs dir_text profile_text key ice video_port (c ∷ cs))
      → (s : Session) × (md : MediaDesc) × (video : MediaDesc) × (parse (
            build_sdp_multi ip audio_port audio_codecs dir_text profile_text key ice video_port
              (c ∷ cs))
          ≡ some s)
        × IsHeaded ip ice s
        × (s.media ≡ md ∷ video ∷ [])
        × IsSent (ascii "audio") audio_port profile_text audio_codecs dir_text key ice md
        × IsSent (ascii "video") video_port profile_text (c ∷ cs) dir_text key ice video
  unfolding build_sdp_multi body_lines
  parse-build_sdp_multi_video audio_port audio_codecs video_port c cs b h vb vh clean =
      let audio =
        media_section (ascii "audio") audio_port profile_text audio_codecs dir_text key ice in
      let video = media_section (ascii "video") video_port profile_text (c ∷ cs) dir_text key ice in
      let more : (length (c ∷ cs) == 0) ≡ false = ground arith in
      let (md, sent, section) =
        read-media_section profile_text dir_text key ice profile_word known key_word (ascii "audio")
          audio_port audio_codecs (head_session ip ice)
          (record { not_empty = refl; unbroken = refl }) b h in
      let s1 = record (with_ice ice (head_session ip ice)) { media = md ∷ [] } in
      let (vd, v_sent, v_section) =
        read-media_section profile_text dir_text key ice profile_word known key_word (ascii "video")
          video_port (c ∷ cs) s1 (record { not_empty = refl; unbroken = refl }) vb vh in
      let s2 = record (with_ice ice s1) { media = md ∷ vd ∷ [] } in
      (
        s2,
        md,
        vd,
        parse-read
            (body_lines ip audio_port audio_codecs dir_text profile_text key ice video_port
              (c ∷ cs))
            (record (with_ice ice s1) { media = vd ∷ md ∷ [] }) clean
            (read-head ip ice (audio ++ (if length (c ∷ cs) == 0 then [] else video)) ip_word
              ∙ ap
                  (λ (none_sent : Bool).
                    read (audio ++ (if none_sent then [] else video)) (head_session ip ice, true))
                  more
              ∙ read-append audio video (head_session ip ice, true)
              ∙ ap (read video) section
              ∙ v_section),
        with_ice_twice-IsHeaded ip ice (md ∷ []) (md ∷ vd ∷ []),
        refl,
        sent,
        v_sent,
      )
