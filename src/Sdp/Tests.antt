-- ===== src/Sdp/Tests.antt =====
-- internal/sdp/sdp.go at an offer with one audio line, a key and a candidate.
use xphone_go.Prelude.{◌≡◌, refl, false, none, some, [], ◌∷◌, arith}
use xphone_go.Text.Defs.{ascii, itoa, print_digits}
use xphone_go.Sdp.Lines.{IsWord}
use xphone_go.Sdp.Body.{MediaDesc, Session, parse}
use xphone_go.Sdp.Print.{
  IceParams, build_sdp_multi, body_lines, media_section, media_line, spaced_codecs, all_codec_lines,
  codec_lines, codec_name, codec_fmtp, codec_rtcp_fb,
}
use xphone_go.Sdp.Sections.{AreClean}
use xphone_go.Sdp.MediaLines.{IsSent}
use xphone_go.Sdp.RoundTrip.{IsHeaded, parse-build_sdp_multi}

abbrev ice : IceParams
ice = record {
  ufrag = ascii "u1";
  pwd = ascii "p1";
  candidates = ascii "1 1 UDP 1 10.0.0.1 9 typ host" ∷ [];
  lite = false;
}

address-IsWord : IsWord (ascii "10.0.0.1")
address-IsWord = record { not_empty = refl; unbroken = refl }

profile-IsWord : IsWord (ascii "RTP/SAVP")
profile-IsWord = record { not_empty = refl; unbroken = refl }

audio_clean : AreClean (
    body_lines
      (ascii "10.0.0.1")
      4000
      (8 ∷ 101 ∷ [])
      (ascii "sendonly")
      (ascii "RTP/SAVP")
      (ascii "a2V5")
      (some ice)
      0
      [])
unfolding body_lines media_section media_line spaced_codecs all_codec_lines codec_lines codec_name
    codec_fmtp codec_rtcp_fb itoa print_digits
audio_clean = (
  refl,
  refl,
  (
    refl,
    refl,
    (
      refl,
      refl,
      (
        refl,
        refl,
        (
          refl,
          refl,
          (
            refl,
            refl,
            (
              refl,
              refl,
              (
                refl,
                refl,
                (
                  refl,
                  refl,
                  (refl, refl, (refl, refl, (refl, refl, (refl, refl, (refl, refl, tt))))),
                ),
              ),
            ),
          ),
        ),
      ),
    ),
  ),
)

parse-build_sdp_multi_example :
    (s : Session) × (md : MediaDesc) × (parse (
        build_sdp_multi
          (ascii "10.0.0.1")
          4000
          (8 ∷ 101 ∷ [])
          (ascii "sendonly")
          (ascii "RTP/SAVP")
          (ascii "a2V5")
          (some ice)
          0
          [])
      ≡ some s)
    × IsHeaded (ascii "10.0.0.1") (some ice) s
    × (s.media ≡ md ∷ [])
    × IsSent
        (ascii "audio")
        4000
        (ascii "RTP/SAVP")
        (8 ∷ 101 ∷ [])
        (ascii "sendonly")
        (ascii "a2V5")
        (some ice)
        md
parse-build_sdp_multi_example =
    parse-build_sdp_multi (ascii "10.0.0.1") (ascii "RTP/SAVP") (ascii "sendonly") (ascii "a2V5")
      (some ice) address-IsWord profile-IsWord refl refl 4000 (8 ∷ 101 ∷ []) (omega arith)
      (omega arith, (omega arith, tt)) audio_clean

avp-IsWord : IsWord (ascii "RTP/AVP")
avp-IsWord = record { not_empty = refl; unbroken = refl }

video_clean : AreClean (
    body_lines
      (ascii "10.0.0.1")
      4000
      (0 ∷ [])
      (ascii "sendrecv")
      (ascii "RTP/AVP")
      []
      none
      4002
      (97 ∷ []))
unfolding body_lines media_section media_line spaced_codecs all_codec_lines codec_lines codec_name
    codec_fmtp codec_rtcp_fb itoa print_digits
video_clean = (
  refl,
  refl,
  (
    refl,
    refl,
    (
      refl,
      refl,
      (
        refl,
        refl,
        (
          refl,
          refl,
          (
            refl,
            refl,
            (
              refl,
              refl,
              (
                refl,
                refl,
                (
                  refl,
                  refl,
                  (refl, refl, (refl, refl, (refl, refl, (refl, refl, (refl, refl, tt))))),
                ),
              ),
            ),
          ),
        ),
      ),
    ),
  ),
)
