-- ===== src/Sdp/MediaLines.antt =====
-- internal/sdp/sdp.go: Parse on the lines of a media section.
use xphone_go.Prelude.{
  ℕ, ◌^◌, ◌<◌, ◌≡◌, refl, ap, ◌∙◌, true, false, Option, none, some, List, [], ◌∷◌, ◌++◌, map,
  if◌then◌else◌, Bool-cases, inl, inr, append_assoc, append-nil,
}
use xphone_go.Text.Defs.{Text, ascii, is_empty, strip_prefix, itoa, pos, atoi, scan}
use xphone_go.Text.Numbers.{no_space}
use xphone_go.Sdp.Lines.{
  IsWord, AllInts, fields-word, fields-last, parse_media_line-fields, parse_codecs-itoa,
  atoi_value-itoa,
}
use xphone_go.Sdp.Body.{
  MediaDesc, media_of, add_media, Session, CryptoAttr, parse_attribute, parse_crypto_val,
  parse_codecs, crypto_of_fields, is_direction,
}
use xphone_go.Sdp.Print.{
  IceParams, all_codec_lines, crypto_lines, candidate_lines, ice_lines, media_section,
}
use xphone_go.Sdp.Sections.{read, read-append, all_codec_lines-AreFormats}

-- The crypto attributes that the section with a key has.
abbrev pub sent_crypto : Text → List CryptoAttr
sent_crypto key =
    if is_empty key
    then []
    else record {
      tag = pos 1;
      suite = ascii "AES_CM_128_HMAC_SHA1_80";
      key_params = ascii "inline:" ++ key;
    }
      ∷ []

parse_crypto_val-inline :
    (key : Text)
    → no_space key ≡ true
    → is_empty key ≡ false
    → parse_crypto_val (ascii "1 AES_CM_128_HMAC_SHA1_80 inline:" ++ key)
      ≡ some (record {
        tag = pos 1;
        suite = ascii "AES_CM_128_HMAC_SHA1_80";
        key_params = ascii "inline:" ++ key;
      })
unfolding parse_crypto_val atoi scan
parse_crypto_val-inline key h e = ap crypto_of_fields (
    fields-word (ascii "1") (ascii "AES_CM_128_HMAC_SHA1_80 inline:" ++ key)
      (record { not_empty = refl; unbroken = refl })
    ∙ ap (λ (ws : List Text). ascii "1" ∷ ws)
        (fields-word (ascii "AES_CM_128_HMAC_SHA1_80") (ascii "inline:" ++ key)
            (record { not_empty = refl; unbroken = refl })
          ∙ ap (λ (ws : List Text). ascii "AES_CM_128_HMAC_SHA1_80" ∷ ws)
              (fields-last (ascii "inline:" ++ key) (record { not_empty = refl; unbroken = h }))))

read-crypto_lines :
    (key : Text) (s : Session) (md : MediaDesc) (mds : List MediaDesc)
    → no_space key ≡ true
    → read (crypto_lines key) (record s { media = md ∷ mds }, true)
      ≡ (record s { media = record md { crypto = md.crypto ++ sent_crypto key } ∷ mds }, true)
unfolding read parse_attribute strip_prefix
read-crypto_lines key s md mds h = elim (Bool-cases (is_empty key)) [
  | inl e ↦ rw (e, append-nil md.crypto) refl
  | inr e ↦ rw (e, parse_crypto_val-inline key h e) refl
]

read-candidate_lines :
    (cs : List Text) (s : Session) (md : MediaDesc) (mds : List MediaDesc)
    → read (candidate_lines cs) (record s { media = md ∷ mds }, true)
      ≡ (record s { media = record md { candidates = md.candidates ++ cs } ∷ mds }, true)
unfolding read parse_attribute strip_prefix
read-candidate_lines [] s md mds = rw (append-nil md.candidates) refl
read-candidate_lines (c ∷ cs) s md mds =
    read-candidate_lines cs s (record md { candidates = md.candidates ++ (c ∷ []) }) mds
    ∙ rw (append_assoc md.candidates (c ∷ []) cs) refl

abbrev pub with_ice : Option IceParams → Session → Session
with_ice none s = s
with_ice (some ice) s = record s { ice_ufrag = ice.ufrag; ice_pwd = ice.pwd }

abbrev pub sent_candidates : Option IceParams → List Text
sent_candidates none = []
sent_candidates (some ice) = ice.candidates

read-ice_lines :
    (ice : Option IceParams) (s : Session) (md : MediaDesc) (mds : List MediaDesc)
    → read (ice_lines ice) (record s { media = md ∷ mds }, true) ≡ (
      record (with_ice ice s) {
        media = record md { candidates = md.candidates ++ sent_candidates ice } ∷ mds;
      },
      true,
    )
unfolding read parse_attribute strip_prefix
read-ice_lines none s md mds = rw (append-nil md.candidates) refl
read-ice_lines (some ice) s md mds =
    read-candidate_lines ice.candidates (with_ice (some ice) s) md mds

read-direction :
    (dir_text : Text) (s : Session) (md : MediaDesc) (mds : List MediaDesc)
    → is_direction dir_text ≡ true
    → read ((ascii "a=" ++ dir_text) ∷ []) (record s { media = md ∷ mds }, true)
      ≡ (record s { media = record md { direction = dir_text } ∷ mds }, true)
unfolding read parse_attribute
read-direction dir_text s md mds h = rw (h) refl

-- A media line with all that its section says but the formats.
abbrev pub IsSent : Text → ℕ → Text → List ℕ → Text → Text → Option IceParams → MediaDesc → Type 0
IsSent kind port_number profile_text cs dir_text key ice md =
    (md.media_type ≡ kind)
    × (md.port ≡ pos port_number)
    × (md.profile ≡ profile_text)
    × (md.codecs ≡ map pos cs)
    × (md.direction ≡ dir_text)
    × (md.crypto ≡ sent_crypto key)
    × (md.candidates ≡ sent_candidates ice)

module _ (profile_text dir_text key : Text) (ice : Option IceParams)
    (profile_word : IsWord profile_text) (known : is_direction dir_text ≡ true)
    (key_word : no_space key ≡ true) where
  pub read-media_section :
      (kind : Text) (port_number : ℕ) (cs : List ℕ) (s : Session)
      → IsWord kind
      → port_number < 2 ^ 63
      → AllInts cs
      → (md : MediaDesc) × IsSent kind port_number profile_text cs dir_text key ice md
        × (read (media_section kind port_number profile_text cs dir_text key ice) (s, true)
            ≡ (record (with_ice ice s) { media = md ∷ s.media }, true))
  unfolding media_section read parse_codecs
  read-media_section kind port_number cs s k b h =
      let m0 = media_of kind (itoa port_number) profile_text (map itoa cs) in
      let (f, r, formats) = all_codec_lines-AreFormats cs s m0 s.media in
      let m1 = record m0 { fmtp = f; rtcp_fb = r } in
      let m2 = record m1 { crypto = sent_crypto key } in
      let m3 = record m2 { candidates = sent_candidates ice } in
      let m4 = record m3 { direction = dir_text } in
      let last = (ascii "a=" ++ dir_text) ∷ [] in
      let after_crypto = ice_lines ice ++ last in
      let after_codecs = crypto_lines key ++ after_crypto in
      (
        m4,
        (refl, atoi_value-itoa port_number b, refl, parse_codecs-itoa cs h, refl, refl, refl),
        ap
              (λ (m : Option MediaDesc).
                read (all_codec_lines cs ++ after_codecs) (add_media m s, true))
              (parse_media_line-fields kind profile_text port_number cs k profile_word)
            ∙ read-append (all_codec_lines cs) after_codecs
                (record s { media = m0 ∷ s.media }, true)
            ∙ ap (read after_codecs) formats
            ∙ read-append (crypto_lines key) after_crypto (record s { media = m1 ∷ s.media }, true)
            ∙ ap (read after_crypto) (read-crypto_lines key s m1 s.media key_word)
            ∙ read-append (ice_lines ice) last (record s { media = m2 ∷ s.media }, true)
            ∙ ap (read last) (read-ice_lines ice s m2 s.media)
            ∙ read-direction dir_text (with_ice ice s) m3 s.media known,
      )
