-- ===== src/Sdp/Body.antt =====
-- internal/sdp/sdp.go: the text of an SDP body, parsed. The media lines of a session stand in reverse
-- order while it is parsed, so that the first one is the current one. A map of payload types is the
-- list of its assignments in their order.
use xphone_go.Prelude.{
  ℕ, Bool, true, false, ◌||◌, Option, none, some, List, [], ◌∷◌, ◌++◌, ◌==◌, if◌then◌else◌,
}
use xphone_go.Text.Defs.{
  Text, ascii, equal, cut_byte, split_byte, strip_prefix, ℤ, atoi, atoi_value, fields, trim_last,
}

-- `key_params` is `inline:` and the key.
pub record CryptoAttr : Type 0 where
  pub tag : ℤ
  pub suite : Text
  pub key_params : Text

pub record MediaDesc : Type 0 where
  pub media_type : Text
  pub port : ℤ
  pub profile : Text
  pub codecs : List ℤ
  pub direction : Text
  pub crypto : List CryptoAttr
  pub candidates : List Text
  pub fmtp : List (ℤ × Text)
  pub rtcp_fb : List (ℤ × Text)

pub record Session : Type 0 where
  pub origin : Text
  pub connection : Text
  pub media : List MediaDesc
  pub ice_ufrag : Text
  pub ice_pwd : Text
  pub ice_lite : Bool

abbrev pub new_session : Session
new_session = record {
  origin = [];
  connection = [];
  media = [];
  ice_ufrag = [];
  ice_pwd = [];
  ice_lite = false;
}

-- A change of the current media line, where there is one.
abbrev pub update_current : (MediaDesc → MediaDesc) → Session → Session
update_current change s = elim (s.media) [
  | [] ↦ s
  | md ∷ mds ↦ record s { media = change md ∷ mds }
]

abbrev pub is_direction : Text → Bool
is_direction val =
    equal val (ascii "sendrecv")
    || (equal val (ascii "sendonly")
        || (equal val (ascii "recvonly") || equal val (ascii "inactive")))

abbrev pub crypto_of_fields : List Text → Option CryptoAttr
crypto_of_fields [] = none
crypto_of_fields (tag_text ∷ []) = none
crypto_of_fields (tag_text ∷ suite_text ∷ []) = none
crypto_of_fields (tag_text ∷ suite_text ∷ key_param ∷ more) =
    some (record { tag = atoi_value tag_text; suite = suite_text; key_params = key_param })

-- parseCryptoVal; `none` is an error.
unfoldable pub parse_crypto_val : Text → Option CryptoAttr
parse_crypto_val val = crypto_of_fields (fields val)

abbrev add_crypto : Option CryptoAttr → MediaDesc → MediaDesc
add_crypto none md = md
add_crypto (some ca) md = record md { crypto = md.crypto ++ (ca ∷ []) }

abbrev typed : Option ℤ → Text → Option (ℤ × Text)
typed none v = none
typed (some pt) v = some (pt, v)

-- A payload type and what stands behind the space; `none` where the attribute is passed over.
abbrev payload_value : Option (Text × Text) → Option (ℤ × Text)
payload_value none = none
payload_value (some (pt, v)) = typed (atoi pt) v

abbrev add_entry : Option (ℤ × Text) → List (ℤ × Text) → List (ℤ × Text)
add_entry none entries = entries
add_entry (some e) entries = entries ++ (e ∷ [])

-- parseFmtp.
unfoldable pub parse_fmtp : Text → MediaDesc → MediaDesc
parse_fmtp val md = record md { fmtp = add_entry (payload_value (cut_byte 32 val)) md.fmtp }

-- parseRtcpFb.
unfoldable pub parse_rtcp_fb : Text → MediaDesc → MediaDesc
parse_rtcp_fb val md = record md {
  rtcp_fb = add_entry (payload_value (cut_byte 32 val)) md.rtcp_fb;
}

abbrev with_prefix : Text → Text → (Text → Session) → Session → Session
with_prefix prefix val found otherwise = elim (strip_prefix prefix val) [
  | none ↦ otherwise
  | some rest ↦ found rest
]

-- The cases with a prefix; those on the current media line change nothing where there is none.
abbrev prefixed_attribute : Session → Text → Session
prefixed_attribute s val =
    with_prefix (ascii "crypto:") val (λ v. update_current (add_crypto (parse_crypto_val v)) s)
      (with_prefix (ascii "ice-ufrag:") val (λ v. record s { ice_ufrag = v })
        (with_prefix (ascii "ice-pwd:") val (λ v. record s { ice_pwd = v })
          (with_prefix (ascii "candidate:") val
            (λ v. update_current (λ md. record md { candidates = md.candidates ++ (v ∷ []) }) s)
            (with_prefix (ascii "fmtp:") val (λ v. update_current (parse_fmtp v) s)
              (with_prefix (ascii "rtcp-fb:") val (λ v. update_current (parse_rtcp_fb v) s) s)))))

-- parseAttribute.
unfoldable pub parse_attribute : Session → Text → Session
unfolding parse_crypto_val parse_fmtp parse_rtcp_fb
parse_attribute s val =
    if is_direction val
    then update_current (λ md. record md { direction = val }) s
    else if equal val (ascii "ice-lite")
    then record s { ice_lite = true }
    else prefixed_attribute s val

abbrev pub add_codec : Option ℤ → List ℤ → List ℤ
add_codec none pts = pts
add_codec (some pt) pts = pt ∷ pts

unfoldable pub parse_codecs : List Text → List ℤ
parse_codecs [] = []
parse_codecs (pt ∷ pts) = add_codec (atoi pt) (parse_codecs pts)

abbrev pub media_of : Text → Text → Text → List Text → MediaDesc
media_of kind port_text profile_text pts = record {
  media_type = kind;
  port = atoi_value port_text;
  profile = profile_text;
  codecs = parse_codecs pts;
  direction = [];
  crypto = [];
  candidates = [];
  fmtp = [];
  rtcp_fb = [];
}

abbrev pub media_of_fields : List Text → Option MediaDesc
media_of_fields [] = none
media_of_fields (kind ∷ []) = none
media_of_fields (kind ∷ port_text ∷ []) = none
media_of_fields (kind ∷ port_text ∷ profile_text ∷ pts) =
    some (media_of kind port_text profile_text pts)

-- parseMediaLine; `none` is nil.
unfoldable pub parse_media_line : Text → Option MediaDesc
unfolding parse_codecs
parse_media_line val = media_of_fields (fields val)

abbrev pub add_media : Option MediaDesc → Session → Session
add_media none s = s
add_media (some md) s = record s { media = md ∷ s.media }

abbrev pub set_connection : List Text → Session → Session
set_connection [] s = s
set_connection (a ∷ []) s = s
set_connection (a ∷ b ∷ []) s = s
set_connection (a ∷ b ∷ c ∷ rest) s = record s { connection = c }

-- The switch of Parse on the key of a line, with whether a v= line was found.
abbrev key_line : ℕ → Text → Session × Bool → Session × Bool
key_line key val (s, has_version) =
    if key == 118
    then (s, true)
    else if key == 111
    then (record s { origin = val }, has_version)
    else if key == 99
    then (set_connection (fields val) s, has_version)
    else if key == 109
    then (add_media (parse_media_line val) s, has_version)
    else if key == 97
    then (parse_attribute s val, has_version)
    else (s, has_version)

abbrev pub parse_line : Text → Session × Bool → Session × Bool
parse_line [] acc = acc
parse_line (key ∷ []) acc = acc
parse_line (key ∷ c ∷ val) acc = if c == 61 then key_line key val acc else acc

unfoldable pub parse_lines : List Text → Session × Bool → Session × Bool
unfolding parse_attribute parse_media_line
parse_lines [] acc = acc
parse_lines (line ∷ lines) acc = parse_lines lines (parse_line (trim_last 13 line) acc)

abbrev pub reverse_media : List MediaDesc → List MediaDesc → List MediaDesc
reverse_media [] done = done
reverse_media (md ∷ mds) done = reverse_media mds (md ∷ done)

abbrev pub parse_result : Session × Bool → Option Session
parse_result (s, false) = none
parse_result (s, true) = some (record s { media = reverse_media s.media [] })

-- Parse; `none` is an error.
unfoldable pub parse : Text → Option Session
unfolding parse_lines
parse raw = parse_result (parse_lines (split_byte 10 raw) (new_session, false))
