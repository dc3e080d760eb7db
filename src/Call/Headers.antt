-- ===== src/Call/Headers.antt =====
-- call.go: what a call reads from the From and To headers of its dialog, and the encoding of the
-- Replaces parameter.
use xphone_go.Prelude.{
  ℕ, zero, suc, ◌+◌, ◌-◌, ◌*◌, ◌/◌, ◌%◌, Bool, ◌&&◌, ◌||◌, Option, none, some, [], ◌∷◌, ◌++◌, ltb,
  leb, ◌==◌, if◌then◌else◌, length, take, drop,
}
use xphone_go.Prelude.Bytes.{byte_at}
use xphone_go.Text.Defs.{Text, ascii, equal_fold, trim_space, cut_byte, is_empty}

abbrev before_or : Option (Text × Text) → Text → Text
before_or none s = s
before_or (some (before, after)) s = before

abbrev after_or : Option (Text × Text) → Text → Text
after_or none s = s
after_or (some (before, after)) s = after

-- The text between the first < and the first >, for a > that stands behind the <.
abbrev bracketed : Option (Text × Text) → Option (Text × Text) → Text → Text
bracketed none closing val = val
bracketed (some (before, after)) none val = val
bracketed (some (before, after)) (some (upto, rest)) val =
    if ltb (length before) (length upto) then drop (length before + 1) upto else val

-- sipHeaderURI.
unfoldable pub sip_header_uri : Text → Text
sip_header_uri val = bracketed (cut_byte 60 val) (cut_byte 62 val) val

-- sipHeaderUser.
unfoldable pub sip_header_user : Text → Text
unfolding sip_header_uri
sip_header_user val =
    let uri = sip_header_uri val in
    let plain = after_or (cut_byte 58 uri) uri in before_or (cut_byte 64 plain) plain

abbrev strip_quotes : Text → Text
strip_quotes name =
    if leb 2 (length name) && ((byte_at name 0 == 34) && (byte_at name (length name - 1) == 34))
    then take (length name - 2) (drop 1 name)
    else name

abbrev name_before : Option (Text × Text) → Text
name_before none = []
name_before (some (before, after)) =
    if is_empty before then [] else strip_quotes (trim_space before)

-- sipHeaderDisplayName.
unfoldable pub sip_header_display_name : Text → Text
sip_header_display_name val = name_before (cut_byte 60 val)

-- The search for ";tag=" in any case; `none` is an index of -1.
unfoldable pub after_tag : Text → Option Text
after_tag [] = none
after_tag (c ∷ s) =
    let later = after_tag s in
    if equal_fold (take 5 (c ∷ s)) (ascii ";tag=") then some (drop 5 (c ∷ s)) else later

unfoldable pub until_any : Text → Text
until_any [] = []
until_any (c ∷ s) =
    let rest = until_any s in if (c == 59) || ((c == 62) || (c == 44)) then [] else c ∷ rest

abbrev pub tag_of : Option Text → Text
unfolding until_any
tag_of none = []
tag_of (some rest) = until_any rest

-- sipHeaderTag.
unfoldable pub sip_header_tag : Text → Text
unfolding after_tag
sip_header_tag val = tag_of (after_tag val)

-- The bytes that uriEncode writes as %XX: "% @;?&=+:" without the quotation marks.
abbrev pub is_reserved : ℕ → Bool
is_reserved c =
    (c == 37)
    || ((c == 64)
        || ((c == 32)
            || ((c == 59)
                || ((c == 63) || ((c == 38) || ((c == 61) || ((c == 43) || (c == 58))))))))

abbrev pub upper_hex : ℕ → ℕ
upper_hex n = if ltb n 10 then 48 + n else 55 + n

-- uriEncode.
unfoldable pub uri_encode : Text → Text
uri_encode [] = []
uri_encode (c ∷ s) =
    let rest = uri_encode s in
    if is_reserved c then 37 ∷ upper_hex (c / 16) ∷ upper_hex (c % 16) ∷ rest else c ∷ rest

-- The Refer-To of an attended transfer.
unfoldable pub refer_to : Text → Text → Text → Text → Text
unfolding uri_encode
refer_to remote_uri call_id remote_tag local_tag =
    remote_uri
    ++ (ascii "?Replaces="
        ++ (uri_encode call_id
            ++ (ascii "%3Bto-tag%3D"
                ++ (uri_encode remote_tag ++ (ascii "%3Bfrom-tag%3D" ++ uri_encode local_tag)))))

-- The value of a hexadecimal digit in upper case.
abbrev pub hex_value : ℕ → ℕ
hex_value c = if ltb c 58 then c - 48 else c - 55

-- What a receiver of an escaped header reads: RFC 3261's unescaping, on fuel; the length of the
-- text is enough.
unfoldable pub unescape : ℕ → Text → Text
unescape zero s = []
unescape (suc fuel) [] = []
unescape (suc fuel) (c ∷ []) = c ∷ []
unescape (suc fuel) (c ∷ d ∷ []) = c ∷ unescape fuel (d ∷ [])
unescape (suc fuel) (c ∷ d ∷ e ∷ s) =
    let escaped = unescape fuel s in
    let plain = unescape fuel (d ∷ e ∷ s) in
    if c == 37 then (hex_value d * 16 + hex_value e) ∷ escaped else c ∷ plain

-- The Replaces value of RFC 3891.
abbrev pub replaces : Text → Text → Text → Text
replaces call_id remote_tag local_tag =
    call_id ++ (ascii ";to-tag=" ++ (remote_tag ++ (ascii ";from-tag=" ++ local_tag)))
