-- ===== src/Auth/Challenges.antt =====
-- internal/sip/auth.go: the client's side of digest authentication. MD5 in hexadecimal is a parameter.
use xphone_go.Prelude.{◌&&◌, Option, none, some, List, [], ◌∷◌, ◌++◌, ◌==◌, if◌then◌else◌}
use xphone_go.Text.Defs.{
  Text, ascii, equal, is_empty, to_lower, trim_space, cut_byte, split_byte, strip_prefix,
}

pub record Challenge : Type 0 where
  pub realm : Text
  pub nonce : Text
  pub algorithm : Text
  pub qop : Text
  pub opaque_value : Text

pub record Credentials : Type 0 where
  pub username : Text
  pub password : Text

abbrev pub new_challenge : Challenge
new_challenge = record { realm = []; nonce = []; algorithm = []; qop = []; opaque_value = [] }

unfoldable pub drop_quotes : Text → Text
drop_quotes [] = []
drop_quotes (c ∷ s) = let rest = drop_quotes s in if c == 34 then rest else c ∷ s

unfoldable pub drop_last_quotes : Text → Text
drop_last_quotes [] = []
drop_last_quotes (c ∷ s) =
    let rest = drop_last_quotes s in if is_empty rest && (c == 34) then [] else c ∷ rest

-- strings.Trim by the quotation mark.
abbrev pub trim_quotes : Text → Text
trim_quotes s = drop_last_quotes (drop_quotes s)

-- The switch of ParseChallenge, on the key in lower case.
abbrev pub set_param : Text → Text → Challenge → Challenge
set_param key val ch =
    if equal key (ascii "realm")
    then record ch { realm = val }
    else if equal key (ascii "nonce")
    then record ch { nonce = val }
    else if equal key (ascii "algorithm")
    then record ch { algorithm = val }
    else if equal key (ascii "qop")
    then record ch { qop = val }
    else if equal key (ascii "opaque")
    then record ch { opaque_value = val }
    else ch

abbrev pub take_part : Option (Text × Text) → Challenge → Challenge
take_part none ch = ch
take_part (some (key, val)) ch =
    set_param (to_lower (trim_space key)) (trim_quotes (trim_space val)) ch

unfoldable pub read_parts : List Text → Challenge → Challenge
read_parts [] ch = ch
read_parts (part ∷ parts) ch = read_parts parts (take_part (cut_byte 61 (trim_space part)) ch)

abbrev challenge_of : Option Text → Option Challenge
challenge_of none = none
challenge_of (some params) = some (read_parts (split_byte 44 params) new_challenge)

-- ParseChallenge; `none` is an error.
unfoldable pub parse_challenge : Text → Option Challenge
unfolding read_parts
parse_challenge header =
    if is_empty header then none else challenge_of (strip_prefix (ascii "Digest ") header)

abbrev pub colon : Text → Text → Text
colon s t = s ++ (58 ∷ t)

-- `key="value"`.
abbrev pub quoted_param : Text → Text → Text
quoted_param key v = key ++ (61 ∷ 34 ∷ (v ++ (34 ∷ [])))

abbrev pub comma : Text → Text → Text
comma s t = s ++ (44 ∷ t)

abbrev pub opaque_param : Text → Text
opaque_param v = if is_empty v then [] else 44 ∷ quoted_param (ascii "opaque") v

module _ (md5_hex : Text → Text) where
  -- DigestResponse.
  unfoldable pub digest_response : Challenge → Credentials → Text → Text → Text
  digest_response ch creds method digest_uri =
      let ha1 = md5_hex (colon creds.username (colon ch.realm creds.password)) in
      let ha2 = md5_hex (colon method digest_uri) in md5_hex (colon ha1 (colon ch.nonce ha2))

  -- BuildAuthorization.
  unfoldable pub build_authorization : Challenge → Credentials → Text → Text → Text
  unfolding digest_response
  build_authorization ch creds method digest_uri =
      let resp = digest_response ch creds method digest_uri in
      ascii "Digest "
      ++ comma (quoted_param (ascii "username") creds.username) (
          comma (quoted_param (ascii "realm") ch.realm) (
            comma (quoted_param (ascii "nonce") ch.nonce) (
              comma (quoted_param (ascii "uri") digest_uri) (
                comma (quoted_param (ascii "response") resp)
                  (ascii "algorithm=MD5" ++ opaque_param ch.opaque_value)))))
