-- ===== src/Notify/Subscribe.antt =====
-- subscribe.go: the Subscription-State header of a NOTIFY and the user of a SIP URI.
use xphone_go.Prelude.{Option, none, some, List, [], ◌∷◌, if◌then◌else◌}
use xphone_go.Text.Defs.{
  Text, ascii, equal, is_empty, to_lower, trim_space, cut_byte, split_byte, strip_prefix,
  atoi_value, ℤ, pos,
}

pub data SubState : Type 0 where
  pending active terminated : SubState

-- What parseSubscriptionState returns.
pub record Parsed : Type 0 where
  pub state : SubState
  pub expires : ℤ
  pub reason : Text

abbrev pub state_named : Text → SubState
state_named s =
    if equal s (ascii "active")
    then active
    else if equal s (ascii "pending")
    then pending
    else if equal s (ascii "terminated")
    then terminated
    else active

abbrev reason_of : Option Text → Parsed → Parsed
reason_of none p = p
reason_of (some r) p = record p { reason = r }

abbrev expires_of : Option Text → Text → Parsed → Parsed
expires_of none param p = reason_of (strip_prefix (ascii "reason=") param) p
expires_of (some n) param p = record p { expires = atoi_value n }

-- The parameter loop.
unfoldable pub read_params : List Text → Parsed → Parsed
read_params [] p = p
read_params (param ∷ params) p =
    let trimmed = trim_space param in
    read_params params (expires_of (strip_prefix (ascii "expires=") trimmed) trimmed p)

abbrev pub parse_parts : List Text → Parsed
parse_parts [] = record { state = active; expires = pos 0; reason = [] }
parse_parts (first ∷ params) =
    read_params params
      (record { state = state_named (to_lower (trim_space first)); expires = pos 0; reason = [] })

-- parseSubscriptionState.
unfoldable pub parse_subscription_state : Text → Parsed
parse_subscription_state header =
    if is_empty header
    then record { state = active; expires = pos 0; reason = [] }
    else parse_parts (split_byte 59 header)

abbrev before_at : Option (Text × Text) → Text → Text
before_at none s = s
before_at (some (user, host)) s = user

abbrev without_sips : Option Text → Text → Text
without_sips none s = s
without_sips (some rest) s = rest

abbrev without_sip : Option Text → Text → Text
without_sip none s = without_sips (strip_prefix (ascii "sips:") s) s
without_sip (some rest) s = rest

-- extractSIPUser.
unfoldable pub extract_sip_user : Text → Text
extract_sip_user uri =
    let s = without_sip (strip_prefix (ascii "sip:") uri) uri in before_at (cut_byte 64 s) s
