-- ===== src/Notify/SubState.antt =====
-- subscribe.go: the Subscription-State header of a NOTIFY.
use xphone_go.Prelude.{ℕ, ◌^◌, ◌<◌, ◌≡◌, refl, ap, ◌∙◌, false, List, [], ◌∷◌, ◌++◌, contains}
use xphone_go.Text.Defs.{
  Text, ascii, is_empty, to_lower, trim_space, trim_left, trim_right, split_byte, strip_prefix,
  itoa, ℤ, pos,
}
use xphone_go.Text.Cuts.{split_byte-append, split_byte-none, IsTrimmed, append-IsTrimmed}
use xphone_go.Text.Numbers.{contains-itoa, is_empty-itoa, trim_right-itoa}
use xphone_go.Sdp.Lines.{atoi_value-itoa}
use xphone_go.Auth.Params.{trim_space-trimmed}
use xphone_go.Notify.Subscribe.{
  SubState, pending, active, terminated, Parsed, read_params, state_named, parse_subscription_state,
}

abbrev pub state_text : SubState → Text
state_text pending = ascii "pending"
state_text active = ascii "active"
state_text terminated = ascii "terminated"

-- The header as RFC 6665 writes it, with both parameters.
abbrev pub print_state : SubState → ℕ → Text → Text
print_state st n r =
    state_text st ++ (59 ∷ ((ascii "expires=" ++ itoa n) ++ (59 ∷ (ascii "reason=" ++ r))))

itoa-IsTrimmed : (n : ℕ) → IsTrimmed (itoa n)
itoa-IsTrimmed n = record { not_empty = is_empty-itoa n; trimmed = trim_right-itoa n }

plain_state : (st : SubState) → contains (state_text st) 59 ≡ false
plain_state pending = refl
plain_state active = refl
plain_state terminated = refl

split-print_state :
    (st : SubState) (n : ℕ) (r : Text)
    → contains r 59 ≡ false
    → split_byte 59 (print_state st n r)
      ≡ state_text st ∷ (ascii "expires=" ++ itoa n) ∷ (ascii "reason=" ++ r) ∷ []
split-print_state st n r h =
    let tail = (ascii "expires=" ++ itoa n) ++ (59 ∷ (ascii "reason=" ++ r)) in
    split_byte-append 59 (state_text st) tail (plain_state st)
    ∙ ap (λ (xs : List Text). state_text st ∷ xs)
        (split_byte-append 59 (ascii "expires=" ++ itoa n) (ascii "reason=" ++ r)
            (contains-itoa n 59 refl)
          ∙ ap (λ (xs : List Text). (ascii "expires=" ++ itoa n) ∷ xs)
              (split_byte-none 59 (ascii "reason=" ++ r) h))

read_params-two :
    (n : ℕ) (r : Text) (p : Parsed)
    → n < 2 ^ 63
    → IsTrimmed r
    → read_params ((ascii "expires=" ++ itoa n) ∷ (ascii "reason=" ++ r) ∷ []) p
      ≡ record p { expires = pos n; reason = r }
unfolding read_params strip_prefix
read_params-two n r p h t =
    rw
      (
        trim_space-trimmed 101 (ascii "xpires=" ++ itoa n) refl
            (append-IsTrimmed (ascii "expires=") (itoa n) (itoa-IsTrimmed n)),
        trim_space-trimmed 114 (ascii "eason=" ++ r) refl (append-IsTrimmed (ascii "reason=") r t),
      )
      (ap (λ (z : ℤ). record p { expires = z; reason = r }) (atoi_value-itoa n h))

named : (st : SubState) → state_named (to_lower (trim_space (state_text st))) ≡ st
unfolding to_lower trim_left trim_right
named pending = refl
named active = refl
named terminated = refl

not_empty : (st : SubState) (n : ℕ) (r : Text) → is_empty (print_state st n r) ≡ false
not_empty pending n r = refl
not_empty active n r = refl
not_empty terminated n r = refl

-- A Subscription-State header with both parameters is read back: the state, an expiry of at most 63
-- bits, and a reason that is not empty and has no semicolon and no white space at its end.
pub parse_subscription_state-print_state :
    (st : SubState) (n : ℕ) (r : Text)
    → n < 2 ^ 63
    → contains r 59 ≡ false
    → IsTrimmed r
    → parse_subscription_state (print_state st n r)
      ≡ record { state = st; expires = pos n; reason = r }
unfolding parse_subscription_state
parse_subscription_state-print_state st n r h c t =
    let start : Parsed = record { state = st; expires = pos 0; reason = [] } in
    rw (not_empty st n r, split-print_state st n r c, named st) (read_params-two n r start h t)
