-- ===== src/Call/Transfer.antt =====
-- call.go: AttendedTransfer, on two calls. The dialogs' headers, and whether REFER could be sent,
-- are arguments. A call is not transferred to itself, and every Call is one of this package.
use xphone_go.Prelude.{
  ℕ, ◌≡◌, refl, sym, ap, Bool, true, false, not, ◌||◌, Option, none, some, [], arith, leb, ◌==◌,
  if◌then◌else◌, Bool-cases, inl, inr,
}
use xphone_go.Text.Defs.{Text, is_empty}
use xphone_go.Call.State.{
  Call, Direction, inbound, outbound, active, on_hold, ended, by_transfer, by_transfer_failed,
  is_state, EndReason,
}
use xphone_go.Call.Release.{end_with_reason, finish, finish-Released, Released}
use xphone_go.Call.Headers.{sip_header_uri, sip_header_tag, refer_to}

-- What a dialog says of itself: its Call-ID, and the first value of each header or nothing.
pub record DialogHeaders : Type 0 where
  pub call_id : Text
  pub from_value : Option Text
  pub to_value : Option Text

unfoldable pub tag_in : Option Text → Text
unfolding sip_header_tag
tag_in none = []
tag_in (some v) = sip_header_tag v

unfoldable pub uri_in : Option Text → Text
unfolding sip_header_uri
uri_in none = []
uri_in (some v) = sip_header_uri v

-- dialogID: the Call-ID, the local tag and the remote one.
unfoldable pub dialog_id : Direction → DialogHeaders → Text × (Text × Text)
dialog_id outbound d = (d.call_id, (tag_in d.from_value, tag_in d.to_value))
dialog_id inbound d = (d.call_id, (tag_in d.to_value, tag_in d.from_value))

abbrev remote_uri : Direction → DialogHeaders → Text
remote_uri outbound d = uri_in d.to_value
remote_uri inbound d = uri_in d.from_value

abbrev pub is_talking : Call → Bool
is_talking c = is_state active c.state || is_state on_hold c.state

pub data TransferError : Type 0 where
  invalid_state no_dialog_ids no_remote_uri not_sent : TransferError

-- The result: the Refer-To sent, with the first call's handler set, or an error.
pub data Transfer : Type 0 where
  refused : TransferError → Transfer
  referred : Text → Call → Transfer

abbrev refer_call : Bool → Call → Text → (Text × (Text × Text)) → Transfer
refer_call sent c uri (id, (local_tag, remote_tag)) =
    if is_empty id || (is_empty local_tag || is_empty remote_tag)
    then refused no_dialog_ids
    else if is_empty uri
    then refused no_remote_uri
    else if not sent
    then refused not_sent
    else referred (refer_to uri id remote_tag local_tag) (record c { notify_set = true })

-- AttendedTransfer of the first call to the second.
unfoldable pub attended_transfer : Bool → DialogHeaders → Call → Call → Transfer
attended_transfer sent d b c =
    let result = refer_call sent c (remote_uri b.direction d) (dialog_id b.direction d) in
    if not (is_talking b)
    then refused invalid_state
    else if not (is_talking c)
    then refused invalid_state
    else result

-- The handler that it registers with OnNotify, on both calls; endWithReason of the first comes
-- first, and its release of the handler does not stop the second.
unfoldable pub on_transfer_notify : ℕ → Call × Call → Call × Call
unfolding end_with_reason
on_transfer_notify code (c, b) =
    if not c.notify_set
    then (c, b)
    else if code == 200
    then (end_with_reason by_transfer c, end_with_reason by_transfer b)
    else if leb 300 code
    then (end_with_reason by_transfer_failed c, end_with_reason by_transfer_failed b)
    else (c, b)

talking_not_ended : (c : Call) → is_talking c ≡ true → is_state ended c.state ≡ false
talking_not_ended c h = ground arith

either_Released :
    (e : Bool) (r : EndReason) (c : Call) → e ≡ false → Released (if e then c else finish r c)
either_Released true r c h = absurd (ground arith)
either_Released false r c h = finish-Released r c

end_with_reason-Released :
    (r : EndReason) (c : Call) → is_state ended c.state ≡ false → Released (end_with_reason r c)
unfolding end_with_reason
end_with_reason-Released r c h = either_Released (is_state ended c.state) r c h

abbrev call_of : Call → Transfer → Call
call_of c (refused e) = c
call_of c (referred t after) = after

both_pass :
    (x y : Bool) (e : TransferError) (r : Transfer) (target : Text) (after : Call)
    → (if not x then refused e else if not y then refused e else r) ≡ referred target after
    → (x ≡ true) × (y ≡ true) × (r ≡ referred target after)
both_pass true true e r target after h = (refl, refl, h)
both_pass true false e r target after h = absurd (ground arith)
both_pass false y e r target after h = absurd (ground arith)

all_pass :
    (x y z : Bool) (out t : Text) (c after : Call)
    → (if x
        then refused no_dialog_ids
        else if y
        then refused no_remote_uri
        else if z
        then refused not_sent
        else referred out c)
      ≡ referred t after
    → after ≡ c
all_pass true y z out t c after h = absurd (ground arith)
all_pass false true z out t c after h = absurd (ground arith)
all_pass false false true out t c after h = absurd (ground arith)
all_pass false false false out t c after h = sym (ap (call_of c) h)

refer_call-after :
    (sent : Bool) (c : Call) (uri : Text) (ids : Text × (Text × Text)) (t : Text) (after : Call)
    → refer_call sent c uri ids ≡ referred t after
    → after ≡ record c { notify_set = true }
refer_call-after sent c uri (id, (l, r)) t after h =
    all_pass (is_empty id || (is_empty l || is_empty r)) (is_empty uri) (not sent) _ t
      (record c { notify_set = true }) after h

-- What a transfer that was referred says of its two calls.
referred-talking :
    (sent : Bool) (d : DialogHeaders) (b c after : Call) (target : Text)
    → attended_transfer sent d b c ≡ referred target after
    → (is_talking b ≡ true) × (is_talking c ≡ true) × (after ≡ record c { notify_set = true })
unfolding attended_transfer
referred-talking sent d b c after target h =
    let (tb, tc, rest) =
      both_pass (is_talking b) (is_talking c) invalid_state
        (refer_call sent c (remote_uri b.direction d) (dialog_id b.direction d)) target after h in
    (
      tb,
      tc,
      refer_call-after sent c (remote_uri b.direction d) (dialog_id b.direction d) target after
          rest,
    )

-- Once AttendedTransfer has sent its REFER, a NOTIFY of 200 or of 300 and above ends both calls and
-- releases all that they hold, and a NOTIFY of a lower status leaves both as they are.
pub attended_transfer-Released :
    (sent : Bool) (d : DialogHeaders) (b c after : Call) (target : Text) (code : ℕ)
    → attended_transfer sent d b c ≡ referred target after
    → (((code == 200) || leb 300 code) ≡ true
        → Released (on_transfer_notify code (after, b)).0
          × Released (on_transfer_notify code (after, b)).1)
      × (((code == 200) || leb 300 code) ≡ false → on_transfer_notify code (after, b) ≡ (after, b))
unfolding on_transfer_notify
attended_transfer-Released sent d b c after target code h =
    let (tb, tc, e) = referred-talking sent d b c after target h in
    let live : is_state ended b.state ≡ false = talking_not_ended b tb in
    let live_c : is_state ended c.state ≡ false = talking_not_ended c tc in
    rw (e) (
      (λ final. elim (Bool-cases (code == 200)) [
        | inl ok ↦ rw (ok) (
          end_with_reason-Released by_transfer (record c { notify_set = true }) live_c,
          end_with_reason-Released by_transfer b live,
        )
        | inr other ↦
            let worse : leb 300 code ≡ true = ground arith in
            rw (other, worse)
              (
                end_with_reason-Released by_transfer_failed (record c { notify_set = true }) live_c,
                end_with_reason-Released by_transfer_failed b live,
              )
      ]),
      (λ going.
          let other : (code == 200) ≡ false = ground arith in
          let low : leb 300 code ≡ false = ground arith in rw (other, low) refl),
    )
