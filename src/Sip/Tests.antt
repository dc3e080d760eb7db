-- ===== src/Sip/Tests.antt =====
-- internal/sip/message.go at one message: an INVITE with a body and a Content-Length that its bytes do not keep.
use xphone_go.Prelude.{◌≡◌, refl, false, [], ◌∷◌, arith}
use xphone_go.Text.Defs.{Text, ascii, to_lower, trim_left, trim_right, pos}
use xphone_go.Sip.Message.{
  Header, Message, bytes, parse, parsed, refused, via_branch, cseq, param_value, until_end, header,
  cseq_of, malformed_status_line, parse_start_line,
}
use xphone_go.Text.Defs.{cut_on, cut_byte, strip_prefix, split_from, scan, atoi}
use xphone_go.Sip.RoundTrip.{ValidHeader, request, sent_headers, parse-bytes}
use xphone_go.Prelude.{◌+◌, some, if◌then◌else◌}
use xphone_go.Text.Defs.{is_empty, split_byte}
use xphone_go.Sip.Message.{new_message}
use xphone_go.Sip.Transactions.{Outcome, got}
use xphone_go.Auth.Challenges.{
  Challenge, new_challenge, parse_challenge, drop_last_quotes, drop_quotes, build_authorization,
}
use xphone_go.Sip.Client.{Client, answer_to, answered_with, send_register, send_register-challenged}

abbrev via : Header
via = record { name = ascii "Via"; value = ascii "SIP/2.0/UDP 10.0.0.1;branch=z9hG4bK7;rport" }

abbrev stale_length : Header
stale_length = record { name = ascii "content-length"; value = ascii "99" }

abbrev sequence : Header
sequence = record { name = ascii "CSeq"; value = ascii "7 INVITE" }

abbrev invite : Message
invite = record {
  method = ascii "INVITE";
  request_uri = ascii "sip:1002@pbx";
  status_code = pos 0;
  reason = [];
  headers = via ∷ stale_length ∷ sequence ∷ [];
  body = ascii "v=0";
}

via-ValidHeader : ValidHeader via
unfolding trim_left trim_right
via-ValidHeader = record {
  name_colon = refl;
  name_line = refl;
  value_line = refl;
  value_trimmed = refl;
}

stale_length-ValidHeader : ValidHeader stale_length
unfolding trim_left trim_right
stale_length-ValidHeader = record {
  name_colon = refl;
  name_line = refl;
  value_line = refl;
  value_trimmed = refl;
}

sequence-ValidHeader : ValidHeader sequence
unfolding trim_left trim_right
sequence-ValidHeader = record {
  name_colon = refl;
  name_line = refl;
  value_line = refl;
  value_trimmed = refl;
}

parse-bytes_example :
    parse (bytes invite) ≡ parsed (record invite { headers = sent_headers invite })
parse-bytes_example =
    parse-bytes invite
      (request (ascii "INVITE") (ascii "sip:1002@pbx") invite.headers invite.body refl refl refl
        refl refl)
      (via-ValidHeader, (stale_length-ValidHeader, (sequence-ValidHeader, tt))) (omega arith)

invite-via_branch : via_branch invite ≡ ascii "z9hG4bK7"
unfolding via_branch header param_value until_end to_lower cut_on strip_prefix
invite-via_branch = refl

invite-cseq : cseq invite ≡ (pos 7, ascii "INVITE")
unfolding cseq cseq_of header to_lower trim_left trim_right cut_byte atoi scan
invite-cseq = refl

status_without_reason : parse (ascii "SIP/2.0 200") ≡ refused malformed_status_line
unfolding parse parse_start_line cut_on strip_prefix split_from cut_byte
status_without_reason = refl

-- The parameter is found inside another one whose name ends with its name.
tag_inside_vtag : param_value (ascii "<sip:a@b;vtag=1>;tag=2") (ascii "tag") ≡ ascii "1"
unfolding param_value until_end to_lower cut_on strip_prefix
tag_inside_vtag = refl

abbrev no_hash : Text → Text
no_hash s = ascii "00"

abbrev challenged : Message
challenged = record new_message {
  status_code = pos 401;
  headers =
      record { name = ascii "WWW-Authenticate"; value = ascii "Digest realm=\"pbx\",nonce=\"n1\"" }
      ∷ [];
}

abbrev accepted : Message
accepted = record new_message { status_code = pos 200; reason = ascii "OK" }

abbrev registrar : Message → Outcome
registrar msg = got (if is_empty (header msg (ascii "Authorization")) then challenged else accepted)

abbrev client : Client
client = record {
  config = record { username = ascii "1001"; password = ascii "pw"; domain = ascii "pbx" };
  cseq = 4;
  call_id = ascii "c1";
  closed = false;
}

abbrev challenge : Challenge
challenge = record new_challenge { realm = ascii "pbx"; nonce = ascii "n1" }

challenge_read : parse_challenge (header challenged (ascii "WWW-Authenticate")) ≡ some challenge
unfolding parse_challenge header to_lower strip_prefix split_byte cut_byte trim_right trim_left
    drop_last_quotes drop_quotes
challenge_read = refl

bare_challenged :
    (msg : Message) → header msg (ascii "Authorization") ≡ [] → registrar msg ≡ got challenged
bare_challenged msg h = rw (h) refl

digest_accepted :
    (msg : Message)
    → header msg (ascii "Authorization")
      ≡ answer_to no_hash registrar (ascii "10.0.0.1") 5060 challenge client
    → registrar msg ≡ got accepted
unfolding build_authorization
digest_accepted msg h = rw (h) refl

send_register-challenged_example :
    send_register no_hash registrar (ascii "10.0.0.1") 5060 (1 ∷ []) (2 ∷ []) client
    ≡ (record client { cseq = 4 + 1 + 1 }, answered_with accepted)
send_register-challenged_example =
    send_register-challenged no_hash registrar (ascii "10.0.0.1") 5060 (1 ∷ []) (2 ∷ []) client
      challenged accepted challenge refl challenge_read bare_challenged digest_accepted
