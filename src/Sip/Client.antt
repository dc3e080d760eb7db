-- ===== src/Sip/Client.antt =====
-- internal/sip/client.go: the requests of the client and SendRegister. The local address, the bytes
-- that generateBranch draws, the outcome of each Send and MD5 are arguments; the callback and Close
-- are not modelled, and `closed` is read where SendRegister reads it.
use xphone_go.Prelude.{
  ℕ, ◌+◌, ◌/◌, ◌≡◌, refl, Bool, false, Option, none, some, List, [], ◌∷◌, ◌++◌, arith, ◌==◌,
  if◌then◌else◌, take,
}
use xphone_go.Text.Defs.{Text, ascii, itoa, to_lower, ℤ, pos, negsuc}
use xphone_go.Text.Cuts.{equal_refl}
use xphone_go.Sip.Message.{Message, Header, new_message, header, set_header, set_in, first_value}
use xphone_go.Sip.Transactions.{
  Error, transaction_stopped, Outcome, got, failed, generate_branch, hex_digit,
}
use xphone_go.Auth.Challenges.{Challenge, Credentials, parse_challenge, build_authorization}

pub record ClientConfig : Type 0 where
  pub username : Text
  pub password : Text
  pub domain : Text

-- The fields of Client that its requests read.
pub record Client : Type 0 where
  pub config : ClientConfig
  pub cseq : ℕ
  pub call_id : Text
  pub closed : Bool

abbrev pub address_of : ClientConfig → Text
address_of c = ascii "<sip:" ++ (c.username ++ (64 ∷ (c.domain ++ ascii ">")))

abbrev contact_of : ClientConfig → Text → ℕ → Text
contact_of c ip port =
    ascii "<sip:" ++ (c.username ++ (64 ∷ (ip ++ (58 ∷ (itoa port ++ ascii ">")))))

abbrev pub set_all : List (Text × Text) → Message → Message
set_all [] msg = msg
set_all ((n, v) ∷ rest) msg = set_all rest (set_header msg n v)

-- The From tag: the first 8 bytes of a branch.
unfoldable pub from_tag_of : List ℕ → Text
from_tag_of random = take 8 (generate_branch random)

abbrev standard_headers : ClientConfig → Text → ℕ → ℕ → Text → Text → List ℕ → List (Text × Text)
standard_headers c ip port seq method call_id random =
    (ascii "From", address_of c ++ (ascii ";tag=" ++ from_tag_of random))
    ∷ (ascii "To", address_of c)
    ∷ (ascii "Call-ID", call_id)
    ∷ (ascii "CSeq", itoa seq ++ (32 ∷ method))
    ∷ (ascii "Contact", contact_of c ip port)
    ∷ (ascii "Max-Forwards", ascii "70")
    ∷ (ascii "User-Agent", ascii "xphone")
    ∷ []

-- buildRequest: the client after the counter moved, and the request. The counter is an int64.
unfoldable pub build_request :
    Text → ℕ → List ℕ → Text → Text → List (Text × Text) → Client → Client × Message
build_request ip port random method uri extra c =
    let seq = c.cseq + 1 in
    let empty = record new_message { method = method; request_uri = uri } in
    (
      record c { cseq = seq },
      set_all extra (set_all (standard_headers c.config ip port seq method c.call_id random) empty),
    )

abbrev pub register_uri : Client → Text
register_uri c = ascii "sip:" ++ c.config.domain

pub record Registered : Type 0 where
  pub code : ℤ
  pub text : Text
  pub error : Option Error

abbrev pub failed_with : Error → Registered
failed_with e = record { code = pos 0; text = []; error = some e }

abbrev pub answered_with : Message → Registered
answered_with resp = record { code = resp.status_code; text = resp.reason; error = none }

abbrev result_of : Outcome → Registered
result_of (failed e) = failed_with e
result_of (got resp) = answered_with resp

abbrev is_401 : ℤ → Bool
is_401 (pos n) = n == 401
is_401 (negsuc n) = false

module _ (md5_hex : Text → Text) (send : Message → Outcome) (ip : Text) (port : ℕ) where
  -- The Authorization value of the retry.
  abbrev pub answer_to : Challenge → Client → Text
  answer_to ch c =
      let creds : Credentials = record {
        username = c.config.username;
        password = c.config.password;
      } in
      build_authorization md5_hex ch creds (ascii "REGISTER") (register_uri c)

  abbrev retry_with : List ℕ → Text → Option Challenge → Client → Client × Registered
  retry_with random auth none c = (c, record { code = pos 401; text = auth; error = none })
  retry_with random auth (some ch) c =
      let (c2, retry) =
        build_request ip port random (ascii "REGISTER") (register_uri c)
          ((ascii "Authorization", answer_to ch c) ∷ []) c in
      (c2, result_of (send retry))

  abbrev pub after_first : List ℕ → Outcome → Client → Client × Registered
  after_first random (failed e) c = (c, failed_with e)
  after_first random (got resp) c =
      let auth = header resp (ascii "WWW-Authenticate") in
      let retried = retry_with random auth (parse_challenge auth) c in
      if is_401 resp.status_code then retried else (c, answered_with resp)

  -- SendRegister on the random bytes of its two requests.
  unfoldable pub send_register : List ℕ → List ℕ → Client → Client × Registered
  send_register random again c =
      let (c2, req) = build_request ip port random (ascii "REGISTER") (register_uri c) [] c in
      let rest = after_first again (send req) c2 in
      if c.closed then (c, failed_with transaction_stopped) else rest

-- Every From tag of the client is the cookie of a branch and one hexadecimal digit, that of the
-- high half of the first random byte: there are 16 of them.
pub from_tag_of-generate_branch :
    (b : ℕ) (random : List ℕ)
    → from_tag_of (b ∷ random) ≡ ascii "z9hG4bK" ++ (hex_digit (b / 16) ∷ [])
unfolding from_tag_of generate_branch
from_tag_of-generate_branch b random = refl

first_value-set_in : (hs : List Header) (n v : Text) → first_value (set_in hs n v) n ≡ v
unfolding set_in
first_value-set_in [] n v = ground (arith, equal_refl (to_lower n))
first_value-set_in (h ∷ hs) n v = ground (arith, first_value-set_in hs n v)

-- A request carries no Authorization but the one it is given.
build_request-bare :
    (ip : Text) (port : ℕ) (random : List ℕ) (uri : Text) (c : Client)
    → header (build_request ip port random (ascii "REGISTER") uri [] c).1 (ascii "Authorization")
      ≡ []
unfolding build_request header set_header set_in to_lower
build_request-bare ip port random uri c = refl

build_request-authorized :
    (ip : Text) (port : ℕ) (random : List ℕ) (uri v : Text) (c : Client)
    → header
        (build_request ip port random (ascii "REGISTER") uri ((ascii "Authorization", v) ∷ []) c).1
        (ascii "Authorization")
      ≡ v
unfolding build_request header set_header
build_request-authorized ip port random uri v c =
    first_value-set_in
      (set_all (standard_headers c.config ip port (c.cseq + 1) (ascii "REGISTER") c.call_id random)
        (record new_message { method = ascii "REGISTER"; request_uri = uri })).headers
      (ascii "Authorization") v

build_request-client :
    (ip : Text) (port : ℕ) (random : List ℕ) (uri : Text) (extra : List (Text × Text)) (c : Client)
    → (build_request ip port random (ascii "REGISTER") uri extra c).0
      ≡ record c { cseq = c.cseq + 1 }
unfolding build_request
build_request-client ip port random uri extra c = refl

module _ (md5_hex : Text → Text) (send : Message → Outcome) (ip : Text) (port : ℕ) where
  -- Against a registrar that challenges a request without Authorization and answers the request
  -- with the digest of this challenge, SendRegister returns that answer and counts the CSeq counter
  -- on by two. A closed client fails and keeps its counter.
  pub send_register-challenged :
      (random again : List ℕ) (c : Client) (asked answer : Message) (ch : Challenge)
      → asked.status_code ≡ pos 401
      → parse_challenge (header asked (ascii "WWW-Authenticate")) ≡ some ch
      → ((msg : Message) → header msg (ascii "Authorization") ≡ [] → send msg ≡ got asked)
      → ((msg : Message)
          → header msg (ascii "Authorization") ≡ answer_to md5_hex send ip port ch c
          → send msg ≡ got answer)
      → send_register md5_hex send ip port random again c ≡ (
          if c.closed
          then (c, failed_with transaction_stopped)
          else (record c { cseq = c.cseq + 1 + 1 }, answered_with answer))
  unfolding send_register build_request parse_challenge header
  send_register-challenged random again c asked answer ch code challenge bare digest =
      let (c2, req) = build_request ip port random (ascii "REGISTER") (register_uri c) [] c in
      let v = answer_to md5_hex send ip port ch c in
      let (c3, retry) =
        build_request ip port again (ascii "REGISTER") (register_uri c)
          ((ascii "Authorization", v) ∷ []) c2 in
      let first = bare req (build_request-bare ip port random (register_uri c) c) in
      let second = digest retry (build_request-authorized ip port again (register_uri c) v c2) in
      rw (first, code, challenge, second) refl
