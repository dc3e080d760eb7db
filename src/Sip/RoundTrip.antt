-- ===== src/Sip/RoundTrip.antt =====
-- internal/sip/message.go: Parse on what Bytes writes.
use xphone_go.Prelude.{
  ℕ, ◌^◌, ◌<◌, ◌≡◌, refl, ap, ◌∙◌, false, none, some, List, [], ◌∷◌, ◌++◌, arith, if◌then◌else◌,
  contains, lt→ltb, Bool-cases, inl, inr, length, map, take,
}
use xphone_go.Text.Defs.{
  Text, ascii, equal, is_empty, to_lower, trim_space, trim_left, strip_prefix, crlf, pos, itoa,
}
use xphone_go.Text.Cuts.{cut_byte-append, strip_prefix-append}
use xphone_go.Text.Numbers.{
  is_empty-append, is_empty-itoa, trim_space-itoa, atoi-itoa, contains-append, contains-itoa,
}
use xphone_go.Text.Lines.{
  with_ends, between, IsLine, AreLines, cut_on-with_ends, split_from-between,
}
use xphone_go.Sip.Message.{
  Header, Message, new_message, same_name, first_value, start_line, header_line, put_headers, bytes,
  parsed, parse_start_line, extract_body, parse_headers, finished, parse,
}

-- The headers that Bytes takes from the message.
abbrev pub sent : List Header → List Header
sent [] = []
sent (h ∷ hs) =
    let rest = sent hs in if same_name h.name (ascii "content-length") then rest else h ∷ rest

abbrev length_header : Text → Header
length_header body = record { name = ascii "Content-Length"; value = itoa (length body) }

-- A header whose line is read back: no colon or CR in the name; no CR, and no white space at an end of the value.
pub record ValidHeader (h : Header) : Type 0 where
  pub name_colon : contains h.name 58 ≡ false
  pub name_line : contains h.name 13 ≡ false
  pub value_line : contains h.value 13 ≡ false
  pub value_trimmed : trim_space h.value ≡ h.value

abbrev pub AllValid : List Header → Type 0
AllValid [] = Unit
AllValid (h ∷ hs) = ValidHeader h × AllValid hs

-- A response with its code, or a request whose method and URI are words.
pub data ValidStart : Message → Type 0 where
  response :
      (n : ℕ) (reason : Text) (hs : List Header) (body : Text)
      → 0 < n
      → n < 2 ^ 63
      → contains reason 13 ≡ false
      → ValidStart (record {
        method = [];
        request_uri = [];
        status_code = pos n;
        reason = reason;
        headers = hs;
        body = body;
      })
  request :
      (method uri : Text) (hs : List Header) (body : Text)
      → contains method 32 ≡ false
      → contains method 13 ≡ false
      → contains uri 32 ≡ false
      → contains uri 13 ≡ false
      → equal method (ascii "SIP/2.0") ≡ false
      → ValidStart (record {
        method = method;
        request_uri = uri;
        status_code = pos 0;
        reason = [];
        headers = hs;
        body = body;
      })

-- The header section of the bytes.
abbrev pub sent_headers : Message → List Header
sent_headers m = sent m.headers ++ (length_header m.body ∷ [])

put_headers-with_ends :
    (hs : List Header) (body : Text)
    → put_headers hs (header_line (length_header body) ++ (crlf ++ (crlf ++ body)))
      ≡ with_ends (map header_line (sent hs ++ (length_header body ∷ []))) (crlf ++ body)
unfolding put_headers
put_headers-with_ends [] body = refl
put_headers-with_ends (h ∷ hs) body =
    elim (Bool-cases (same_name h.name (ascii "content-length"))) [
      | inl e ↦ rw (e) (put_headers-with_ends hs body)
      | inr e ↦ rw (e, put_headers-with_ends hs body) refl
    ]

sent-AllValid : (hs : List Header) → AllValid hs → AllValid (sent hs)
sent-AllValid [] v = v
sent-AllValid (h ∷ hs) (v, vs) = elim (Bool-cases (same_name h.name (ascii "content-length"))) [
  | inl e ↦ rw (e) (sent-AllValid hs vs)
  | inr e ↦ rw (e) (v, sent-AllValid hs vs)
]

trim_left_space : (s : Text) → trim_left (32 ∷ s) ≡ trim_left s
unfolding trim_left
trim_left_space s = refl

trimmed_space : (s : Text) → trim_space s ≡ s → trim_space (32 ∷ s) ≡ s
trimmed_space s h = rw (trim_left_space s) h

parse_header_line :
    (h : Header)
    → ValidHeader h
    → (lines : List Text) → parse_headers (header_line h ∷ lines) ≡ h ∷ parse_headers lines
unfolding parse_headers
parse_header_line h v lines = rw (cut_byte-append 58 h.name (32 ∷ h.value) v.name_colon) (
    ap (λ t. record { name = h.name; value = t } ∷ parse_headers lines)
      (trimmed_space h.value v.value_trimmed))

parse_header_lines : (hs : List Header) → AllValid hs → parse_headers (map header_line hs) ≡ hs
unfolding parse_headers
parse_header_lines [] vs = refl
parse_header_lines (h ∷ hs) (v, vs) =
    parse_header_line h v (map header_line hs) ∙ ap (λ ks. h ∷ ks) (parse_header_lines hs vs)

header_line-IsLine : (h : Header) → ValidHeader h → IsLine (header_line h)
header_line-IsLine h v = (
  is_empty-append h.name 58 (32 ∷ h.value),
  ground (arith, contains-append h.name (58 ∷ 32 ∷ h.value) 13, v.name_line, v.value_line),
)

header_lines-AreLines : (hs : List Header) → AllValid hs → AreLines (map header_line hs)
header_lines-AreLines [] vs = vs
header_lines-AreLines (h ∷ hs) (v, vs) = (header_line-IsLine h v, header_lines-AreLines hs vs)

length_header-ValidHeader : (body : Text) → ValidHeader (length_header body)
length_header-ValidHeader body = record {
  name_colon = refl;
  name_line = refl;
  value_line = contains-itoa (length body) 13 refl;
  value_trimmed = trim_space-itoa (length body);
}

AllValid-append :
    (hs : List Header) (h : Header) → AllValid hs → ValidHeader h → AllValid (hs ++ (h ∷ []))
AllValid-append [] h vs v = (v, vs)
AllValid-append (k ∷ hs) h (w, vs) v = (w, AllValid-append hs h vs v)

start_line-IsLine : (m : Message) → ValidStart m → IsLine (start_line m)
unfolding start_line
start_line-IsLine m (response n reason hs body p f r) =
    rw (lt→ltb 0 n p)
      (refl, ground (arith, contains-append (itoa n) (32 ∷ reason) 13, contains-itoa n 13 refl))
start_line-IsLine m (request method uri hs body m1 m2 u1 u2 e) = (
  is_empty-append method 32 (uri ++ ascii " SIP/2.0"),
  ground (
    arith,
    contains-append method (32 ∷ (uri ++ ascii " SIP/2.0")) 13,
    contains-append uri (ascii " SIP/2.0") 13,
  ),
)

-- A word that is not the prefix's word does not have it as a prefix.
strip_word :
    (p s t : Text)
    → contains p 32 ≡ false
    → contains s 32 ≡ false
    → equal s p ≡ false
    → strip_prefix (p ++ (32 ∷ [])) (s ++ (32 ∷ t)) ≡ none
unfolding strip_prefix
strip_word [] [] t hp hs e = absurd (ground arith)
strip_word [] (c ∷ s) t hp hs e = ground arith
strip_word (b ∷ p) [] t hp hs e = ground arith
strip_word (b ∷ p) (c ∷ s) t hp hs e = ground (arith, strip_word p s t)

abbrev started : Message → Message
started m = record new_message {
  method = m.method;
  request_uri = m.request_uri;
  status_code = m.status_code;
  reason = m.reason;
}

parse_start_line-start_line :
    (m : Message) → ValidStart m → parse_start_line new_message (start_line m) ≡ parsed (started m)
unfolding parse_start_line start_line
parse_start_line-start_line m (response n reason hs body p f r) =
    rw
      (
        lt→ltb 0 n p,
        strip_prefix-append (ascii "SIP/2.0 ") (itoa n ++ (32 ∷ reason)),
        cut_byte-append 32 (itoa n) reason (contains-itoa n 32 refl),
        atoi-itoa n f,
      )
      refl
parse_start_line-start_line m (request method uri hs body m1 m2 u1 u2 e) =
    rw
      (
        strip_word (ascii "SIP/2.0") method (uri ++ ascii " SIP/2.0") refl m1 e,
        cut_byte-append 32 method (uri ++ ascii " SIP/2.0") m1,
        cut_byte-append 32 uri (ascii "SIP/2.0") u1,
      )
      refl

first_value-sent :
    (hs : List Header) (v : Text)
    → first_value
        (sent hs ++ (record { name = ascii "Content-Length"; value = v } ∷ []))
        (ascii "Content-Length")
      ≡ v
unfolding to_lower
first_value-sent [] v = refl
first_value-sent (h ∷ hs) v = ground (arith, first_value-sent hs v)

take_all : (xs : Text) → take (length xs) xs ≡ xs
take_all [] = refl
take_all (x ∷ xs) = ap (λ ys. x ∷ ys) (take_all xs)

extract_body-sent :
    (m : Message) (hs : List Header) (body : Text)
    → length body < 2 ^ 63
    → extract_body (record m { headers = sent hs ++ (length_header body ∷ []) }) body ≡ body
unfolding extract_body
extract_body-sent m hs [] f = refl
extract_body-sent m hs (c ∷ body) f =
    rw
      (
        first_value-sent hs (itoa (length (c ∷ body))),
        is_empty-itoa (length (c ∷ body)),
        atoi-itoa (length (c ∷ body)) f,
      )
      (ground (arith, take_all body))

is_empty-with_ends :
    (l : Text) (ls : List Text) (rest : Text) → is_empty (with_ends (l ∷ ls) rest) ≡ false
is_empty-with_ends l ls rest = is_empty-append l 13 (10 ∷ with_ends ls rest)

-- What Parse does to a head of lines, closed by an empty line and followed by a body.
parse-with_ends :
    (l : Text) (ls : List Text) (body : Text)
    → AreLines (l ∷ ls)
    → parse (with_ends (l ∷ ls) (crlf ++ body))
      ≡ finished (parse_start_line new_message l) ls (some (between l ls, body))
unfolding parse
parse-with_ends l ls body ((e, h), hs) =
    rw
      (
        cut_on-with_ends l ls body ((e, h), hs),
        split_from-between l ls ((e, h), hs),
        is_empty-with_ends l ls (crlf ++ body),
        e,
      )
      refl

bytes-with_ends :
    (m : Message)
    → bytes m ≡ with_ends (start_line m ∷ map header_line (sent_headers m)) (crlf ++ m.body)
unfolding bytes
bytes-with_ends m = rw (put_headers-with_ends m.headers m.body) refl

-- A message with a valid start line and valid headers is read back from its bytes: Parse gives its start line, its body, and its
-- headers with any Content-Length replaced by the length of the body, written last.
pub parse-bytes :
    (m : Message)
    → ValidStart m
    → AllValid m.headers
    → length m.body < 2 ^ 63
    → parse (bytes m) ≡ parsed (record m { headers = sent_headers m })
parse-bytes m s hs f =
    let heads : AllValid (sent_headers m) =
      AllValid-append (sent m.headers) (length_header m.body) (sent-AllValid m.headers hs)
        (length_header-ValidHeader m.body) in
    let lines : AreLines (start_line m ∷ map header_line (sent_headers m)) =
      (start_line-IsLine m s, header_lines-AreLines (sent_headers m) heads) in
    rw
      (
        bytes-with_ends m,
        parse-with_ends (start_line m) (map header_line (sent_headers m)) m.body lines,
        parse_start_line-start_line m s,
        parse_header_lines (sent_headers m) heads,
        extract_body-sent (started m) m.headers m.body f,
      )
      refl
