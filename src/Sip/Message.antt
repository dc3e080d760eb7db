-- ===== src/Sip/Message.antt =====
-- internal/sip/message.go. A string is the list of its bytes; ToLower, EqualFold and TrimSpace are those of ASCII text.
-- An int has 64 bits.
use xphone_go.Prelude.{
  ℕ, suc, ◌+◌, Bool, false, ◌||◌, Option, none, some, List, [], ◌∷◌, ◌++◌, ltb, leb, ◌==◌,
  if◌then◌else◌, length, take, drop,
}
use xphone_go.Text.Defs.{
  Text, ascii, equal, is_empty, to_lower, trim_space, cut_byte, strip_prefix, cut_on, split_from,
  crlf, ℤ, pos, negsuc, atoi, itoa,
}

pub record Header : Type 0 where
  pub name : Text
  pub value : Text

pub record Message : Type 0 where
  pub method : Text
  pub request_uri : Text
  pub status_code : ℤ
  pub reason : Text
  pub headers : List Header
  pub body : Text

abbrev pub new_message : Message
new_message = record {
  method = [];
  request_uri = [];
  status_code = pos 0;
  reason = [];
  headers = [];
  body = [];
}

unfoldable pub is_response : Message → Bool
is_response m = elim (m.status_code) [ pos n ↦ ltb 0 n | negsuc n ↦ false ]

-- The test of the header loops, which compare lower-case names.
abbrev pub same_name : Text → Text → Bool
same_name s t = equal (to_lower s) (to_lower t)

abbrev pub first_value : List Header → Text → Text
first_value [] n = []
first_value (h ∷ hs) n = if same_name h.name n then h.value else first_value hs n

-- Message.Header.
unfoldable pub header : Message → Text → Text
header m n = first_value m.headers n

abbrev pub all_values : List Header → Text → List Text
all_values [] n = []
all_values (h ∷ hs) n =
    let rest = all_values hs n in if same_name h.name n then h.value ∷ rest else rest

-- Message.HeaderValues.
unfoldable pub header_values : Message → Text → List Text
header_values m n = all_values m.headers n

-- The loop of SetHeader that removes later headers of the name.
unfoldable pub remove_named : List Header → Text → List Header
remove_named [] n = []
remove_named (h ∷ hs) n =
    let rest = remove_named hs n in if same_name h.name n then rest else h ∷ rest

unfoldable pub set_in : List Header → Text → Text → List Header
unfolding remove_named
set_in [] n v = record { name = n; value = v } ∷ []
set_in (h ∷ hs) n v =
    let rest = set_in hs n v in
    if same_name h.name n then record { name = h.name; value = v } ∷ remove_named hs n else h ∷ rest

-- Message.SetHeader.
unfoldable pub set_header : Message → Text → Text → Message
unfolding set_in
set_header m n v = record m { headers = set_in m.headers n v }

-- Message.AddHeader.
unfoldable pub add_header : Message → Text → Text → Message
add_header m n v = record m { headers = m.headers ++ (record { name = n; value = v } ∷ []) }

-- Whether a byte ends a parameter: one of ";, \t>".
abbrev pub ends_param : ℕ → Bool
ends_param c = (c == 59) || (c == 44) || (c == 32) || (c == 9) || (c == 62)

unfoldable pub until_end : Text → Text
until_end [] = []
until_end (c ∷ s) = let rest = until_end s in if ends_param c then [] else c ∷ rest

-- paramValue.
unfoldable pub param_value : Text → Text → Text
unfolding until_end
param_value header_val param =
    let search = param ++ (61 ∷ []) in
    elim (cut_on (to_lower search) (to_lower header_val)) [
      | none ↦ []
      | some (before, after) ↦ until_end (drop (length before + length search) header_val)
    ]

-- Message.ViaBranch.
unfoldable pub via_branch : Message → Text
unfolding param_value
via_branch m =
    let via = header m (ascii "Via") in
    if is_empty via then [] else param_value via (ascii "branch")

unfoldable pub from_tag : Message → Text
unfolding param_value
from_tag m = param_value (header m (ascii "From")) (ascii "tag")

unfoldable pub to_tag : Message → Text
unfolding param_value
to_tag m = param_value (header m (ascii "To")) (ascii "tag")

abbrev read_number : Option ℤ → Text → ℤ × Text
read_number none rest = (pos 0, [])
read_number (some n) rest = (n, rest)

-- Message.CSeq on the header's value.
unfoldable pub cseq_of : Text → ℤ × Text
cseq_of val = if is_empty val then (pos 0, []) else elim (cut_byte 32 (trim_space val)) [
  | none ↦ (pos 0, [])
  | some (number, rest) ↦ read_number (atoi number) rest
]

unfoldable pub cseq : Message → ℤ × Text
unfolding cseq_of
cseq m = cseq_of (header m (ascii "CSeq"))

-- strconv.Itoa of an int.
abbrev pub print_int : ℤ → Text
print_int (pos n) = itoa n
print_int (negsuc n) = 45 ∷ itoa (suc n)

unfoldable pub start_line : Message → Text
unfolding is_response
start_line m =
    if is_response m
    then ascii "SIP/2.0 " ++ (print_int m.status_code ++ (32 ∷ m.reason))
    else m.method ++ (32 ∷ (m.request_uri ++ ascii " SIP/2.0"))

abbrev pub header_line : Header → Text
header_line h = h.name ++ (58 ∷ 32 ∷ h.value)

-- The header loop of Bytes, with the Content-Length it writes behind it.
unfoldable pub put_headers : List Header → Text → Text
put_headers [] rest = rest
put_headers (h ∷ hs) rest =
    let later = put_headers hs rest in
    if same_name h.name (ascii "content-length") then later else header_line h ++ (crlf ++ later)

-- Message.Bytes.
unfoldable pub bytes : Message → Text
unfolding start_line put_headers
bytes m =
    start_line m
    ++ (crlf
        ++ put_headers m.headers
            (ascii "Content-Length: " ++ (itoa (length m.body) ++ (crlf ++ (crlf ++ m.body)))))

pub data ParseError : Type 0 where
  empty_message no_start_line empty_start_line : ParseError
  malformed_status_line invalid_status_code malformed_request_line : ParseError

pub data Parsed : Type 0 where
  refused : ParseError → Parsed
  parsed : Message → Parsed

abbrev with_code : Option ℤ → Text → Message → Parsed
with_code none reason msg = refused invalid_status_code
with_code (some code) reason msg = parsed (record msg { status_code = code; reason = reason })

abbrev status_line : Option (Text × Text) → Message → Parsed
status_line none msg = refused malformed_status_line
status_line (some (number, reason)) msg = with_code (atoi number) reason msg

abbrev request_target : Text → Option (Text × Text) → Message → Parsed
request_target method none msg = refused malformed_request_line
request_target method (some (uri, version)) msg =
    if equal version (ascii "SIP/2.0")
    then parsed (record msg { method = method; request_uri = uri })
    else refused malformed_request_line

abbrev request_line : Option (Text × Text) → Message → Parsed
request_line none msg = refused malformed_request_line
request_line (some (method, rest)) msg = request_target method (cut_byte 32 rest) msg

abbrev start_of : Option Text → Text → Message → Parsed
start_of none line msg = request_line (cut_byte 32 line) msg
start_of (some rest) line msg = status_line (cut_byte 32 rest) msg

-- parseStartLine.
unfoldable pub parse_start_line : Message → Text → Parsed
parse_start_line msg line = start_of (strip_prefix (ascii "SIP/2.0 ") line) line msg

-- The Content-Length that extractBody finds, applied to what stands behind the header section.
abbrev clipped : Option ℤ → Text → Text
clipped none body = body
clipped (some (negsuc n)) body = body
clipped (some (pos n)) body =
    if n == 0 then [] else if leb n (length body) then take n body else body

-- extractBody, for a message whose body is still empty.
unfoldable pub extract_body : Message → Text → Text
unfolding header
extract_body msg body =
    let cl = header msg (ascii "Content-Length") in
    if is_empty body then [] else if is_empty cl then body else clipped (atoi cl) body

abbrev header_of : Option (Text × Text) → List Header → List Header
header_of none hs = hs
header_of (some (n, v)) hs = record { name = n; value = trim_space v } ∷ hs

-- The header loop of Parse: a line that is empty or has no colon is skipped.
unfoldable pub parse_headers : List Text → List Header
parse_headers [] = []
parse_headers (line ∷ lines) = header_of (cut_byte 58 line) (parse_headers lines)

abbrev pub head_of : Text → Option (Text × Text) → Text
head_of all none = all
head_of all (some (head, body)) = head

abbrev with_body : Option (Text × Text) → Message → Message
with_body none msg = msg
with_body (some (head, body)) msg = record msg { body = extract_body msg body }

abbrev pub finished : Parsed → List Text → Option (Text × Text) → Parsed
finished (refused e) lines cut = refused e
finished (parsed msg) lines cut =
    parsed (with_body cut (record msg { headers = parse_headers lines }))

abbrev from_lines : List Text → Option (Text × Text) → Parsed
from_lines [] cut = refused no_start_line
from_lines (line ∷ lines) cut =
    if is_empty line
    then refused empty_start_line
    else finished (parse_start_line new_message line) lines cut

-- Parse.
unfoldable pub parse : Text → Parsed
unfolding parse_start_line parse_headers extract_body
parse bytes =
    let cut = cut_on (crlf ++ crlf) bytes in
    let head = head_of bytes cut in
    if is_empty bytes
    then refused empty_message
    else from_lines (split_from (length head) crlf head) cut
