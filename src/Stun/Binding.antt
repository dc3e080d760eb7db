-- ===== src/Stun/Binding.antt =====
-- internal/stun/message.go and stun.go: the Binding response that a server builds and the one that
-- the client reads, and the other readers of a message. An IPv4 address is its 32-bit number;
-- resolving the server and the exchange of the datagrams are not modelled.
use xphone_go.Prelude.{
  ℕ, zero, suc, ◌+◌, ◌*◌, bit_and, not, Option, none, some, List, [], ◌∷◌, ◌++◌, ltb, ◌==◌,
  if◌then◌else◌, length, take, drop,
}
use xphone_go.Prelude.Bytes.{byte_at, u16_at, u32_at, bytes_eq}
use xphone_go.Text.Defs.{Text}
use xphone_go.Stun.Defs.{
  Attr, magic_cookie, header_size, padded, build_message, encode_xor_addr, parse_xor_addr,
  append_integrity, find_attr,
}

abbrev pub binding_response : ℕ
binding_response = 0x0101

abbrev pub attr_xor_mapped_address : ℕ
attr_xor_mapped_address = 0x0020

abbrev pub attr_mapped_address : ℕ
attr_mapped_address = 0x0001

-- MsgType and TxnID.
unfoldable pub msg_type : List ℕ → Option ℕ
msg_type bytes = if ltb (length bytes) 2 then none else some (u16_at bytes 0)

unfoldable pub txn_id : List ℕ → Option (List ℕ)
txn_id bytes = if ltb (length bytes) header_size then none else some (take 12 (drop 8 bytes))

-- LongTermKey, with MD5 as a parameter.
abbrev pub long_term_key : (Text → List ℕ) → Text → Text → Text → List ℕ
long_term_key md5 username realm password = md5 (username ++ (58 ∷ (realm ++ (58 ∷ password))))

-- BuildBindingResponse.
unfoldable pub build_binding_response :
    (List ℕ → List ℕ → List ℕ) → List ℕ → ℕ → ℕ → List ℕ → List ℕ
unfolding build_message append_integrity encode_xor_addr
build_binding_response hmac_sha1 txn ip port key =
    let value = encode_xor_addr ip port in
    let attr : Attr = record { attr_type = attr_xor_mapped_address; value = value } in
    append_integrity hmac_sha1 (build_message binding_response txn (attr ∷ [])) key

-- The loop of FindAttrOffset from an offset on, with the message from there; `none` is -1. The
-- length of the message is enough fuel.
unfoldable pub offset_from : ℕ → ℕ → ℕ → List ℕ → Option ℕ
offset_from zero target offset bytes = none
offset_from (suc fuel) target offset bytes =
    let step = 4 + padded (u16_at bytes 2) in
    let later = offset_from fuel target (offset + step) (drop step bytes) in
    if ltb (length bytes) 4 then none else if u16_at bytes 0 == target then some offset else later

unfoldable pub find_attr_offset : List ℕ → ℕ → Option ℕ
unfolding offset_from
find_attr_offset msg target =
    if ltb (length msg) header_size
    then none
    else offset_from (length msg) target header_size (drop header_size msg)

abbrev error_of : Option (List ℕ) → ℕ × List ℕ
error_of none = (0, [])
error_of (some val) =
    if ltb (length val) 4
    then (0, [])
    else (bit_and (byte_at val 2) 7 * 100 + byte_at val 3, drop 4 val)

-- ParseErrorCode.
abbrev pub parse_error_code : List Attr → ℕ × List ℕ
parse_error_code attrs = error_of (find_attr attrs 9)

-- parseMappedAddress; `none` is an error.
unfoldable pub parse_mapped_address : List ℕ → Option (ℕ × ℕ)
parse_mapped_address bytes =
    if ltb (length bytes) 8
    then none
    else if not (byte_at bytes 1 == 1)
    then none
    else some (u32_at bytes 4, u16_at bytes 2)

pub data BindingError : Type 0 where
  too_short unexpected_type bad_cookie wrong_transaction truncated : BindingError
  truncated_attribute bad_address unknown_attribute no_address : BindingError

pub data Mapped : Type 0 where
  refused : BindingError → Mapped
  mapped : ℕ × ℕ → Mapped

abbrev or_no_address : Option (ℕ × ℕ) → Mapped
or_no_address none = refused no_address
or_no_address (some a) = mapped a

abbrev pub or_bad_address : Option (ℕ × ℕ) → Mapped
or_bad_address none = refused bad_address
or_bad_address (some a) = mapped a

abbrev or_older : Option (ℕ × ℕ) → Option (ℕ × ℕ) → Option (ℕ × ℕ)
or_older none old = old
or_older (some a) old = some a

-- The attribute loop of parseBindingResponse on the bytes left, with the MAPPED-ADDRESS seen.
unfoldable pub read_mapped : ℕ → Option (ℕ × ℕ) → List ℕ → Mapped
unfolding parse_xor_addr parse_mapped_address
read_mapped zero found bytes = or_no_address found
read_mapped (suc fuel) found bytes =
    let t = u16_at bytes 0 in
    let n = u16_at bytes 2 in
    let value = take n (drop 4 bytes) in
    let next = drop (4 + padded n) bytes in
    let skipped = read_mapped fuel found next in
    let taken = read_mapped fuel (or_older (parse_mapped_address value) found) next in
    if ltb (length bytes) 4
    then or_no_address found
    else if ltb (length bytes) (4 + n)
    then refused truncated_attribute
    else if t == attr_xor_mapped_address
    then or_bad_address (parse_xor_addr value)
    else if t == attr_mapped_address
    then taken
    else if ltb t 0x8000
    then refused unknown_attribute
    else skipped

-- parseBindingResponse.
unfoldable pub parse_binding_response : List ℕ → List ℕ → Mapped
unfolding read_mapped
parse_binding_response bytes expected =
    let msg_len = u16_at bytes 2 in
    let attrs = take msg_len (drop header_size bytes) in
    let read = read_mapped (length attrs) none attrs in
    if ltb (length bytes) header_size
    then refused too_short
    else if not (u16_at bytes 0 == binding_response)
    then refused unexpected_type
    else if not (u32_at bytes 4 == magic_cookie)
    then refused bad_cookie
    else if not (bytes_eq (take 12 (drop 8 bytes)) expected)
    then refused wrong_transaction
    else if ltb (length bytes) (header_size + msg_len)
    then refused truncated
    else read
