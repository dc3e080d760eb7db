-- ===== src/Stun/Defs.antt =====
-- internal/stun/message.go: attributes, the header, XOR addresses and MESSAGE-INTEGRITY. An IPv4
-- address is its 32-bit number, HMAC-SHA1 a parameter. AppendIntegrity also writes the length to the
-- slice of its caller, which is not modelled; find_attr returns the value, or `none` for nil.
use xphone_go.Prelude.{
  ℕ, zero, suc, ◌+◌, ◌-◌, ◌*◌, ◌/◌, ◌^◌, bit_and, bit_xor, Bool, false, not, Option, none, some,
  List, [], ◌∷◌, ◌++◌, ltb, ◌==◌, if◌then◌else◌, length, take, drop, replicate,
}
use xphone_go.Prelude.Bytes.{byte_at, u16_at, u32_at, put_u16, put_u32, bytes_eq}

abbrev pub magic_cookie : ℕ
magic_cookie = 0x2112A442

abbrev pub header_size : ℕ
header_size = 20

pub record Attr : Type 0 where
  pub attr_type : ℕ
  pub value : List ℕ

-- `(n + 3) & ^3`.
abbrev pub padded : ℕ → ℕ
padded n = (n + 3) / 4 * 4

abbrev pub put_attr : Attr → List ℕ → List ℕ
put_attr a rest =
    let n = length a.value in
    put_u16 a.attr_type ++ (put_u16 n ++ (a.value ++ (replicate (padded n - n) 0 ++ rest)))

-- The body of BuildMessage: one attribute after the other, each filled up with zeros.
unfoldable pub put_attrs : List Attr → List ℕ
put_attrs [] = []
put_attrs (a ∷ attrs) = put_attr a (put_attrs attrs)

-- BuildMessage; the length field is a uint16.
unfoldable pub build_message : ℕ → List ℕ → List Attr → List ℕ
build_message msg_type txn_id attrs =
    let body = put_attrs attrs in
    put_u16 msg_type ++ (put_u16 (length body) ++ (put_u32 magic_cookie ++ (txn_id ++ body)))

-- IsMessage.
unfoldable pub is_message : List ℕ → Bool
is_message bytes =
    if ltb (length bytes) header_size
    then false
    else if not (bit_and (byte_at bytes 0) 192 == 0)
    then false
    else u32_at bytes 4 == magic_cookie

-- The loop of ParseAttrs on what is left of the body; every round takes at least 4 bytes, so the
-- length of the body is enough fuel.
unfoldable pub parse_from : ℕ → List ℕ → List Attr
parse_from zero bytes = []
parse_from (suc fuel) bytes =
    let n = u16_at bytes 2 in
    let rest = parse_from fuel (drop (4 + padded n) bytes) in
    if ltb (length bytes) 4
    then []
    else if ltb (length bytes) (4 + n)
    then []
    else record { attr_type = u16_at bytes 0; value = take n (drop 4 bytes) } ∷ rest

unfoldable pub parse_attrs : List ℕ → List Attr
unfolding parse_from
parse_attrs bytes = parse_from (length bytes) bytes

-- FindAttr.
unfoldable pub find_attr : List Attr → ℕ → Option (List ℕ)
find_attr [] t = none
find_attr (a ∷ attrs) t = if a.attr_type == t then some a.value else find_attr attrs t

-- EncodeXORAddr and ParseXORAddr, for IPv4.
unfoldable pub encode_xor_addr : ℕ → ℕ → List ℕ
encode_xor_addr ip port =
    0 ∷ 1 ∷ (put_u16 (bit_xor port (magic_cookie / 2 ^ 16)) ++ put_u32 (bit_xor ip magic_cookie))

unfoldable pub parse_xor_addr : List ℕ → Option (ℕ × ℕ)
parse_xor_addr bytes =
    if ltb (length bytes) 8
    then none
    else if not (byte_at bytes 1 == 1)
    then none
    else some
        (bit_xor (u32_at bytes 4) magic_cookie, bit_xor (u16_at bytes 2) (magic_cookie / 2 ^ 16))

-- A message whose length field counts the bytes up to `end` and MESSAGE-INTEGRITY.
abbrev pub with_length : List ℕ → ℕ → List ℕ
with_length msg end = take 2 msg ++ (put_u16 (end - header_size + 24) ++ drop 4 msg)

module _ (hmac_sha1 : List ℕ → List ℕ → List ℕ) where
  unfoldable pub append_integrity : List ℕ → List ℕ → List ℕ
  append_integrity msg key =
      let adjusted = with_length msg (length msg) in
      adjusted ++ (put_u16 8 ++ (put_u16 20 ++ hmac_sha1 key adjusted))

  unfoldable pub verify_integrity : List ℕ → ℕ → List ℕ → Bool
  verify_integrity msg mi_offset key =
      if ltb (length msg) (mi_offset + 24)
      then false
      else if ltb mi_offset header_size
      then false
      else bytes_eq (take 20 (drop (mi_offset + 4) msg))
          (hmac_sha1 key (with_length (take mi_offset msg) mi_offset))
