-- ===== src/Stun/Answer.antt =====
-- internal/stun: the client reads the Binding response of the server.
use xphone_go.Prelude.{
  ℕ, suc, ◌^◌, ◌<◌, ◌≡◌, refl, sym, ap, ◌∙◌, false, none, List, ◌∷◌, ◌++◌, arith, ltb, length,
  length-append, take, drop, take-append, drop-append, append_assoc,
}
use xphone_go.Prelude.Bytes.{bytes_eq_refl}
use xphone_go.Stun.Attrs.{parse_xor_addr-encode_xor_addr}
use xphone_go.Stun.Defs.{put_attrs, encode_xor_addr}
use xphone_go.Stun.Binding.{
  build_binding_response, or_bad_address, read_mapped, parse_binding_response, mapped,
}

-- The attribute and its padding, as BuildMessage writes them.
abbrev address_bytes : ℕ → ℕ → List ℕ
address_bytes ip port = 0 ∷ 32 ∷ 0 ∷ 8 ∷ encode_xor_addr ip port

abbrev response_bytes : List ℕ → ℕ → ℕ → List ℕ → List ℕ
response_bytes txn ip port mac =
    1 ∷ 1 ∷ 0 ∷ 36 ∷ 33 ∷ 18 ∷ 164 ∷ 66 ∷ (txn ++ (address_bytes ip port ++ (0 ∷ 8 ∷ 0 ∷ 20 ∷ mac)))

abbrev response_head : List ℕ → ℕ → ℕ → List ℕ
response_head txn ip port = 1 ∷ 1 ∷ 0 ∷ 36 ∷ 33 ∷ 18 ∷ 164 ∷ 66 ∷ (txn ++ address_bytes ip port)

first-read :
    (fuel ip port : ℕ) (tail : List ℕ)
    → ip < 2 ^ 32
    → port < 2 ^ 16
    → read_mapped (suc fuel) none (address_bytes ip port ++ tail) ≡ mapped (ip, port)
unfolding read_mapped encode_xor_addr
first-read fuel ip port tail hi hp =
    let big : ltb (length (address_bytes ip port ++ tail)) 4 ≡ false = ground arith in
    let fits : ltb (length (address_bytes ip port ++ tail)) 12 ≡ false = ground arith in
    rw (big, fits) (ap or_bad_address (parse_xor_addr-encode_xor_addr ip port hi hp))

first-taken :
    (ip port : ℕ) (tail : List ℕ)
    → take 36 (address_bytes ip port ++ tail) ≡ address_bytes ip port ++ take 24 tail
unfolding encode_xor_addr
first-taken ip port tail = refl

length-address_bytes : (ip port : ℕ) → length (address_bytes ip port) ≡ 12
unfolding encode_xor_addr
length-address_bytes ip port = refl

read-taken :
    (ip port : ℕ) (tail : List ℕ)
    → ip < 2 ^ 32
    → port < 2 ^ 16
    → read_mapped
        (length (take 36 (address_bytes ip port ++ tail)))
        none
        (take 36 (address_bytes ip port ++ tail))
      ≡ mapped (ip, port)
read-taken ip port tail hi hp =
    ap (λ (xs : List ℕ). read_mapped (length xs) none xs) (first-taken ip port tail)
    ∙ first-read (suc (suc (suc (length (encode_xor_addr ip port ++ take 24 tail))))) ip port
        (take 24 tail) hi hp

read-response :
    (txn : List ℕ) (ip port : ℕ) (mac : List ℕ)
    → length txn ≡ 12
    → length mac ≡ 20
    → ip < 2 ^ 32
    → port < 2 ^ 16
    → parse_binding_response (response_bytes txn ip port mac) txn ≡ mapped (ip, port)
unfolding parse_binding_response
read-response txn ip port mac h m hi hp =
    let tail = 0 ∷ 8 ∷ 0 ∷ 20 ∷ mac in
    let attrs = address_bytes ip port ++ tail in
    let id : take 12 (txn ++ attrs) ≡ txn = take-append 12 txn attrs (sym h) in
    let rest : drop 12 (txn ++ attrs) ≡ attrs = drop-append 12 txn attrs (sym h) in
    let size : length (txn ++ attrs) ≡ 48 = omega (
      arith,
      length-append txn attrs,
      length-append (address_bytes ip port) tail,
      length-address_bytes ip port,
    ) in
    rw (id, rest, size, bytes_eq_refl txn) (read-taken ip port tail hi hp)

module _ (hmac_sha1 : List ℕ → List ℕ → List ℕ) where
  abbrev mac_of : List ℕ → ℕ → ℕ → List ℕ → List ℕ
  mac_of txn ip port key = hmac_sha1 key (response_head txn ip port)

  response-bytes :
      (txn : List ℕ) (ip port : ℕ) (key : List ℕ)
      → length txn ≡ 12
      → build_binding_response hmac_sha1 txn ip port key
        ≡ response_bytes txn ip port (mac_of txn ip port key)
  unfolding build_binding_response put_attrs encode_xor_addr
  response-bytes txn ip port key h =
      let size : length (txn ++ address_bytes ip port) ≡ 24 =
        omega (arith, length-append txn (address_bytes ip port), h) in
      rw (size, append_assoc txn (address_bytes ip port) (0 ∷ 8 ∷ 0 ∷ 20 ∷ mac_of txn ip port key))
        refl

  -- The address and the port that a server puts into its Binding response are those that the client
  -- reads from it, which looks at no attribute behind them.
  pub parse_binding_response-build :
      (txn : List ℕ) (ip port : ℕ) (key : List ℕ)
      → length txn ≡ 12
      → ip < 2 ^ 32
      → port < 2 ^ 16
      → ((k msg : List ℕ) → length (hmac_sha1 k msg) ≡ 20)
      → parse_binding_response (build_binding_response hmac_sha1 txn ip port key) txn
        ≡ mapped (ip, port)
  parse_binding_response-build txn ip port key h hi hp mac20 =
      rw (response-bytes txn ip port key h) (
        read-response txn ip port (mac_of txn ip port key) h (mac20 key (response_head txn ip port))
          hi hp)
