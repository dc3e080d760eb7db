-- ===== src/Stun/Attrs.antt =====
-- internal/stun/message.go: what is built is read back.
use xphone_go.Prelude.{
  ℕ, zero, suc, ◌+◌, ◌-◌, ◌/◌, ◌%◌, ◌^◌, ◌≤◌, ◌<◌, ◌≡◌, refl, sym, ◌∙◌, ap, bit_and, bit_xor, true,
  false, some, List, [], ◌∷◌, ◌++◌, arith, ltb, ◌==◌, length, length-append, length-replicate, take,
  drop, replicate, take-append, drop-append, append_assoc,
}
use xphone_go.Prelude.Bits.{bit_xor_twice, bit_xor-lt}
use xphone_go.Prelude.Bytes.{u16_at, u32_at}
use xphone_go.Prelude.Masks.{all_below, all_below_sound}
use xphone_go.Stun.Defs.{
  Attr, padded, put_attr, put_attrs, build_message, is_message, parse_from, parse_attrs,
  encode_xor_addr, parse_xor_addr, magic_cookie,
}

-- The type and the length of each attribute fit their 16 bits.
abbrev pub Sixteen : List Attr → Type 0
Sixteen [] = Unit
Sixteen (a ∷ attrs) = (a.attr_type < 2 ^ 16) × (length a.value < 2 ^ 16) × Sixteen attrs

length-put_attr :
    (a : Attr) (rest : List ℕ)
    → length (put_attr a rest) ≡ 4 + padded (length a.value) + length rest
length-put_attr a rest =
    let n : ℕ = length a.value in
    let zeros : List ℕ = replicate (padded n - n) 0 in
    omega (
      arith,
      length-append a.value (zeros ++ rest),
      length-append zeros rest,
      length-replicate {A = ℕ} (padded n - n) 0,
    )

drop_four : (m a b c d : ℕ) (xs : List ℕ) → drop (4 + m) (a ∷ b ∷ c ∷ d ∷ xs) ≡ drop m xs
drop_four m a b c d xs =
    let four : 4 + m ≡ suc (suc (suc (suc m))) = omega arith in
    ap (λ (k : ℕ). drop k (a ∷ b ∷ c ∷ d ∷ xs)) four

drop-put_attr :
    (a : Attr) (rest : List ℕ) → drop (4 + padded (length a.value)) (put_attr a rest) ≡ rest
drop-put_attr a rest =
    let n : ℕ = length a.value in
    let zeros : List ℕ = replicate (padded n - n) 0 in
    drop_four (padded n) _ _ _ _ (a.value ++ (zeros ++ rest))
    ∙ ap (λ (xs : List ℕ). drop (padded n) xs) (sym (append_assoc a.value zeros rest))
    ∙ drop-append (padded n) (a.value ++ zeros) rest
        (omega (arith, length-append a.value zeros, length-replicate {A = ℕ} (padded n - n) 0))

value-put_attr :
    (a : Attr) (rest : List ℕ) → take (length a.value) (drop 4 (put_attr a rest)) ≡ a.value
value-put_attr a rest = take-append (length a.value) a.value _ refl

parse_from-put_attrs :
    (fuel : ℕ) (attrs : List Attr)
    → Sixteen attrs
    → length (put_attrs attrs) ≤ fuel
    → parse_from fuel (put_attrs attrs) ≡ attrs
unfolding parse_from put_attrs
parse_from-put_attrs zero [] s f = refl
parse_from-put_attrs (suc fuel) [] s f = refl
parse_from-put_attrs zero (a ∷ attrs) s f =
    absurd (omega (arith, length-put_attr a (put_attrs attrs)))
parse_from-put_attrs (suc fuel) (a ∷ attrs) (t, l, s) f =
    let rest : List ℕ = put_attrs attrs in
    let big : length (put_attr a rest) ≡ 4 + padded (length a.value) + length rest =
      length-put_attr a rest in
    let n : u16_at (put_attr a rest) 2 ≡ length a.value = omega arith in
    let k : u16_at (put_attr a rest) 0 ≡ a.attr_type = omega arith in
    let enough : ltb (length (put_attr a rest)) 4 ≡ false = ground (arith, big) in
    let fits : ltb (length (put_attr a rest)) (4 + length a.value) ≡ false = ground (arith, big) in
    simp (
      n,
      k,
      enough,
      fits,
      value-put_attr a rest,
      drop-put_attr a rest,
      parse_from-put_attrs fuel attrs s (omega (arith, big)),
    )

-- ParseAttrs gives back the attributes whose bytes BuildMessage writes, if their types and lengths
-- fit 16 bits; the padding is skipped.
pub parse_attrs-put_attrs :
    (attrs : List Attr) → Sixteen attrs → parse_attrs (put_attrs attrs) ≡ attrs
unfolding parse_attrs
parse_attrs-put_attrs attrs s =
    parse_from-put_attrs (length (put_attrs attrs)) attrs s (omega arith)

top_bits_clear : (b : ℕ) → b < 64 → (bit_and b 192 == 0) ≡ true
unfolding all_below
top_bits_clear b h = all_below_sound (λ x. bit_and x 192 == 0) 64 b refl h

-- A message that is built for a type whose two top bits are clear is taken for a STUN message.
pub is_message-build_message :
    (msg_type : ℕ) (txn_id : List ℕ) (attrs : List Attr)
    → msg_type < 2 ^ 14
    → length txn_id ≡ 12
    → is_message (build_message msg_type txn_id attrs) ≡ true
unfolding is_message build_message
is_message-build_message msg_type txn_id attrs h n = ground (
  arith,
  length-append txn_id (put_attrs attrs),
  top_bits_clear (msg_type / 256 % 256) (omega arith),
)

-- An IPv4 address and a port survive the exclusive or with the magic cookie.
pub parse_xor_addr-encode_xor_addr :
    (ip port : ℕ)
    → ip < 2 ^ 32
    → port < 2 ^ 16
    → parse_xor_addr (encode_xor_addr ip port) ≡ some (ip, port)
unfolding parse_xor_addr encode_xor_addr
parse_xor_addr-encode_xor_addr ip port hi hp =
    let x : ℕ = bit_xor ip magic_cookie in
    let y : ℕ = bit_xor port (magic_cookie / 2 ^ 16) in
    let x32 : x < 2 ^ 32 = bit_xor-lt 32 ip magic_cookie hi (omega arith) in
    let y16 : y < 2 ^ 16 = bit_xor-lt 16 port (magic_cookie / 2 ^ 16) hp (omega arith) in
    let ip_word : u32_at (encode_xor_addr ip port) 4 ≡ x = omega arith in
    let port_word : u16_at (encode_xor_addr ip port) 2 ≡ y = omega arith in
    simp (
      ip_word,
      port_word,
      bit_xor_twice ip magic_cookie,
      bit_xor_twice port (magic_cookie / 2 ^ 16),
    )
