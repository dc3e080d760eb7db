-- ===== src/Media/G711.antt =====
-- internal/media/pcmu.go and internal/media/pcma.go: the two G.711 codecs. A sample is an integer of
-- 16 bits, whose sign is its constructor; a payload is a list of bytes. The tables that `init` fills
-- are functions of their index.
use xphone_go.Prelude.{
  ℕ, zero, suc, ◌+◌, ◌-◌, ◌*◌, ◌/◌, ◌%◌, ◌^◌, ◌≤◌, ◌<◌, ◌≡◌, refl, bit_and, bit_or, bit_xor, Bool,
  true, not, List, [], ◌∷◌, map, arith, ltb, leb, ◌==◌, ==_iff, if◌then◌else◌,
}
use xphone_go.Prelude.Masks.{all_below, all_below_sound}
use xphone_go.Text.Defs.{ℤ, pos, negsuc}

-- `-n` for a magnitude.
abbrev pub minus : ℕ → ℤ
minus zero = pos 0
minus (suc n) = negsuc n

-- An entry of muLawDecodeTable.
abbrev pub mu_law_magnitude : ℕ → ℕ
mu_law_magnitude b = (bit_and b 15 * 8 + 132) * 2 ^ bit_and (b / 16) 7 - 132

unfoldable pub decode_mu_law : ℕ → ℤ
decode_mu_law i =
    let b = bit_xor i 255 in
    if not (bit_and b 128 == 0) then minus (mu_law_magnitude b) else pos (mu_law_magnitude b)

-- The loop behind muLawExpLut: halvings until the value is at most 1.
abbrev halvings : ℕ → ℕ → ℕ
halvings zero v = 0
halvings (suc fuel) v = let rest = halvings fuel (v / 2) in if ltb 1 v then suc rest else 0

-- An entry of muLawExpLut, of an index below 256.
abbrev pub mu_law_exp : ℕ → ℕ
mu_law_exp i = let exp = halvings 8 i in if ltb 7 exp then 7 else exp

-- The part of encodeMuLaw after the sign, on the magnitude; the bits are disjoint.
abbrev pub mu_law_byte : ℕ → ℕ → ℕ
mu_law_byte sign magnitude =
    let s = (if ltb 32635 magnitude then 32635 else magnitude) + 132 in
    let exp = mu_law_exp (s / 128 % 256) in 255 - (sign + exp * 16 + bit_and (s / 2 ^ (exp + 3)) 15)

-- encodeMuLaw.
unfoldable pub encode_mu_law : ℤ → ℕ
encode_mu_law (pos n) = mu_law_byte 0 n
encode_mu_law (negsuc n) = mu_law_byte 128 (suc n)

-- An entry of aLawDecodeTable.
abbrev pub a_law_magnitude : ℕ → ℕ
a_law_magnitude a =
    let t = bit_and a 15 * 16 in
    let seg = bit_and a 112 / 16 in
    if seg == 0 then t + 8 else if seg == 1 then t + 0x108 else (t + 0x108) * 2 ^ (seg - 1)

unfoldable pub decode_a_law : ℕ → ℤ
decode_a_law i =
    let a = bit_xor i 0x55 in
    if not (bit_and a 128 == 0) then pos (a_law_magnitude a) else minus (a_law_magnitude a)

-- The loop over aLawSegEnd, from the ends left.
abbrev pub find_segment : ℕ → List ℕ → ℕ → ℕ
find_segment v [] seg = seg
find_segment v (e ∷ ends) seg =
    let rest = find_segment v ends (suc seg) in if leb v e then seg else rest

abbrev pub a_law_seg_end : List ℕ
a_law_seg_end = 0x1F ∷ 0x3F ∷ 0x7F ∷ 0xFF ∷ 0x1FF ∷ 0x3FF ∷ 0x7FF ∷ 0xFFF ∷ []

-- The part of encodeALaw after the mask.
abbrev pub a_law_byte : ℕ → ℕ → ℕ
a_law_byte mask v =
    let seg = find_segment v a_law_seg_end 0 in
    let aval = if ltb seg 2 then bit_and (v / 2) 15 else bit_and (v / 2 ^ seg) 15 in
    if leb 8 seg then bit_xor 0x7F mask else bit_xor (bit_or (seg * 16 % 256) aval) mask

-- encodeALaw; `>> 3` rounds a negative sample down, and `-v - 1` of that is the magnitude of
-- `negsuc n` in eighths.
unfoldable pub encode_a_law : ℤ → ℕ
encode_a_law (pos n) = a_law_byte 0xD5 (n / 8)
encode_a_law (negsuc n) = a_law_byte 0x55 (n / 8)

-- Decode and Encode of pcmuProcessor and pcmaProcessor.
unfoldable pub pcmu_decode : List ℕ → List ℤ
pcmu_decode payload = map decode_mu_law payload

unfoldable pub pcmu_encode : List ℤ → List ℕ
pcmu_encode samples = map encode_mu_law samples

unfoldable pub pcma_decode : List ℕ → List ℤ
pcma_decode payload = map decode_a_law payload

unfoldable pub pcma_encode : List ℤ → List ℕ
pcma_encode samples = map encode_a_law samples

-- The distance of two samples.
abbrev pub distance : ℤ → ℤ → ℕ
distance (pos a) (pos b) = (a - b) + (b - a)
distance (pos a) (negsuc b) = suc (a + b)
distance (negsuc a) (pos b) = suc (a + b)
distance (negsuc a) (negsuc b) = (a - b) + (b - a)

abbrev pub magnitude : ℤ → ℕ
magnitude (pos n) = n
magnitude (negsuc n) = suc n

-- The samples of 16 bits.
abbrev pub IsInt16 : ℤ → Type 0
IsInt16 (pos n) = n < 2 ^ 15
IsInt16 (negsuc n) = n < 2 ^ 15

abbrev a_near : ℤ → Bool
a_near s = leb (distance (decode_a_law (encode_a_law s)) s) (magnitude s / 32 + 8)

abbrev mu_near : ℤ → Bool
mu_near s = leb (distance (decode_mu_law (encode_mu_law s)) s) ((magnitude s + 132) / 32)

module _ (p : ℤ → Bool) where
  every_sample :
      all_below (λ n. p (pos n)) 32768 ≡ true
      → all_below (λ n. p (negsuc n)) 32768 ≡ true
      → (s : ℤ) → IsInt16 s
      → p s ≡ true
  every_sample up down (pos n) h = all_below_sound (λ n. p (pos n)) 32768 n up h
  every_sample up down (negsuc n) h = all_below_sound (λ n. p (negsuc n)) 32768 n down h

a_law_near : (s : ℤ) → IsInt16 s → a_near s ≡ true
unfolding all_below encode_a_law decode_a_law
a_law_near s h = every_sample a_near refl refl s h

mu_law_near : (s : ℤ) → IsInt16 s → mu_near s ≡ true
unfolding all_below encode_mu_law decode_mu_law
mu_law_near s h = every_sample mu_near refl refl s h

-- Every sample of 16 bits survives the two codecs up to a thirty-second of its magnitude, and 8 or
-- 4 steps of the line near zero; the mu-law clip at 32635 is within that.
pub decode-encode_sample :
    (s : ℤ)
    → IsInt16 s
    → (distance (decode_a_law (encode_a_law s)) s ≤ magnitude s / 32 + 8)
      × (distance (decode_mu_law (encode_mu_law s)) s ≤ (magnitude s + 132) / 32)
decode-encode_sample s h = (ground (arith, a_law_near s h), ground (arith, mu_law_near s h))

-- A payload of bytes.
abbrev pub AllBytes : List ℕ → Type 0
AllBytes [] = Unit
AllBytes (b ∷ bytes) = (b < 256) × AllBytes bytes

a_law_all : (b : ℕ) → b < 256 → (encode_a_law (decode_a_law b) == b) ≡ true
unfolding all_below encode_a_law decode_a_law
a_law_all b h = all_below_sound (λ x. encode_a_law (decode_a_law x) == x) 256 b refl h

-- The byte 0x7F of mu-law stands for a negative zero, which comes back as 0xFF.
abbrev pub plain_zero : ℕ → ℕ
plain_zero b = if b == 0x7F then 0xFF else b

mu_law_all : (b : ℕ) → b < 256 → (encode_mu_law (decode_mu_law b) == plain_zero b) ≡ true
unfolding all_below encode_mu_law decode_mu_law
mu_law_all b h = all_below_sound (λ x. encode_mu_law (decode_mu_law x) == plain_zero x) 256 b refl h

-- A G.711 payload that is decoded and encoded again is the same bytes for A-law, and for mu-law
-- up to the negative zero, which becomes the positive one.
pub encode-decode_payload :
    (payload : List ℕ)
    → AllBytes payload
    → (pcma_encode (pcma_decode payload) ≡ payload)
      × (pcmu_encode (pcmu_decode payload) ≡ map plain_zero payload)
unfolding pcma_encode pcma_decode pcmu_encode pcmu_decode
encode-decode_payload [] h = (refl, refl)
encode-decode_payload (b ∷ bytes) (h, hs) =
    let (a, u) = encode-decode_payload bytes hs in
    (
      cc ((==_iff (encode_a_law (decode_a_law b)) b).0 (a_law_all b h), a),
      cc ((==_iff (encode_mu_law (decode_mu_law b)) (plain_zero b)).0 (mu_law_all b h), u),
    )
