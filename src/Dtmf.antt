-- ===== src/Dtmf.antt =====
-- dtmf.go: telephone events (RFC 4733). A string is the list of its bytes, "" is `[]`; Go's -1 and nil
-- are `none`. `Info` has the SIP INFO bodies.
pub mod Info
use xphone_go.Prelude.{
  ℕ, ◌+◌, ◌%◌, ◌^◌, ◌≡◌, ◌≢◌, ◌↔◌, refl, Bool, true, false, not, Option, none, some, List, [], ◌∷◌,
  map, arith, ltb, ◌==◌, if◌then◌else◌, length, bit_and,
}
use xphone_go.Prelude.Bytes.{byte_at, u16_at, put_u16}
use xphone_go.Media.Rtp.{Packet}

-- dtmfDigits and dtmfCodes: the character and the code of each digit.
abbrev pub dtmf_digits : List (ℕ × ℕ)
dtmf_digits =
    (48, 0)
    ∷ (49, 1)
    ∷ (50, 2)
    ∷ (51, 3)
    ∷ (52, 4)
    ∷ (53, 5)
    ∷ (54, 6)
    ∷ (55, 7)
    ∷ (56, 8)
    ∷ (57, 9)
    ∷ (42, 10)
    ∷ (35, 11)
    ∷ (65, 12)
    ∷ (66, 13)
    ∷ (67, 14)
    ∷ (68, 15)
    ∷ []

abbrev pub code_of : List (ℕ × ℕ) → ℕ → Option ℕ
code_of [] c = none
code_of ((char, code) ∷ rest) c = if char == c then some code else code_of rest c

abbrev digit_of : List (ℕ × ℕ) → ℕ → List ℕ
digit_of [] n = []
digit_of ((char, code) ∷ rest) n = if code == n then char ∷ [] else digit_of rest n

unfoldable pub dtmf_digit_code : List ℕ → Option ℕ
dtmf_digit_code [] = none
dtmf_digit_code (c ∷ []) = code_of dtmf_digits c
dtmf_digit_code (c ∷ d ∷ rest) = none

unfoldable pub dtmf_code_digit : ℕ → List ℕ
dtmf_code_digit n = digit_of dtmf_digits n

pub record DtmfEvent : Type 0 where
  pub digit : List ℕ
  pub duration : ℕ
  pub is_end : Bool
  pub volume : ℕ

-- One packet of EncodeDTMF: its place, its end bit and its duration.
abbrev pub event_packet : ℕ → ℕ → ℕ → ℕ → ℕ → ℕ → ℕ → Packet
event_packet code ts seq ssrc i end_bit duration = record {
  marker = i == 0;
  payload_type = 101;
  sequence_number = (seq + i) % 2 ^ 16;
  timestamp = ts;
  ssrc = ssrc;
  payload = code ∷ (end_bit + 10) ∷ put_u16 duration;
}

-- `endBit | volume` is a sum: the bits of 0x80 and of 10 are disjoint.
unfoldable pub encode_dtmf : List ℕ → ℕ → ℕ → ℕ → Option (List Packet)
encode_dtmf digit ts seq ssrc = elim (dtmf_digit_code digit) [
  | none ↦ none
  | some code ↦ some (
      event_packet code ts seq ssrc 0 0 160
      ∷ event_packet code ts seq ssrc 1 0 320
      ∷ event_packet code ts seq ssrc 2 128 320
      ∷ [])
]

abbrev event_of : List ℕ → List ℕ → Option DtmfEvent
event_of [] payload = none
event_of (c ∷ cs) payload = some (record {
  digit = c ∷ cs;
  is_end = not (bit_and (byte_at payload 1) 128 == 0);
  volume = bit_and (byte_at payload 1) 63;
  duration = u16_at payload 2;
})

unfoldable pub decode_dtmf : List ℕ → Option DtmfEvent
decode_dtmf payload =
    if ltb (length payload) 4 then none else event_of (dtmf_code_digit (byte_at payload 0)) payload

-- The two tables are inverse to each other: a digit has the code `n` exactly if `n` has that digit.
pub dtmf_code_digit-dtmf_digit_code :
    (digit : List ℕ) (n : ℕ)
    → (dtmf_digit_code digit ≡ some n) ↔ ((dtmf_code_digit n ≡ digit) × (digit ≢ []))
unfolding dtmf_digit_code dtmf_code_digit
dtmf_code_digit-dtmf_digit_code [] n = ground arith
dtmf_code_digit-dtmf_digit_code (c ∷ []) n = ground arith
dtmf_code_digit-dtmf_digit_code (c ∷ d ∷ rest) n = ground arith

abbrev pub event : List ℕ → ℕ → Bool → DtmfEvent
event digit duration is_end = record {
  digit = digit;
  duration = duration;
  is_end = is_end;
  volume = 10;
}

decode-event_packet :
    (digit : List ℕ) (code ts seq ssrc i : ℕ)
    → dtmf_code_digit code ≡ digit
    → digit ≢ []
    → (decode_dtmf (event_packet code ts seq ssrc i 0 160).payload ≡ some (event digit 160 false))
      × (decode_dtmf (event_packet code ts seq ssrc i 0 320).payload ≡ some (event digit 320 false))
      × (decode_dtmf (event_packet code ts seq ssrc i 128 320).payload
          ≡ some (event digit 320 true))
unfolding decode_dtmf
decode-event_packet [] code ts seq ssrc i h n = absurd (n refl)
decode-event_packet (c ∷ cs) code ts seq ssrc i h n = rw h (refl, refl, refl)

-- A digit with a code becomes three packets of one timestamp and consecutive sequence numbers, the
-- first with the marker, which decode to that digit with volume 10 and growing durations, and
-- only the last of which ends the event.
pub decode_dtmf-encode_dtmf :
    (digit : List ℕ) (ts seq ssrc code : ℕ)
    → dtmf_digit_code digit ≡ some code
    → (pkts : List Packet) × (encode_dtmf digit ts seq ssrc ≡ some pkts)
      × (map (λ (p : Packet). decode_dtmf p.payload) pkts
          ≡ some (event digit 160 false)
            ∷ some (event digit 320 false)
            ∷ some (event digit 320 true)
            ∷ [])
      × (map (λ (p : Packet). p.marker) pkts ≡ true ∷ false ∷ false ∷ [])
      × (map (λ (p : Packet). p.timestamp) pkts ≡ ts ∷ ts ∷ ts ∷ [])
      × (map (λ (p : Packet). p.sequence_number) pkts
          ≡ (seq + 0) % 2 ^ 16 ∷ (seq + 1) % 2 ^ 16 ∷ (seq + 2) % 2 ^ 16 ∷ [])
unfolding encode_dtmf
decode_dtmf-encode_dtmf digit ts seq ssrc code h =
    let (known, named) = (dtmf_code_digit-dtmf_digit_code digit code).0 h in
    let (first, second, third) = decode-event_packet digit code ts seq ssrc 0 known named in
    (
      event_packet code ts seq ssrc 0 0 160
          ∷ event_packet code ts seq ssrc 1 0 320
          ∷ event_packet code ts seq ssrc 2 128 320
          ∷ [],
      rw (h, encode_dtmf),
      rw (first, second, third),
      refl,
      refl,
      refl,
    )
