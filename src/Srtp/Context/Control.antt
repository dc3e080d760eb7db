-- ===== src/Srtp/Context/Control.antt =====
-- internal/srtp/srtp.go: SRTCP, and the end of a session.
use xphone_go.Prelude.{
  ℕ, ◌+◌, ◌-◌, ◌^◌, ◌≤◌, ◌<◌, ◌≡◌, refl, ap, ◌∙◌, bit_and, bit_or, false, some, List, ◌++◌, arith,
  ltb, length, length-append, take, drop, take-append, take-append-drop, length-drop, [], ◌∷◌,
  append-nil, drop-append, if◌then◌else◌, Bool-cases, inl, inr,
}
use xphone_go.Prelude.Masks.{bit_or_disjoint, bit_and-pow, bit_and-mask}
use xphone_go.Prelude.Bytes.{
  u32_at, put_u32, bytes_eq_refl, byte_at-after, byte_at-append, xor_bytes,
}
use xphone_go.Srtp.Replay.Defs.{is_replay, accept}
use xphone_go.Srtp.Cipher.{Crypto, aes_cm_keystream, hmac_tag, length-hmac_tag}
use xphone_go.Srtp.Context.Defs.{
  Context, Outcome, ok, xor_payload, protect_rtcp, unprotect_rtcp, unprotect_rtcp_verified,
}
use xphone_go.Srtp.Context.RoundTrip.{length-xor_payload, xor_payload_header, xor_payload_twice}

-- The index word: the E bit over an index of 31 bits.
index_word : (index : ℕ) → index < 2 ^ 31 → bit_or 0x80000000 index ≡ 2147483648 + index
index_word index h = bit_or_disjoint 31 1 index h

word_index : (index : ℕ) → index < 2 ^ 31 → bit_and (2147483648 + index) 0x7FFFFFFF ≡ index
word_index index h = bit_and-mask 31 (2147483648 + index) ∙ omega arith

word_encrypted : (index : ℕ) → index < 2 ^ 31 → bit_and (2147483648 + index) 0x80000000 ≡ 2147483648
word_encrypted index h = bit_and-pow 31 (2147483648 + index) ∙ omega arith

-- The word is read back from its place behind the payload.
u32_at-behind :
    (xs ys : List ℕ) (n w : ℕ) → n ≡ length xs → w < 2 ^ 32 → u32_at (xs ++ (put_u32 w ++ ys)) n ≡ w
u32_at-behind xs ys n w e h =
    let back : List ℕ = put_u32 w ++ ys in
    omega (
      arith,
      byte_at-after xs back n 0 (omega arith),
      byte_at-after xs back (n + 1) 1 (omega arith),
      byte_at-after xs back (n + 2) 2 (omega arith),
      byte_at-after xs back (n + 3) 3 (omega arith),
    )

xor_bytes-empty : (xs ks : List ℕ) → length xs ≡ 0 → xor_bytes xs ks ≡ xs
unfolding xor_bytes
xor_bytes-empty [] ks h = refl
xor_bytes-empty (x ∷ xs) ks h = absurd (omega arith)

-- The keys of the control protocol.
pub record RtcpKeyed (c : Context) (key mac_key salt : List ℕ) : Type 0 where
  pub block_set : c.srtcp_block ≡ some key
  pub mac_set : c.srtcp_mac ≡ some mac_key
  pub salt_set : c.srtcp_session_salt ≡ salt

module _ (crypto : Crypto) (key mac_key salt : List ℕ) where
  abbrev rtcp_stream : List ℕ → ℕ → List ℕ
  rtcp_stream pkt index = aes_cm_keystream crypto key salt (u32_at pkt 4) index (length pkt - 8)

  -- What the tag covers: the packet with its index word.
  abbrev rtcp_auth : List ℕ → ℕ → List ℕ
  rtcp_auth pkt index =
      xor_payload 8 pkt (rtcp_stream pkt index) ++ put_u32 (bit_or 0x80000000 index)

  abbrev rtcp_wire : List ℕ → ℕ → List ℕ
  rtcp_wire pkt index = rtcp_auth pkt index ++ hmac_tag crypto mac_key (rtcp_auth pkt index)

  protect_rtcp_wire :
      (s : Context) (pkt : List ℕ)
      → RtcpKeyed s key mac_key salt
      → 8 ≤ length pkt
      → (protect_rtcp crypto s pkt).1 ≡ ok (rtcp_wire pkt s.srtcp_index)
  unfolding protect_rtcp
  protect_rtcp_wire s pkt k long =
      let test : ltb (length pkt) 8 ≡ false = ground arith in
      simp (test, k.block_set, k.mac_set, k.salt_set)

  -- The receiver's side, once the wire is cut into the authenticated part and the tag.
  verified_lem :
      (r : Context) (pkt enc auth : List ℕ) (index : ℕ)
      → RtcpKeyed r key mac_key salt
      → index < 2 ^ 31
      → auth ≡ enc ++ put_u32 (2147483648 + index)
      → u32_at enc 4 ≡ u32_at pkt 4
      → length enc ≡ length pkt
      → unprotect_rtcp_verified crypto r auth
          (hmac_tag crypto mac_key auth)
          (2147483648 + index)
          (some (hmac_tag crypto mac_key auth))
        ≡ (
          record r { srtcp_replay = accept r.srtcp_replay index },
          if ltb 8 (length pkt) then ok (xor_payload 8 enc (rtcp_stream pkt index)) else ok enc,
        )
  verified_lem r pkt enc auth index k fits e ssrc len =
      let word : List ℕ = put_u32 (2147483648 + index) in
      let cut : take (length auth - 4) auth ≡ enc =
        rw e (take-append _ enc word (omega (arith, length-append enc word))) in
      elim (Bool-cases (ltb 8 (length pkt))) [
        | inl long ↦ simp (
          bytes_eq_refl (hmac_tag crypto mac_key auth),
          word_index index fits,
          word_encrypted index fits,
          cut,
          ssrc,
          len,
          long,
          k.block_set,
          k.salt_set,
        )
        | inr short ↦ simp (
          bytes_eq_refl (hmac_tag crypto mac_key auth),
          word_index index fits,
          word_encrypted index fits,
          cut,
          len,
          short,
        )
      ]

  unprotect_rtcp_split :
      (r : Context) (auth : List ℕ)
      → 12 ≤ length auth
      → r.srtcp_mac ≡ some mac_key
      → is_replay r.srtcp_replay (bit_and (u32_at auth (length auth - 4)) 0x7FFFFFFF) ≡ false
      → unprotect_rtcp crypto r (auth ++ hmac_tag crypto mac_key auth)
        ≡ unprotect_rtcp_verified crypto r auth
            (hmac_tag crypto mac_key auth)
            (u32_at auth (length auth - 4))
            (some (hmac_tag crypto mac_key auth))
  unfolding unprotect_rtcp
  unprotect_rtcp_split r auth long m fresh =
      let tag : List ℕ = hmac_tag crypto mac_key auth in
      let ten : length tag ≡ 10 = length-hmac_tag crypto mac_key auth in
      let total : length (auth ++ tag) ≡ length auth + 10 = omega (arith, length-append auth tag) in
      let n : length (auth ++ tag) - 10 ≡ length auth = omega arith in
      let enough : ltb (length (auth ++ tag)) 22 ≡ false = ground arith in
      let word : u32_at (auth ++ tag) (length auth - 4) ≡ u32_at auth (length auth - 4) = omega (
        arith,
        byte_at-append auth tag (length auth - 4) (omega arith),
        byte_at-append auth tag (length auth - 4 + 1) (omega arith),
        byte_at-append auth tag (length auth - 4 + 2) (omega arith),
        byte_at-append auth tag (length auth - 4 + 3) (omega arith),
      ) in
      simp (
        enough,
        n,
        take-append (length auth) auth tag refl,
        drop-append (length auth) auth tag refl,
        word,
        fresh,
        m,
      )

  -- With no payload behind the header there is nothing to encrypt.
  xor_payload_empty : (pkt ks : List ℕ) → length pkt ≡ 8 → xor_payload 8 pkt ks ≡ pkt
  xor_payload_empty pkt ks e =
      ap (λ (t : List ℕ). take 8 pkt ++ t)
        (xor_bytes-empty (drop 8 pkt) ks (omega (arith, length-drop 8 pkt)))
      ∙ take-append-drop 8 pkt

  -- UnprotectRTCP undoes ProtectRTCP, from 8 bytes on and for every index of 31 bits, and takes
  -- the index into its window, if both sides hold the same SRTCP keys and the index is not a
  -- replay.
  pub unprotect_rtcp-protect_rtcp :
      (s r : Context) (pkt : List ℕ)
      → RtcpKeyed s key mac_key salt
      → RtcpKeyed r key mac_key salt
      → 8 ≤ length pkt
      → s.srtcp_index < 2 ^ 31
      → is_replay r.srtcp_replay s.srtcp_index ≡ false
      → (out : List ℕ) × ((protect_rtcp crypto s pkt).1 ≡ ok out)
        × (unprotect_rtcp crypto r out
            ≡ (record r { srtcp_replay = accept r.srtcp_replay s.srtcp_index }, ok pkt))
  unprotect_rtcp-protect_rtcp s r pkt ks kr long fits fresh =
      (rtcp_wire pkt s.srtcp_index, protect_rtcp_wire s pkt ks long, back)
    where
      index : ℕ
      index = s.srtcp_index

      stream : List ℕ
      stream = rtcp_stream pkt index

      enc : List ℕ
      enc = xor_payload 8 pkt stream

      len : length enc ≡ length pkt
      len = length-xor_payload 8 pkt stream long

      auth_eq : rtcp_auth pkt index ≡ enc ++ put_u32 (2147483648 + index)
      auth_eq = ap (λ (w : ℕ). enc ++ put_u32 w) (index_word index fits)

      auth_len : length (rtcp_auth pkt index) ≡ length pkt + 4
      auth_len = rw auth_eq (omega (arith, length-append enc (put_u32 (2147483648 + index)), len))

      word : u32_at (rtcp_auth pkt index) (length (rtcp_auth pkt index) - 4) ≡ 2147483648 + index
      word = rw auth_eq (
          rw append-nil at (
            u32_at-behind enc [] (length (enc ++ put_u32 (2147483648 + index)) - 4)
              (2147483648 + index) (omega (arith, length-append enc (put_u32 (2147483648 + index))))
              (omega arith)))

      ssrc : u32_at enc 4 ≡ u32_at pkt 4
      ssrc = omega (
        arith,
        xor_payload_header 8 pkt stream long 4 (omega arith),
        xor_payload_header 8 pkt stream long 5 (omega arith),
        xor_payload_header 8 pkt stream long 6 (omega arith),
        xor_payload_header 8 pkt stream long 7 (omega arith),
      )

      payload : (if ltb 8 (length pkt) then ok (xor_payload 8 enc stream) else ok enc) ≡ ok pkt
      payload = ground (arith, xor_payload_twice 8 pkt stream long, xor_payload_empty pkt stream)

      back :
          unprotect_rtcp crypto r (rtcp_wire pkt index)
          ≡ (record r { srtcp_replay = accept r.srtcp_replay index }, ok pkt)
      back =
          unprotect_rtcp_split r (rtcp_auth pkt index) (omega (arith, auth_len)) kr.mac_set
            (rw word (rw (word_index index fits) fresh))
          ∙ rw word (verified_lem r pkt enc (rtcp_auth pkt index) index kr fits auth_eq ssrc len)
          ∙ ap (λ (o : Outcome). (record r { srtcp_replay = accept r.srtcp_replay index }, o))
              payload
