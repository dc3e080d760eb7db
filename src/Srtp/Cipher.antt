-- ===== src/Srtp/Cipher.antt =====
-- internal/srtp/srtp.go: AES-CM key stream, truncated HMAC-SHA1 tags, session key derivation.
-- AES and HMAC-SHA1 are Go's crypto/aes and crypto/hmac: a parameter, with their output sizes.
use xphone_go.Prelude.{
  ℕ, zero, suc, ◌+◌, ◌-◌, ◌*◌, ◌/◌, ◌%◌, ◌^◌, ◌≤◌, ◌≡◌, List, [], ◌∷◌, ◌++◌, arith, length,
  length-append, take, length-take, replicate, length-replicate,
}
use xphone_go.Prelude.Bytes.{put_u16, put_u32, xor_bytes}

pub record Crypto : Type 0 where
  -- The AES block function under a key, and HMAC-SHA1 of a message under a key.
  pub aes : List ℕ → List ℕ → List ℕ
  pub hmac_sha1 : List ℕ → List ℕ → List ℕ
  pub length-aes : (key block : List ℕ) → length (aes key block) ≡ 16
  pub length-hmac : (key msg : List ℕ) → length (hmac_sha1 key msg) ≡ 20

abbrev pub auth_tag_len : ℕ
auth_tag_len = 10

module _ (crypto : Crypto) where
  -- One AES block for each 16 bytes that are left; the counter is a uint16.
  counter_blocks : List ℕ → List ℕ → ℕ → ℕ → ℕ → List ℕ
  counter_blocks key iv zero counter left = []
  counter_blocks key iv (suc rounds) counter left =
      take left (crypto.aes key (iv ++ put_u16 counter))
      ++ counter_blocks key iv rounds ((counter + 1) % 2 ^ 16) (left - 16)

  -- aesCMKeystream. The IV is four zeros, the SSRC and the 48-bit index, masked by the salt.
  unfoldable pub aes_cm_keystream : List ℕ → List ℕ → ℕ → ℕ → ℕ → List ℕ
  unfolding counter_blocks xor_bytes
  aes_cm_keystream key salt ssrc index len =
      let fields =
        0
        ∷ 0
        ∷ 0
        ∷ 0
        ∷ (put_u32 ssrc ++ (put_u16 (index / 2 ^ 32 % 2 ^ 16) ++ put_u32 (index % 2 ^ 32))) in
      counter_blocks key (xor_bytes fields salt) ((len + 15) / 16) 0 len

  -- hmacTag over a message.
  unfoldable pub hmac_tag : List ℕ → List ℕ → List ℕ
  hmac_tag key msg = take auth_tag_len (crypto.hmac_sha1 key msg)

  -- deriveSessionKey: the label is masked into byte 6 of the salt; the array has 20 bytes.
  unfoldable pub derive_session_key : List ℕ → List ℕ → ℕ → ℕ → List ℕ
  unfolding counter_blocks xor_bytes
  derive_session_key master_key master_salt label out_len =
      let x = 0 ∷ 0 ∷ 0 ∷ 0 ∷ 0 ∷ 0 ∷ label ∷ 0 ∷ 0 ∷ 0 ∷ 0 ∷ 0 ∷ 0 ∷ 0 ∷ [] in
      counter_blocks master_key (xor_bytes master_salt x) ((out_len + 15) / 16) 0 out_len
      ++ replicate (20 - out_len) 0

  length-counter_blocks :
      (key iv : List ℕ) (rounds counter left : ℕ)
      → left ≤ rounds * 16
      → length (counter_blocks key iv rounds counter left) ≡ left
  unfolding counter_blocks
  length-counter_blocks key iv zero counter left h = omega arith
  length-counter_blocks key iv (suc rounds) counter left h =
      let block : List ℕ = crypto.aes key (iv ++ put_u16 counter) in
      let rest : List ℕ = counter_blocks key iv rounds ((counter + 1) % 2 ^ 16) (left - 16) in
      omega (
        arith,
        length-append (take left block) rest,
        length-take left block,
        crypto.length-aes key (iv ++ put_u16 counter),
        length-counter_blocks key iv rounds ((counter + 1) % 2 ^ 16) (left - 16) (omega arith),
      )

  -- The key stream has exactly the bytes that were asked for.
  pub length-aes_cm_keystream :
      (key salt : List ℕ) (ssrc index len : ℕ)
      → length (aes_cm_keystream key salt ssrc index len) ≡ len
  unfolding aes_cm_keystream
  length-aes_cm_keystream key salt ssrc index len =
      length-counter_blocks key _ ((len + 15) / 16) 0 len (omega arith)

  pub length-hmac_tag : (key msg : List ℕ) → length (hmac_tag key msg) ≡ 10
  unfolding hmac_tag
  length-hmac_tag key msg =
      omega (arith, length-take 10 (crypto.hmac_sha1 key msg), crypto.length-hmac key msg)

  -- A derived key fills its array of 20 bytes.
  pub length-derive_session_key :
      (key salt : List ℕ) (label out_len : ℕ)
      → out_len ≤ 20
      → length (derive_session_key key salt label out_len) ≡ 20
  unfolding derive_session_key
  length-derive_session_key key salt label out_len h =
      let x : List ℕ = 0 ∷ 0 ∷ 0 ∷ 0 ∷ 0 ∷ 0 ∷ label ∷ 0 ∷ 0 ∷ 0 ∷ 0 ∷ 0 ∷ 0 ∷ 0 ∷ [] in
      let iv : List ℕ = xor_bytes salt x in
      let blocks : List ℕ = counter_blocks key iv ((out_len + 15) / 16) 0 out_len in
      omega (
        arith,
        length-append blocks (replicate (20 - out_len) 0),
        length-replicate (20 - out_len) zero,
        length-counter_blocks key iv ((out_len + 15) / 16) 0 out_len (omega arith),
      )
