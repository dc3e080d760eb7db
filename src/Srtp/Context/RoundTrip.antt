-- ===== src/Srtp/Context/RoundTrip.antt =====
-- internal/srtp/srtp.go: Unprotect undoes Protect.
use xphone_go.Prelude.{
  ℕ, ◌-◌, ◌≤◌, ◌<◌, ◌≡◌, refl, ap, ◌∙◌, false, some, List, ◌++◌, arith, ltb, length, length-append,
  take, drop, length-take, length-drop, take-append-drop, take-append, drop-append,
}
use xphone_go.Prelude.Bytes.{
  byte_at, u16_at, u32_at, put_u32, bytes_eq_refl, xor_bytes, xor_bytes_twice, length-xor_bytes,
  byte_at-append, byte_at-take,
}
use xphone_go.Srtp.Replay.Defs.{is_replay}
use xphone_go.Srtp.Header.{rtp_header_len, rtp_header_len_bounds, rtp_header_len_stable}
use xphone_go.Srtp.Cipher.{Crypto, aes_cm_keystream, hmac_tag, length-hmac_tag}
use xphone_go.Srtp.Context.Defs.{
  Context, ok, update_roc, estimate_roc, commit, packet_index, xor_payload, protect, unprotect,
  unprotect_at,
}

-- A context with its session keys.
pub record Keyed (c : Context) (key mac_key salt : List ℕ) : Type 0 where
  pub block_set : c.block ≡ some key
  pub mac_set : c.mac ≡ some mac_key
  pub salt_set : c.session_salt ≡ salt

module _ (h : ℕ) (pkt ks : List ℕ) (fits : h ≤ length pkt) where
  length-take_header : length (take h pkt) ≡ h
  length-take_header = omega (arith, length-take h pkt)

  -- Encryption keeps the length and the header, and a second pass undoes it.
  pub length-xor_payload : length (xor_payload h pkt ks) ≡ length pkt
  length-xor_payload = omega (
    arith,
    length-append (take h pkt) (xor_bytes (drop h pkt) ks),
    length-xor_bytes (drop h pkt) ks,
    length-take_header,
    length-drop h pkt,
  )

  pub xor_payload_header : (i : ℕ) → i < h → byte_at (xor_payload h pkt ks) i ≡ byte_at pkt i
  xor_payload_header i lt =
      byte_at-append (take h pkt) (xor_bytes (drop h pkt) ks) i (omega (arith, length-take_header))
      ∙ byte_at-take h pkt i lt

  pub xor_payload_twice : xor_payload h (xor_payload h pkt ks) ks ≡ pkt
  xor_payload_twice =
      let e : h ≡ length (take h pkt) = omega (arith, length-take_header) in
      let body : List ℕ = xor_bytes (drop h pkt) ks in
      rw (
        take-append h (take h pkt) body e,
        drop-append h (take h pkt) body e,
        xor_bytes_twice (drop h pkt) ks,
        take-append-drop h pkt,
      )

pub update_roc-Keyed :
    (c : Context) (seq : ℕ) {key mac_key salt : List ℕ}
    → Keyed c key mac_key salt
    → Keyed (update_roc c seq) key mac_key salt
unfolding update_roc
update_roc-Keyed c seq k = ground arith

module _ (crypto : Crypto) (key mac_key salt : List ℕ) where
  -- The key stream and the tag of a packet under the counter `roc`.
  abbrev stream_of : List ℕ → ℕ → ℕ → List ℕ
  stream_of pkt h roc =
      aes_cm_keystream crypto key salt (u32_at pkt 8) (packet_index roc (u16_at pkt 2))
        (length pkt - h)

  abbrev tag_for : List ℕ → ℕ → List ℕ
  tag_for msg roc = hmac_tag crypto mac_key (msg ++ put_u32 roc)

  -- The packet on the wire.
  abbrev pub wire : List ℕ → ℕ → ℕ → List ℕ
  wire pkt h roc = let enc = xor_payload h pkt (stream_of pkt h roc) in enc ++ tag_for enc roc

  protect-wire :
      (s : Context) (pkt : List ℕ) (h : ℕ)
      → Keyed s key mac_key salt
      → rtp_header_len pkt ≡ some h
      → (protect crypto s pkt).1 ≡ ok (wire pkt h (update_roc s (u16_at pkt 2)).roc)
  unfolding protect
  protect-wire s pkt h k e =
      let k' : Keyed (update_roc s (u16_at pkt 2)) key mac_key salt =
        update_roc-Keyed s (u16_at pkt 2) k in
      rw (e, k'.block_set, k'.salt_set, k'.mac_set)

  -- Unprotect cuts the tag off.
  unprotect_split :
      (r : Context) (auth tag : List ℕ)
      → length tag ≡ 10
      → unprotect crypto r (auth ++ tag) ≡ unprotect_at crypto r auth tag (rtp_header_len auth)
  unfolding unprotect
  unprotect_split r auth tag e =
      let n : length (auth ++ tag) - 10 ≡ length auth = omega (arith, length-append auth tag, e) in
      let long : ltb (length (auth ++ tag)) 10 ≡ false = ground (arith, length-append auth tag) in
      rw (long, n, take-append (length auth) auth tag refl, drop-append (length auth) auth tag refl)

  -- A packet that is not a replay and carries its own tag is decrypted, and committed.
  unprotect_at_lem :
      (r : Context) (pkt enc : List ℕ) (h roc : ℕ)
      → Keyed r key mac_key salt
      → estimate_roc r (u16_at pkt 2) ≡ roc
      → u16_at enc 2 ≡ u16_at pkt 2
      → u32_at enc 8 ≡ u32_at pkt 8
      → length enc ≡ length pkt
      → is_replay r.replay (packet_index roc (u16_at pkt 2)) ≡ false
      → unprotect_at crypto r enc (tag_for enc roc) (some h)
        ≡ (commit r roc (u16_at pkt 2), ok (xor_payload h enc (stream_of pkt h roc)))
  unprotect_at_lem r pkt enc h roc k est seq ssrc len fresh = simp (
    seq,
    est,
    fresh,
    k.mac_set,
    bytes_eq_refl (tag_for enc roc),
    ssrc,
    len,
    k.block_set,
    k.salt_set,
  )

  pub protect-state :
      (s : Context) (pkt : List ℕ) (h : ℕ)
      → rtp_header_len pkt ≡ some h
      → (protect crypto s pkt).0 ≡ update_roc s (u16_at pkt 2)
  unfolding protect
  protect-state s pkt h e = rw e

  unprotect-wire :
      (r : Context) (pkt : List ℕ) (h roc : ℕ)
      → Keyed r key mac_key salt
      → rtp_header_len pkt ≡ some h
      → estimate_roc r (u16_at pkt 2) ≡ roc
      → is_replay r.replay (packet_index roc (u16_at pkt 2)) ≡ false
      → unprotect crypto r (wire pkt h roc) ≡ (commit r roc (u16_at pkt 2), ok pkt)
  unprotect-wire r pkt h roc k e est fresh =
      let (low, fits) = rtp_header_len_bounds pkt e in
      let ks : List ℕ = stream_of pkt h roc in
      let enc : List ℕ = xor_payload h pkt ks in
      let same : ((i : ℕ) → i < h → byte_at enc i ≡ byte_at pkt i) =
        xor_payload_header h pkt ks fits in
      let len : length enc ≡ length pkt = length-xor_payload h pkt ks fits in
      unprotect_split r enc (tag_for enc roc) (length-hmac_tag crypto mac_key (enc ++ put_u32 roc))
      ∙ rw (rtp_header_len_stable pkt enc h e len same) (
          unprotect_at_lem r pkt enc h roc k est
            (omega (arith, same 2 (omega arith), same 3 (omega arith)))
            (omega (
              arith,
              same 8 (omega arith),
              same 9 (omega arith),
              same 10 (omega arith),
              same 11 (omega arith),
            ))
            len fresh
          ∙ ap (λ (p : List ℕ). (commit r roc (u16_at pkt 2), ok p))
              (xor_payload_twice h pkt ks fits))

  -- What Protect sends Unprotect gives back, header and payload, and commits, if both sides hold
  -- the same session keys, the receiver estimates the sender's rollover counter, and the index
  -- is not a replay.
  pub unprotect-protect :
      (s r : Context) (pkt : List ℕ) {h : ℕ}
      → Keyed s key mac_key salt
      → Keyed r key mac_key salt
      → rtp_header_len pkt ≡ some h
      → estimate_roc r (u16_at pkt 2) ≡ (update_roc s (u16_at pkt 2)).roc
      → is_replay r.replay (packet_index (update_roc s (u16_at pkt 2)).roc (u16_at pkt 2)) ≡ false
      → (out : List ℕ) × ((protect crypto s pkt).1 ≡ ok out)
        × (unprotect crypto r out
            ≡ (commit r (update_roc s (u16_at pkt 2)).roc (u16_at pkt 2), ok pkt))
  unprotect-protect s r pkt {h} ks kr e est fresh =
      let roc : ℕ = (update_roc s (u16_at pkt 2)).roc in
      (wire pkt h roc, protect-wire s pkt h ks e, unprotect-wire r pkt h roc kr e est fresh)
