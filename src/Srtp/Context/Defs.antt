-- ===== src/Srtp/Context/Defs.antt =====
-- internal/srtp/srtp.go: Context, New, Protect, Unprotect, ProtectRTCP, UnprotectRTCP, Zeroize.
-- A cipher.Block is the key that it was made from and a hash.Hash the key of the HMAC; `none` is
-- nil, after Zeroize, and a call through it panics. roc and srtcpIndex are uint32, lastSeq uint16.
-- Protect also writes the encrypted payload to the caller's slice, which is not modelled.
use xphone_go.Prelude.{
  ℕ, ◌+◌, ◌-◌, ◌*◌, ◌%◌, ◌^◌, bit_and, bit_or, Bool, true, false, not, ◌&&◌, ◌||◌, Option, none,
  some, List, ◌++◌, ltb, ◌==◌, if◌then◌else◌, length, take, drop, replicate,
}
use xphone_go.Prelude.Bytes.{u16_at, u32_at, put_u32, bytes_eq, xor_bytes}
use xphone_go.Srtp.Replay.Defs.{ReplayWindow, new_window, is_replay, accept}
use xphone_go.Srtp.Header.{rtp_header_len}
use xphone_go.Srtp.Cipher.{Crypto, aes_cm_keystream, hmac_tag, derive_session_key, auth_tag_len}

pub data Error : Type 0 where
  invalid_packet too_short replay_detected authentication_failed : Error

-- Go's ([]byte, error), or a panic on a nil cipher.
pub data Outcome : Type 0 where
  ok : List ℕ → Outcome
  err : Error → Outcome
  panic : Outcome

pub record Context : Type 0 where
  pub session_salt : List ℕ
  pub auth_key : List ℕ
  pub block : Option (List ℕ)
  pub mac : Option (List ℕ)
  pub roc : ℕ
  pub last_seq : ℕ
  pub seq_initialized : Bool
  pub replay : ReplayWindow
  pub srtcp_session_salt : List ℕ
  pub srtcp_auth_key : List ℕ
  pub srtcp_block : Option (List ℕ)
  pub srtcp_mac : Option (List ℕ)
  pub srtcp_index : ℕ
  pub srtcp_replay : ReplayWindow

-- updateROC, on the sender. The difference is taken only where it is positive.
unfoldable pub update_roc : Context → ℕ → Context
update_roc c seq =
    if not c.seq_initialized
    then record c { last_seq = seq; seq_initialized = true }
    else if ltb seq c.last_seq && ltb 0x8000 (c.last_seq - seq)
    then record c { roc = (c.roc + 1) % 2 ^ 32; last_seq = seq }
    else record c { last_seq = seq }

-- estimateROC, on the receiver.
unfoldable pub estimate_roc : Context → ℕ → ℕ
estimate_roc c seq =
    if not c.seq_initialized
    then 0
    else if ltb seq c.last_seq && ltb 0x8000 (c.last_seq - seq)
    then (c.roc + 1) % 2 ^ 32
    else if ltb c.last_seq seq && (ltb 0x8000 (seq - c.last_seq) && ltb 0 c.roc)
    then c.roc - 1
    else c.roc

-- `(uint64(roc) << 16) | uint64(seq)`; seq has 16 bits, so the fields are disjoint.
abbrev pub packet_index : ℕ → ℕ → ℕ
packet_index roc seq = bit_or (roc * 2 ^ 16) seq

-- What Unprotect does to the state once the tag has been verified.
unfoldable pub commit : Context → ℕ → ℕ → Context
commit c roc seq =
    let index = packet_index roc seq in
    if not c.seq_initialized || ltb (packet_index c.roc c.last_seq) index
    then record c {
      replay = accept c.replay index;
      roc = roc;
      last_seq = seq;
      seq_initialized = true;
    }
    else record c { replay = accept c.replay index }

-- The payload of a packet, from `h` on, exclusive-or'ed with a key stream.
abbrev pub xor_payload : ℕ → List ℕ → List ℕ → List ℕ
xor_payload h pkt ks = take h pkt ++ xor_bytes (drop h pkt) ks

abbrev pub append_tag : List ℕ → Option (List ℕ) → Outcome
append_tag out none = panic
append_tag out (some tag) = ok (out ++ tag)

abbrev pub decrypted : ℕ → List ℕ → Option (List ℕ) → Outcome
decrypted h pkt none = panic
decrypted h pkt (some ks) = ok (xor_payload h pkt ks)

module _ (crypto : Crypto) where
  abbrev pub keystream : Option (List ℕ) → List ℕ → ℕ → ℕ → ℕ → Option (List ℕ)
  keystream none salt ssrc index len = none
  keystream (some key) salt ssrc index len = some (aes_cm_keystream crypto key salt ssrc index len)

  abbrev pub tag_of : Option (List ℕ) → List ℕ → Option (List ℕ)
  tag_of none msg = none
  tag_of (some key) msg = some (hmac_tag crypto key msg)

  -- computeAuthTag: over the packet and the rollover counter.
  abbrev pub auth_tag : Context → List ℕ → ℕ → Option (List ℕ)
  auth_tag c packet roc = tag_of c.mac (packet ++ put_u32 roc)

  abbrev pub protect_with : Context → ℕ → List ℕ → Option (List ℕ) → Outcome
  protect_with c h pkt none = panic
  protect_with c h pkt (some ks) =
      append_tag (xor_payload h pkt ks) (auth_tag c (xor_payload h pkt ks) c.roc)

  abbrev pub protect_at : Context → List ℕ → Option ℕ → Context × Outcome
  protect_at c pkt none = (c, err invalid_packet)
  protect_at c pkt (some h) =
      let c' = update_roc c (u16_at pkt 2) in
      let index = packet_index c'.roc (u16_at pkt 2) in
      (
        c',
        protect_with c' h pkt
            (keystream c'.block c'.session_salt (u32_at pkt 8) index (length pkt - h)),
      )

  unfoldable pub protect : Context → List ℕ → Context × Outcome
  protect c pkt = protect_at c pkt (rtp_header_len pkt)

  abbrev pub unprotect_verified :
      Context → ℕ → List ℕ → List ℕ → Option (List ℕ) → Context × Outcome
  unprotect_verified c h auth tag none = (c, panic)
  unprotect_verified c h auth tag (some expected) =
      let seq = u16_at auth 2 in
      let roc = estimate_roc c seq in
      let ks =
        keystream c.block c.session_salt (u32_at auth 8) (packet_index roc seq) (length auth - h) in
      if not (bytes_eq tag expected)
      then (c, err authentication_failed)
      else (commit c roc seq, decrypted h auth ks)

  abbrev pub unprotect_at : Context → List ℕ → List ℕ → Option ℕ → Context × Outcome
  unprotect_at c auth tag none = (c, err invalid_packet)
  unprotect_at c auth tag (some h) =
      let seq = u16_at auth 2 in
      let roc = estimate_roc c seq in
      if is_replay c.replay (packet_index roc seq)
      then (c, err replay_detected)
      else unprotect_verified c h auth tag (auth_tag c auth roc)

  unfoldable pub unprotect : Context → List ℕ → Context × Outcome
  unprotect c pkt =
      let n = length pkt - auth_tag_len in
      if ltb (length pkt) auth_tag_len
      then (c, err too_short)
      else unprotect_at c (take n pkt) (drop n pkt) (rtp_header_len (take n pkt))

  -- ProtectRTCP: the first 8 bytes stay in clear; the index word has the E bit set.
  abbrev pub protect_rtcp_with : Context → List ℕ → ℕ → Option (List ℕ) → Outcome
  protect_rtcp_with c pkt index none = panic
  protect_rtcp_with c pkt index (some ks) =
      let out = xor_payload 8 pkt ks ++ put_u32 (bit_or 0x80000000 index) in
      append_tag out (tag_of c.srtcp_mac out)

  unfoldable pub protect_rtcp : Context → List ℕ → Context × Outcome
  protect_rtcp c pkt =
      let index = c.srtcp_index in
      let c' = record c { srtcp_index = (index + 1) % 2 ^ 32 } in
      if ltb (length pkt) 8 then (c, err too_short) else (
        c',
        protect_rtcp_with c' pkt index
            (keystream c'.srtcp_block c'.srtcp_session_salt (u32_at pkt 4) index (length pkt - 8)),
      )

  -- With the E bit clear the packet is passed on as it is.
  abbrev pub rtcp_payload : Bool → Context → List ℕ → ℕ → Outcome
  rtcp_payload false c out index = ok out
  rtcp_payload true c out index =
      decrypted 8 out
        (keystream c.srtcp_block c.srtcp_session_salt (u32_at out 4) index (length out - 8))

  abbrev pub unprotect_rtcp_verified :
      Context → List ℕ → List ℕ → ℕ → Option (List ℕ) → Context × Outcome
  unprotect_rtcp_verified c auth tag word none = (c, panic)
  unprotect_rtcp_verified c auth tag word (some expected) =
      let index = bit_and word 0x7FFFFFFF in
      let c' = record c { srtcp_replay = accept c.srtcp_replay index } in
      let out = take (length auth - 4) auth in
      if not (bytes_eq tag expected) then (c, err authentication_failed) else (
        c',
        rtcp_payload (not (bit_and word 0x80000000 == 0) && ltb 8 (length out)) c' out index,
      )

  unfoldable pub unprotect_rtcp : Context → List ℕ → Context × Outcome
  unprotect_rtcp c pkt =
      let n = length pkt - auth_tag_len in
      let auth = take n pkt in
      let word = u32_at pkt (n - 4) in
      if ltb (length pkt) 22
      then (c, err too_short)
      else if is_replay c.srtcp_replay (bit_and word 0x7FFFFFFF)
      then (c, err replay_detected)
      else unprotect_rtcp_verified c auth (drop n pkt) word (tag_of c.srtcp_mac auth)

  -- New: six derived keys; the AES keys have 16 bytes and the salts 14.
  unfoldable pub new_context : List ℕ → List ℕ → Context
  new_context master_key master_salt =
      let derive = derive_session_key crypto master_key master_salt in
      record {
        session_salt = take 14 (derive 2 14);
        auth_key = derive 1 20;
        block = some (take 16 (derive 0 16));
        mac = some (derive 1 20);
        roc = 0;
        last_seq = 0;
        seq_initialized = false;
        replay = new_window;
        srtcp_session_salt = take 14 (derive 5 14);
        srtcp_auth_key = derive 4 20;
        srtcp_block = some (take 16 (derive 3 16));
        srtcp_mac = some (derive 4 20);
        srtcp_index = 0;
        srtcp_replay = new_window;
      }

unfoldable pub zeroize : Context → Context
zeroize c = record c {
  auth_key = replicate 20 0;
  session_salt = replicate 14 0;
  srtcp_auth_key = replicate 20 0;
  srtcp_session_salt = replicate 14 0;
  block = none;
  mac = none;
  srtcp_block = none;
  srtcp_mac = none;
}
