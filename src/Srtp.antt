-- ===== src/Srtp.antt =====
-- internal/srtp/srtp.go: SRTP with AES_CM_128_HMAC_SHA1_80.
-- `Replay` is the sliding window that rejects duplicates, `Header` the length of an RTP header,
-- `Cipher` the key stream, the tags and the key derivation, `Context` the packet transforms.
pub mod Replay
pub mod Header
pub mod Cipher
pub mod Context
