-- ===== src/Srtp/Replay.antt =====
-- internal/srtp/srtp.go, replayWindow: which packet indices were accepted, as the highest one
-- and a bitmap of 128 bits that counts down from it. A uint64 is a number below 2 ^ 64.
pub mod Defs
pub mod Bitmap
pub mod Window
