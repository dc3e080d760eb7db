-- ===== src/Media/H264.antt =====
-- internal/media/h264.go: `Defs` has the packetizer and the depacketizer, `Fragments` what the payloads of a NAL unit become, `Frames` what a
-- frame becomes.
pub mod Defs
pub mod Fragments
pub mod Frames
pub mod Tests
