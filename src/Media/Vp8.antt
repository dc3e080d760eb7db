-- ===== src/Media/Vp8.antt =====
-- internal/media/vp8.go: `Defs` has the packetizer and the depacketizer, `Frames` what a frame becomes.
pub mod Defs
pub mod Frames
