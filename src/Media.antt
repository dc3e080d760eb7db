-- ===== src/Media.antt =====
-- internal/media: what stands between the RTP socket and the application.
pub mod Rtp
pub mod Jitter
pub mod Vp8
pub mod Tests
pub mod H264
pub mod G711
