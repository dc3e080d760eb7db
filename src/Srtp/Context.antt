-- ===== src/Srtp/Context.antt =====
-- internal/srtp/srtp.go, Context: one direction of SRTP and SRTCP.
-- `Defs` has the state and the operations; the children prove what they do.
pub mod Defs
pub mod Roc
pub mod RoundTrip
pub mod Receive
pub mod Stream
pub mod Control
pub mod Tests
