-- ===== src/Dial.antt =====
-- dial_failover.go: `Candidates` has the iterator over a peer's addresses, `Walk` what it gives, `Retry` which errors go on to the next.
pub mod Candidates
pub mod Walk
pub mod Retry
pub mod Tests
