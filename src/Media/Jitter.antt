-- ===== src/Media/Jitter.antt =====
-- internal/media/jitterbuffer.go: packets are put in sequence order and held for a depth of time.
-- `Defs` has the buffer, `Order` the comparison with wrap-around, `Insert` the walk from the
-- tail, `Invariant` what every operation keeps.
pub mod Defs
pub mod Order
pub mod Insert
pub mod Invariant
pub mod Arrival
pub mod Tests
