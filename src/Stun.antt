-- ===== src/Stun.antt =====
-- internal/stun/message.go: STUN messages as bytes. `Defs` has the builders and the readers, `Attrs` and
-- `Integrity` what is read back, `Binding` and `Answer` the Binding response.
pub mod Defs
pub mod Attrs
pub mod Integrity
pub mod Binding
pub mod Answer
pub mod Tests
