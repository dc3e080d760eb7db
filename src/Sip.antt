-- ===== src/Sip.antt =====
-- SIP messages: internal/sip/message.go. `Message` holds the data and the operations, `Lines` what the lines of a
-- printed message contain, `RoundTrip` that Parse undoes Bytes, `Headers` the laws of the header list.
pub mod Message
pub mod RoundTrip
pub mod Headers
pub mod Transactions
pub mod Client
pub mod Tests
