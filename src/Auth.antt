-- ===== src/Auth.antt =====
-- Digest authentication: `Challenges` is the client of internal/sip/auth.go, `Peers` the server of server_auth.go,
-- `Params` what the two write and read, `Agree` that they agree.
pub mod Challenges
pub mod Peers
pub mod Params
pub mod Agree
pub mod Choice
pub mod Tests
