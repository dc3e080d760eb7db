-- ===== src/Registry.antt =====
-- registry.go: `Defs` has the state and the operations, `Retries` what the attempts of a registration come to, `Steps` the steps
-- of the goroutines that share the registry, `InFlight` that one registration at a time follows a drop.
pub mod Defs
pub mod Retries
pub mod Steps
pub mod InFlight
pub mod Tests
