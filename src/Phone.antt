-- ===== src/Phone.antt =====
-- xphone.go: the phone. `Lifecycle` holds the sections of Connect, Prepare and Register, `Ending`
-- those of Unregister and Disconnect, `Attempts` their interleavings, `Attached` what every
-- interleaving keeps, `Stale` what an overtaken attempt may do.
pub mod Lifecycle
pub mod Attempts
pub mod Marks
pub mod Stale
pub mod Later
pub mod SetUp
pub mod Runs
pub mod Leaves
pub mod Attached
pub mod Overtaken
pub mod Ending
pub mod Tests
