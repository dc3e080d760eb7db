-- ===== src/Call.antt =====
-- call.go: one call, from INVITE to its end, and what media.go keeps of it under the same lock.
-- `State` has the record, `Offer` builds SDP bodies, `Release` ends a call, `Local` the methods
-- of the application, `Remote` the events from the network, `Upgrade` the re-INVITE and the
-- upgrade to video of video_upgrade.go, `Step` all of them as one relation.
pub mod State
pub mod Headers
pub mod Transfer
pub mod Offer
pub mod Release
pub mod Local
pub mod Remote
pub mod Upgrade
pub mod Video
pub mod Invariant
pub mod Keeps
pub mod Step
pub mod Answer
pub mod Graph
pub mod Hold
pub mod Races
pub mod Reinvite
pub mod Tests
pub mod Run
