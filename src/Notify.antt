-- ===== src/Notify.antt =====
-- The bodies of NOTIFY requests: `Mwi` is mwi.go and `DialogInfo` is dialog_info.go.
-- `Subscribe` and `Manager` are subscribe.go.
pub mod Mwi
pub mod DialogInfo
pub mod Subscribe
pub mod Refresh
pub mod SubState
pub mod Manager
pub mod Tests
