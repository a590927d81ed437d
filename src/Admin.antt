-- ===== src/Admin.antt =====
-- cmd/epoxy_admin: the administration of Host records.
pub mod Tools
pub mod Create
pub mod Update
pub mod Sync
pub mod Store
pub mod Main
