-- ===== src/Storage.antt =====
-- Package storage: Host records, session IDs, and their Datastore; package datastorex.
pub mod Host
pub mod Information
pub mod Sessions
pub mod PropertyMap
pub mod Datastore
pub mod Extensions
