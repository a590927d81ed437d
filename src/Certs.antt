-- ===== src/Certs.antt =====
-- cmd/epoxy_certs: the tool that creates the keys and the TLS certificates of the server, of the
-- clients, and of the authorities that sign them.
pub mod System
pub mod Reader
pub mod Files
pub mod Names
pub mod Serial
pub mod Basic
pub mod Issue
pub mod Main
