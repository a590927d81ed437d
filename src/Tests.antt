-- ===== src/Tests.antt =====
-- Runs of the definitions on concrete inputs, and instances of the theorems.
pub mod Backend
pub mod Admin
pub mod Certs
pub mod Commands
pub mod Entities
pub mod Records
pub mod Server
pub mod Client
pub mod Tidied
pub mod Collected
pub mod Retried
pub mod Extended
