-- ===== src/Nextboot.antt =====
-- Package nextboot: configurations and their execution by an ePoxy client.
pub mod Config
pub mod Cmdline
pub mod Values
pub mod Client
pub mod Files
pub mod Kept
pub mod World
pub mod Load
pub mod Environment
pub mod Evaluate
pub mod Run
pub mod Retry
