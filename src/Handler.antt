-- ===== src/Handler.antt =====
-- handler/handler.go: the responses of the boot server to the requests of its clients.
pub mod Server
pub mod Access
pub mod Boot
pub mod Proxy
pub mod Store
pub mod Setup
pub mod Renewal
pub mod Steps
pub mod Recorded
pub mod Outcomes
pub mod Forwarding
pub mod SessionChecks
pub mod Routes
pub mod Backend
pub mod Answers
pub mod Accepts
pub mod Served
