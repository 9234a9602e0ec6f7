-- ===== src/Gateway.antt =====
-- The gateway, gateway/src.
pub mod Claim
pub mod Verify
pub mod Settle
pub mod Parity
pub mod State
pub mod Policy
pub mod Evidence
pub mod Keyed
pub mod Database
pub mod Control
pub mod Registry
pub mod Admin
pub mod Auth
pub mod RateLimit
pub mod Chain
pub mod Reason
pub mod Routes
mod Tests
