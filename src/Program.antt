-- ===== src/Program.antt =====
-- The on-chain escrow program, programs/agentpay/src/lib.rs.
pub mod Types
pub mod Runtime
pub mod Message
pub mod Ed25519
pub mod Open
pub mod Settle
pub mod Receipt
pub mod Refund
pub mod Outcome
pub mod Steps
pub mod Accounting
pub mod Terms
pub mod Closure
pub mod Payments
pub mod Guards
pub mod ReceiptLaws
pub mod Consent
mod Tests
