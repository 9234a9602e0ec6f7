-- ===== src/Gateway/Tests.antt =====
-- Sample data for the gateway's tests: a session, its claims, and a store that tracks it.
pub mod Tracker
pub mod Ledger
pub mod Tables
pub mod Console
pub mod Handlers
pub mod Doors
pub mod Endless
pub mod Market
pub mod Transactions
use agentpay.Prelude.{
  ℕ, Bool, true, false, Option, none, some, List, [], ◌∷◌, ◌==◌, ◌+◌, ◌*◌, ◌%◌, replicate,
  if◌then◌else◌,
}
use agentpay.Prelude.Int.{ℤ, pos}
use agentpay.Prelude.Bytes.{Bytes, codes, le_bytes, i64_word}
use agentpay.Program.Runtime.{update}
use agentpay.Gateway.Claim.{Claim, ClaimWire, Base58, parse_u64}
use agentpay.Gateway.Verify.{Dalek}
use agentpay.Gateway.State.{SessionRecord, Sessions, new_record, ClaimAccepted, empty}

abbrev pub sample_record : SessionRecord
sample_record = new_record 7 11 12 13 100 (pos 1000)

abbrev pub sample_claim : Claim
sample_claim = record { session = 7; cumulative_amount = 40; nonce = 1; expires_at = pos 900 }

abbrev pub sample_accepted : ClaimAccepted
sample_accepted = record { cumulative_amount = 40; previous_cumulative = 0; delta = 40; nonce = 1 }

abbrev pub sample_store : Sessions
sample_store = update empty 7 (some sample_record)

-- A stand-in for SHA-256.
abbrev pub toy_hash : Bytes → ℕ
toy_hash [] = 5
toy_hash (b ∷ bs) = (b + 31 * toy_hash bs) % 65536
