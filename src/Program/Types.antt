-- ===== src/Program/Types.antt =====
-- The accounts, events, errors and constants of programs/agentpay/src/lib.rs. A key, a hash and a
-- session id are the numbers whose bytes they are; u64 is ℕ and i64 is ℤ, with the ranges in
-- the invariant (Program/Accounting.antt).
use agentpay.Prelude.{ℕ, ◌+◌, ◌≡◌, Bool, Result, ok, err, arith}
use agentpay.Prelude.Int.{ℤ, pos}
use agentpay.Prelude.Bytes.{Bytes, codes}

abbrev pub claim_domain : Bytes
claim_domain = codes "agentpay:claim:v1"

abbrev pub claim_message_len : ℕ
claim_message_len = 17 + 32 + 8 + 8 + 8

abbrev pub max_session_duration_secs : ℤ
max_session_duration_secs = pos 2592000

abbrev pub clock_skew_tolerance_secs : ℤ
clock_skew_tolerance_secs = pos 30

abbrev pub session_seed : Bytes
session_seed = codes "session"

abbrev pub vault_seed : Bytes
vault_seed = codes "vault"

abbrev pub settlement_seed : Bytes
settlement_seed = codes "settlement"

pub record Session : Type 0 where
  pub agent : ℕ
  pub provider : ℕ
  pub settlement_authority : ℕ
  pub mint : ℕ
  pub vault : ℕ
  pub deposited_total : ℕ
  pub cumulative_settled : ℕ
  pub refunded_total : ℕ
  pub expires_at : ℤ
  pub session_id : ℕ
  pub bump : ℕ
  pub vault_bump : ℕ
  pub is_settled : Bool

pub record SettlementRecord : Type 0 where
  pub session : ℕ
  pub claim_hash : ℕ
  pub merkle_root : ℕ
  pub settled_at : ℤ
  pub settled_amount : ℕ
  pub bump : ℕ

pub record SessionOpened : Type 0 where
  pub session : ℕ
  pub agent : ℕ
  pub provider : ℕ
  pub settlement_authority : ℕ
  pub mint : ℕ
  pub deposited_total : ℕ
  pub expires_at : ℤ

pub record SessionSettled : Type 0 where
  pub session : ℕ
  pub provider : ℕ
  pub cumulative_amount : ℕ
  pub transferred : ℕ
  pub merkle_root : ℕ
  pub settled_at : ℤ

pub record SessionRefunded : Type 0 where
  pub session : ℕ
  pub agent : ℕ
  pub amount : ℕ
  pub permissionless : Bool
  pub refunded_at : ℤ

pub data AgentPayError : Type 0 where
  zero_deposit expiry_in_past expiry_too_distant session_expired claim_expired : AgentPayError
  claim_not_monotonic claim_exceeds_deposit payout_exceeds_deposit : AgentPayError
  unauthorized_settler settlement_record_invalid unauthorized_refund : AgentPayError
  session_still_active nothing_to_refund mint_mismatch vault_mismatch : AgentPayError
  token_account_owner_mismatch missing_ed25519_instruction : AgentPayError
  malformed_ed25519_instruction ed25519_indirect_reference claim_signer_mismatch : AgentPayError
  claim_message_mismatch arithmetic_overflow : AgentPayError

-- An instruction fails with the program's own error, or with one of the framework, of the system
-- program or of the token program.
pub data ProgramError : Type 0 where
  own : AgentPayError → ProgramError
  account_not_signer account_not_initialized account_in_use : ProgramError
  constraint_seeds constraint_address token_failed create_account_failed : ProgramError

-- `?` on a check of the program's own, inside an instruction.
abbrev pub lift {ℓ} : {A : Type ℓ} → Result AgentPayError A → Result ProgramError A
lift (ok a) = ok a
lift (err e) = err (own e)

pub lift-eq-ok {ℓ} : {A : Type ℓ} (m : Result AgentPayError A) {a : A} → lift m ≡ ok a → m ≡ ok a
lift-eq-ok (ok b) h = ground arith
lift-eq-ok (err e) h = absurd (cc h)
