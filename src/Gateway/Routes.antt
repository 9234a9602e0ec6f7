-- ===== src/Gateway/Routes.antt =====
-- The handlers, gateway/src/routes.rs, over the in-memory store. Request ids, logs and the texts of
-- the answers are left out; the JSON and base64 decoding in front of a handler has run.
pub mod Claims
pub mod Tracking
pub mod Authority
pub mod Purchase
pub mod Settlement
use agentpay.Prelude.{ℕ, Bool, Option, Result, ok, err}
use agentpay.Prelude.Bytes.{Bytes}
use agentpay.Prelude.Int.{ℤ}
use agentpay.Gateway.Claim.{Base58}
use agentpay.Gateway.Verify.{Dalek}
use agentpay.Gateway.Chain.{
  Fetched, SessionVerificationError, account_not_found, not_a_session_account, already_settled,
  rpc_unavailable, wrong_program_owner, deposit_mismatch, invalid_account_data, field_mismatch,
}
use agentpay.Gateway.State.{
  ClaimRejection, session_expired, session_settled, not_monotonic, nonce_not_monotonic,
  exceeds_deposit, ClaimAccepted, StoreError, unavailable, already_open, unknown, Sessions,
}
use agentpay.Gateway.Policy.{
  PolicyRefusal, agent_suspended, resource_not_allowed, price_cap, budget, call_limit,
}
use agentpay.Gateway.Reason.{
  ReasonCode, err_session_account_not_found, err_deposit_mismatch, err_session_field_mismatch,
  err_session_settled, err_not_a_session_account, err_chain_unavailable, err_store_unavailable,
  err_session_unknown, err_session_already_open, err_session_expired, err_claim_not_monotonic,
  err_nonce_not_monotonic, err_claim_exceeds_deposit, err_agent_suspended,
  err_policy_resource_not_allowed, err_policy_price_cap, err_policy_budget, err_policy_call_limit,
}

-- Of `AppState`, what the handlers read; a fetcher answers for each address.
pub record AppState : Type 0 where
  pub base58 : Base58
  pub dalek : Dalek
  pub program_id : ℕ
  pub legacy_program_id : Option ℕ
  pub session_fetcher : Option (ℕ → Fetched)
  pub require_agent_policy : Bool

abbrev pub reconciliation_code : SessionVerificationError → ReasonCode
reconciliation_code account_not_found = err_session_account_not_found
reconciliation_code (deposit_mismatch a b) = err_deposit_mismatch
reconciliation_code (field_mismatch f) = err_session_field_mismatch
reconciliation_code already_settled = err_session_settled
reconciliation_code (wrong_program_owner a b) = err_not_a_session_account
reconciliation_code (invalid_account_data n) = err_not_a_session_account
reconciliation_code not_a_session_account = err_not_a_session_account
reconciliation_code rpc_unavailable = err_chain_unavailable

abbrev pub store_denial : StoreError → ReasonCode
store_denial unavailable = err_store_unavailable
store_denial unknown = err_session_unknown
store_denial already_open = err_session_already_open

abbrev pub rejection_code : ClaimRejection → ReasonCode
rejection_code session_expired = err_session_expired
rejection_code session_settled = err_session_settled
rejection_code not_monotonic = err_claim_not_monotonic
rejection_code nonce_not_monotonic = err_nonce_not_monotonic
rejection_code exceeds_deposit = err_claim_exceeds_deposit

abbrev pub policy_denial : PolicyRefusal → ReasonCode
policy_denial agent_suspended = err_agent_suspended
policy_denial resource_not_allowed = err_policy_resource_not_allowed
policy_denial price_cap = err_policy_price_cap
policy_denial budget = err_policy_budget
policy_denial call_limit = err_policy_call_limit

-- What a handler does with the store's answer to `admit_claim`, and the map after it.
abbrev pub admitted :
    Sessions
    → Result StoreError (Result ClaimRejection ClaimAccepted × Sessions)
    → Result ReasonCode ClaimAccepted × Sessions
admitted m (err e) = (err (store_denial e), m)
admitted m (ok (err x, m')) = (err (rejection_code x), m')
admitted m (ok (ok a, m')) = (ok a, m')
