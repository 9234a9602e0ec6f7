-- ===== src/Gateway/Reason.antt =====
-- Denials, gateway/src/error.rs: the reason codes, their wire texts and HTTP statuses. The
-- messages for people are left out.
use agentpay.Prelude.{
  ℕ, ◌≤◌, ◌<◌, ◌≡◌, refl, Option, none, some, List, [], ◌∷◌, arith, if◌then◌else◌,
}
use agentpay.Prelude.Bytes.{Bytes, codes, bytes_eq}

-- The source writes the codes in capitals.
pub data ReasonCode : Type 0 where
  err_malformed_claim err_malformed_request err_session_unknown err_session_already_open :
      ReasonCode
  err_session_expired err_session_settled err_claim_expired err_claim_not_monotonic : ReasonCode
  err_nonce_not_monotonic err_claim_exceeds_deposit err_invalid_signature : ReasonCode
  err_nothing_to_settle err_wrong_provider_key err_wrong_program_owner : ReasonCode
  err_settlement_unavailable err_settlement_failed err_session_account_not_found : ReasonCode
  err_deposit_mismatch err_session_field_mismatch err_not_a_session_account : ReasonCode
  err_chain_unavailable err_upstream_not_configured err_upstream_unavailable : ReasonCode
  err_unknown_resource err_price_mismatch err_evidence_unavailable err_evidence_not_found :
      ReasonCode
  err_unauthorized err_rate_limited err_plan_claim_mismatch err_agent_not_found : ReasonCode
  err_agent_exists err_agent_suspended err_agent_policy_required : ReasonCode
  err_policy_resource_not_allowed err_policy_price_cap err_policy_budget : ReasonCode
  err_policy_call_limit err_approval_required err_provider_not_found err_operator_exists :
      ReasonCode
  err_operator_not_found err_shared_token_not_rotatable err_control_plane_unavailable : ReasonCode
  err_store_unavailable : ReasonCode

unfoldable pub as_str : ReasonCode → Bytes
as_str err_malformed_claim = codes "ERR_MALFORMED_CLAIM"
as_str err_malformed_request = codes "ERR_MALFORMED_REQUEST"
as_str err_session_unknown = codes "ERR_SESSION_UNKNOWN"
as_str err_session_already_open = codes "ERR_SESSION_ALREADY_OPEN"
as_str err_session_expired = codes "ERR_SESSION_EXPIRED"
as_str err_session_settled = codes "ERR_SESSION_SETTLED"
as_str err_claim_expired = codes "ERR_CLAIM_EXPIRED"
as_str err_claim_not_monotonic = codes "ERR_CLAIM_NOT_MONOTONIC"
as_str err_nonce_not_monotonic = codes "ERR_NONCE_NOT_MONOTONIC"
as_str err_claim_exceeds_deposit = codes "ERR_CLAIM_EXCEEDS_DEPOSIT"
as_str err_invalid_signature = codes "ERR_INVALID_SIGNATURE"
as_str err_nothing_to_settle = codes "ERR_NOTHING_TO_SETTLE"
as_str err_wrong_provider_key = codes "ERR_WRONG_PROVIDER_KEY"
as_str err_wrong_program_owner = codes "ERR_WRONG_PROGRAM_OWNER"
as_str err_settlement_unavailable = codes "ERR_SETTLEMENT_UNAVAILABLE"
as_str err_settlement_failed = codes "ERR_SETTLEMENT_FAILED"
as_str err_session_account_not_found = codes "ERR_SESSION_ACCOUNT_NOT_FOUND"
as_str err_deposit_mismatch = codes "ERR_DEPOSIT_MISMATCH"
as_str err_session_field_mismatch = codes "ERR_SESSION_FIELD_MISMATCH"
as_str err_not_a_session_account = codes "ERR_NOT_A_SESSION_ACCOUNT"
as_str err_chain_unavailable = codes "ERR_CHAIN_UNAVAILABLE"
as_str err_upstream_not_configured = codes "ERR_UPSTREAM_NOT_CONFIGURED"
as_str err_upstream_unavailable = codes "ERR_UPSTREAM_UNAVAILABLE"
as_str err_unknown_resource = codes "ERR_UNKNOWN_RESOURCE"
as_str err_price_mismatch = codes "ERR_PRICE_MISMATCH"
as_str err_evidence_unavailable = codes "ERR_EVIDENCE_UNAVAILABLE"
as_str err_evidence_not_found = codes "ERR_EVIDENCE_NOT_FOUND"
as_str err_unauthorized = codes "ERR_UNAUTHORIZED"
as_str err_rate_limited = codes "ERR_RATE_LIMITED"
as_str err_plan_claim_mismatch = codes "ERR_PLAN_CLAIM_MISMATCH"
as_str err_agent_not_found = codes "ERR_AGENT_NOT_FOUND"
as_str err_agent_exists = codes "ERR_AGENT_EXISTS"
as_str err_agent_suspended = codes "ERR_AGENT_SUSPENDED"
as_str err_agent_policy_required = codes "ERR_AGENT_POLICY_REQUIRED"
as_str err_policy_resource_not_allowed = codes "ERR_POLICY_RESOURCE_NOT_ALLOWED"
as_str err_policy_price_cap = codes "ERR_POLICY_PRICE_CAP"
as_str err_policy_budget = codes "ERR_POLICY_BUDGET"
as_str err_policy_call_limit = codes "ERR_POLICY_CALL_LIMIT"
as_str err_approval_required = codes "ERR_APPROVAL_REQUIRED"
as_str err_provider_not_found = codes "ERR_PROVIDER_NOT_FOUND"
as_str err_operator_exists = codes "ERR_OPERATOR_EXISTS"
as_str err_operator_not_found = codes "ERR_OPERATOR_NOT_FOUND"
as_str err_shared_token_not_rotatable = codes "ERR_SHARED_TOKEN_NOT_ROTATABLE"
as_str err_control_plane_unavailable = codes "ERR_CONTROL_PLANE_UNAVAILABLE"
as_str err_store_unavailable = codes "ERR_STORE_UNAVAILABLE"

unfoldable pub status : ReasonCode → ℕ
status err_malformed_claim = 400
status err_malformed_request = 400
status err_session_unknown = 404
status err_session_already_open = 409
status err_session_expired = 403
status err_session_settled = 403
status err_claim_expired = 403
status err_claim_not_monotonic = 403
status err_nonce_not_monotonic = 403
status err_claim_exceeds_deposit = 403
status err_invalid_signature = 401
status err_nothing_to_settle = 403
status err_wrong_provider_key = 403
status err_wrong_program_owner = 403
status err_settlement_unavailable = 503
status err_settlement_failed = 503
status err_session_account_not_found = 404
status err_deposit_mismatch = 400
status err_session_field_mismatch = 400
status err_not_a_session_account = 400
status err_chain_unavailable = 503
status err_upstream_not_configured = 503
status err_upstream_unavailable = 503
status err_unknown_resource = 404
status err_price_mismatch = 402
status err_evidence_unavailable = 503
status err_evidence_not_found = 404
status err_unauthorized = 401
status err_rate_limited = 429
status err_plan_claim_mismatch = 400
status err_agent_not_found = 404
status err_agent_exists = 409
status err_agent_suspended = 403
status err_agent_policy_required = 403
status err_policy_resource_not_allowed = 403
status err_policy_price_cap = 403
status err_policy_budget = 403
status err_policy_call_limit = 403
status err_approval_required = 403
status err_provider_not_found = 404
status err_operator_exists = 409
status err_operator_not_found = 404
status err_shared_token_not_rotatable = 400
status err_control_plane_unavailable = 503
status err_store_unavailable = 503

abbrev pub all_codes : List ReasonCode
all_codes =
    err_malformed_claim ∷ err_malformed_request ∷ err_session_unknown ∷ err_session_already_open
    ∷ err_session_expired ∷ err_session_settled ∷ err_claim_expired ∷ err_claim_not_monotonic
    ∷ err_nonce_not_monotonic ∷ err_claim_exceeds_deposit ∷ err_invalid_signature
    ∷ err_nothing_to_settle ∷ err_wrong_provider_key ∷ err_wrong_program_owner
    ∷ err_settlement_unavailable ∷ err_settlement_failed ∷ err_session_account_not_found
    ∷ err_deposit_mismatch ∷ err_session_field_mismatch ∷ err_not_a_session_account
    ∷ err_chain_unavailable ∷ err_upstream_not_configured ∷ err_upstream_unavailable
    ∷ err_unknown_resource ∷ err_price_mismatch ∷ err_evidence_unavailable ∷ err_evidence_not_found
    ∷ err_unauthorized ∷ err_rate_limited ∷ err_plan_claim_mismatch ∷ err_agent_not_found
    ∷ err_agent_exists ∷ err_agent_suspended ∷ err_agent_policy_required
    ∷ err_policy_resource_not_allowed ∷ err_policy_price_cap ∷ err_policy_budget
    ∷ err_policy_call_limit ∷ err_approval_required ∷ err_provider_not_found ∷ err_operator_exists
    ∷ err_operator_not_found ∷ err_shared_token_not_rotatable ∷ err_control_plane_unavailable
    ∷ err_store_unavailable ∷ []

-- The first of the codes whose text is `s`.
unfoldable pub find_code : List ReasonCode → Bytes → Option ReasonCode
find_code [] s = none
find_code (c ∷ cs) s = let rest = find_code cs s in if bytes_eq s (as_str c) then some c else rest

-- The wire text of a code identifies it: a client that searches the codes for the text finds
-- that code, so that no two share a text.
pub find_code-as_str : (c : ReasonCode) → find_code all_codes (as_str c) ≡ some c
unfolding find_code as_str
find_code-as_str err_malformed_claim = refl
find_code-as_str err_malformed_request = refl
find_code-as_str err_session_unknown = refl
find_code-as_str err_session_already_open = refl
find_code-as_str err_session_expired = refl
find_code-as_str err_session_settled = refl
find_code-as_str err_claim_expired = refl
find_code-as_str err_claim_not_monotonic = refl
find_code-as_str err_nonce_not_monotonic = refl
find_code-as_str err_claim_exceeds_deposit = refl
find_code-as_str err_invalid_signature = refl
find_code-as_str err_nothing_to_settle = refl
find_code-as_str err_wrong_provider_key = refl
find_code-as_str err_wrong_program_owner = refl
find_code-as_str err_settlement_unavailable = refl
find_code-as_str err_settlement_failed = refl
find_code-as_str err_session_account_not_found = refl
find_code-as_str err_deposit_mismatch = refl
find_code-as_str err_session_field_mismatch = refl
find_code-as_str err_not_a_session_account = refl
find_code-as_str err_chain_unavailable = refl
find_code-as_str err_upstream_not_configured = refl
find_code-as_str err_upstream_unavailable = refl
find_code-as_str err_unknown_resource = refl
find_code-as_str err_price_mismatch = refl
find_code-as_str err_evidence_unavailable = refl
find_code-as_str err_evidence_not_found = refl
find_code-as_str err_unauthorized = refl
find_code-as_str err_rate_limited = refl
find_code-as_str err_plan_claim_mismatch = refl
find_code-as_str err_agent_not_found = refl
find_code-as_str err_agent_exists = refl
find_code-as_str err_agent_suspended = refl
find_code-as_str err_agent_policy_required = refl
find_code-as_str err_policy_resource_not_allowed = refl
find_code-as_str err_policy_price_cap = refl
find_code-as_str err_policy_budget = refl
find_code-as_str err_policy_call_limit = refl
find_code-as_str err_approval_required = refl
find_code-as_str err_provider_not_found = refl
find_code-as_str err_operator_exists = refl
find_code-as_str err_operator_not_found = refl
find_code-as_str err_shared_token_not_rotatable = refl
find_code-as_str err_control_plane_unavailable = refl
find_code-as_str err_store_unavailable = refl

-- Every denial is answered with an error status, 400 to 599.
pub status-IsError : (c : ReasonCode) → (400 ≤ status c) × (status c < 600)
unfolding status
status-IsError err_malformed_claim = omega arith
status-IsError err_malformed_request = omega arith
status-IsError err_session_unknown = omega arith
status-IsError err_session_already_open = omega arith
status-IsError err_session_expired = omega arith
status-IsError err_session_settled = omega arith
status-IsError err_claim_expired = omega arith
status-IsError err_claim_not_monotonic = omega arith
status-IsError err_nonce_not_monotonic = omega arith
status-IsError err_claim_exceeds_deposit = omega arith
status-IsError err_invalid_signature = omega arith
status-IsError err_nothing_to_settle = omega arith
status-IsError err_wrong_provider_key = omega arith
status-IsError err_wrong_program_owner = omega arith
status-IsError err_settlement_unavailable = omega arith
status-IsError err_settlement_failed = omega arith
status-IsError err_session_account_not_found = omega arith
status-IsError err_deposit_mismatch = omega arith
status-IsError err_session_field_mismatch = omega arith
status-IsError err_not_a_session_account = omega arith
status-IsError err_chain_unavailable = omega arith
status-IsError err_upstream_not_configured = omega arith
status-IsError err_upstream_unavailable = omega arith
status-IsError err_unknown_resource = omega arith
status-IsError err_price_mismatch = omega arith
status-IsError err_evidence_unavailable = omega arith
status-IsError err_evidence_not_found = omega arith
status-IsError err_unauthorized = omega arith
status-IsError err_rate_limited = omega arith
status-IsError err_plan_claim_mismatch = omega arith
status-IsError err_agent_not_found = omega arith
status-IsError err_agent_exists = omega arith
status-IsError err_agent_suspended = omega arith
status-IsError err_agent_policy_required = omega arith
status-IsError err_policy_resource_not_allowed = omega arith
status-IsError err_policy_price_cap = omega arith
status-IsError err_policy_budget = omega arith
status-IsError err_policy_call_limit = omega arith
status-IsError err_approval_required = omega arith
status-IsError err_provider_not_found = omega arith
status-IsError err_operator_exists = omega arith
status-IsError err_operator_not_found = omega arith
status-IsError err_shared_token_not_rotatable = omega arith
status-IsError err_control_plane_unavailable = omega arith
status-IsError err_store_unavailable = omega arith
