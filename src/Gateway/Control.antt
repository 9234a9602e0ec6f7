-- ===== src/Gateway/Control.antt =====
-- The control plane's tables, gateway/src/control_db.rs: agents and their envelopes, providers,
-- operators. The tables are values and a query is a function on them; `workspace` is the caller's
-- tenant, `none` for the unscoped operator. A failed query, which leaves the tables as they were, is
-- not a case here: what the handlers make of it stands with them. The CHECK constraints are those
-- of gateway/migrations.
pub mod Agents
pub mod Providers
pub mod Operators
pub mod Approvals
pub mod Foreign
pub mod Isolation
pub mod Histories
pub mod Lifecycle
pub mod Tally
pub mod Grants
use agentpay.Prelude.{
  ℕ, Bool, true, false, Option, none, some, List, [], ◌∷◌, ◌++◌, ltb, leb, ◌&&◌, ◌||◌, not, ◌-◌,
  ◌+◌, if◌then◌else◌, Result, ok, err, ◌>>=◌, ◌>>◌, require, map,
}
use agentpay.Prelude.Int.{ℤ, pos, negsuc, ltb_ℤ}
use agentpay.Prelude.Bytes.{Bytes, bytes_eq}
use agentpay.Gateway.Policy.{
  AgentMode, AgentStatus, AgentPolicy, Spend, active, mode_as_str, status_as_str, from_str_or_human,
  from_str_or_suspended,
}
use agentpay.Gateway.Evidence.{DbError, sqlx_error}
use agentpay.Gateway.Keyed.{Table, find, set_row, insert_row}
use agentpay.Gateway.Database.{to_i64, to_u64}

-- The rows of `agents`, `agent_policies`, `providers` and `operators`, their keys apart.
pub record AgentRow : Type 0 where
  pub label : Bytes
  pub agent_pubkey : Bytes
  pub owner_pubkey : Option Bytes
  pub mode : Bytes
  pub status : Bytes
  pub created_at : ℤ
  pub workspace_id : Option Bytes

pub record PolicyRow : Type 0 where
  pub max_total : ℤ
  pub max_per_call : ℤ
  pub approval_threshold : Option ℤ
  pub allowed_resources : Option (List Bytes)
  pub max_calls : Option ℤ

pub record ProviderRow : Type 0 where
  pub label : Bytes
  pub base_url : Bytes
  pub provider_pubkey : Option Bytes
  pub enabled : Bool
  pub workspace_id : Option Bytes

pub record OperatorRow : Type 0 where
  pub label : Bytes
  pub token_hash : Bytes
  pub role : Bytes
  pub workspace_id : Option Bytes
  pub enabled : Bool
  pub created_at : ℤ
  pub last_used_at : Option ℤ

-- A row of `approvals`; its state is the text of the column, as a type.
pub data ApprovalState : Type 0 where
  pending approved rejected consumed : ApprovalState

pub record ApprovalRow : Type 0 where
  pub agent_id : Bytes
  pub session_pubkey : Option Bytes
  pub resource : Bytes
  pub price : ℤ
  pub calls : ℤ
  pub state : ApprovalState
  pub reason : Option Bytes
  pub created_at : ℤ
  pub decided_at : Option ℤ
  pub decided_by : Option Bytes
  pub decided_by_label : Option Bytes

pub record Control : Type 0 where
  pub agents : Table AgentRow
  pub agent_policies : Table PolicyRow
  pub providers : Table ProviderRow
  pub operators : Table OperatorRow
  pub approvals : Table ApprovalRow

pub record AgentRecord : Type 0 where
  pub agent_id : Bytes
  pub label : Bytes
  pub agent_pubkey : Bytes
  pub owner_pubkey : Option Bytes
  pub mode : AgentMode
  pub status : AgentStatus
  pub created_at : ℤ
  pub policy : Option AgentPolicy
  pub workspace_id : Option Bytes

pub record ProviderRecord : Type 0 where
  pub provider_id : Bytes
  pub label : Bytes
  pub base_url : Bytes
  pub provider_pubkey : Option Bytes
  pub enabled : Bool

pub record OperatorRecord : Type 0 where
  pub operator_id : Bytes
  pub label : Bytes
  pub role : Bytes
  pub workspace_id : Option Bytes
  pub enabled : Bool
  pub created_at : ℤ
  pub last_used_at : Option ℤ

-- `IS NOT DISTINCT FROM`
abbrev pub same_workspace : Option Bytes → Option Bytes → Bool
same_workspace none none = true
same_workspace none (some b) = false
same_workspace (some a) none = false
same_workspace (some a) (some b) = bytes_eq a b

-- `AND workspace_id = $n`, which an unscoped caller's query leaves out.
abbrev pub in_scope : Option Bytes → Option Bytes → Bool
in_scope none owner = true
in_scope (some w) none = false
in_scope (some w) (some owner) = bytes_eq w owner
