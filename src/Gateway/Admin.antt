-- ===== src/Gateway/Admin.antt =====
-- The control plane's handlers, gateway/src/control.rs, over its tables. `fails n` says whether the n-th
-- query of a request fails, which a handler answers as an unreadable control plane.
pub mod Decisions
pub mod Planner
use agentpay.Prelude.{
  ℕ, Bool, true, false, not, Option, none, some, List, [], Result, ok, err, ◌>>=◌, ◌>>◌, require,
  map_err, if◌then◌else◌,
}
use agentpay.Prelude.Int.{ℤ}
use agentpay.Prelude.Bytes.{Bytes}
use agentpay.Gateway.Reason.{ReasonCode, err_control_plane_unavailable, err_malformed_request}
use agentpay.Gateway.Control.{Control}
use agentpay.Gateway.Control.Approvals.{Verdict, ApprovalRecord, decide_approval, list_approvals}

-- `auth::Operator`: who is making a request.
pub record Operator : Type 0 where
  pub operator_id : Bytes
  pub label : Bytes
  pub workspace_id : Option Bytes
  pub role : Bytes

pub record DecideRequest : Type 0 where
  pub approved : Bool
  pub reason : Option Bytes

abbrev pub answered : (ℕ → Bool) → ℕ → Result ReasonCode (Unit {0})
answered fails n = require (not (fails n)) err_control_plane_unavailable

-- The answer, and the tables afterwards.
abbrev pub Served : Type 0 → Type 0
Served A = Result ReasonCode A × Control

-- What is bound by `decide_approval`.
abbrev pub verdict_of : Operator → Bytes → DecideRequest → Verdict
verdict_of operator approval_id req = record {
  approval_id = approval_id;
  is_approved = req.approved;
  reason = req.reason;
  decided_by = operator.operator_id;
  decided_by_label = operator.label;
}

-- After the decision the approvals are listed for the answer.
unfoldable pub listed : (ℕ → Bool) → Operator → Control → Result ReasonCode (List ApprovalRecord)
listed fails operator t = do
  answered fails 1
  map_err (λ e. err_control_plane_unavailable) (list_approvals 200 operator.workspace_id t)

unfoldable pub handle_decide_approval :
    (ℕ → Bool)
    → Option Control
    → Operator
    → Bytes
    → DecideRequest
    → ℤ
    → Result ReasonCode (List ApprovalRecord) × Option Control
handle_decide_approval fails none operator approval_id req now =
    (err err_control_plane_unavailable, none)
handle_decide_approval fails (some t) operator approval_id req now =
    let decided = decide_approval (verdict_of operator approval_id req) now t in
    if fails 0
    then (err err_control_plane_unavailable, some t)
    else (if decided.0
        then (listed fails operator decided.1, some decided.1)
        else (err err_malformed_request, some decided.1))

unfoldable pub handle_list_approvals :
    (ℕ → Bool) → Option Control → Operator → Result ReasonCode (List ApprovalRecord)
handle_list_approvals fails none operator = err err_control_plane_unavailable
handle_list_approvals fails (some t) operator = do
  answered fails 0
  map_err (λ e. err_control_plane_unavailable) (list_approvals 200 operator.workspace_id t)
