-- ===== src/Gateway/Tests/Console.antt =====
-- Tests of the control plane: two tenants, their agents, and an approval.
use agentpay.Prelude.{ℕ, ◌+◌, ◌≡◌, refl, Bool, true, false, none, some, List, [], ◌∷◌, ok}
use agentpay.Prelude.Int.{pos}
use agentpay.Prelude.Bytes.{Bytes, codes}
use agentpay.Gateway.Policy.{human, suspended, AgentPolicy}
use agentpay.Gateway.Keyed.{find}
use agentpay.Gateway.Control.{
  AgentRow, AgentRecord, ApprovalRow, pending, approved, Control, in_scope,
}
use agentpay.Gateway.Control.Agents.{get_agent, new_agent_row}
use agentpay.Gateway.Control.Isolation.{
  TenantCall, sets_status, sets_policy, tenant_calls, Untouched, tenant_isolation,
}
use agentpay.Gateway.Control.Approvals.{Verdict}
use agentpay.Gateway.Control.Histories.{ApprovalCall, decides, spends, approval_calls}
use agentpay.Gateway.Control.Lifecycle.{Taken, Becomes, approval_calls-Becomes}
use agentpay.Gateway.Control.Tally.{IsKeyed}
use agentpay.Gateway.Control.Grants.{granted, all_grants, all_spending, approvals_balance}
use agentpay.Gateway.Admin.{Operator, DecideRequest, handle_decide_approval}
use agentpay.Gateway.Admin.Decisions.{decision_crosses_tenants}

abbrev acme : Bytes
acme = codes "acme"

abbrev globex : Bytes
globex = codes "globex"

abbrev agent_row : AgentRow
agent_row =
    new_agent_row
      (record {
        agent_id = codes "a1";
        label = codes "Agent";
        agent_pubkey = codes "11";
        owner_pubkey = none;
        mode = human;
      })
      (some globex) (pos 0)

abbrev approval_row : ApprovalRow
approval_row = record {
  agent_id = codes "a1";
  session_pubkey = none;
  resource = codes "weather";
  price = pos 40;
  calls = pos 1;
  state = pending;
  reason = none;
  created_at = pos 1;
  decided_at = none;
  decided_by = none;
  decided_by_label = none;
}

abbrev console : Control
console = record {
  agents = (codes "a1", agent_row) ∷ [];
  agent_policies = [];
  providers = [];
  operators = [];
  approvals = (codes "p1", approval_row) ∷ [];
}

abbrev wide : AgentPolicy
wide = record {
  max_total = 1000;
  max_per_call = 1000;
  approval_threshold = none;
  allowed_resources = none;
  max_calls = none;
}

abbrev tampering : List TenantCall
tampering = sets_status (codes "a1") suspended ∷ sets_policy (codes "a1") human wide ∷ []

tenant_isolation_example :
    Untouched acme (codes "a1") console (tenant_calls (some acme) tampering console)
    × ((a : AgentRecord)
        → get_agent (codes "a1") (some acme) (tenant_calls (some acme) tampering console)
          ≡ ok (some a)
        → in_scope (some acme) a.workspace_id ≡ true)
tenant_isolation_example = tenant_isolation acme tampering console (codes "a1")

abbrev yes_please : Verdict
yes_please = record {
  approval_id = codes "p1";
  is_approved = true;
  reason = none;
  decided_by = codes "op1";
  decided_by_label = codes "Ann";
}

-- The approval is granted, spent, and asked for once more.
abbrev purchases : List ApprovalCall
purchases =
    decides yes_please (pos 2)
    ∷ spends (codes "a1") (codes "weather") 40
    ∷ spends (codes "a1") (codes "weather") 40
    ∷ []

console_approval : find (codes "p1") console.approvals ≡ some approval_row
unfolding find
console_approval = refl

approval_calls-Becomes_example :
    (row : ApprovalRow) × (find (codes "p1") (approval_calls purchases console).approvals
      ≡ some row)
    × Becomes (Taken purchases (codes "p1")) pending approval_row row
approval_calls-Becomes_example =
    approval_calls-Becomes purchases console (codes "p1") approval_row console_approval

console-IsKeyed : IsKeyed console.approvals
unfolding find
console-IsKeyed = (refl, tt)

approvals_balance_example :
    granted (codes "a1") (codes "weather") 40 (approval_calls purchases console)
      + all_spending (codes "a1") (codes "weather") 40 purchases console
    ≡ granted (codes "a1") (codes "weather") 40 console
      + all_grants (codes "a1") (codes "weather") 40 purchases console
approvals_balance_example =
    approvals_balance (codes "a1") (codes "weather") 40 purchases console console-IsKeyed

abbrev stranger : Operator
stranger = record {
  operator_id = codes "op9";
  label = codes "Eve";
  workspace_id = some acme;
  role = codes "member";
}

abbrev grant_it : DecideRequest
grant_it = record { approved = true; reason = none }

abbrev up : ℕ → Bool
up n = false

decision_crosses_tenants_example :
    (get_agent (codes "a1") (some acme) console ≡ ok none)
    × (t' : Control) × ((handle_decide_approval up
          (some console)
          stranger
          (codes "p1")
          grant_it
          (pos 2)).1
        ≡ some t')
    × (find (codes "p1") t'.approvals
        ≡ some (record approval_row {
          state = approved;
          reason = grant_it.reason;
          decided_at = some (pos 2);
          decided_by = some stranger.operator_id;
          decided_by_label = some stranger.label;
        }))
unfolding find
decision_crosses_tenants_example =
    decision_crosses_tenants up console stranger acme (codes "p1") grant_it (pos 2) approval_row
      agent_row refl refl console_approval refl refl refl
