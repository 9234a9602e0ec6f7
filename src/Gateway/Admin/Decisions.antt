-- ===== src/Gateway/Admin/Decisions.antt =====
-- Who may decide an approval.
use agentpay.Prelude.{
  Option, ap, ◌∙◌, arith, ok, none, if◌then◌else◌, ℕ, ◌≡◌, refl, Bool, false, some,
}
use agentpay.Prelude.Int.{ℤ}
use agentpay.Prelude.Bytes.{Bytes, bytes_eq_refl}
use agentpay.Gateway.Keyed.{find, set_row, find-set_row}
use agentpay.Gateway.Control.{ApprovalRow, AgentRow, pending, approved, rejected, Control, in_scope}
use agentpay.Gateway.Control.Agents.{get_agent}
use agentpay.Gateway.Control.Approvals.{decide_approval, decided_row}
use agentpay.Gateway.Admin.{Operator, DecideRequest, verdict_of, handle_decide_approval}

unseen_agent :
    (t : Control) (agent_id w : Bytes) (agent : AgentRow)
    → find agent_id t.agents ≡ some agent
    → in_scope (some w) agent.workspace_id ≡ false
    → get_agent agent_id (some w) t ≡ ok none
unfolding get_agent
unseen_agent t agent_id w agent owner foreign = ground (arith, owner, foreign)

-- An operator of one workspace, to whom the agent of another is as good as absent, decides that
-- agent's pending approval, if only its id is known and the first query works: the approval is then
-- granted or rejected as the request says, with its reason, that operator's id and label and the
-- time, and is otherwise what it was.
pub decision_crosses_tenants :
    (fails : ℕ → Bool) (t : Control) (operator : Operator) (w : Bytes) (approval_id : Bytes)
    (req : DecideRequest) (now : ℤ) (row : ApprovalRow) (agent : AgentRow)
    → fails 0 ≡ false
    → operator.workspace_id ≡ some w
    → find approval_id t.approvals ≡ some row
    → row.state ≡ pending
    → find row.agent_id t.agents ≡ some agent
    → in_scope (some w) agent.workspace_id ≡ false
    → (get_agent row.agent_id operator.workspace_id t ≡ ok none)
      × (t' : Control) × ((handle_decide_approval fails (some t) operator approval_id req now).1
          ≡ some t')
      × (find approval_id t'.approvals
          ≡ some (record row {
            state = if req.approved then approved else rejected;
            reason = req.reason;
            decided_at = some now;
            decided_by = some operator.operator_id;
            decided_by_label = some operator.label;
          }))
unfolding handle_decide_approval decide_approval
decision_crosses_tenants fails t operator w approval_id req now row agent up scoped at waits owner
      foreign =
    let v = verdict_of operator approval_id req in
    (
      ap (λ (x : Option Bytes). get_agent row.agent_id x t) scoped
          ∙ unseen_agent t row.agent_id w agent owner foreign,
      record t { approvals = set_row approval_id (decided_row v now) t.approvals },
      rw (up, at, decide_approval, waits) refl,
      rw
          (
            find-set_row approval_id approval_id (decided_row v now) t.approvals,
            bytes_eq_refl approval_id,
            at,
          )
          refl,
    )
