-- ===== src/Gateway/Control/Approvals.antt =====
-- The approvals, gateway/src/control_db.rs: a proposed spend is raised, decided once by a person, and
-- spent once.
use agentpay.Prelude.{
  ℕ, Bool, true, false, Option, none, some, List, [], ◌∷◌, ◌++◌, ◌&&◌, ◌||◌, not, if◌then◌else◌,
  Result, ok, ◌>>=◌, ◌>>◌, require, take,
}
use agentpay.Prelude.Int.{ℤ, pos, ltb_ℤ, eq_ℤ}
use agentpay.Prelude.Bytes.{Bytes, bytes_eq}
use agentpay.Gateway.Evidence.{DbError, sqlx_error}
use agentpay.Gateway.Keyed.{Table, find, set_row, insert_row}
use agentpay.Gateway.Database.{to_i64, to_u64}
use agentpay.Gateway.Control.{
  ApprovalState, pending, approved, rejected, consumed, ApprovalRow, Control, in_scope,
}
use agentpay.Gateway.Control.Agents.{is_found}

-- The arguments of `create_approval`.
pub record Proposal : Type 0 where
  pub approval_id : Bytes
  pub agent_id : Bytes
  pub session : Option Bytes
  pub resource : Bytes
  pub price : ℕ
  pub calls : ℤ

abbrev pub proposal_row : Proposal → ℤ → ℤ → ApprovalRow
proposal_row p price now = record {
  agent_id = p.agent_id;
  session_pubkey = p.session;
  resource = p.resource;
  price = price;
  calls = p.calls;
  state = pending;
  reason = none;
  created_at = now;
  decided_at = none;
  decided_by = none;
  decided_by_label = none;
}

-- The primary key, the reference to `agents` and the CHECK constraints.
abbrev pub proposal_checks : Proposal → Control → Bool
proposal_checks p t =
    not (is_found (find p.approval_id t.approvals))
    && is_found (find p.agent_id t.agents)
    && ltb_ℤ (pos 0) p.calls

unfoldable pub create_approval : Proposal → ℤ → Control → Result DbError Control
create_approval p now t = do
  price ← to_i64 p.price
  require (proposal_checks p t) sqlx_error
  ok (record t { approvals = insert_row p.approval_id (proposal_row p price now) t.approvals })

abbrev pub same_state : ApprovalState → ApprovalState → Bool
same_state pending pending = true
same_state approved approved = true
same_state rejected rejected = true
same_state consumed consumed = true
same_state a b = false

-- The arguments of `decide_approval`.
pub record Verdict : Type 0 where
  pub approval_id : Bytes
  pub is_approved : Bool
  pub reason : Option Bytes
  pub decided_by : Bytes
  pub decided_by_label : Bytes

abbrev pub decided_row : Verdict → ℤ → ApprovalRow → ApprovalRow
decided_row v now row = record row {
  state = if v.is_approved then approved else rejected;
  reason = v.reason;
  decided_at = some now;
  decided_by = some v.decided_by;
  decided_by_label = some v.decided_by_label;
}

-- Whether a row was decided, and the tables.
unfoldable pub decide_approval : Verdict → ℤ → Control → Bool × Control
decide_approval v now t = elim (find v.approval_id t.approvals) [
  | none ↦ (false, t)
  | some row ↦
      if same_state row.state pending
      then (true, record t { approvals = set_row v.approval_id (decided_row v now) t.approvals })
      else (false, t)
]

-- `WHERE agent_id = $1 AND resource = $2 AND price = $3 AND state = ..`
abbrev pub is_for : Bytes → Bytes → ℤ → ApprovalState → ApprovalRow → Bool
is_for agent_id resource price state row =
    bytes_eq agent_id row.agent_id
    && bytes_eq resource row.resource
    && eq_ℤ price row.price
    && same_state row.state state

abbrev pub has_state : Bytes → Bytes → ℤ → ApprovalState → Table ApprovalRow → Bool
has_state agent_id resource price state [] = false
has_state agent_id resource price state ((k, row) ∷ rows) =
    is_for agent_id resource price state row || has_state agent_id resource price state rows

-- The oldest granted approval for the spend is consumed: whether there was one, and the rows.
unfoldable pub consume_oldest : Bytes → Bytes → ℤ → Table ApprovalRow → Bool × Table ApprovalRow
consume_oldest agent_id resource price [] = (false, [])
consume_oldest agent_id resource price ((k, row) ∷ rows) =
    let rest = consume_oldest agent_id resource price rows in
    if is_for agent_id resource price approved row
    then (true, (k, record row { state = consumed }) ∷ rows)
    else (rest.0, (k, row) ∷ rest.1)

unfoldable pub consume_approval : Bytes → Bytes → ℕ → Control → Result DbError (Bool × Control)
consume_approval agent_id resource price t = do
  stored ← to_i64 price
  let spent = consume_oldest agent_id resource stored t.approvals
  ok (spent.0, record t { approvals = spent.1 })

unfoldable pub has_pending_approval : Bytes → Bytes → ℕ → Control → Result DbError Bool
has_pending_approval agent_id resource price t = do
  stored ← to_i64 price
  ok (has_state agent_id resource stored pending t.approvals)

pub record ApprovalRecord : Type 0 where
  pub approval_id : Bytes
  pub agent_id : Bytes
  pub session : Option Bytes
  pub resource : Bytes
  pub price : ℕ
  pub calls : ℤ
  pub state : ApprovalState
  pub reason : Option Bytes
  pub created_at : ℤ
  pub decided_at : Option ℤ
  pub decided_by : Option Bytes
  pub decided_by_label : Option Bytes

unfoldable pub approval_from_row : Bytes → ApprovalRow → Result DbError ApprovalRecord
approval_from_row approval_id row = do
  price ← to_u64 row.price
  ok (record {
    approval_id = approval_id;
    agent_id = row.agent_id;
    session = row.session_pubkey;
    resource = row.resource;
    price = price;
    calls = row.calls;
    state = row.state;
    reason = row.reason;
    created_at = row.created_at;
    decided_at = row.decided_at;
    decided_by = row.decided_by;
    decided_by_label = row.decided_by_label;
  })

-- `JOIN agents .. WHERE a.workspace_id = $2`, which an unscoped caller's query leaves out.
abbrev pub approval_is_visible : Option Bytes → Control → ApprovalRow → Bool
approval_is_visible none t row = true
approval_is_visible (some w) t row = elim (find row.agent_id t.agents) [
  | none ↦ false
  | some agent ↦ in_scope (some w) agent.workspace_id
]

-- The rows that the caller may see, the newest first.
unfoldable pub visible_approvals : Option Bytes → Control → Table ApprovalRow → Table ApprovalRow
visible_approvals workspace t [] = []
visible_approvals workspace t ((k, row) ∷ rows) =
    let rest = visible_approvals workspace t rows in
    if approval_is_visible workspace t row then rest ++ ((k, row) ∷ []) else rest

unfoldable pub approval_records : Table ApprovalRow → Result DbError (List ApprovalRecord)
approval_records [] = ok []
approval_records ((k, row) ∷ rows) = do
  r ← approval_from_row k row
  rs ← approval_records rows
  ok (r ∷ rs)

unfoldable pub list_approvals : ℕ → Option Bytes → Control → Result DbError (List ApprovalRecord)
list_approvals limit workspace t =
    approval_records (take limit (visible_approvals workspace t t.approvals))
