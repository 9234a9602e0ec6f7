-- ===== src/Gateway/Control/Agents.antt =====
-- Agents and their envelopes, gateway/src/control_db.rs: `create_agent`, the lookups,
-- `set_agent_status` and `set_policy`.
use agentpay.Prelude.{
  ℕ, Bool, true, false, Option, none, some, List, [], ◌∷◌, ◌++◌, leb, ◌&&◌, ◌||◌, not, ◌-◌,
  if◌then◌else◌, Result, ok, ◌>>=◌, ◌>>◌, require,
}
use agentpay.Prelude.Int.{ℤ, pos, negsuc, ltb_ℤ}
use agentpay.Prelude.Bytes.{Bytes, bytes_eq}
use agentpay.Gateway.Policy.{
  AgentMode, AgentStatus, AgentPolicy, active, mode_as_str, status_as_str, from_str_or_human,
  from_str_or_suspended,
}
use agentpay.Gateway.Evidence.{DbError, sqlx_error}
use agentpay.Gateway.Keyed.{Table, find, set_row, insert_row}
use agentpay.Gateway.Database.{to_i64, to_u64}
use agentpay.Gateway.Control.{AgentRow, PolicyRow, AgentRecord, Control, in_scope}

-- `c as i32`
abbrev pub as_i32 : ℕ → ℤ
as_i32 c = if leb c 2147483647 then pos c else negsuc (4294967295 - c)

-- `c.max(0) as u32`
abbrev pub clamped_u32 : ℤ → ℕ
clamped_u32 (pos c) = c
clamped_u32 (negsuc c) = 0

abbrev pub transposed {ℓ κ} :
    {A : Type ℓ} {B : Type κ} → (A → Result DbError B) → Option A → Result DbError (Option B)
transposed f none = ok none
transposed f (some a) = f a >>= λ b. ok (some b)

-- The joined policy columns of `agent_from_row`.
unfoldable pub policy_from_row : Option PolicyRow → Result DbError (Option AgentPolicy)
policy_from_row none = ok none
policy_from_row (some p) = do
  max_total ← to_u64 p.max_total
  max_per_call ← to_u64 p.max_per_call
  approval_threshold ← transposed to_u64 p.approval_threshold
  ok (
      some (record {
        max_total = max_total;
        max_per_call = max_per_call;
        approval_threshold = approval_threshold;
        allowed_resources = p.allowed_resources;
        max_calls = elim p.max_calls [ none ↦ none | some c ↦ some (clamped_u32 c) ];
      }))

unfoldable pub agent_from_row : Bytes → AgentRow → Option PolicyRow → Result DbError AgentRecord
agent_from_row agent_id row p = do
  policy ← policy_from_row p
  ok (record {
    agent_id = agent_id;
    label = row.label;
    agent_pubkey = row.agent_pubkey;
    owner_pubkey = row.owner_pubkey;
    mode = from_str_or_human row.mode;
    status = from_str_or_suspended row.status;
    created_at = row.created_at;
    policy = policy;
    workspace_id = row.workspace_id;
  })

abbrev pub has_pubkey : Bytes → Table AgentRow → Bool
has_pubkey agent_pubkey [] = false
has_pubkey agent_pubkey ((k, row) ∷ rows) =
    bytes_eq agent_pubkey row.agent_pubkey || has_pubkey agent_pubkey rows

abbrev pub is_found {ℓ} : {A : Type ℓ} → Option A → Bool
is_found none = false
is_found (some a) = true

-- The arguments of `create_agent` but for the tenant.
pub record NewAgent : Type 0 where
  pub agent_id : Bytes
  pub label : Bytes
  pub agent_pubkey : Bytes
  pub owner_pubkey : Option Bytes
  pub mode : AgentMode

abbrev pub new_agent_row : NewAgent → Option Bytes → ℤ → AgentRow
new_agent_row a workspace now = record {
  label = a.label;
  agent_pubkey = a.agent_pubkey;
  owner_pubkey = a.owner_pubkey;
  mode = mode_as_str a.mode;
  status = status_as_str active;
  created_at = now;
  workspace_id = workspace;
}

-- Whether a row was inserted, and the tables.
unfoldable pub create_agent : NewAgent → Option Bytes → ℤ → Control → Bool × Control
create_agent a workspace now t =
    if is_found (find a.agent_id t.agents) || has_pubkey a.agent_pubkey t.agents
    then (false, t)
    else (
      true,
      record t { agents = insert_row a.agent_id (new_agent_row a workspace now) t.agents },
    )

-- The `UPDATE agents` of one agent that the caller may see: whether a row was touched.
unfoldable pub update_agent :
    (AgentRow → AgentRow) → Bytes → Option Bytes → Control → Bool × Control
update_agent f agent_id workspace t = elim (find agent_id t.agents) [
  | none ↦ (false, t)
  | some row ↦
      if in_scope workspace row.workspace_id
      then (true, record t { agents = set_row agent_id f t.agents })
      else (false, t)
]

unfoldable pub set_agent_status : Bytes → AgentStatus → Option Bytes → Control → Bool × Control
set_agent_status agent_id status workspace t =
    update_agent (λ row. record row { status = status_as_str status }) agent_id workspace t

-- What `set_policy` binds.
unfoldable pub policy_row : AgentPolicy → Result DbError PolicyRow
policy_row p = do
  max_total ← to_i64 p.max_total
  max_per_call ← to_i64 p.max_per_call
  approval_threshold ← transposed to_i64 p.approval_threshold
  ok (record {
    max_total = max_total;
    max_per_call = max_per_call;
    approval_threshold = approval_threshold;
    allowed_resources = p.allowed_resources;
    max_calls = elim p.max_calls [ none ↦ none | some c ↦ some (as_i32 c) ];
  })

-- The CHECK constraints of `agent_policies`.
abbrev pub policy_checks : PolicyRow → Bool
policy_checks p =
    ltb_ℤ (pos 0) p.max_total
    && ltb_ℤ (pos 0) p.max_per_call
    && elim p.approval_threshold [ none ↦ true | some a ↦ not (ltb_ℤ a (pos 0)) ]
    && elim p.max_calls [ none ↦ true | some c ↦ ltb_ℤ (pos 0) c ]

abbrev pub upsert_row {ℓ} : {R : Type ℓ} → Bytes → R → Table R → Table R
upsert_row key row rows = elim (find key rows) [
  | none ↦ insert_row key row rows
  | some old ↦ set_row key (λ r. row) rows
]

-- The transaction: the mode of an agent that the caller may see, then its envelope.
unfoldable pub set_policy :
    Bytes → AgentMode → AgentPolicy → Option Bytes → Control → Result DbError (Bool × Control)
set_policy agent_id mode p workspace t =
    let touched =
      update_agent (λ row. record row { mode = mode_as_str mode }) agent_id workspace t in
    elim touched.0 [
      | false ↦ ok (false, t)
      | true ↦ policy_row p >>= λ row.
          require (policy_checks row) sqlx_error
          >> ok (
            true,
            record touched.1 { agent_policies = upsert_row agent_id row touched.1.agent_policies },
          )
    ]

-- `SELECT .. FROM agents LEFT JOIN agent_policies`, one agent.
unfoldable pub get_agent : Bytes → Option Bytes → Control → Result DbError (Option AgentRecord)
get_agent agent_id workspace t = elim (find agent_id t.agents) [
  | none ↦ ok none
  | some row ↦
      if in_scope workspace row.workspace_id
      then agent_from_row agent_id row (find agent_id t.agent_policies) >>= (λ a. ok (some a))
      else ok none
]

-- `agent_pubkey` is unique.
unfoldable pub pubkey_record :
    Bytes → Table AgentRow → Table PolicyRow → Result DbError (Option AgentRecord)
pubkey_record agent_pubkey [] policies = ok none
pubkey_record agent_pubkey ((k, row) ∷ rows) policies =
    let rest = pubkey_record agent_pubkey rows policies in
    if bytes_eq agent_pubkey row.agent_pubkey
    then agent_from_row k row (find k policies) >>= (λ a. ok (some a))
    else rest

unfoldable pub get_agent_by_pubkey : Bytes → Control → Result DbError (Option AgentRecord)
get_agent_by_pubkey agent_pubkey t = pubkey_record agent_pubkey t.agents t.agent_policies

-- The agents that the caller may see, the newest first.
unfoldable pub listed_agents :
    Option Bytes → Table AgentRow → Table PolicyRow → Result DbError (List AgentRecord)
listed_agents workspace [] policies = ok []
listed_agents workspace ((k, row) ∷ rows) policies =
    let rest = listed_agents workspace rows policies in
    if in_scope workspace row.workspace_id
    then rest
      >>= (λ records. agent_from_row k row (find k policies) >>= λ a. ok (records ++ (a ∷ [])))
    else rest

unfoldable pub list_agents : Option Bytes → Control → Result DbError (List AgentRecord)
list_agents workspace t = listed_agents workspace t.agents t.agent_policies
