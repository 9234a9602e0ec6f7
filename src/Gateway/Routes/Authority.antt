-- ===== src/Gateway/Routes/Authority.antt =====
-- `enforce_agent_policy` of gateway/src/routes.rs. The control plane's tables (SQL) are parameters:
-- what each query answers, `none` where the query fails. What the handler makes them do is its list of
-- effects, in order.
use agentpay.Prelude.{
  ℕ, ◌≤◌, ◌≡◌, refl, Bool, true, false, Option, none, some, List, [], ◌∷◌, ◌⊎◌, inl, inr, Result,
  ok, err, if◌then◌else◌,
}
use agentpay.Prelude.Words.{u64_max}
use agentpay.Prelude.Bytes.{Bytes}
use agentpay.Gateway.Policy.{
  AgentStatus, active, suspended, AgentPolicy, Spend, PolicyDecision, allow, needs_approval, refuse,
  evaluate,
}
use agentpay.Gateway.Policy.Rules.{Within, Asked, evaluate_iff}
use agentpay.Gateway.Reason.{
  ReasonCode, err_control_plane_unavailable, err_agent_policy_required, err_agent_suspended,
  err_approval_required,
}
use agentpay.Gateway.Control.{AgentRecord}
use agentpay.Gateway.Routes.{policy_denial}

pub record AgentIdentity : Type 0 where
  pub agent_id : Option Bytes
  pub workspace_id : Option Bytes

-- What the queries about this agent, resource and price answer.
pub record Db : Type 0 where
  pub get_agent_by_pubkey : Option (Option AgentRecord)
  pub agent_spend : Option Spend
  pub consume_approval : Option Bool
  pub has_pending_approval : Option Bool

-- A row written: a metered decision, a consumed approval, a raised proposal.
pub data Effect : Type 0 where
  metered : ReasonCode → Effect
  consumed raised : Effect

abbrev pub Enforced : Type 0
Enforced = Result ReasonCode AgentIdentity × List Effect

abbrev pub anonymous : AgentIdentity
anonymous = record { agent_id = none; workspace_id = none }

abbrev pub identity_of : AgentRecord → AgentIdentity
identity_of a = record { agent_id = some a.agent_id; workspace_id = a.workspace_id }

abbrev pub raise : Option Bool → List Effect
raise (some false) = raised ∷ metered err_approval_required ∷ []
raise (some true) = metered err_approval_required ∷ []
raise none = metered err_approval_required ∷ []

abbrev pub ask : Db → AgentRecord → Option Bool → Enforced
ask db a (some true) = (ok (identity_of a), consumed ∷ [])
ask db a (some false) = (err err_approval_required, raise db.has_pending_approval)
ask db a none = (err err_control_plane_unavailable, [])

abbrev pub decide : Db → AgentRecord → PolicyDecision → Enforced
decide db a allow = (ok (identity_of a), [])
decide db a (refuse r) = (err (policy_denial r), metered (policy_denial r) ∷ [])
decide db a needs_approval = ask db a db.consume_approval

abbrev pub with_policy : Db → AgentRecord → AgentPolicy → Bytes → ℕ → Option Spend → Enforced
with_policy db a policy resource price none = (err err_control_plane_unavailable, [])
with_policy db a policy resource price (some spend) =
    decide db a (evaluate a.status a.mode policy resource price spend)

abbrev pub unrestricted : Bool → AgentIdentity → ReasonCode → Enforced
unrestricted require_policy identity code =
    if require_policy then (err code, []) else (ok identity, [])

abbrev pub with_agent :
    Bool → Db → AgentRecord → Bytes → ℕ → AgentStatus → Option AgentPolicy → Enforced
with_agent require_policy db a resource price suspended policy =
    (err err_agent_suspended, metered err_agent_suspended ∷ [])
with_agent require_policy db a resource price active none =
    unrestricted require_policy (identity_of a) err_agent_policy_required
with_agent require_policy db a resource price active (some policy) =
    with_policy db a policy resource price db.agent_spend

abbrev pub with_record : Bool → Db → Bytes → ℕ → Option (Option AgentRecord) → Enforced
with_record require_policy db resource price none = (err err_control_plane_unavailable, [])
with_record require_policy db resource price (some none) =
    unrestricted require_policy anonymous err_agent_policy_required
with_record require_policy db resource price (some (some a)) =
    with_agent require_policy db a resource price a.status a.policy

unfoldable pub enforce_agent_policy : Bool → Option Db → Bytes → ℕ → Enforced
enforce_agent_policy require_policy none resource price =
    unrestricted require_policy anonymous err_control_plane_unavailable
enforce_agent_policy require_policy (some db) resource price =
    with_record require_policy db resource price db.get_agent_by_pubkey

-- The policies that the tables hold have totals that are u64s.
abbrev pub PolicyWords : Option Db → Type 0
PolicyWords none = Unit {0}
PolicyWords (some db) =
    (a : AgentRecord) (p : AgentPolicy)
    → db.get_agent_by_pubkey ≡ some (some a)
    → a.policy ≡ some p
    → p.max_total ≤ u64_max

-- A purchase that a policy lets pass: inside the envelope, and approved if a person is asked.
abbrev pub Covered : Db → AgentRecord → AgentPolicy → Bytes → ℕ → Type 0
Covered db a p resource price =
    (spend : Spend) × (db.agent_spend ≡ some spend)
    × Within a.status p resource price spend
    × ((¬ Asked a.mode p.approval_threshold price) ⊎ (db.consume_approval ≡ some true))

-- An agent that the tables hold is active, and its policy covers the purchase; what is not held is
-- let pass only where no policy is required.
abbrev pub Authorised : Bool → Option Db → Bytes → ℕ → Type 0
Authorised require_policy none resource price = require_policy ≡ false
Authorised require_policy (some db) resource price =
    ((db.get_agent_by_pubkey ≡ some none) × (require_policy ≡ false))
    ⊎ ((a : AgentRecord) × (db.get_agent_by_pubkey ≡ some (some a))
        × (a.status ≡ active)
        × (((a.policy ≡ none) × (require_policy ≡ false))
            ⊎ ((p : AgentPolicy) × (a.policy ≡ some p) × Covered db a p resource price)))

abbrev Granted : Enforced → Type 0
Granted x = (i : AgentIdentity) × (x.0 ≡ ok i)

ask-Granted : (db : Db) (a : AgentRecord) (o : Option Bool) → Granted (ask db a o) → o ≡ some true
ask-Granted db a (some true) g = refl
ask-Granted db a (some false) (i, h) = cc
ask-Granted db a none (i, h) = cc

decide-Granted :
    (db : Db) (a : AgentRecord) (d : PolicyDecision)
    → Granted (decide db a d)
    → (d ≡ allow) ⊎ ((d ≡ needs_approval) × (db.consume_approval ≡ some true))
decide-Granted db a allow g = inl refl
decide-Granted db a needs_approval g = inr (refl, ask-Granted db a db.consume_approval g)
decide-Granted db a (refuse r) (i, h) = absurd (cc)

with_policy-Granted :
    (db : Db) (a : AgentRecord) (p : AgentPolicy) (resource : Bytes) (price : ℕ) (o : Option Spend)
    → p.max_total ≤ u64_max
    → db.agent_spend ≡ o
    → Granted (with_policy db a p resource price o)
    → Covered db a p resource price
with_policy-Granted db a p resource price none w e (i, h) = absurd (cc)
with_policy-Granted db a p resource price (some spend) w e g =
    let (allowed, asked, refused) = evaluate_iff a.status a.mode p resource price spend w in
    elim (decide-Granted db a (evaluate a.status a.mode p resource price spend) g) [
      | inl d ↦ (spend, e, (allowed.0 d).0, inl (allowed.0 d).1)
      | inr (d, approved) ↦ (spend, e, (asked.0 d).0, inr approved)
    ]

unrestricted-Granted :
    (b : Bool) (i : AgentIdentity) (c : ReasonCode) → Granted (unrestricted b i c) → b ≡ false
unrestricted-Granted true i c (j, h) = cc
unrestricted-Granted false i c g = refl

with_agent-Granted :
    (b : Bool) (db : Db) (a : AgentRecord) (resource : Bytes) (price : ℕ) (s : AgentStatus)
    (o : Option AgentPolicy)
    → a.status ≡ s
    → a.policy ≡ o
    → ((p : AgentPolicy) → a.policy ≡ some p → p.max_total ≤ u64_max)
    → Granted (with_agent b db a resource price s o)
    → (a.status ≡ active)
      × (((a.policy ≡ none) × (b ≡ false))
          ⊎ ((p : AgentPolicy) × (a.policy ≡ some p) × Covered db a p resource price))
with_agent-Granted b db a resource price suspended o e f w (i, h) = absurd (cc)
with_agent-Granted b db a resource price active none e f w g =
    (e, inl (f, unrestricted-Granted b (identity_of a) err_agent_policy_required g))
with_agent-Granted b db a resource price active (some p) e f w g =
    (e, inr (p, f, with_policy-Granted db a p resource price db.agent_spend (w p f) refl g))

with_record-Granted :
    (b : Bool) (db : Db) (resource : Bytes) (price : ℕ) (o : Option (Option AgentRecord))
    → PolicyWords (some db)
    → db.get_agent_by_pubkey ≡ o
    → Granted (with_record b db resource price o)
    → Authorised b (some db) resource price
with_record-Granted b db resource price none w e (i, h) = absurd (cc)
with_record-Granted b db resource price (some none) w e g =
    inl (e, unrestricted-Granted b anonymous err_agent_policy_required g)
with_record-Granted b db resource price (some (some a)) w e g =
    let (running, cover) =
      with_agent-Granted b db a resource price a.status a.policy refl refl (λ p f. w a p e f) g in
    inr (a, e, running, cover)

-- A purchase that is let pass is authorised: a suspended agent never gets one through, nor does a
-- query that fails; an agent with a policy gets one through only inside its envelope, and where a
-- person is to be asked only on an approval that is consumed; an agent without a record or a
-- policy only if none is required. The totals of the policies are u64s.
pub enforce_agent_policy-Authorised :
    (require_policy : Bool) (db : Option Db) (resource : Bytes) (price : ℕ) (i : AgentIdentity)
    → PolicyWords db
    → (enforce_agent_policy require_policy db resource price).0 ≡ ok i
    → Authorised require_policy db resource price
unfolding enforce_agent_policy
enforce_agent_policy-Authorised b none resource price i w h =
    unrestricted-Granted b anonymous err_control_plane_unavailable (i, h)
enforce_agent_policy-Authorised b (some db) resource price i w h =
    with_record-Granted b db resource price db.get_agent_by_pubkey w refl (i, h)
