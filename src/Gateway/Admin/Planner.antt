-- ===== src/Gateway/Admin/Planner.antt =====
-- The planner, `plan_options` of gateway/src/control.rs: how many calls an envelope affords at each
-- provider's price, and which offer it would take. The registry's answer is a list of entries;
-- prices stand as numbers where the answer writes them in decimal.
pub mod Affords
pub mod Choice
use agentpay.Prelude.{
  ℕ, zero, suc, ◌+◌, ◌*◌, Bool, true, false, Option, none, some, List, [], ◌∷◌, ltb, leb,
  if◌then◌else◌,
}
use agentpay.Prelude.Bytes.{Bytes, bytes_eq}
use agentpay.Prelude.Words.{u64_max}
use agentpay.Gateway.Claim.{parse_u64}
use agentpay.Gateway.Policy.{
  AgentMode, AgentStatus, AgentPolicy, Spend, PolicyDecision, PolicyRefusal, allow, needs_approval,
  refuse, refusal_as_str, evaluate, trim_start, trim_end, is_whitespace,
}
use agentpay.Gateway.Control.{AgentRecord}
use agentpay.Gateway.Registry.{CatalogueEntry}

pub record PlanOption : Type 0 where
  pub provider_id : Bytes
  pub provider_label : Bytes
  pub resource : Bytes
  pub unit_price : ℕ
  pub affordable_calls : ℕ
  pub total_cost : ℕ
  pub sufficient : Bool
  pub refused_by : Option Bytes
  pub needs_approval : Bool

abbrev pub u32_max : ℕ
u32_max = 4294967295

-- `saturating_add` and `saturating_mul`, at the largest value of the type.
abbrev pub saturating : ℕ → ℕ → ℕ
saturating max n = if leb n max then n else max

-- `parse_amount`
unfoldable pub parse_amount : Bytes → Option ℕ
parse_amount s = parse_u64 (trim_end is_whitespace (trim_start is_whitespace s))

abbrev pub is_refusal : PolicyDecision → Bool
is_refusal allow = false
is_refusal needs_approval = false
is_refusal (refuse r) = true

-- What one more call is assumed to add.
abbrev pub charged : ℕ → Spend → Spend
charged unit running = record {
  spent = saturating u64_max (running.spent + unit);
  calls = saturating u32_max (running.calls + 1);
}

-- The loop: `left` is `calls - n`.
unfoldable pub walk : AgentStatus → AgentMode → AgentPolicy → Bytes → ℕ → ℕ → ℕ → Spend → ℕ
walk status mode policy resource unit zero n running = n
walk status mode policy resource unit (suc left) n running =
    let rest = walk status mode policy resource unit left (suc n) (charged unit running) in
    if is_refusal (evaluate status mode policy resource unit running) then n else rest

-- How many calls, the rule that stops them, and whether a person is asked.
abbrev pub counted :
    AgentRecord → AgentPolicy → Bytes → ℕ → ℕ → Spend → PolicyDecision → ℕ × Option Bytes × Bool
counted agent policy resource unit calls spend (refuse r) = (0, some (refusal_as_str r), false)
counted agent policy resource unit calls spend allow =
    (walk agent.status agent.mode policy resource unit calls 0 spend, none, false)
counted agent policy resource unit calls spend needs_approval =
    (walk agent.status agent.mode policy resource unit calls 0 spend, none, true)

unfoldable pub affordable :
    AgentRecord → Bytes → ℕ → ℕ → Spend → Option AgentPolicy → ℕ × Option Bytes × Bool
affordable agent resource unit calls spend none = (calls, none, false)
affordable agent resource unit calls spend (some policy) =
    counted agent policy resource unit calls spend
      (evaluate agent.status agent.mode policy resource unit spend)

unfoldable pub option_for : AgentRecord → Spend → ℕ → CatalogueEntry → ℕ → PlanOption
option_for agent spend calls offer unit =
    let found = affordable agent offer.resource unit calls spend agent.policy in
    record {
      provider_id = offer.provider_id;
      provider_label = offer.provider_label;
      resource = offer.resource;
      unit_price = unit;
      affordable_calls = found.0;
      total_cost = saturating u64_max (found.0 * unit);
      sufficient = leb calls found.0;
      refused_by = found.1;
      needs_approval = found.2;
    }

-- The offers of the wanted resource; one whose price is no u64 is skipped.
unfoldable pub options_of : AgentRecord → Spend → Bytes → ℕ → List CatalogueEntry → List PlanOption
options_of agent spend wanted calls [] = []
options_of agent spend wanted calls (e ∷ es) =
    let rest = options_of agent spend wanted calls es in
    if bytes_eq e.resource wanted
    then elim (parse_amount e.price) [
      | none ↦ rest
      | some unit ↦ option_for agent spend calls e unit ∷ rest
    ]
    else rest

-- `filter(..).min_by_key(..)`: the first of the cheapest.
unfoldable pub cheapest : List PlanOption → Option PlanOption
cheapest [] = none
cheapest (o ∷ os) =
    let rest = cheapest os in
    if ltb 0 o.affordable_calls
    then elim rest [
      | none ↦ some o
      | some best ↦ if leb o.unit_price best.unit_price then some o else some best
    ]
    else rest

abbrev pub recommended : Option PlanOption → Option Bytes
recommended none = none
recommended (some o) = some o.provider_id

unfoldable pub plan_options :
    AgentRecord → Spend → Bytes → ℕ → List CatalogueEntry → List PlanOption × Option Bytes
plan_options agent spend wanted calls entries =
    let options = options_of agent spend wanted calls entries in
    (options, recommended (cheapest options))
