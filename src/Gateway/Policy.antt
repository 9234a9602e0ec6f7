-- ===== src/Gateway/Policy.antt =====
-- The permission envelope of an agent, gateway/src/policy.rs. Strings are lists of code points.
pub mod Rules
pub mod Resources
use agentpay.Prelude.{
  ℕ, Bool, true, false, not, ◌||◌, ◌&&◌, Option, none, some, List, [], ◌∷◌, ltb, leb, ◌==◌,
  if◌then◌else◌,
}
use agentpay.Prelude.Bytes.{bytes_eq, codes}
use agentpay.Prelude.Words.{checked_add}

pub data AgentMode : Type 0 where
  human autonomous : AgentMode

pub data AgentStatus : Type 0 where
  active suspended : AgentStatus

-- `AgentMode::as_str`, `AgentStatus::as_str`
unfoldable pub mode_as_str : AgentMode → List ℕ
mode_as_str human = codes "human"
mode_as_str autonomous = codes "autonomous"

unfoldable pub status_as_str : AgentStatus → List ℕ
status_as_str active = codes "active"
status_as_str suspended = codes "suspended"

unfoldable pub from_str_or_human : List ℕ → AgentMode
from_str_or_human s = if bytes_eq s (codes "autonomous") then autonomous else human

unfoldable pub from_str_or_suspended : List ℕ → AgentStatus
from_str_or_suspended s = if bytes_eq s (codes "active") then active else suspended

pub record AgentPolicy : Type 0 where
  pub max_total : ℕ
  pub max_per_call : ℕ
  pub approval_threshold : Option ℕ
  pub allowed_resources : Option (List (List ℕ))
  pub max_calls : Option ℕ

pub record Spend : Type 0 where
  pub spent : ℕ
  pub calls : ℕ

-- `PolicyRefusal::Suspended` is `agent_suspended`: `suspended` is a status already.
pub data PolicyRefusal : Type 0 where
  agent_suspended resource_not_allowed price_cap budget call_limit : PolicyRefusal

pub data PolicyDecision : Type 0 where
  allow needs_approval : PolicyDecision
  refuse : PolicyRefusal → PolicyDecision

unfoldable pub refusal_as_str : PolicyRefusal → List ℕ
refusal_as_str agent_suspended = codes "ERR_AGENT_SUSPENDED"
refusal_as_str resource_not_allowed = codes "ERR_POLICY_RESOURCE_NOT_ALLOWED"
refusal_as_str price_cap = codes "ERR_POLICY_PRICE_CAP"
refusal_as_str budget = codes "ERR_POLICY_BUDGET"
refusal_as_str call_limit = codes "ERR_POLICY_CALL_LIMIT"

-- `char::is_whitespace`, the Unicode property White_Space, which `str::trim` uses.
abbrev pub is_whitespace : ℕ → Bool
is_whitespace c =
    (leb 9 c && leb c 13)
    || c == 32
    || c == 133
    || c == 160
    || c == 5760
    || (leb 8192 c && leb c 8202)
    || c == 8232
    || c == 8233
    || c == 8239
    || c == 8287
    || c == 12288

abbrev pub is_slash : ℕ → Bool
is_slash c = c == 47

abbrev pub is_question : ℕ → Bool
is_question c = c == 63

-- `trim_start_matches`, `trim_end_matches`, and `split(p).next()`
abbrev pub trim_start : (ℕ → Bool) → List ℕ → List ℕ
trim_start p [] = []
trim_start p (x ∷ xs) = if p x then trim_start p xs else x ∷ xs

abbrev pub keep_unless : Bool → ℕ → List ℕ → List ℕ
keep_unless true x [] = []
keep_unless false x [] = x ∷ []
keep_unless b x (y ∷ ys) = x ∷ y ∷ ys

abbrev pub trim_end : (ℕ → Bool) → List ℕ → List ℕ
trim_end p [] = []
trim_end p (x ∷ xs) = keep_unless (p x) x (trim_end p xs)

abbrev pub before_first : (ℕ → Bool) → List ℕ → List ℕ
before_first p [] = []
before_first p (x ∷ xs) = let rest = before_first p xs in if p x then [] else x ∷ rest

unfoldable pub normalise_resource : List ℕ → List ℕ
normalise_resource raw =
    let trimmed = trim_start is_slash (trim_end is_whitespace (trim_start is_whitespace raw)) in
    let without_query = before_first is_question trimmed in 47 ∷ trim_end is_slash without_query

abbrev pub any : (List ℕ → Bool) → List (List ℕ) → Bool
any p [] = false
any p (x ∷ xs) = p x || any p xs

-- The allowlist check.
abbrev pub permitted : Option (List (List ℕ)) → List ℕ → Bool
permitted none resource = true
permitted (some []) resource = true
permitted (some (a ∷ l)) resource =
    any (λ x. bytes_eq (normalise_resource x) (normalise_resource resource)) (a ∷ l)

abbrev pub exhausted : Option ℕ → ℕ → Bool
exhausted none calls = false
exhausted (some limit) calls = leb limit calls

abbrev pub over_budget : Option ℕ → ℕ → Bool
over_budget none max_total = true
over_budget (some projected) max_total = ltb max_total projected

abbrev pub asks : AgentMode → Option ℕ → ℕ → Bool
asks human threshold price = true
asks autonomous none price = false
asks autonomous (some t) price = leb t price

abbrev pub is_active : AgentStatus → Bool
is_active active = true
is_active suspended = false

unfoldable pub evaluate :
    AgentStatus → AgentMode → AgentPolicy → List ℕ → ℕ → Spend → PolicyDecision
evaluate status mode policy resource price so_far =
    if not (is_active status)
    then refuse agent_suspended
    else if not (permitted policy.allowed_resources resource)
    then refuse resource_not_allowed
    else if ltb policy.max_per_call price
    then refuse price_cap
    else if exhausted policy.max_calls so_far.calls
    then refuse call_limit
    else if over_budget (checked_add so_far.spent price) policy.max_total
    then refuse budget
    else if asks mode policy.approval_threshold price
    then needs_approval
    else allow
