-- ===== src/Gateway/Policy/Rules.antt =====
-- What `evaluate` decides.
use agentpay.Prelude.Bytes.{Bytes, codes, bytes_eq, bytes_eq_sound, bytes_eq_refl}
use agentpay.Prelude.{
  ◌⊎◌, inl, inr, refl, Bool, Bool-cases, Option, none, some, [], ◌∷◌, ap, ℕ, ◌+◌, ◌≤◌, ◌<◌, ◌≡◌,
  ◌↔◌, true, false, List, arith,
}
use agentpay.Prelude.Words.{u64_max}
use agentpay.Gateway.Policy.{
  autonomous, from_str_or_suspended, from_str_or_human, status_as_str, mode_as_str, AgentMode,
  AgentStatus, active, AgentPolicy, Spend, PolicyRefusal, agent_suspended, resource_not_allowed,
  price_cap, budget, call_limit, allow, needs_approval, refuse, suspended, permitted, exhausted,
  asks, evaluate, human, any, normalise_resource,
}

-- A resource that stands for one of a list's, and whether a list permits it: no list and an empty
-- one permit everything.
abbrev pub Among : List (List ℕ) → List ℕ → Type 0
Among [] resource = ⊥
Among (a ∷ l) resource = (normalise_resource a ≡ normalise_resource resource) ⊎ Among l resource

abbrev pub Listed : Option (List (List ℕ)) → List ℕ → Type 0
Listed none resource = Unit {0}
Listed (some []) resource = Unit {0}
Listed (some (a ∷ l)) resource = Among (a ∷ l) resource

-- Fewer calls than the limit were made, if there is one.
abbrev pub CallsLeft : Option ℕ → ℕ → Type 0
CallsLeft none calls = Unit {0}
CallsLeft (some limit) calls = calls < limit

-- A person is asked: for every purchase of a human's agent, and from the threshold on, if there is
-- one, for an autonomous agent's.
abbrev pub Asked : AgentMode → Option ℕ → ℕ → Type 0
Asked human threshold price = Unit {0}
Asked autonomous none price = ⊥
Asked autonomous (some threshold) price = threshold ≤ price

any-Among :
    (l : List (List ℕ)) (resource : List ℕ)
    → any (λ x. bytes_eq (normalise_resource x) (normalise_resource resource)) l ≡ true
    → Among l resource
any-Among [] resource h = absurd (cc)
any-Among (a ∷ l) resource h =
    elim (Bool-cases (bytes_eq (normalise_resource a) (normalise_resource resource))) [
      | inl same ↦ inl (bytes_eq_sound (normalise_resource a) (normalise_resource resource) same)
      | inr other ↦ inr (any-Among l resource (rw other at h))
    ]

Among-any :
    (l : List (List ℕ)) (resource : List ℕ)
    → Among l resource
    → any (λ x. bytes_eq (normalise_resource x) (normalise_resource resource)) l ≡ true
Among-any [] resource h = absurd h
Among-any (a ∷ l) resource (inl same) = rw (same, bytes_eq_refl (normalise_resource resource)) refl
Among-any (a ∷ l) resource (inr later) = ground (arith, Among-any l resource later)

permitted_iff :
    (list : Option (List (List ℕ))) (resource : List ℕ)
    → (permitted list resource ≡ true) ↔ Listed list resource
permitted_iff none resource = (λ h. tt, λ h. refl)
permitted_iff (some []) resource = (λ h. tt, λ h. refl)
permitted_iff (some (a ∷ l)) resource = (any-Among (a ∷ l) resource, Among-any (a ∷ l) resource)

exhausted_iff :
    (limit : Option ℕ) (calls : ℕ) → (exhausted limit calls ≡ false) ↔ CallsLeft limit calls
exhausted_iff none calls = (λ h. tt, λ h. refl)
exhausted_iff (some limit) calls = (λ h. ground arith, λ h. ground arith)

asks_iff :
    (mode : AgentMode) (threshold : Option ℕ) (price : ℕ)
    → (asks mode threshold price ≡ true) ↔ Asked mode threshold price
asks_iff human threshold price = (λ h. tt, λ h. refl)
asks_iff autonomous none price = (λ h. cc, λ h. absurd h)
asks_iff autonomous (some t) price = (λ h. ground arith, λ h. ground arith)

-- A test that decides a type refutes it by `false`, and the other way round.
refuted : {P : Type 0} (b : Bool) → (b ≡ true) ↔ P → (b ≡ false) ↔ (¬ P)
refuted true d = (λ h. absurd (cc), λ h. absurd (h (d.0 refl)))
refuted false d = (λ h p. absurd (ground (arith, d.1 p)), λ h. refl)

confirmed : {P : Type 0} (b : Bool) → (b ≡ false) ↔ P → (b ≡ true) ↔ (¬ P)
confirmed true d = (λ h p. absurd (ground (arith, d.1 p)), λ h. refl)
confirmed false d = (λ h. absurd (cc), λ h. absurd (h (d.0 refl)))

-- What each outcome of the tests on an envelope says.
pub tests :
    (mode : AgentMode) (policy : AgentPolicy) (resource : List ℕ) (price : ℕ) (so_far : Spend)
    → ((permitted policy.allowed_resources resource ≡ true)
        ↔ Listed policy.allowed_resources resource)
      × ((permitted policy.allowed_resources resource ≡ false)
          ↔ (¬ Listed policy.allowed_resources resource))
      × ((exhausted policy.max_calls so_far.calls ≡ false)
          ↔ CallsLeft policy.max_calls so_far.calls)
      × ((exhausted policy.max_calls so_far.calls ≡ true)
          ↔ (¬ CallsLeft policy.max_calls so_far.calls))
      × ((asks mode policy.approval_threshold price ≡ true)
          ↔ Asked mode policy.approval_threshold price)
      × ((asks mode policy.approval_threshold price ≡ false)
          ↔ (¬ Asked mode policy.approval_threshold price))
tests mode policy resource price so_far =
    let listed = permitted_iff policy.allowed_resources resource in
    let left = exhausted_iff policy.max_calls so_far.calls in
    let asked = asks_iff mode policy.approval_threshold price in
    (
      listed,
      refuted (permitted policy.allowed_resources resource) listed,
      left,
      confirmed (exhausted policy.max_calls so_far.calls) left,
      asked,
      refuted (asks mode policy.approval_threshold price) asked,
    )

-- The purchase is inside the envelope.
pub record Within (status : AgentStatus) (policy : AgentPolicy) (resource : List ℕ) (price : ℕ)
    (so_far : Spend) : Type 0 where
  pub running : status ≡ active
  pub listed : Listed policy.allowed_resources resource
  pub capped : price ≤ policy.max_per_call
  pub calls_left : CallsLeft policy.max_calls so_far.calls
  pub funded : so_far.spent + price ≤ policy.max_total

-- The rule that a refusal names, behind those that are checked before it.
abbrev pub Breaks : PolicyRefusal → AgentStatus → AgentPolicy → List ℕ → ℕ → Spend → Type 0
Breaks agent_suspended status policy resource price so_far = status ≡ suspended
Breaks resource_not_allowed status policy resource price so_far =
    (status ≡ active) × (¬ Listed policy.allowed_resources resource)
Breaks price_cap status policy resource price so_far =
    (status ≡ active) × Listed policy.allowed_resources resource × (policy.max_per_call < price)
Breaks call_limit status policy resource price so_far =
    (status ≡ active)
    × Listed policy.allowed_resources resource
    × (price ≤ policy.max_per_call)
    × (¬ CallsLeft policy.max_calls so_far.calls)
Breaks budget status policy resource price so_far =
    (status ≡ active)
    × Listed policy.allowed_resources resource
    × (price ≤ policy.max_per_call)
    × CallsLeft policy.max_calls so_far.calls
    × (policy.max_total < so_far.spent + price)

allow_iff :
    (status : AgentStatus) (mode : AgentMode) (policy : AgentPolicy) (resource : List ℕ) (price : ℕ)
    (so_far : Spend)
    → policy.max_total ≤ u64_max
    → (evaluate status mode policy resource price so_far ≡ allow) ↔ (
        Within status policy resource price so_far × (¬ Asked mode policy.approval_threshold price))
unfolding evaluate
allow_iff active mode policy resource price so_far h =
    ground (arith, tests mode policy resource price so_far)
allow_iff suspended mode policy resource price so_far h =
    ground (arith, tests mode policy resource price so_far)

approval_iff :
    (status : AgentStatus) (mode : AgentMode) (policy : AgentPolicy) (resource : List ℕ) (price : ℕ)
    (so_far : Spend)
    → policy.max_total ≤ u64_max
    → (evaluate status mode policy resource price so_far ≡ needs_approval)
      ↔ (Within status policy resource price so_far × Asked mode policy.approval_threshold price)
unfolding evaluate
approval_iff active mode policy resource price so_far h =
    ground (arith, tests mode policy resource price so_far)
approval_iff suspended mode policy resource price so_far h =
    ground (arith, tests mode policy resource price so_far)

refuse_iff :
    (x : PolicyRefusal) (status : AgentStatus) (mode : AgentMode) (policy : AgentPolicy)
    (resource : List ℕ) (price : ℕ) (so_far : Spend)
    → policy.max_total ≤ u64_max
    → (evaluate status mode policy resource price so_far ≡ refuse x)
      ↔ Breaks x status policy resource price so_far
unfolding evaluate
refuse_iff agent_suspended active mode policy resource price so_far h =
    ground (arith, tests mode policy resource price so_far)
refuse_iff agent_suspended suspended mode policy resource price so_far h =
    ground (arith, tests mode policy resource price so_far)
refuse_iff resource_not_allowed active mode policy resource price so_far h =
    ground (arith, tests mode policy resource price so_far)
refuse_iff resource_not_allowed suspended mode policy resource price so_far h =
    ground (arith, tests mode policy resource price so_far)
refuse_iff price_cap active mode policy resource price so_far h =
    ground (arith, tests mode policy resource price so_far)
refuse_iff price_cap suspended mode policy resource price so_far h =
    ground (arith, tests mode policy resource price so_far)
refuse_iff call_limit active mode policy resource price so_far h =
    ground (arith, tests mode policy resource price so_far)
refuse_iff call_limit suspended mode policy resource price so_far h =
    ground (arith, tests mode policy resource price so_far)
refuse_iff budget active mode policy resource price so_far h =
    ground (arith, tests mode policy resource price so_far)
refuse_iff budget suspended mode policy resource price so_far h =
    ground (arith, tests mode policy resource price so_far)

pub evaluate_iff :
    (status : AgentStatus) (mode : AgentMode) (policy : AgentPolicy) (resource : List ℕ) (price : ℕ)
    (so_far : Spend)
    → policy.max_total ≤ u64_max
    → ((evaluate status mode policy resource price so_far ≡ allow) ↔ (
        Within status policy resource price so_far
        × (¬ Asked mode policy.approval_threshold price)))
      × ((evaluate status mode policy resource price so_far ≡ needs_approval) ↔ (
          Within status policy resource price so_far × Asked mode policy.approval_threshold price))
      × ((x : PolicyRefusal)
          → (evaluate status mode policy resource price so_far ≡ refuse x)
            ↔ Breaks x status policy resource price so_far)
evaluate_iff status mode policy resource price so_far h = (
  allow_iff status mode policy resource price so_far h,
  approval_iff status mode policy resource price so_far h,
  λ x. refuse_iff x status mode policy resource price so_far h,
)

status_fails_closed : (s : Bytes) → (from_str_or_suspended s ≡ active) ↔ (s ≡ status_as_str active)
unfolding from_str_or_suspended status_as_str
status_fails_closed s =
    (λ h. ground (arith, bytes_eq_sound s (codes "active")), λ e. ap from_str_or_suspended e)

mode_fails_closed : (s : Bytes) → (from_str_or_human s ≡ autonomous) ↔ (s ≡ mode_as_str autonomous)
unfolding from_str_or_human mode_as_str
mode_fails_closed s =
    (λ h. ground (arith, bytes_eq_sound s (codes "autonomous")), λ e. ap from_str_or_human e)

-- A stored text grants spending, or spending without a person, only if it is exactly the text that
-- is written for it: whatever else a column holds reads as suspended, or as human.
pub stored_texts_fail_closed :
    (s : Bytes)
    → ((from_str_or_suspended s ≡ active) ↔ (s ≡ status_as_str active))
      × ((from_str_or_human s ≡ autonomous) ↔ (s ≡ mode_as_str autonomous))
stored_texts_fail_closed s = (status_fails_closed s, mode_fails_closed s)
