-- ===== src/Gateway/Admin/Planner/Choice.antt =====
-- The planner's recommendation.
use agentpay.Prelude.{
  ℕ, ◌≤◌, ◌<◌, ◌≡◌, ◌⊎◌, inl, inr, refl, ap, false, Option, none, some, List, [], ◌∷◌, arith,
  Bool-cases, if◌then◌else◌, leb, ltb,
}
use agentpay.Prelude.Bytes.{Bytes}
use agentpay.Gateway.Policy.{Spend}
use agentpay.Gateway.Control.{AgentRecord}
use agentpay.Gateway.Registry.{CatalogueEntry}
use agentpay.Gateway.Admin.Planner.{PlanOption, cheapest, recommended, options_of, plan_options}

abbrev pub IsOffered : PlanOption → List PlanOption → Type 0
IsOffered p [] = ⊥
IsOffered p (o ∷ os) = (p ≡ o) ⊎ IsOffered p os

-- An option that affords a call, and none that does is cheaper; or there is none.
abbrev pub Chosen : List PlanOption → Option PlanOption → Type 0
Chosen os none = (p : PlanOption) → IsOffered p os → p.affordable_calls ≡ 0
Chosen os (some o) =
    IsOffered o os
    × (0 < o.affordable_calls)
    × ((p : PlanOption) → IsOffered p os → 0 < p.affordable_calls → o.unit_price ≤ p.unit_price)

skip-Chosen :
    (o : PlanOption) (os : List PlanOption) (best : Option PlanOption)
    → ltb 0 o.affordable_calls ≡ false
    → Chosen os best
    → Chosen (o ∷ os) best
skip-Chosen o os none idle c = λ p at. elim at [
  | inl same ↦ ground (arith, ap (λ (x : PlanOption). x.affordable_calls) same)
  | inr later ↦ c p later
]
skip-Chosen o os (some best) idle (at, usable, least) = (
  inr at,
  usable,
  λ p offered h. elim offered [
    | inl same ↦ absurd (ground (arith, ap (λ (x : PlanOption). x.affordable_calls) same))
    | inr later ↦ least p later h
  ],
)

first-Chosen :
    (o : PlanOption) (os : List PlanOption) (best : Option PlanOption)
    → 0 < o.affordable_calls
    → Chosen os best
    → Chosen (o ∷ os) (elim best [
      | none ↦ some o
      | some b ↦ if leb o.unit_price b.unit_price then some o else some b
    ])
first-Chosen o os none usable c = (
  inl refl,
  usable,
  λ p offered h. elim offered [
    | inl same ↦ omega (arith, ap (λ (x : PlanOption). x.unit_price) same)
    | inr later ↦ absurd (omega (arith, c p later))
  ],
)
first-Chosen o os (some b) usable (at, works, least) =
    elim (Bool-cases (leb o.unit_price b.unit_price)) [
      | inl below ↦ rw below (
        inl refl,
        usable,
        λ p offered h. elim offered [
          | inl same ↦ omega (arith, ap (λ (x : PlanOption). x.unit_price) same)
          | inr later ↦ ground (arith, below, least p later h)
        ],
      )
      | inr above ↦ rw above (
        inr at,
        works,
        λ p offered h. elim offered [
          | inl same ↦ ground (arith, above, ap (λ (x : PlanOption). x.unit_price) same)
          | inr later ↦ least p later h
        ],
      )
    ]

cheapest-Chosen : (os : List PlanOption) → Chosen os (cheapest os)
unfolding cheapest
cheapest-Chosen [] = λ p at. absurd at
cheapest-Chosen (o ∷ os) = elim (Bool-cases (ltb 0 o.affordable_calls)) [
  | inl usable ↦
      rw usable (first-Chosen o os (cheapest os) (ground (arith, usable)) (cheapest-Chosen os))
  | inr idle ↦ rw idle (skip-Chosen o os (cheapest os) idle (cheapest-Chosen os))
]

-- The provider that a plan recommends, if any, is the one of an option that affords at least one
-- call and than which no such option is cheaper; if none is recommended, no option affords a call.
pub plan_options-Chosen :
    (agent : AgentRecord) (spend : Spend) (wanted : Bytes) (calls : ℕ)
    (entries : List CatalogueEntry)
    → (best : Option PlanOption) × ((plan_options agent spend wanted calls entries).1
        ≡ recommended best)
      × Chosen (plan_options agent spend wanted calls entries).0 best
unfolding plan_options
plan_options-Chosen agent spend wanted calls entries =
    let os = options_of agent spend wanted calls entries in (cheapest os, refl, cheapest-Chosen os)
