-- ===== src/Gateway/Admin/Planner/Affords.antt =====
-- The planner's count is the number of calls that the envelope lets pass in a row.
use agentpay.Prelude.{
  ℕ, zero, suc, ◌+◌, ◌≤◌, ◌<◌, ◌≡◌, inl, inr, refl, subst, false, some, arith, Bool-cases, le→leb,
  ◌∙◌, ap,
}
use agentpay.Prelude.Bytes.{Bytes}
use agentpay.Prelude.Words.{u64_max}
use agentpay.Gateway.Policy.{
  AgentMode, AgentStatus, AgentPolicy, Spend, PolicyDecision, allow, needs_approval, refuse,
  evaluate, active, suspended,
}
use agentpay.Gateway.Policy.Rules.{Within, tests}
use agentpay.Gateway.Control.{AgentRecord}
use agentpay.Gateway.Admin.Planner.{affordable, counted, u32_max, charged, is_refusal, walk}

-- The spend after so many calls at a price.
abbrev pub after : ℕ → ℕ → Spend → Spend
after unit zero s = s
after unit (suc i) s = after unit i (record { spent = s.spent + unit; calls = s.calls + 1 })

not_refused :
    (status : AgentStatus) (mode : AgentMode) (policy : AgentPolicy) (resource : Bytes) (unit : ℕ)
    (s : Spend)
    → policy.max_total ≤ u64_max
    → is_refusal (evaluate status mode policy resource unit s) ≡ false
    → Within status policy resource unit s
unfolding evaluate
not_refused active mode policy resource unit s bounded h =
    ground (arith, tests mode policy resource unit s)
not_refused suspended mode policy resource unit s bounded h = cc

Within-not_refused :
    (status : AgentStatus) (mode : AgentMode) (policy : AgentPolicy) (resource : Bytes) (unit : ℕ)
    (s : Spend)
    → policy.max_total ≤ u64_max
    → Within status policy resource unit s
    → is_refusal (evaluate status mode policy resource unit s) ≡ false
unfolding evaluate
Within-not_refused active mode policy resource unit s bounded w =
    ground (arith, tests mode policy resource unit s)
Within-not_refused suspended mode policy resource unit s bounded w = ground arith

charged_exactly :
    (unit : ℕ) (s : Spend)
    → s.spent + unit ≤ u64_max
    → s.calls + 1 ≤ u32_max
    → charged unit s ≡ record { spent = s.spent + unit; calls = s.calls + 1 }
charged_exactly unit s a b =
    rw (le→leb (s.spent + unit) u64_max a, le→leb (s.calls + 1) u32_max b) refl

module _ (status : AgentStatus) (mode : AgentMode) (policy : AgentPolicy) (resource : Bytes)
    (unit : ℕ) where
  -- `k` calls pass in a row from a spend, and the next one only if no more were asked for.
  pub record Affords (s : Spend) (left k : ℕ) : Type 0 where
    pub within_request : k ≤ left
    pub each : (i : ℕ) → i < k → Within status policy resource unit (after unit i s)
    pub no_more : k < left → ¬ Within status policy resource unit (after unit k s)
    pub in_budget : 0 < k → (after unit k s).spent ≤ policy.max_total

  grown :
      (left k : ℕ) (s : Spend)
      → Within status policy resource unit s
      → Affords (record { spent = s.spent + unit; calls = s.calls + 1 }) left k
      → Affords s (suc left) (suc k)
  grown left k s w a = record {
    within_request = omega (arith, a.within_request);
    each = λ i h. each_of i h;
    no_more = λ h. a.no_more (omega arith);
    in_budget = λ h. budget_of k a.in_budget;
  }
    where
      each_of : (i : ℕ) → i < suc k → Within status policy resource unit (after unit i s)
      each_of zero h = w
      each_of (suc i) h = a.each i (omega arith)

      budget_of :
          (j : ℕ)
          → (0 < j
              → (after unit j (record { spent = s.spent + unit; calls = s.calls + 1 })).spent
                ≤ policy.max_total)
          → (after unit j (record { spent = s.spent + unit; calls = s.calls + 1 })).spent
            ≤ policy.max_total
      budget_of zero h = w.funded
      budget_of (suc j) h = h (omega arith)

  pub walk-Affords :
      (left n : ℕ) (s : Spend)
      → policy.max_total ≤ u64_max
      → s.calls + left ≤ u32_max
      → (k : ℕ) × (walk status mode policy resource unit left n s ≡ n + k) × Affords s left k
  unfolding walk
  walk-Affords zero n s bounded fits = (
    0,
    omega arith,
    record {
      within_request = omega arith;
      each = λ i h. absurd (omega arith);
      no_more = λ h. absurd (omega arith);
      in_budget = λ h. absurd (omega arith);
    },
  )
  walk-Affords (suc left) n s bounded fits =
      elim (Bool-cases (is_refusal (evaluate status mode policy resource unit s))) [
        | inl stop ↦ (
          0,
          rw stop (omega arith),
          record {
            within_request = omega arith;
            each = λ i h. absurd (omega arith);
            no_more = λ h w.
                ground
                  (arith, Within-not_refused status mode policy resource unit s bounded w, stop);
            in_budget = λ h. absurd (omega arith);
          },
        )
        | inr go ↦
            let w = not_refused status mode policy resource unit s bounded go in
            let s' : Spend = record { spent = s.spent + unit; calls = s.calls + 1 } in
            let (k, same, affords) = walk-Affords left (suc n) s' bounded (omega arith) in
            (
              suc k,
              rw (go, charged_exactly unit s (omega (arith, w.funded)) (omega arith))
                  (same ∙ omega arith),
              grown left k s w affords,
            )
      ]

walked-Affords :
    (agent : AgentRecord) (policy : AgentPolicy) (resource : Bytes) (unit calls : ℕ) (spend : Spend)
    → policy.max_total ≤ u64_max
    → spend.calls + calls ≤ u32_max
    → Affords agent.status agent.mode policy resource unit spend calls
        (walk agent.status agent.mode policy resource unit calls 0 spend)
walked-Affords agent policy resource unit calls spend bounded fits =
    let (k, same, a) =
      walk-Affords agent.status agent.mode policy resource unit calls 0 spend bounded fits in
    subst (Affords agent.status agent.mode policy resource unit spend calls) (omega (arith, same)) a

counted-Affords :
    (agent : AgentRecord) (policy : AgentPolicy) (resource : Bytes) (unit calls : ℕ) (spend : Spend)
    (d : PolicyDecision)
    → policy.max_total ≤ u64_max
    → spend.calls + calls ≤ u32_max
    → evaluate agent.status agent.mode policy resource unit spend ≡ d
    → Affords agent.status agent.mode policy resource unit spend calls
        (counted agent policy resource unit calls spend d).0
counted-Affords agent policy resource unit calls spend allow bounded fits e =
    walked-Affords agent policy resource unit calls spend bounded fits
counted-Affords agent policy resource unit calls spend needs_approval bounded fits e =
    walked-Affords agent policy resource unit calls spend bounded fits
counted-Affords agent policy resource unit calls spend (refuse r) bounded fits e = record {
  within_request = omega arith;
  each = λ i h. absurd (omega arith);
  no_more = λ h w. ground (
    arith,
    ap is_refusal e,
    Within-not_refused agent.status agent.mode policy resource unit spend bounded w,
  );
  in_budget = λ h. absurd (omega arith);
}

-- The planner's count, for an agent whose calls so far and requested fit a u32 and whose budget fits
-- a u64: at most as many calls as asked for, each inside the envelope after those before it, with
-- their whole price inside the budget; and if it is fewer, one more call would not be inside.
pub affordable-Affords :
    (agent : AgentRecord) (policy : AgentPolicy) (resource : Bytes) (unit calls : ℕ) (spend : Spend)
    → policy.max_total ≤ u64_max
    → spend.calls + calls ≤ u32_max
    → Affords agent.status agent.mode policy resource unit spend calls
        (affordable agent resource unit calls spend (some policy)).0
unfolding affordable
affordable-Affords agent policy resource unit calls spend bounded fits =
    counted-Affords agent policy resource unit calls spend
      (evaluate agent.status agent.mode policy resource unit spend) bounded fits refl
