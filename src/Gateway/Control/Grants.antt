-- ===== src/Gateway/Control/Grants.antt =====
-- The accounts of approvals: for one agent, resource and price, what is granted is what is spent or
-- still waiting to be.
use agentpay.Prelude.{
  ℕ, ◌+◌, ◌≡◌, refl, ◌∙◌, subst, inl, inr, Bool, true, false, ◌&&◌, none, some, List, [], ◌∷◌, ok,
  arith, Bool-cases, Option-cases, Result-cases, if◌then◌else◌, leb, >>=-eq-ok, ok-injective,
  require,
}
use agentpay.Prelude.Int.{ℤ, pos, eq_ℤ, eq_of_parts}
use agentpay.Prelude.Words.{i64_max}
use agentpay.Prelude.Bytes.{Bytes, bytes_eq, bytes_eq_sound}
use agentpay.Gateway.Evidence.{sqlx_error}
use agentpay.Gateway.Keyed.{Table, find}
use agentpay.Gateway.Database.{to_i64}
use agentpay.Gateway.Control.{ApprovalRow, pending, approved, consumed, Control}
use agentpay.Gateway.Control.Approvals.{
  Proposal, Verdict, proposal_row, proposal_checks, create_approval, decided_row, decide_approval,
  is_for, same_state, consume_oldest, consume_approval,
}
use agentpay.Gateway.Control.Histories.{
  ApprovalCall, raises, decides, spends, approval_call, approval_calls,
}
use agentpay.Gateway.Control.Tally.{
  IsKeyed, tally, set_row-tally, insert_row-tally, set_row-IsKeyed, insert_row-IsKeyed,
  consume_oldest-IsKeyed,
}

-- A purchase asks for the very approvals that are counted.
abbrev pub same_spend : Bytes → Bytes → ℤ → Bytes → Bytes → ℤ → Bool
same_spend a r p b s q = bytes_eq a b && bytes_eq r s && eq_ℤ p q

-- What a purchase may spend counts if the purchase asks for it.
hit_same :
    (a r : Bytes) (p : ℤ) (b s : Bytes) (q : ℤ) (row : ApprovalRow)
    → is_for b s q approved row ≡ true
    → is_for a r p approved row ≡ same_spend a r p b s q
hit_same a r p b s q row hit = ground (
  arith,
  bytes_eq_sound b row.agent_id,
  bytes_eq_sound s row.resource,
  eq_of_parts q row.price,
  hit,
)

not_spendable :
    (a r : Bytes) (p : ℤ) (row : ApprovalRow)
    → is_for a r p approved (record row { state = consumed }) ≡ false
not_spendable a r p row = ground arith

consume_oldest-tally :
    (a r : Bytes) (p : ℤ) (b s : Bytes) (q : ℤ) (rows : Table ApprovalRow)
    → tally (is_for a r p approved) (consume_oldest b s q rows).1
        + (if (consume_oldest b s q rows).0 && same_spend a r p b s q then 1 else 0)
      ≡ tally (is_for a r p approved) rows
unfolding consume_oldest
consume_oldest-tally a r p b s q [] = refl
consume_oldest-tally a r p b s q ((k, row) ∷ rows) = elim (Bool-cases (is_for b s q approved row)) [
  | inl hit ↦ rw (hit, hit_same a r p b s q row hit, not_spendable a r p row) (ground arith)
  | inr miss ↦ rw miss (ground (arith, consume_oldest-tally a r p b s q rows))
]

checked_missing :
    (p : Proposal) (t : Control) (u : Unit {0})
    → require (proposal_checks p t) sqlx_error ≡ ok u
    → find p.approval_id t.approvals ≡ none
checked_missing p t u h = elim (Option-cases (find p.approval_id t.approvals)) [
  | inl absent ↦ absent
  | inr (row, at) ↦ absurd (cc (rw at at h))
]

module _ (agent_id resource : Bytes) (price : ℕ) where
  -- The approvals for this spend that are granted and not spent.
  abbrev pub granted : Control → ℕ
  granted t = tally (is_for agent_id resource (pos price) approved) t.approvals

  -- Decisions that grant one, and purchases that spend one.
  abbrev pub grants : ApprovalCall → Control → ℕ
  grants (raises p now) t = 0
  grants (decides v now) t = elim (find v.approval_id t.approvals) [
    | none ↦ 0
    | some row ↦ if is_for agent_id resource (pos price) pending row && v.is_approved then 1 else 0
  ]
  grants (spends b s q) t = 0

  abbrev pub spending : ApprovalCall → Control → ℕ
  spending (raises p now) t = 0
  spending (decides v now) t = 0
  spending (spends b s q) t =
      if (approval_call (spends b s q) t).0 && same_spend agent_id resource (pos price) b s (pos q)
      then 1
      else 0

  abbrev pub all_grants : List ApprovalCall → Control → ℕ
  all_grants [] t = 0
  all_grants (c ∷ cs) t = grants c t + all_grants cs (approval_call c t).1

  abbrev pub all_spending : List ApprovalCall → Control → ℕ
  all_spending [] t = 0
  all_spending (c ∷ cs) t = spending c t + all_spending cs (approval_call c t).1

  -- One call balances, and keeps the primary key.
  abbrev Balances : ApprovalCall → Control → Type 0
  Balances c t =
      (granted (approval_call c t).1 + spending c t ≡ granted t + grants c t)
      × IsKeyed (approval_call c t).1.approvals

  raise-Balances :
      (p : Proposal) (now : ℤ) (t : Control) → IsKeyed t.approvals → Balances (raises p now) t
  unfolding approval_call create_approval
  raise-Balances p now t keyed = elim (Result-cases (create_approval p now t)) [
    | inl (t', h) ↦
        let (stored, at, h') = >>=-eq-ok (to_i64 p.price) _ h in
        let (u, passed, same) = >>=-eq-ok (require (proposal_checks p t) sqlx_error) _ h' in
        let is_for_it = is_for agent_id resource (pos price) approved in
        rw h (
          subst (λ (x : Control). granted x + 0 ≡ granted t + 0) (ok-injective same)
              (ground (
                arith,
                insert_row-tally is_for_it p.approval_id (proposal_row p stored now) t.approvals,
              )),
          subst (λ (x : Control). IsKeyed x.approvals) (ok-injective same)
              (insert_row-IsKeyed p.approval_id (proposal_row p stored now) t.approvals keyed
                (checked_missing p t u passed)),
        )
    | inr (x, h) ↦ rw h (refl, keyed)
  ]

  decide-Balances :
      (v : Verdict) (now : ℤ) (t : Control) → IsKeyed t.approvals → Balances (decides v now) t
  unfolding approval_call decide_approval
  decide-Balances v now t keyed = elim (Option-cases (find v.approval_id t.approvals)) [
    | inl absent ↦ rw (absent, decide_approval, grants) (refl, keyed)
    | inr (row, at) ↦ elim (Bool-cases (same_state row.state pending)) [
      | inl waits ↦
          let p = is_for agent_id resource (pos price) approved in
          rw (at, decide_approval, waits, grants)
            (
              ground (
                arith,
                waits,
                set_row-tally p v.approval_id (decided_row v now) t.approvals row keyed at,
              ),
              set_row-IsKeyed v.approval_id (decided_row v now) t.approvals keyed,
            )
      | inr over ↦ rw (at, decide_approval, over, grants) (ground arith, keyed)
    ]
  ]

  spend-Balances :
      (b s : Bytes) (q : ℕ) (t : Control) → IsKeyed t.approvals → Balances (spends b s q) t
  unfolding approval_call consume_approval
  spend-Balances b s q t keyed = elim (Bool-cases (leb q i64_max)) [
    | inl fits ↦ rw fits (
      consume_oldest-tally agent_id resource (pos price) b s (pos q) t.approvals ∙ omega arith,
      consume_oldest-IsKeyed b s (pos q) t.approvals keyed,
    )
    | inr large ↦ rw large (omega arith, keyed)
  ]

  call-Balances : (c : ApprovalCall) (t : Control) → IsKeyed t.approvals → Balances c t
  call-Balances (raises p now) t keyed = raise-Balances p now t keyed
  call-Balances (decides v now) t keyed = decide-Balances v now t keyed
  call-Balances (spends b s q) t keyed = spend-Balances b s q t keyed

  -- However proposals, decisions and purchases interleave, where approvals have distinct ids: for
  -- one agent, resource and price, the purchases let through on an approval and the approvals still
  -- granted are together as many as were granted at the start and by decisions since.
  pub approvals_balance :
      (cs : List ApprovalCall) (t : Control)
      → IsKeyed t.approvals
      → granted (approval_calls cs t) + all_spending cs t ≡ granted t + all_grants cs t
  unfolding approval_calls
  approvals_balance [] t keyed = refl
  approvals_balance (c ∷ cs) t keyed =
      let (balance, keyed') = call-Balances c t keyed in
      omega (arith, balance, approvals_balance cs (approval_call c t).1 keyed')
