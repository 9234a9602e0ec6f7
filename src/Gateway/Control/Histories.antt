-- ===== src/Gateway/Control/Histories.antt =====
-- Any interleaving of proposals, decisions and purchases, and what one step does to an approval.
use agentpay.Prelude.{
  In, ℕ, ◌≡◌, refl, sym, ap, ◌∙◌, subst, inl, inr, Bool, true, false, some, List, [], ◌∷◌, Result,
  ok, err, arith, Bool-cases, Option-cases, Result-cases, some-eq, >>=-eq-ok, ok-injective, require,
}
use agentpay.Prelude.Int.{ℤ}
use agentpay.Prelude.Bytes.{Bytes, bytes_eq, bytes_eq_sound}
use agentpay.Gateway.Evidence.{sqlx_error}
use agentpay.Gateway.Database.{to_i64}
use agentpay.Gateway.Keyed.{Table, find, find-set_row, find-insert_row}
use agentpay.Gateway.Control.{
  ApprovalRow, ApprovalState, pending, approved, rejected, consumed, Control,
}
use agentpay.Gateway.Control.Approvals.{
  Proposal, Verdict, proposal_row, create_approval, decided_row, decide_approval, is_for,
  same_state, consume_oldest, consume_approval, proposal_checks,
}

pub data ApprovalCall : Type 0 where
  raises : Proposal → ℤ → ApprovalCall
  decides : Verdict → ℤ → ApprovalCall
  spends : Bytes → Bytes → ℕ → ApprovalCall

abbrev pub tables_after {ℓ} : {E : Type ℓ} → Control → Result E Control → Control
tables_after t (ok t') = t'
tables_after t (err e) = t

abbrev pub spent_after {ℓ} : {E : Type ℓ} → Control → Result E (Bool × Control) → Bool × Control
spent_after t (ok x) = x
spent_after t (err e) = (false, t)

-- What the caller is told, and the tables; a proposal only fails or is raised.
unfoldable pub approval_call : ApprovalCall → Control → Bool × Control
approval_call (raises p now) t = (false, tables_after t (create_approval p now t))
approval_call (decides v now) t = decide_approval v now t
approval_call (spends agent_id resource price) t =
    spent_after t (consume_approval agent_id resource price t)

unfoldable pub approval_calls : List ApprovalCall → Control → Control
approval_calls [] t = t
approval_calls (c ∷ cs) t = approval_calls cs (approval_call c t).1

same_state_sound : (a b : ApprovalState) → same_state a b ≡ true → a ≡ b
same_state_sound pending pending h = refl
same_state_sound approved approved h = refl
same_state_sound rejected rejected h = refl
same_state_sound consumed consumed h = refl
same_state_sound pending approved h = cc
same_state_sound pending rejected h = cc
same_state_sound pending consumed h = cc
same_state_sound approved pending h = cc
same_state_sound approved rejected h = cc
same_state_sound approved consumed h = cc
same_state_sound rejected pending h = cc
same_state_sound rejected approved h = cc
same_state_sound rejected consumed h = cc
same_state_sound consumed pending h = cc
same_state_sound consumed approved h = cc
same_state_sound consumed rejected h = cc

hit_state :
    (agent_id resource : Bytes) (price : ℤ) (r : ApprovalRow)
    → is_for agent_id resource price approved r ≡ true
    → r.state ≡ approved
hit_state agent_id resource price r h = same_state_sound r.state approved (ground (arith, h))

module _ (Known : Verdict → ℤ → Type 0) where
  -- One step of an approval.
  pub data Step (r r' : ApprovalRow) : Type 0 where
    stays : r' ≡ r → Step r r'
    decided :
        (v : Verdict) (now : ℤ)
        → Known v now
        → r.state ≡ pending
        → r' ≡ decided_row v now r
        → Step r r'
    spent : r.state ≡ approved → r' ≡ record r { state = consumed } → Step r r'

  pub data Life (r : ApprovalRow) : ApprovalRow → Type 0 where
    here : Life r r
    next : {s u : ApprovalRow} → Life r s → Step s u → Life r u

  Life-after : (r s u : ApprovalRow) → Step r s → Life s u → Life r u
  Life-after r s u st here = next here st
  Life-after r s u st (next l last) = next (Life-after r s _ st l) last

  abbrev Survives : Bytes → ApprovalRow → Table ApprovalRow → Type 0
  Survives key row rows = (row' : ApprovalRow) × (find key rows ≡ some row') × Step row row'

  decide-Survives :
      (key : Bytes) (row : ApprovalRow) (v : Verdict) (now : ℤ) (t : Control)
      → (v.approval_id ≡ key → Known v now)
      → find key t.approvals ≡ some row
      → Survives key row (decide_approval v now t).1.approvals
  unfolding decide_approval
  decide-Survives key row v now t taken e = elim (Bool-cases (bytes_eq key v.approval_id)) [
    | inl same ↦
        let at : find v.approval_id t.approvals ≡ some row =
          ap (λ (x : Bytes). find x t.approvals) (sym (bytes_eq_sound key v.approval_id same))
          ∙ e in
        elim (Bool-cases (same_state row.state pending)) [
          | inl waits ↦
              rw (at, decide_approval, waits)
                (
                  decided_row v now row,
                  rw (find-set_row key v.approval_id (decided_row v now) t.approvals, same, e) refl,
                  decided v now (taken (sym (bytes_eq_sound key v.approval_id same)))
                      (same_state_sound row.state pending waits) refl,
                )
          | inr over ↦ rw (at, decide_approval, over) (row, e, stays refl)
        ]
    | inr other ↦ elim (Option-cases (find v.approval_id t.approvals)) [
      | inl absent ↦ rw (absent, decide_approval) (row, e, stays refl)
      | inr (found, at) ↦ elim (Bool-cases (same_state found.state pending)) [
        | inl waits ↦
            rw (at, decide_approval, waits)
              (
                row,
                rw (find-set_row key v.approval_id (decided_row v now) t.approvals, other) e,
                stays refl,
              )
        | inr over ↦ rw (at, decide_approval, over) (row, e, stays refl)
      ]
    ]
  ]

  consume_oldest-Survives :
      (key : Bytes) (row : ApprovalRow) (agent_id resource : Bytes) (price : ℤ)
      (rows : Table ApprovalRow)
      → find key rows ≡ some row
      → Survives key row (consume_oldest agent_id resource price rows).1
  unfolding consume_oldest find
  consume_oldest-Survives key row agent_id resource price [] e = cc
  consume_oldest-Survives key row agent_id resource price ((k, r) ∷ rows) e =
      elim (Bool-cases (is_for agent_id resource price approved r)) [
        | inl hit ↦ elim (Bool-cases (bytes_eq key k)) [
          | inl same ↦
              let r_is : r ≡ row = some-eq (rw same at e) in
              rw (hit, same)
                (
                  record r { state = consumed },
                  refl,
                  subst (λ (x : ApprovalRow). Step x (record r { state = consumed })) r_is
                      (spent (hit_state agent_id resource price r hit) refl),
                )
          | inr other ↦ rw (hit, other) (row, rw other at e, stays refl)
        ]
        | inr miss ↦ elim (Bool-cases (bytes_eq key k)) [
          | inl same ↦ rw (miss, same) (r, refl, stays (some-eq (rw same at e)))
          | inr other ↦
              rw (miss, other)
                (consume_oldest-Survives key row agent_id resource price rows (rw other at e))
        ]
      ]

  create-Survives :
      (key : Bytes) (row : ApprovalRow) (p : Proposal) (now : ℤ) (t : Control)
      → find key t.approvals ≡ some row
      → Survives key row (tables_after t (create_approval p now t)).approvals
  unfolding create_approval
  create-Survives key row p now t e = elim (Result-cases (create_approval p now t)) [
    | inl (t', h) ↦
        let (price, at, h') = >>=-eq-ok (to_i64 p.price) _ h in
        let (u, passed, same) = >>=-eq-ok (require (proposal_checks p t) sqlx_error) _ h' in
        rw h (
          row,
          subst (λ (x : Control). find key x.approvals ≡ some row) (ok-injective same)
              (rw (find-insert_row key p.approval_id (proposal_row p price now) t.approvals, e)
                refl),
          stays refl,
        )
    | inr (x, h) ↦ rw h (row, e, stays refl)
  ]

  spend-Survives :
      (key : Bytes) (row : ApprovalRow) (agent_id resource : Bytes) (price : ℕ) (t : Control)
      → find key t.approvals ≡ some row
      → Survives key row (spent_after t (consume_approval agent_id resource price t)).1.approvals
  unfolding consume_approval
  spend-Survives key row agent_id resource price t e = elim (Result-cases (to_i64 price)) [
    | inl (stored, h) ↦
        rw h (consume_oldest-Survives key row agent_id resource stored t.approvals e)
    | inr (x, h) ↦ rw h (row, e, stays refl)
  ]

  abbrev TakenBy : Bytes → ApprovalCall → Type 0
  TakenBy key (raises p now) = Unit {0}
  TakenBy key (decides v now) = v.approval_id ≡ key → Known v now
  TakenBy key (spends agent_id resource price) = Unit {0}

  -- The decisions among the calls on one approval are taken.
  abbrev pub AllTaken : Bytes → List ApprovalCall → Type 0
  AllTaken key [] = Unit {0}
  AllTaken key (c ∷ cs) = TakenBy key c × AllTaken key cs

  approval_call-Survives :
      (key : Bytes) (row : ApprovalRow) (c : ApprovalCall) (t : Control)
      → TakenBy key c
      → find key t.approvals ≡ some row
      → Survives key row (approval_call c t).1.approvals
  unfolding approval_call
  approval_call-Survives key row (raises p now) t taken e = create-Survives key row p now t e
  approval_call-Survives key row (decides v now) t taken e = decide-Survives key row v now t taken e
  approval_call-Survives key row (spends agent_id resource price) t taken e =
      spend-Survives key row agent_id resource price t e

  pub approval_calls-Life :
      (key : Bytes) (row : ApprovalRow) (cs : List ApprovalCall) (t : Control)
      → AllTaken key cs
      → find key t.approvals ≡ some row
      → (row' : ApprovalRow) × (find key (approval_calls cs t).approvals ≡ some row')
        × Life row row'
  unfolding approval_calls
  approval_calls-Life key row [] t all e = (row, e, here)
  approval_calls-Life key row (c ∷ cs) t (taken, all) e =
      let (s, f, step) = approval_call-Survives key row c t taken e in
      let (u, g, life) = approval_calls-Life key s cs (approval_call c t).1 all f in
      (u, g, Life-after row s u step life)

pub AllTaken-In :
    (Taken : Verdict → ℤ → Type 0) (key : Bytes) (cs : List ApprovalCall)
    → ((v : Verdict) (now : ℤ) → In (decides v now) cs → v.approval_id ≡ key → Taken v now)
    → AllTaken Taken key cs
AllTaken-In Taken key [] h = tt
AllTaken-In Taken key (raises p now ∷ cs) h =
    (tt, AllTaken-In Taken key cs (λ v n at. h v n (inr at)))
AllTaken-In Taken key (decides v now ∷ cs) h =
    (h v now (inl refl), AllTaken-In Taken key cs (λ w n at. h w n (inr at)))
AllTaken-In Taken key (spends agent_id resource price ∷ cs) h =
    (tt, AllTaken-In Taken key cs (λ v n at. h v n (inr at)))
