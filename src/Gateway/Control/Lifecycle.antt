-- ===== src/Gateway/Control/Lifecycle.antt =====
-- The life of an approval under any interleaving of proposals, decisions and purchases: it is decided
-- at most once and spent at most once.
use agentpay.Prelude.{
  In, ◌≡◌, refl, sym, ap, ◌∙◌, subst, inl, inr, true, some, List, arith, if◌then◌else◌, ◌⊎◌,
}
use agentpay.Prelude.Int.{ℤ}
use agentpay.Prelude.Bytes.{Bytes}
use agentpay.Gateway.Keyed.{find}
use agentpay.Gateway.Control.{
  ApprovalRow, ApprovalState, pending, approved, rejected, consumed, Control,
}
use agentpay.Gateway.Control.Approvals.{Verdict, decided_row}
use agentpay.Gateway.Control.Histories.{
  ApprovalCall, decides, approval_calls, Step, stays, decided, spent, Life, here, next, AllTaken-In,
  approval_calls-Life,
}

module _ (Known : Verdict → ℤ → Type 0) where
  -- A decision as the row keeps it: granted or rejected, with its reason, its time, and the id and
  -- the label of who took it.
  abbrev pub Decided : Verdict → ℤ → ApprovalState → ApprovalRow → ApprovalRow → Type 0
  Decided v now state r r' = r' ≡ record {
    agent_id = r.agent_id;
    session_pubkey = r.session_pubkey;
    resource = r.resource;
    price = r.price;
    calls = r.calls;
    state = state;
    reason = v.reason;
    created_at = r.created_at;
    decided_at = some now;
    decided_by = some v.decided_by;
    decided_by_label = some v.decided_by_label;
  }

  -- What can have become of an approval, by the state it was in.
  abbrev pub Becomes : ApprovalState → ApprovalRow → ApprovalRow → Type 0
  Becomes consumed r r' = r' ≡ r
  Becomes rejected r r' = r' ≡ r
  Becomes approved r r' = (r' ≡ r) ⊎ (r' ≡ record r { state = consumed })
  Becomes pending r r' =
      (r' ≡ r)
      ⊎ ((v : Verdict) × (now : ℤ) × Known v now
          × Decided v now (if v.is_approved then approved else rejected) r r')
      ⊎ ((v : Verdict) × (now : ℤ) × Known v now
          × (v.is_approved ≡ true)
          × Decided v now consumed r r')

  decided_state :
      (v : Verdict) (now : ℤ) (r : ApprovalRow)
      → (decided_row v now r).state ≡ (if v.is_approved then approved else rejected)
  decided_state v now r = refl

  Step-Becomes :
      (a : ApprovalState) (r s u : ApprovalRow)
      → r.state ≡ a
      → Becomes a r s
      → Step Known s u
      → Becomes a r u
  Step-Becomes a r s u e b (stays k) = subst (Becomes a r) (sym k) b
  Step-Becomes consumed r s u e b (decided v now taken h k) =
      absurd (ground (arith, ap (λ (x : ApprovalRow). x.state) b))
  Step-Becomes consumed r s u e b (spent h k) =
      absurd (ground (arith, ap (λ (x : ApprovalRow). x.state) b))
  Step-Becomes rejected r s u e b (decided v now taken h k) =
      absurd (ground (arith, ap (λ (x : ApprovalRow). x.state) b))
  Step-Becomes rejected r s u e b (spent h k) =
      absurd (ground (arith, ap (λ (x : ApprovalRow). x.state) b))
  Step-Becomes approved r s u e (inl b) (decided v now taken h k) =
      absurd (ground (arith, ap (λ (x : ApprovalRow). x.state) b))
  Step-Becomes approved r s u e (inr b) (decided v now taken h k) =
      absurd (ground (arith, ap (λ (x : ApprovalRow). x.state) b))
  Step-Becomes approved r s u e (inl b) (spent h k) =
      inr (k ∙ ap (λ (x : ApprovalRow). record x { state = consumed }) b)
  Step-Becomes approved r s u e (inr b) (spent h k) =
      absurd (ground (arith, ap (λ (x : ApprovalRow). x.state) b))
  Step-Becomes pending r s u e (inl b) (decided v now taken h k) =
      inr (inl (v, now, taken, k ∙ ap (decided_row v now) b))
  Step-Becomes pending r s u e (inr (inl (w, at, known, b))) (decided v now taken h k) =
      absurd (ground (arith, decided_state w at r, ap (λ (x : ApprovalRow). x.state) b))
  Step-Becomes pending r s u e (inr (inr (w, at, known, yea, b))) (decided v now taken h k) =
      absurd (ground (arith, ap (λ (x : ApprovalRow). x.state) b))
  Step-Becomes pending r s u e (inl b) (spent h k) =
      absurd (ground (arith, ap (λ (x : ApprovalRow). x.state) b))
  Step-Becomes pending r s u e (inr (inl (w, at, known, b))) (spent h k) = inr (
      inr (
        w,
        at,
        known,
        ground (arith, decided_state w at r, ap (λ (x : ApprovalRow). x.state) b),
        k ∙ ap (λ (x : ApprovalRow). record x { state = consumed }) b,
      ))
  Step-Becomes pending r s u e (inr (inr (w, at, known, yea, b))) (spent h k) =
      absurd (ground (arith, ap (λ (x : ApprovalRow). x.state) b))

  Becomes-refl : (a : ApprovalState) (r : ApprovalRow) → Becomes a r r
  Becomes-refl consumed r = refl
  Becomes-refl rejected r = refl
  Becomes-refl approved r = inl refl
  Becomes-refl pending r = inl refl

  Life-Becomes : (r u : ApprovalRow) → Life Known r u → Becomes r.state r u
  Life-Becomes r u here = Becomes-refl r.state r
  Life-Becomes r u (next l step) = Step-Becomes r.state r _ u refl (Life-Becomes r _ l) step

-- A decision on an approval that is among the calls.
abbrev pub Taken : List ApprovalCall → Bytes → Verdict → ℤ → Type 0
Taken cs key v now = In (decides v now) cs × (v.approval_id ≡ key)

-- However proposals, decisions and purchases interleave, a rejected or a spent approval stays as it
-- is; a granted one stays as it is or is spent; and a pending one stays as it is, or carries one
-- decision, one among the calls on this approval, with its outcome, reason, time and decider, or was spent
-- after one of them that granted it. Nothing else of it changes: neither its agent, nor its resource,
-- nor its price.
pub approval_calls-Becomes :
    (cs : List ApprovalCall) (t : Control) (key : Bytes) (row : ApprovalRow)
    → find key t.approvals ≡ some row
    → (row' : ApprovalRow) × (find key (approval_calls cs t).approvals ≡ some row')
      × Becomes (Taken cs key) row.state row row'
approval_calls-Becomes cs t key row e =
    let (row', f, life) =
      approval_calls-Life (Taken cs key) key row cs t
        (AllTaken-In (Taken cs key) key cs (λ v now at own. (at, own))) e in
    (row', f, Life-Becomes (Taken cs key) row row' life)
