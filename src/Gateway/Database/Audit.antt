-- ===== src/Gateway/Database/Audit.antt =====
-- The evidence that a history of calls on the database store leaves behind.
use agentpay.Prelude.{
  ℕ, ◌≡◌, inl, inr, refl, Bool, Option, none, some, err, List, [], ◌∷◌, ◌++◌, Result, ok,
  Option-cases, if◌then◌else◌, ◌==◌,
}
use agentpay.Prelude.Int.{ℤ}
use agentpay.Prelude.Bytes.{Bytes, codes}
use agentpay.Gateway.Claim.{Claim}
use agentpay.Gateway.State.{
  SessionRecord, ClaimRejection, ClaimAccepted, session_expired, session_settled, not_monotonic,
  nonce_not_monotonic, exceeds_deposit,
}
use agentpay.Gateway.State.Histories.{Call, admits}
use agentpay.Gateway.Keyed.{find}
use agentpay.Gateway.Evidence.{
  EvidenceEntry, entries, verify_chain, Decision, decision_as_str, clamp,
}
use agentpay.Gateway.Database.{Tables, store_open, store_mark_settled, store_mark_chain_verified}
use agentpay.Gateway.Database.Represents.{Represents}
use agentpay.Gateway.Database.Refines.{open_missing, open_found, settled_cases, verified_cases}
use agentpay.Gateway.Database.Histories.{Answer, judged, mark_reply, Request}

-- What an entry says of an attempt: the claim's numbers as stored, and the verdict's text.
abbrev pub attempts : List EvidenceEntry → List (ℕ × ℕ × Bytes)
attempts [] = []
attempts (e ∷ es) = (e.cumulative_amount, e.nonce, e.decision) ∷ attempts es

abbrev pub attempt : Claim → Option Decision → List (ℕ × ℕ × Bytes)
attempt claim none = []
attempt claim (some d) = (clamp claim.cumulative_amount, clamp claim.nonce, decision_as_str d) ∷ []

abbrev pub noted : Claim → Bytes → List (ℕ × ℕ × Bytes)
noted claim text = (clamp claim.cumulative_amount, clamp claim.nonce, text) ∷ []

-- The entry that a judged claim leaves.
abbrev pub entry_for : Claim → Result ClaimRejection ClaimAccepted → List (ℕ × ℕ × Bytes)
entry_for claim (ok a) = noted claim (codes "ALLOWED")
entry_for claim (err not_monotonic) = noted claim (codes "ERR_CLAIM_NOT_MONOTONIC")
entry_for claim (err nonce_not_monotonic) = noted claim (codes "ERR_NONCE_NOT_MONOTONIC")
entry_for claim (err exceeds_deposit) = noted claim (codes "ERR_CLAIM_EXCEEDS_DEPOSIT")
entry_for claim (err session_expired) = noted claim (codes "ERR_SESSION_EXPIRED")
entry_for claim (err session_settled) = []

-- What a call and its answer owe to the log of session `k`: a judged claim is recorded with its
-- verdict, unless its session is settled.
abbrev pub owed : ℕ → Call → Answer → List (ℕ × ℕ × Bytes)
owed k (admits claim signature now) (judged out) =
    if k == claim.session then entry_for claim out else []
owed k c a = []

abbrev pub all_owed : ℕ → List Request → List Answer → List (ℕ × ℕ × Bytes)
all_owed k [] answers = []
all_owed k (q ∷ qs) [] = []
all_owed k (q ∷ qs) (a ∷ answers) = owed k q.call a ++ all_owed k qs answers

-- Every session's log is accepted by `verify_chain`.
abbrev pub AllVerified : (ℕ → Bytes) → (Bytes → ℕ) → Tables → Type 0
AllVerified to_base58 sha256 t =
    (k : ℕ) → verify_chain sha256 k (entries (t.evidence_log (to_base58 k))) ≡ ok tt

module _ (to_base58 : ℕ → Bytes) (parse_base58 : Bytes → Option ℕ) (sha256 : Bytes → ℕ)
    (roundtrip : (k : ℕ) → parse_base58 (to_base58 k) ≡ some k) (t : Tables) where
  -- What a call leaves in the log of each session, and that the log is still accepted.
  abbrev pub Leaves : Call → Answer × Tables → Type 0
  Leaves c (a, t') =
      (k : ℕ)
      → (attempts (entries (t'.evidence_log (to_base58 k)))
          ≡ attempts (entries (t.evidence_log (to_base58 k))) ++ owed k c a)
        × (verify_chain sha256 k (entries (t'.evidence_log (to_base58 k))) ≡ ok tt)

  pub open_keeps_evidence :
      (fails : ℕ → Bool) (r : SessionRecord)
      → (mark_reply t (store_open to_base58 fails r t)).1.evidence_log ≡ t.evidence_log
  open_keeps_evidence fails r = elim (Option-cases (find (to_base58 r.session) t.sessions)) [
    | inl e ↦ elim (open_missing to_base58 fails r t e) [ inl u ↦ rw u refl | inr o ↦ rw o refl ]
    | inr (row, e) ↦ elim (open_found to_base58 fails r t row e) [
      | inl u ↦ rw u refl
      | inr o ↦ rw o refl
    ]
  ]

  pub settle_keeps_evidence :
      (fails : ℕ → Bool) (k : ℕ) (now : ℤ)
      → (mark_reply t (store_mark_settled to_base58 fails k now t)).1.evidence_log ≡ t.evidence_log
  settle_keeps_evidence fails k now = elim (settled_cases to_base58 fails k now t) [
    | inl u ↦ rw u refl
    | inr o ↦ rw o refl
  ]

  pub verify_keeps_evidence :
      (fails : ℕ → Bool) (k : ℕ)
      → (mark_reply t (store_mark_chain_verified to_base58 fails k t)).1.evidence_log
        ≡ t.evidence_log
  verify_keeps_evidence fails k = elim (verified_cases to_base58 fails k t) [
    | inl u ↦ rw u refl
    | inr (inl (e, o)) ↦ rw o refl
    | inr (inr (row, e, o)) ↦ rw o refl
  ]
