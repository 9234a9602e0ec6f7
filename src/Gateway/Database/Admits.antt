-- ===== src/Gateway/Database/Admits.antt =====
-- `admit_claim` of the database store, stage by stage: the lock, the evidence, the conditional
-- upsert.
use agentpay.Prelude.{
  ℕ, ◌≡◌, ◌<◌, ◌⊎◌, inl, inr, refl, subst, Bool, true, Option, none, some, List, Result, ok, err,
  arith, if◌then◌else◌, leb, ◌||◌, Bool-cases, Option-cases, Result-cases,
}
use agentpay.Prelude.Int.{ℤ, pos, ◌<ℤ◌}
use agentpay.Prelude.Bytes.{Bytes, bytes_eq, bytes_eq_sound}
use agentpay.Prelude.Words.{i64_max}
use agentpay.Gateway.Claim.{Claim}
use agentpay.Gateway.State.{
  SessionRecord, StoreError, unavailable, unknown, evaluate_claim, ClaimAccepted, ClaimRejection,
}
use agentpay.Gateway.Evidence.{
  EvidenceRow, Decision, append_evidence, next_link, DbError, sqlx_error, out_of_range,
}
use agentpay.Gateway.Keyed.{Table, find, find-set_row, find-insert_row, set_row, insert_row}
use agentpay.Gateway.Database.{
  SessionRow, TicketRow, Tables, locked_record, upsert_ticket, recorded_evidence, recorded_decision,
  with_log, finish_claim, claim_answer, upsert_claim_high_water_mark, store_admit_claim,
}

-- What the conditional upsert needs to write.
abbrev pub Advances : Option TicketRow → ℕ → ℕ → Type 0
Advances none cumulative nonce = 0 < cumulative
Advances (some old) cumulative nonce =
    (0 < cumulative) × (old.cumulative_amount <ℤ pos cumulative) × (old.nonce <ℤ pos nonce)

abbrev pub ticket : Claim → ℕ → TicketRow
ticket claim signature = record {
  cumulative_amount = pos claim.cumulative_amount;
  nonce = pos claim.nonce;
  expires_at = claim.expires_at;
  signature = signature;
}

pub upsert_ticket_writes :
    (key : Bytes) (claim : Claim) (signature : ℕ) (rows : Table TicketRow)
    → Advances (find key rows) claim.cumulative_amount claim.nonce
    → (rows' : Table TicketRow) × (upsert_ticket key (ticket claim signature) rows
        ≡ ok (true, rows'))
      × ((j : Bytes)
          → find j rows' ≡ (if bytes_eq j key then some (ticket claim signature) else find j rows))
unfolding upsert_ticket
upsert_ticket_writes key claim signature rows h = elim (Option-cases (find key rows)) [
  | inl e ↦ (
    insert_row key (ticket claim signature) rows,
    ground (arith, rw e at h, e),
    λ j.
        ground
          (arith, e, find-insert_row j key (ticket claim signature) rows, bytes_eq_sound j key),
  )
  | inr (old, e) ↦
      let (a, b, c) =
        subst (λ (o : Option TicketRow). Advances o claim.cumulative_amount claim.nonce) e h in
      (
        set_row key (λ r. ticket claim signature) rows,
        ground (arith, a, b, c, e),
        λ j. ground (
          arith,
          e,
          find-set_row j key (λ (r : TicketRow). ticket claim signature) rows,
          bytes_eq_sound j key,
        ),
      )
]

module _ (fails : ℕ → Bool) (key : Bytes) (claim : Claim) (signature : ℕ) where
  pub finish_refused :
      (before logged : Tables) (x : ClaimRejection)
      → (claim_answer (finish_claim fails key claim signature before (err x) logged)
          ≡ err unavailable)
        ⊎ (claim_answer (finish_claim fails key claim signature before (err x) logged)
            ≡ ok (err x, logged))
  unfolding finish_claim
  finish_refused before logged x = ground arith

  -- The mark is written: the branch that finds no row written is not reached.
  pub finish_accepted :
      (before logged : Tables) (a : ClaimAccepted) (rows : Table TicketRow)
      → a.cumulative_amount ≡ claim.cumulative_amount
      → a.nonce ≡ claim.nonce
      → upsert_ticket key (ticket claim signature) logged.claim_tickets ≡ ok (true, rows)
      → (claim_answer (finish_claim fails key claim signature before (ok a) logged)
          ≡ err unavailable)
        ⊎ (claim_answer (finish_claim fails key claim signature before (ok a) logged)
            ≡ ok (ok a, record logged { claim_tickets = rows }))
  unfolding finish_claim
  finish_accepted before logged a rows e f h = elim (Bool-cases (leb a.cumulative_amount i64_max)) [
    | inl x ↦ elim (Bool-cases (leb a.nonce i64_max)) [
      | inl y ↦
          rw (x, y, e, f, h)
            (elim (Bool-cases (fails 5)) [ inl p ↦ rw p (inl refl) | inr p ↦ rw p (ground arith) ])
      | inr y ↦ rw (x, y) (inl refl)
    ]
    | inr x ↦ rw x (inl refl)
  ]

module _ (to_base58 : ℕ → Bytes) (parse_base58 : Bytes → Option ℕ) (sha256 : Bytes → ℕ) where
  recorded_evidence_fails :
      (fails : ℕ → Bool) (log : List EvidenceRow) (claim : Claim) (signature : ℕ)
      (d : Option Decision) (x : DbError)
      → recorded_evidence sha256 fails log claim signature d ≡ err x
      → (x ≡ sqlx_error) ⊎ (x ≡ out_of_range)
  unfolding recorded_evidence append_evidence next_link
  recorded_evidence_fails fails log claim signature none x h = ground arith
  recorded_evidence_fails fails log claim signature (some d) x h = ground arith

  module _ (fails : ℕ → Bool) (claim : Claim) (signature : ℕ) (now : ℤ) (t : Tables) where
    abbrev attempt : Result StoreError (Result ClaimRejection ClaimAccepted × Tables)
    attempt = store_admit_claim to_base58 parse_base58 sha256 fails claim signature now t

    pub admit_missing :
        find (to_base58 claim.session) t.sessions ≡ none
        → (attempt ≡ err unavailable) ⊎ (attempt ≡ err unknown)
    unfolding store_admit_claim upsert_claim_high_water_mark
    admit_missing e = ground arith

    -- The evidence is recorded, then the outcome is finished.
    pub admit_found :
        (row : SessionRow) (r : SessionRecord)
        → find (to_base58 claim.session) t.sessions ≡ some row
        → locked_record parse_base58 claim.session row
            (find (to_base58 claim.session) t.claim_tickets)
          ≡ ok r
        → (attempt ≡ err unavailable)
          ⊎ ((log : List EvidenceRow) × (recorded_evidence sha256 fails
                  (t.evidence_log (to_base58 claim.session))
                  claim
                  signature
                  (recorded_decision (evaluate_claim r claim now))
                ≡ ok log)
              × (attempt
                  ≡ claim_answer (
                      finish_claim fails
                        (to_base58 claim.session)
                        claim
                        signature
                        t
                        (evaluate_claim r claim now)
                        (with_log (to_base58 claim.session) log t))))
    unfolding store_admit_claim upsert_claim_high_water_mark
    admit_found row r e f =
        elim (Result-cases (
          recorded_evidence sha256 fails (t.evidence_log (to_base58 claim.session)) claim signature
            (recorded_decision (evaluate_claim r claim now)))) [
              | inl (log, g) ↦ elim (Bool-cases (fails 0 || fails 1 || fails 2)) [
                | inl p ↦ inl (ground arith)
                | inr p ↦ inr (log, g, ground arith)
              ]
              | inr (x, g) ↦ inl (
                  ground (
                    arith,
                    recorded_evidence_fails fails (t.evidence_log (to_base58 claim.session)) claim
                        signature (recorded_decision (evaluate_claim r claim now)) x g,
                  ))
            ]
