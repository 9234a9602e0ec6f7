-- ===== src/Gateway/Database/Claims.antt =====
-- A claim that the database store judges: the same outcome as the ordering rules on the session's
-- record, one entry of evidence for it, and the record that the tables hold afterwards.
use agentpay.Prelude.{
  ℕ, ◌≡◌, ◌<◌, ◌⊎◌, inl, inr, refl, sym, ap, ◌∙◌, subst, Bool, true, Option, none, some, List,
  Result, ok, err, arith, if◌then◌else◌, ◌==◌, Option-cases, Result-cases, some-eq,
}
use agentpay.Prelude.Int.{ℤ}
use agentpay.Prelude.Bytes.{Bytes, bytes_eq}
use agentpay.Program.Runtime.{update}
use agentpay.Gateway.Claim.{Claim}
use agentpay.Gateway.State.{
  SessionRecord, Sessions, unavailable, unknown, evaluate_claim, ClaimAccepted, ClaimRejection,
  advance, nonce_exceeds,
}
use agentpay.Gateway.State.Rules.{evaluate_claim-Admissible, Fresh-nonce_exceeds}
use agentpay.Gateway.Evidence.{EvidenceRow}
use agentpay.Gateway.Keyed.{Table, find}
use agentpay.Gateway.Database.{
  SessionRow, TicketRow, Tables, locked_record, recorded_evidence, recorded_decision, with_log,
  store_admit_claim, ticket_columns, row_to_record,
}
use agentpay.Gateway.Database.Rows.{
  Decodes, Decodes-row_to_record, row_to_record-Decodes, Decodes-locked_record,
  evaluate_claim_forgets_ticket,
}
use agentpay.Gateway.Database.Represents.{
  Represents, key_eq, Represents-change, at_key, row_found, row_missing,
}
use agentpay.Gateway.Database.Admits.{
  Advances, ticket, upsert_ticket_writes, finish_refused, finish_accepted, admit_missing,
  admit_found,
}

-- The map after a judged claim.
abbrev pub after_claim :
    Claim → ℕ → SessionRecord → Sessions → Result ClaimRejection ClaimAccepted → Sessions
after_claim claim signature r m (err x) = m
after_claim claim signature r m (ok a) = update m claim.session (some (advance claim signature a r))

-- An admissible claim lies above the stored ticket.
pub columns-Advances :
    (r : SessionRecord) (claim : Claim) (stored : Option TicketRow)
    → ticket_columns r.session stored ≡ ok (r.cumulative_accepted, r.last_nonce, r.highest_claim)
    → r.cumulative_accepted < claim.cumulative_amount
    → nonce_exceeds r.last_nonce claim.nonce ≡ true
    → Advances stored claim.cumulative_amount claim.nonce
unfolding ticket_columns
columns-Advances r claim none h grows fresh = ground arith
columns-Advances r claim (some old) h grows fresh = ground arith

module _ (to_base58 : ℕ → Bytes) (parse_base58 : Bytes → Option ℕ)
    (roundtrip : (k : ℕ) → parse_base58 (to_base58 k) ≡ some k) where
  pub own_key :
      (k : ℕ) (row : SessionRow) (stored : Option TicketRow) (r : SessionRecord)
      → Decodes parse_base58 (to_base58 k) row stored r
      → r.session ≡ k
  own_key k row stored r d = some-eq (sym d.session ∙ roundtrip k)

  advanced_row :
      (claim : Claim) (signature : ℕ) (now : ℤ) (row : SessionRow) (stored : Option TicketRow)
      (r : SessionRecord) (a : ClaimAccepted)
      → Decodes parse_base58 (to_base58 claim.session) row stored r
      → evaluate_claim r claim now ≡ ok a
      → row_to_record parse_base58 (to_base58 claim.session) row (some (ticket claim signature))
        ≡ ok (advance claim signature a r)
  unfolding ticket_columns
  advanced_row claim signature now row stored r a d h =
      Decodes-row_to_record parse_base58 (to_base58 claim.session) row
        (some (ticket claim signature)) (advance claim signature a r)
        (ground
          (arith, own_key claim.session row stored r d, evaluate_claim-Admissible r claim now a h))

  pub judged :
      (claim : Claim) (now : ℤ) (row : SessionRow) (stored : Option TicketRow) (r : SessionRecord)
      → Decodes parse_base58 (to_base58 claim.session) row stored r
      → locked_record parse_base58 claim.session row stored ≡ ok (record r { highest_claim = none })
  judged claim now row stored r d =
      Decodes-locked_record parse_base58 claim.session (to_base58 claim.session) row stored r
        (own_key claim.session row stored r d) d

  module _ (sha256 : Bytes → ℕ) (fails : ℕ → Bool) (claim : Claim) (signature : ℕ) (now : ℤ)
      (t : Tables) (m : Sessions) where
    -- How the attempt ends for a tracked session whose record is judged to be `out`.
    abbrev pub Judged : SessionRecord → Result ClaimRejection ClaimAccepted → Type 0
    Judged r out =
        (store_admit_claim to_base58 parse_base58 sha256 fails claim signature now t
          ≡ err unavailable)
        ⊎ ((log : List EvidenceRow) × (t' : Tables) × (recorded_evidence sha256 fails
                (t.evidence_log (to_base58 claim.session)) claim signature (recorded_decision out)
              ≡ ok log)
            × (store_admit_claim to_base58 parse_base58 sha256 fails claim signature now t
                ≡ ok (out, t'))
            × (t'.evidence_log ≡ (with_log (to_base58 claim.session) log t).evidence_log)
            × Represents to_base58 parse_base58 t' (after_claim claim signature r m out))

    refused_Judged :
        (row : SessionRow) (r : SessionRecord) (x : ClaimRejection)
        → Represents to_base58 parse_base58 t m
        → find (to_base58 claim.session) t.sessions ≡ some row
        → Decodes parse_base58
            (to_base58 claim.session)
            row
            (find (to_base58 claim.session) t.claim_tickets)
            r
        → evaluate_claim r claim now ≡ err x
        → Judged r (err x)
    refused_Judged row r x rep e d h =
        elim (admit_found to_base58 parse_base58 sha256 fails claim signature now t row
          (record r { highest_claim = none }) e
          (judged claim now row (find (to_base58 claim.session) t.claim_tickets) r d)) [
            | inl u ↦ inl u
            | inr (log, g, run) ↦
                elim (finish_refused fails (to_base58 claim.session) claim signature t
                  (with_log (to_base58 claim.session) log t) x) [
                    | inl u ↦ inl (rw (evaluate_claim_forgets_ticket r claim now, h) at run ∙ u)
                    | inr done ↦ inr (
                      log,
                      with_log (to_base58 claim.session) log t,
                      rw (evaluate_claim_forgets_ticket r claim now, h) at g,
                      rw (evaluate_claim_forgets_ticket r claim now, h) at run ∙ done,
                      refl,
                      rep,
                    )
                  ]
          ]

    advanced_Represents :
        (row : SessionRow) (r : SessionRecord) (a : ClaimAccepted) (rows : Table TicketRow)
        (log : List EvidenceRow)
        → Represents to_base58 parse_base58 t m
        → find (to_base58 claim.session) t.sessions ≡ some row
        → Decodes parse_base58
            (to_base58 claim.session)
            row
            (find (to_base58 claim.session) t.claim_tickets)
            r
        → evaluate_claim r claim now ≡ ok a
        → ((j : Bytes)
            → find j rows ≡ (
                if bytes_eq j (to_base58 claim.session)
                then some (ticket claim signature)
                else find j t.claim_tickets))
        → Represents to_base58 parse_base58
            (record (with_log (to_base58 claim.session) log t) { claim_tickets = rows })
            (update m claim.session (some (advance claim signature a r)))
    advanced_Represents row r a rows log rep e d h found_rows =
        Represents-change to_base58 parse_base58 roundtrip t
          (record (with_log (to_base58 claim.session) log t) { claim_tickets = rows }) m
          claim.session (some row) (some (ticket claim signature))
          (some (advance claim signature a r)) rep
          (λ j.
            at_key to_base58 parse_base58 roundtrip (λ (x : Bytes). find x t.sessions) j
              claim.session
            ∙ ap
                (λ (o : Option SessionRow).
                  if j == claim.session then o else find (to_base58 j) t.sessions)
                e)
          (λ j. ground (
            arith,
            found_rows (to_base58 j),
            key_eq to_base58 parse_base58 roundtrip j claim.session,
          ))
          (advanced_row claim signature now row (find (to_base58 claim.session) t.claim_tickets) r a
            d h)

    accepted_Judged :
        (row : SessionRow) (r : SessionRecord) (a : ClaimAccepted)
        → Represents to_base58 parse_base58 t m
        → find (to_base58 claim.session) t.sessions ≡ some row
        → Decodes parse_base58
            (to_base58 claim.session)
            row
            (find (to_base58 claim.session) t.claim_tickets)
            r
        → evaluate_claim r claim now ≡ ok a
        → Judged r (ok a)
    accepted_Judged row r a rep e d h =
        let (admissible, reports) = evaluate_claim-Admissible r claim now a h in
        let (rows, written, found_rows) =
          upsert_ticket_writes (to_base58 claim.session) claim signature t.claim_tickets (
            columns-Advances r claim (find (to_base58 claim.session) t.claim_tickets) d.columns
              admissible.grows
              (Fresh-nonce_exceeds r.last_nonce claim.nonce admissible.fresh_nonce)) in
        elim (admit_found to_base58 parse_base58 sha256 fails claim signature now t row
          (record r { highest_claim = none }) e
          (judged claim now row (find (to_base58 claim.session) t.claim_tickets) r d)) [
            | inl u ↦ inl u
            | inr (log, g, run) ↦
                elim (finish_accepted fails (to_base58 claim.session) claim signature t
                  (with_log (to_base58 claim.session) log t) a rows reports.0 reports.3 written) [
                    | inl u ↦ inl (rw (evaluate_claim_forgets_ticket r claim now, h) at run ∙ u)
                    | inr done ↦ inr (
                      log,
                      record (with_log (to_base58 claim.session) log t) { claim_tickets = rows },
                      rw (evaluate_claim_forgets_ticket r claim now, h) at g,
                      rw (evaluate_claim_forgets_ticket r claim now, h) at run ∙ done,
                      refl,
                      advanced_Represents row r a rows log rep e d h found_rows,
                    )
                  ]
          ]

    row-Judged :
        (row : SessionRow) (r : SessionRecord)
        → Represents to_base58 parse_base58 t m
        → find (to_base58 claim.session) t.sessions ≡ some row
        → row_to_record parse_base58
            (to_base58 claim.session)
            row
            (find (to_base58 claim.session) t.claim_tickets)
          ≡ ok r
        → Judged r (evaluate_claim r claim now)
    row-Judged row r rep e h =
        let d =
          row_to_record-Decodes parse_base58 (to_base58 claim.session) row
            (find (to_base58 claim.session) t.claim_tickets) r h in
        elim (Result-cases (evaluate_claim r claim now)) [
          | inl (a, h) ↦ subst (Judged r) (sym h) (accepted_Judged row r a rep e d h)
          | inr (x, h) ↦ subst (Judged r) (sym h) (refused_Judged row r x rep e d h)
        ]

    -- A session that is not tracked, and one that is.
    pub admit_claim-Judged :
        Represents to_base58 parse_base58 t m
        → ((m claim.session ≡ none)
            × ((store_admit_claim to_base58 parse_base58 sha256 fails claim signature now t
                  ≡ err unavailable)
                ⊎ (store_admit_claim to_base58 parse_base58 sha256 fails claim signature now t
                    ≡ err unknown)))
          ⊎ ((r : SessionRecord) × (m claim.session ≡ some r)
              × Judged r (evaluate_claim r claim now))
    admit_claim-Judged rep = elim (Option-cases (find (to_base58 claim.session) t.sessions)) [
      | inl e ↦ inl (
        (row_missing to_base58 parse_base58 roundtrip t m claim.session rep e).0,
        admit_missing to_base58 parse_base58 sha256 fails claim signature now t e,
      )
      | inr (row, e) ↦
          let (r, present, h) =
            row_found to_base58 parse_base58 roundtrip t m claim.session row rep e in
          inr (r, present, row-Judged row r rep e h)
    ]
