-- ===== src/Gateway/Database/Bounds.antt =====
-- What a BIGINT column cannot hold is refused, never wrapped: when the database store denies a call
-- though none of its queries fails.
use agentpay.Prelude.{
  ℕ, ◌≡◌, ◌≤◌, ◌<◌, ◌⊎◌, ◌↔◌, inl, inr, refl, sym, ap, ◌∙◌, Bool, true, false, Option, none, some,
  List, [], ◌∷◌, ◌++◌, Result, ok, err, arith, Option-cases, length, le→leb, some-eq, none-ne-some,
}
use agentpay.Prelude.Int.{ℤ, pos, ◌+ℤ◌}
use agentpay.Prelude.Bytes.{Bytes}
use agentpay.Prelude.Words.{i64_max}
use agentpay.Gateway.Claim.{Claim}
use agentpay.Gateway.State.{
  SessionRecord, Sessions, unavailable, already_open, evaluate_claim, ClaimAccepted, ClaimRejection,
}
use agentpay.Gateway.State.Rules.{evaluate_claim-Admissible, Fresh-nonce_exceeds}
use agentpay.Gateway.Evidence.{
  EvidenceRow, EvidenceEntry, Decision, entries, last_row, next_link, new_row, append_evidence,
  verify_chain, genesis_prev_hash,
}
use agentpay.Gateway.Evidence.Log.{verify_chain_iff, last_row-cons, last_row-Linked}
use agentpay.Gateway.Keyed.{Table, find}
use agentpay.Gateway.Database.{
  SessionRow, TicketRow, Tables, locked_record, recorded_evidence, recorded_decision, with_log,
  save_session, store_open, store_admit_claim, upsert_claim_high_water_mark, claim_answer,
  finish_claim, upsert_ticket,
}
use agentpay.Gateway.Database.Rows.{Decodes, row_to_record-Decodes, evaluate_claim_forgets_ticket}
use agentpay.Gateway.Database.Represents.{Represents, row_found, row_missing}
use agentpay.Gateway.Database.Refines.{opened_tables}
use agentpay.Gateway.Database.Claims.{judged, columns-Advances}
use agentpay.Gateway.Database.Admits.{ticket, upsert_ticket_writes}

-- No query fails.
abbrev pub answers : ℕ → Bool
answers n = false

-- Where no query fails, a session whose deposit is 0 or above the largest i64 is denied, and any
-- other is inserted with that very deposit in its row, unless there is a row for it already.
pub store_open_iff :
    (to_base58 : ℕ → Bytes) (r : SessionRecord) (t : Tables)
    → ((store_open to_base58 answers r t ≡ err unavailable)
        ↔ ((r.deposited_total ≡ 0) ⊎ (i64_max < r.deposited_total)))
      × (((row : SessionRow) × (find (to_base58 r.session) t.sessions ≡ some row))
          → (0 < r.deposited_total) × (r.deposited_total ≤ i64_max)
          → store_open to_base58 answers r t ≡ err already_open)
      × (find (to_base58 r.session) t.sessions ≡ none
          → (0 < r.deposited_total) × (r.deposited_total ≤ i64_max)
          → store_open to_base58 answers r t ≡ ok (opened_tables to_base58 r t))
unfolding store_open save_session
store_open_iff to_base58 r t = elim (Option-cases (find (to_base58 r.session) t.sessions)) [
  | inl e ↦ ground arith
  | inr (row, e) ↦ ground arith
]

module _ (sha256 : Bytes → ℕ) where
  next_link-short :
      (session : ℕ) (es : List EvidenceEntry)
      → verify_chain sha256 session es ≡ ok tt
      → length es ≤ i64_max
      → (link : ℤ × ℕ) × (next_link (last_row es) ≡ ok link)
  unfolding next_link
  next_link-short session [] v h = ((pos 0, genesis_prev_hash), refl)
  next_link-short session (e ∷ es) v h =
      let (f, at) = last_row-cons e es in
      let (n, k) =
        last_row-Linked sha256 session 0 genesis_prev_hash (e ∷ es) f
          ((verify_chain_iff sha256 session (e ∷ es)).0 v) at in
      ((f.sequence_id +ℤ pos 1, f.entry_hash), rw (at, n) (ground arith))

  recorded_evidence-short :
      (log : List EvidenceRow) (claim : Claim) (signature : ℕ) (d : Option Decision)
      → verify_chain sha256 claim.session (entries log) ≡ ok tt
      → length (entries log) ≤ i64_max
      → (log' : List EvidenceRow) × (recorded_evidence sha256 answers log claim signature d
          ≡ ok log')
  unfolding recorded_evidence append_evidence
  recorded_evidence-short log claim signature none v h = (log, refl)
  recorded_evidence-short log claim signature (some d) v h =
      let (link, at) = next_link-short claim.session (entries log) v h in
      (log ++ (new_row sha256 claim d signature link ∷ []), rw at refl)

module _ (key : Bytes) (claim : Claim) (signature : ℕ) (before logged : Tables) where
  finish_short :
      (a : ClaimAccepted) (rows : Table TicketRow)
      → a.cumulative_amount ≡ claim.cumulative_amount
      → a.nonce ≡ claim.nonce
      → claim.cumulative_amount ≤ i64_max
      → claim.nonce ≤ i64_max
      → upsert_ticket key (ticket claim signature) logged.claim_tickets ≡ ok (true, rows)
      → finish_claim answers key claim signature before (ok a) logged
        ≡ ok (ok a, record logged { claim_tickets = rows })
  unfolding finish_claim
  finish_short a rows e f x y h =
      rw (e, f, le→leb claim.cumulative_amount i64_max x, le→leb claim.nonce i64_max y, h) refl

  finish_long :
      (a : ClaimAccepted)
      → a.cumulative_amount ≡ claim.cumulative_amount
      → a.nonce ≡ claim.nonce
      → i64_max < claim.nonce
      → claim_answer (finish_claim answers key claim signature before (ok a) logged)
        ≡ err unavailable
  unfolding finish_claim
  finish_long a e f y = ground arith

module _ (to_base58 : ℕ → Bytes) (parse_base58 : Bytes → Option ℕ) (sha256 : Bytes → ℕ) where
  locked_answers :
      (claim : Claim) (signature : ℕ) (now : ℤ) (t : Tables) (row : SessionRow) (r : SessionRecord)
      (log : List EvidenceRow)
      → find (to_base58 claim.session) t.sessions ≡ some row
      → locked_record parse_base58 claim.session row
          (find (to_base58 claim.session) t.claim_tickets)
        ≡ ok r
      → recorded_evidence sha256 answers
          (t.evidence_log (to_base58 claim.session))
          claim
          signature
          (recorded_decision (evaluate_claim r claim now))
        ≡ ok log
      → store_admit_claim to_base58 parse_base58 sha256 answers claim signature now t
        ≡ claim_answer (
            finish_claim answers
              (to_base58 claim.session)
              claim
              signature
              t
              (evaluate_claim r claim now)
              (with_log (to_base58 claim.session) log t))
  unfolding store_admit_claim upsert_claim_high_water_mark
  locked_answers claim signature now t row r log e f g =
      rw (e, upsert_claim_high_water_mark, f, g) refl

  row_of :
      (k : ℕ) (t : Tables) (m : Sessions) (r : SessionRecord)
      → ((j : ℕ) → parse_base58 (to_base58 j) ≡ some j)
      → Represents to_base58 parse_base58 t m
      → m k ≡ some r
      → (row : SessionRow) × (find (to_base58 k) t.sessions ≡ some row)
        × Decodes parse_base58 (to_base58 k) row (find (to_base58 k) t.claim_tickets) r
  row_of k t m r roundtrip rep present = elim (Option-cases (find (to_base58 k) t.sessions)) [
    | inl e ↦
        absurd (
          none-ne-some (sym (row_missing to_base58 parse_base58 roundtrip t m k rep e).0 ∙ present))
    | inr (row, e) ↦
        let (s, found, h) = row_found to_base58 parse_base58 roundtrip t m k row rep e in
        let r_is : s ≡ r = some-eq (sym found ∙ present) in
        (
          row,
          e,
          row_to_record-Decodes parse_base58 (to_base58 k) row (find (to_base58 k) t.claim_tickets)
              r (h ∙ ap ok r_is),
        )
  ]

  finished :
      (claim : Claim) (signature : ℕ) (now : ℤ) (t : Tables) (r : SessionRecord) (row : SessionRow)
      (log : List EvidenceRow)
      → Decodes parse_base58
          (to_base58 claim.session)
          row
          (find (to_base58 claim.session) t.claim_tickets)
          r
      → r.deposited_total ≤ i64_max
      → store_admit_claim to_base58 parse_base58 sha256 answers claim signature now t
        ≡ claim_answer (
            finish_claim answers
              (to_base58 claim.session)
              claim
              signature
              t
              (evaluate_claim r claim now)
              (with_log (to_base58 claim.session) log t))
      → ((x : ClaimRejection)
          → evaluate_claim r claim now ≡ err x
          → (t' : Tables) × (store_admit_claim to_base58 parse_base58 sha256 answers claim signature
                now t
              ≡ ok (err x, t')))
        × ((a : ClaimAccepted)
            → evaluate_claim r claim now ≡ ok a
            → claim.nonce ≤ i64_max
            → (t' : Tables) × (store_admit_claim to_base58 parse_base58 sha256 answers claim
                  signature now t
                ≡ ok (ok a, t')))
        × ((a : ClaimAccepted)
            → evaluate_claim r claim now ≡ ok a
            → i64_max < claim.nonce
            → store_admit_claim to_base58 parse_base58 sha256 answers claim signature now t
              ≡ err unavailable)
  unfolding finish_claim
  finished claim signature now t r row log d fits run =
      let key = to_base58 claim.session in
      (
        λ x h. (with_log key log t, run ∙ rw h refl),
        λ a h small.
            let (admissible, reports) = evaluate_claim-Admissible r claim now a h in
            let (rows, written, at_key) = upsert_ticket_writes key claim signature t.claim_tickets (
              columns-Advances r claim (find key t.claim_tickets) d.columns admissible.grows
                (Fresh-nonce_exceeds r.last_nonce claim.nonce admissible.fresh_nonce)) in
            (
              record (with_log key log t) { claim_tickets = rows },
              run
                  ∙ ap
                      (λ (out : Result ClaimRejection ClaimAccepted).
                        claim_answer
                          (finish_claim answers key claim signature t out (with_log key log t)))
                      h
                  ∙ ap (claim_answer) (
                      finish_short key claim signature t (with_log key log t) a rows reports.0
                        reports.3 (omega (arith, admissible.bounded)) small written),
            ),
        λ a h large.
            let (admissible, reports) = evaluate_claim-Admissible r claim now a h in
            run
            ∙ ap
                (λ (out : Result ClaimRejection ClaimAccepted).
                  claim_answer
                    (finish_claim answers key claim signature t out (with_log key log t)))
                h
            ∙ finish_long key claim signature t (with_log key log t) a reports.0 reports.3 large,
      )

  -- For a tracked session whose deposit fits an i64 and whose log is accepted and shorter than
  -- that, where no query fails: a claim that the rules refuse is answered with that refusal,
  -- whatever its numbers; a claim that they accept is answered so if its nonce fits an i64, and if
  -- not the call is denied as unavailable.
  pub admit_claim_bounds :
      (claim : Claim) (signature : ℕ) (now : ℤ) (t : Tables) (m : Sessions) (r : SessionRecord)
      → ((k : ℕ) → parse_base58 (to_base58 k) ≡ some k)
      → Represents to_base58 parse_base58 t m
      → m claim.session ≡ some r
      → r.deposited_total ≤ i64_max
      → verify_chain sha256 claim.session (entries (t.evidence_log (to_base58 claim.session)))
        ≡ ok tt
      → length (entries (t.evidence_log (to_base58 claim.session))) ≤ i64_max
      → ((x : ClaimRejection)
          → evaluate_claim r claim now ≡ err x
          → (t' : Tables) × (store_admit_claim to_base58 parse_base58 sha256 answers claim signature
                now t
              ≡ ok (err x, t')))
        × ((a : ClaimAccepted)
            → evaluate_claim r claim now ≡ ok a
            → claim.nonce ≤ i64_max
            → (t' : Tables) × (store_admit_claim to_base58 parse_base58 sha256 answers claim
                  signature now t
                ≡ ok (ok a, t')))
        × ((a : ClaimAccepted)
            → evaluate_claim r claim now ≡ ok a
            → i64_max < claim.nonce
            → store_admit_claim to_base58 parse_base58 sha256 answers claim signature now t
              ≡ err unavailable)
  admit_claim_bounds claim signature now t m r roundtrip rep present fits v short =
      let key = to_base58 claim.session in
      let (row, e, d) = row_of claim.session t m r roundtrip rep present in
      let (log, g) =
        recorded_evidence-short sha256 (t.evidence_log key) claim signature
          (recorded_decision (evaluate_claim (record r { highest_claim = none }) claim now)) v
          short in
      finished claim signature now t r row log d fits (
        locked_answers claim signature now t row (record r { highest_claim = none }) log e
          (judged to_base58 parse_base58 roundtrip claim now row (find key t.claim_tickets) r d) g
        ∙ ap
            (λ (out : Result ClaimRejection ClaimAccepted).
              claim_answer (finish_claim answers key claim signature t out (with_log key log t)))
            (evaluate_claim_forgets_ticket r claim now))
