-- ===== src/Gateway/Database.antt =====
-- The PostgreSQL store, gateway/src/db.rs: `Database` as a `SessionStore`. The tables are values
-- and a query is a function on them. `fails n` says whether the n-th query of a call fails;
-- an operation that returns an error has left the tables as they were, since its transaction is
-- dropped or its one statement did nothing. The row lock makes the operations of one session
-- follow each other. The columns' CHECK constraints are those of gateway/migrations.
pub mod Columns
pub mod Sessions
pub mod Rows
pub mod Represents
pub mod Refines
pub mod Admits
pub mod Claims
pub mod Histories
pub mod Audit
pub mod Bounds
pub mod Frozen
unfoldable pub use Columns.*
unfoldable pub use Sessions.*
use agentpay.Prelude.{
  ℕ, Bool, true, false, Option, none, some, List, [], ◌∷◌, ◌++◌, ltb, leb, ◌&&◌, not, if◌then◌else◌,
  Result, ok, err, ◌>>=◌, ◌>>◌, require, ok_or, map,
}
use agentpay.Prelude.Int.{ℤ, pos, negsuc, ltb_ℤ}
use agentpay.Prelude.Bytes.{Bytes, bytes_eq}
use agentpay.Prelude.Words.{i64_max}
use agentpay.Gateway.Claim.{Claim}
use agentpay.Gateway.State.{
  SignedClaim, SessionRecord, ClaimRejection, ClaimAccepted, StoreError, session_expired,
  session_settled, not_monotonic, nonce_not_monotonic, exceeds_deposit, unavailable, already_open,
  unknown, evaluate_claim,
}
use agentpay.Gateway.Evidence.{
  Decision, decided_allowed, decided_not_monotonic, decided_nonce_not_monotonic,
  decided_exceeds_deposit, decided_session_expired, EvidenceEntry, EvidenceRow, entries, DbError,
  sqlx_error, row_not_found, migrate, out_of_range, negative_amount, bad_pubkey, bad_signature,
  bad_hash, append_evidence,
}
use agentpay.Gateway.Evidence.Merkle.{new_tree, root}
use agentpay.Gateway.Keyed.{Table, find, set_row, insert_row}

module _ (sha256 : Bytes → ℕ) where
  -- The evidence of an attempt: the session's log, appended to unless the session is settled.
  unfoldable pub recorded_evidence :
      (ℕ → Bool)
      → List EvidenceRow
      → Claim
      → ℕ
      → Option Decision
      → Result DbError (List EvidenceRow)
  recorded_evidence fails log claim signature none = ok log
  recorded_evidence fails log claim signature (some decision) = do
    query fails 3
    log' ← append_evidence sha256 log claim decision signature
    query fails 4
    ok log'

abbrev pub with_log : Bytes → List EvidenceRow → Tables → Tables
with_log key log t = record t {
  evidence_log = λ k. if bytes_eq k key then log else t.evidence_log k;
}

-- From the decision on: the refusal is committed, or the mark is advanced and committed.
unfoldable pub finish_claim :
    (ℕ → Bool)
    → Bytes
    → Claim
    → ℕ
    → Tables
    → Result ClaimRejection ClaimAccepted
    → Tables
    → Result DbError (Result ClaimRejection ClaimAccepted × Tables)
finish_claim fails key claim signature before (err rejection) logged = do
  query fails 5
  ok (err rejection, logged)
finish_claim fails key claim signature before (ok accepted) logged = do
  cumulative_amount ← to_i64 accepted.cumulative_amount
  nonce ← to_i64 accepted.nonce
  query fails 5
  written ←
      upsert_ticket key
        (record {
          cumulative_amount = cumulative_amount;
          nonce = nonce;
          expires_at = claim.expires_at;
          signature = signature;
        })
        logged.claim_tickets
  query fails 6
  ok (
      if written.0
      then (ok accepted, record logged { claim_tickets = written.1 })
      else (err not_monotonic, before))

-- What `admit_claim` makes of the outcome.
abbrev pub claim_answer {ℓ} : {A : Type ℓ} → Result DbError A → Result StoreError A
claim_answer (ok outcome) = ok outcome
claim_answer (err row_not_found) = err unknown
claim_answer (err sqlx_error) = err unavailable
claim_answer (err migrate) = err unavailable
claim_answer (err out_of_range) = err unavailable
claim_answer (err negative_amount) = err unavailable
claim_answer (err bad_pubkey) = err unavailable
claim_answer (err bad_signature) = err unavailable
claim_answer (err bad_hash) = err unavailable

module _ (to_base58 : ℕ → Bytes) (parse_base58 : Bytes → Option ℕ) (sha256 : Bytes → ℕ) where
  unfoldable pub upsert_claim_high_water_mark :
      (ℕ → Bool)
      → Claim
      → ℕ
      → ℤ
      → Tables
      → Result DbError (Result ClaimRejection ClaimAccepted × Tables)
  upsert_claim_high_water_mark fails claim signature now t = do
    query fails 0
    query fails 1
    row ← elim (find (to_base58 claim.session) t.sessions) [
      | none ↦ query fails 2 >> err row_not_found
      | some row ↦ ok row
    ]
    query fails 2
    r ←
        locked_record parse_base58 claim.session row
          (find (to_base58 claim.session) t.claim_tickets)
    log ←
        recorded_evidence sha256 fails (t.evidence_log (to_base58 claim.session)) claim signature
          (recorded_decision (evaluate_claim r claim now))
    finish_claim fails (to_base58 claim.session) claim signature t (evaluate_claim r claim now)
        (with_log (to_base58 claim.session) log t)

  unfoldable pub store_admit_claim :
      (ℕ → Bool)
      → Claim
      → ℕ
      → ℤ
      → Tables
      → Result StoreError (Result ClaimRejection ClaimAccepted × Tables)
  store_admit_claim fails claim signature now t =
      claim_answer (upsert_claim_high_water_mark fails claim signature now t)
