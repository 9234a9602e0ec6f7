-- ===== src/Gateway/Database/Columns.antt =====
-- The rows of gateway/src/db.rs, what stands in their columns, and the statement that writes a ticket.
use agentpay.Prelude.{
  ℕ, Bool, true, false, Option, none, some, List, [], ◌∷◌, leb, ◌&&◌, not, if◌then◌else◌, Result,
  ok, err, ◌>>=◌, ◌>>◌, require,
}
use agentpay.Prelude.Int.{ℤ, pos, negsuc, ltb_ℤ}
use agentpay.Prelude.Bytes.{Bytes}
use agentpay.Prelude.Words.{i64_max}
use agentpay.Gateway.State.{
  SignedClaim, ClaimRejection, ClaimAccepted, StoreError, session_expired, session_settled,
  not_monotonic, nonce_not_monotonic, exceeds_deposit, unavailable,
}
use agentpay.Gateway.Evidence.{
  Decision, decided_allowed, decided_not_monotonic, decided_nonce_not_monotonic,
  decided_exceeds_deposit, decided_session_expired, EvidenceRow, DbError, sqlx_error, out_of_range,
  negative_amount,
}
use agentpay.Gateway.Keyed.{Table, find, set_row, insert_row}

-- A row of `sessions`, its key `session_pubkey` apart. `created_at` is the order of the rows.
pub record SessionRow : Type 0 where
  pub agent_pubkey : Bytes
  pub provider_pubkey : Bytes
  pub mint_pubkey : Bytes
  pub deposited_total : ℤ
  pub expires_at : ℤ
  pub settled_at : Option ℤ
  pub chain_verified : Bool

-- A row of `claim_tickets`.
pub record TicketRow : Type 0 where
  pub cumulative_amount : ℤ
  pub nonce : ℤ
  pub expires_at : ℤ
  pub signature : ℕ

pub record Tables : Type 0 where
  pub sessions : Table SessionRow
  pub claim_tickets : Table TicketRow
  -- the rows of one session, by `sequence_id`
  pub evidence_log : Bytes → List EvidenceRow

abbrev pub no_tables : Tables
no_tables = record { sessions = []; claim_tickets = []; evidence_log = λ key. [] }

abbrev pub to_i64 : ℕ → Result DbError ℤ
to_i64 value = if leb value i64_max then ok (pos value) else err out_of_range

abbrev pub to_u64 : ℤ → Result DbError ℕ
to_u64 (pos n) = ok n
to_u64 (negsuc n) = err negative_amount

-- The store's error for a database error: `From<DbError>`.
abbrev pub store_error : DbError → StoreError
store_error e = unavailable

-- `execute`, `fetch_optional`, `commit`, .. of the n-th query.
abbrev pub query : (ℕ → Bool) → ℕ → Result DbError (Unit {0})
query fails n = require (not (fails n)) sqlx_error

abbrev pub is_some {ℓ} : {A : Type ℓ} → Option A → Bool
is_some none = false
is_some (some a) = true

-- The decision to be recorded.
unfoldable pub recorded_decision : Result ClaimRejection ClaimAccepted → Option Decision
recorded_decision (ok accepted) = some decided_allowed
recorded_decision (err not_monotonic) = some decided_not_monotonic
recorded_decision (err nonce_not_monotonic) = some decided_nonce_not_monotonic
recorded_decision (err exceeds_deposit) = some decided_exceeds_deposit
recorded_decision (err session_expired) = some decided_session_expired
recorded_decision (err session_settled) = none

-- `cumulative_accepted` and `last_nonce` of the locked session.
unfoldable pub current_mark : Option TicketRow → Result DbError (ℕ × Option ℕ)
current_mark none = ok (0, none)
current_mark (some ticket) = do
  cumulative_accepted ← to_u64 ticket.cumulative_amount
  nonce ← to_u64 ticket.nonce
  ok (cumulative_accepted, some nonce)

-- The claim columns of a joined row.
unfoldable pub ticket_columns :
    ℕ → Option TicketRow → Result DbError (ℕ × Option ℕ × Option SignedClaim)
ticket_columns session none = ok (0, none, none)
ticket_columns session (some ticket) = do
  cumulative_amount ← to_u64 ticket.cumulative_amount
  nonce ← to_u64 ticket.nonce
  ok (
    cumulative_amount,
    some nonce,
    some (record {
      claim = record {
        session = session;
        cumulative_amount = cumulative_amount;
        nonce = nonce;
        expires_at = ticket.expires_at;
      };
      signature = ticket.signature;
    }),
  )

-- `INSERT .. ON CONFLICT DO UPDATE .. WHERE`: the table, and whether a row was written.
unfoldable pub upsert_ticket :
    Bytes → TicketRow → Table TicketRow → Result DbError (Bool × Table TicketRow)
upsert_ticket key row rows = do
  require (ltb_ℤ (pos 0) row.cumulative_amount && not (ltb_ℤ row.nonce (pos 0))) sqlx_error
  elim (find key rows) [
    | none ↦ ok (true, insert_row key row rows)
    | some old ↦
        if ltb_ℤ old.cumulative_amount row.cumulative_amount && ltb_ℤ old.nonce row.nonce
        then ok (true, set_row key (λ r. row) rows)
        else ok (false, rows)
  ]

-- `mark_session_settled` and `mark_chain_verified` on a row.
abbrev pub settle_row : ℤ → SessionRow → SessionRow
settle_row now row = record row {
  settled_at = elim row.settled_at [ none ↦ some now | some at ↦ some at ];
}

abbrev pub verify_row : SessionRow → SessionRow
verify_row row = record row { chain_verified = true }

abbrev pub entry_hashes : List EvidenceRow → List ℕ
entry_hashes [] = []
entry_hashes (r ∷ rs) = r.entry.entry_hash ∷ entry_hashes rs
