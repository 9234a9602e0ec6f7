-- ===== src/Gateway/Database/Sessions.antt =====
-- The queries of gateway/src/db.rs on sessions and their evidence, and the loading of records.
use agentpay.Prelude.{
  ℕ, Bool, true, false, Option, none, some, List, [], ◌∷◌, not, if◌then◌else◌, Result, ok, err,
  ◌>>=◌, ◌>>◌, require, ok_or,
}
use agentpay.Prelude.Int.{ℤ, pos, ltb_ℤ}
use agentpay.Prelude.Bytes.{Bytes}
use agentpay.Gateway.State.{SessionRecord, StoreError, unavailable, already_open, unknown}
use agentpay.Gateway.Evidence.{EvidenceEntry, entries, DbError, sqlx_error, bad_pubkey}
use agentpay.Gateway.Evidence.Merkle.{new_tree, root}
use agentpay.Gateway.Keyed.{Table, find, set_row, insert_row}
use agentpay.Gateway.Database.Columns.{
  SessionRow, TicketRow, Tables, to_i64, to_u64, store_error, query, is_some, current_mark,
  ticket_columns, settle_row, verify_row, entry_hashes,
}

module _ (to_base58 : ℕ → Bytes) where
  -- What `save_session` binds.
  abbrev pub session_row : SessionRecord → ℤ → SessionRow
  session_row r deposited_total = record {
    agent_pubkey = to_base58 r.agent;
    provider_pubkey = to_base58 r.provider;
    mint_pubkey = to_base58 r.mint;
    deposited_total = deposited_total;
    expires_at = r.expires_at;
    settled_at = none;
    chain_verified = r.chain_verified;
  }

  -- Whether a row was inserted, and the tables.
  unfoldable pub save_session : (ℕ → Bool) → SessionRecord → Tables → Result DbError (Bool × Tables)
  save_session fails r t = do
    deposited_total ← to_i64 r.deposited_total
    query fails 0
    require (ltb_ℤ (pos 0) deposited_total) sqlx_error
    elim (find (to_base58 r.session) t.sessions) [
      | some row ↦ ok (false, t)
      | none ↦ ok (
        true,
        record t {
          sessions = insert_row (to_base58 r.session) (session_row r deposited_total) t.sessions;
        },
      )
    ]

  -- Whether the session was unsettled before, and the tables.
  unfoldable pub mark_session_settled : (ℕ → Bool) → ℕ → ℤ → Tables → Result DbError (Bool × Tables)
  mark_session_settled fails session now t = do
    query fails 0
    ok (
      elim (find (to_base58 session) t.sessions) [
        | none ↦ false
        | some row ↦ not (is_some row.settled_at)
      ],
      record t { sessions = set_row (to_base58 session) (settle_row now) t.sessions },
    )

  unfoldable pub load_evidence_leaves : (ℕ → Bool) → ℕ → Tables → Result DbError (List ℕ)
  load_evidence_leaves fails session t = do
    query fails 0
    ok (entry_hashes (t.evidence_log (to_base58 session)))

  unfoldable pub get_session_merkle_root : (Bytes → ℕ) → (ℕ → Bool) → ℕ → Tables → Result DbError ℕ
  get_session_merkle_root sha256 fails session t = do
    leaves ← load_evidence_leaves fails session t
    ok (root (new_tree sha256 leaves))

  unfoldable pub load_evidence_chain : (ℕ → Bool) → ℕ → Tables → Result DbError (List EvidenceEntry)
  load_evidence_chain fails session t = do
    query fails 0
    ok (entries (t.evidence_log (to_base58 session)))

  unfoldable pub store_open : (ℕ → Bool) → SessionRecord → Tables → Result StoreError Tables
  store_open fails r t = elim (save_session fails r t) [
    | err e ↦ err (store_error e)
    | ok (inserted, t') ↦ if inserted then ok t' else err already_open
  ]

  unfoldable pub store_mark_settled : (ℕ → Bool) → ℕ → ℤ → Tables → Result StoreError Tables
  store_mark_settled fails session now t = elim (mark_session_settled fails session now t) [
    | err e ↦ err (store_error e)
    | ok (changed, t') ↦ ok t'
  ]

  unfoldable pub store_mark_chain_verified : (ℕ → Bool) → ℕ → Tables → Result StoreError Tables
  store_mark_chain_verified fails session t =
      if fails 0 then err unavailable else elim (find (to_base58 session) t.sessions) [
        | none ↦ err unknown
        | some row ↦ ok (record t { sessions = set_row (to_base58 session) verify_row t.sessions })
      ]

module _ (parse_base58 : Bytes → Option ℕ) where
  abbrev pub parse_pubkey : Bytes → Result DbError ℕ
  parse_pubkey s = ok_or (parse_base58 s) bad_pubkey

  unfoldable pub row_to_record :
      Bytes → SessionRow → Option TicketRow → Result DbError SessionRecord
  row_to_record session_pubkey row ticket = do
    session ← parse_pubkey session_pubkey
    mark ← ticket_columns session ticket
    agent ← parse_pubkey row.agent_pubkey
    provider ← parse_pubkey row.provider_pubkey
    mint ← parse_pubkey row.mint_pubkey
    deposited_total ← to_u64 row.deposited_total
    ok (record {
      session = session;
      agent = agent;
      provider = provider;
      mint = mint;
      deposited_total = deposited_total;
      expires_at = row.expires_at;
      cumulative_accepted = mark.0;
      last_nonce = mark.1;
      highest_claim = mark.2;
      is_settled = is_some row.settled_at;
      chain_verified = row.chain_verified;
    })

  -- The unsettled sessions, by `created_at`.
  unfoldable pub active_records :
      Table SessionRow → Table TicketRow → Result DbError (List SessionRecord)
  active_records [] tickets = ok []
  active_records ((key, row) ∷ rows) tickets =
      let rest = active_records rows tickets in
      if is_some row.settled_at
      then rest
      else row_to_record key row (find key tickets) >>= λ r. rest >>= λ rs. ok (r ∷ rs)

  unfoldable pub load_active_sessions : (ℕ → Bool) → Tables → Result DbError (List SessionRecord)
  load_active_sessions fails t = do query fails 0; active_records t.sessions t.claim_tickets

  -- The record that is rebuilt under the row lock.
  unfoldable pub locked_record : ℕ → SessionRow → Option TicketRow → Result DbError SessionRecord
  locked_record session row ticket = do
    deposited_total ← to_u64 row.deposited_total
    mark ← current_mark ticket
    agent ← parse_pubkey row.agent_pubkey
    provider ← parse_pubkey row.provider_pubkey
    mint ← parse_pubkey row.mint_pubkey
    ok (record {
      session = session;
      agent = agent;
      provider = provider;
      mint = mint;
      deposited_total = deposited_total;
      expires_at = row.expires_at;
      cumulative_accepted = mark.0;
      last_nonce = mark.1;
      highest_claim = none;
      is_settled = is_some row.settled_at;
      chain_verified = row.chain_verified;
    })

module _ (to_base58 : ℕ → Bytes) (parse_base58 : Bytes → Option ℕ) where
  unfoldable pub load_session : (ℕ → Bool) → ℕ → Tables → Result DbError (Option SessionRecord)
  load_session fails session t = do
    query fails 0
    elim (find (to_base58 session) t.sessions) [
      | none ↦ ok none
      | some row ↦
          row_to_record parse_base58 (to_base58 session) row
            (find (to_base58 session) t.claim_tickets)
          >>= λ r. ok (some r)
    ]

  unfoldable pub store_get : (ℕ → Bool) → ℕ → Tables → Result StoreError SessionRecord
  store_get fails session t = elim (load_session fails session t) [
    | err e ↦ err (store_error e)
    | ok found ↦ ok_or found unknown
  ]
