-- ===== src/Gateway/Database/Rows.antt =====
-- What a row of `sessions` and its row of `claim_tickets` say of a session: `row_to_record` and the
-- record that is rebuilt under the row lock.
use agentpay.Prelude.{ℕ, ◌≡◌, refl, Option, none, some, ok, arith}
use agentpay.Prelude.Int.{ℤ, pos}
use agentpay.Prelude.Bytes.{Bytes}
use agentpay.Gateway.Claim.{Claim}
use agentpay.Gateway.State.{SessionRecord, evaluate_claim}
use agentpay.Gateway.Database.{
  SessionRow, TicketRow, is_some, current_mark, ticket_columns, row_to_record, locked_record,
}

module _ (parse_base58 : Bytes → Option ℕ) where
  -- The record, column by column.
  pub record Decodes (key : Bytes) (row : SessionRow) (ticket : Option TicketRow)
      (r : SessionRecord) : Type 0 where
    pub session : parse_base58 key ≡ some r.session
    pub columns :
        ticket_columns r.session ticket ≡ ok (r.cumulative_accepted, r.last_nonce, r.highest_claim)
    pub agent : parse_base58 row.agent_pubkey ≡ some r.agent
    pub provider : parse_base58 row.provider_pubkey ≡ some r.provider
    pub mint : parse_base58 row.mint_pubkey ≡ some r.mint
    pub deposited_total : row.deposited_total ≡ pos r.deposited_total
    pub expires_at : r.expires_at ≡ row.expires_at
    pub settled : r.is_settled ≡ is_some row.settled_at
    pub verified : r.chain_verified ≡ row.chain_verified

  pub row_to_record-Decodes :
      (key : Bytes) (row : SessionRow) (ticket : Option TicketRow) (r : SessionRecord)
      → row_to_record parse_base58 key row ticket ≡ ok r
      → Decodes key row ticket r
  unfolding row_to_record
  row_to_record-Decodes key row ticket r h = ground arith

  pub Decodes-row_to_record :
      (key : Bytes) (row : SessionRow) (ticket : Option TicketRow) (r : SessionRecord)
      → Decodes key row ticket r
      → row_to_record parse_base58 key row ticket ≡ ok r
  unfolding row_to_record
  Decodes-row_to_record key row ticket r h = ground arith

  -- Under the lock the same record is judged, less the retained claim.
  pub Decodes-locked_record :
      (k : ℕ) (key : Bytes) (row : SessionRow) (ticket : Option TicketRow) (r : SessionRecord)
      → r.session ≡ k
      → Decodes key row ticket r
      → locked_record parse_base58 k row ticket ≡ ok (record r { highest_claim = none })
  unfolding locked_record ticket_columns current_mark
  Decodes-locked_record k key row none r e h = ground arith
  Decodes-locked_record k key row (some t) r e h = ground arith

pub evaluate_claim_forgets_ticket :
    (r : SessionRecord) (claim : Claim) (now : ℤ)
    → evaluate_claim (record r { highest_claim = none }) claim now ≡ evaluate_claim r claim now
unfolding evaluate_claim
evaluate_claim_forgets_ticket r claim now = refl
