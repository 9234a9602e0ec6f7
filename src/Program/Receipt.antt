-- ===== src/Program/Receipt.antt =====
-- The receipt half of `settle_session`: create the settlement record on the first settlement,
-- advance it on every later one.
use agentpay.Prelude.{ℕ, Bool, ◌==◌, if◌then◌else◌, Result, ok, ◌>>=◌, ◌>>◌, require, ok_or}
use agentpay.Prelude.Int.{ℤ, pos}
use agentpay.Program.Types.{
  SettlementRecord, ProgramError, own, settlement_record_invalid, create_account_failed,
}
use agentpay.Program.Runtime.{Runtime, AccountInfo}

-- What a settlement writes into the receipt.
pub record ReceiptUpdate : Type 0 where
  pub session : ℕ
  pub settler : ℕ
  pub claim_hash : ℕ
  pub merkle_root : ℕ
  pub settled_at : ℤ
  pub settled_amount : ℕ
  pub bump : ℕ

module _ (rt : Runtime) where
  -- `record_is_new`
  abbrev pub record_is_new : AccountInfo → Bool
  record_is_new info = info.owner == rt.system_program

  -- The first `if record_is_new`: the account to write to.
  unfoldable pub prepare_account : ReceiptUpdate → AccountInfo → Result ProgramError AccountInfo
  prepare_account u info =
      if record_is_new info
      then ok_or
          (rt.create_account u.settler info (rt.minimum_balance rt.settlement_record_space)
            rt.settlement_record_space rt.program_id)
          create_account_failed
      else (require (info.owner == rt.program_id) (own settlement_record_invalid) >> ok info)

  -- The second `if record_is_new`: the record to advance.
  unfoldable pub current_record : ReceiptUpdate → AccountInfo → Result ProgramError SettlementRecord
  current_record u info =
      if record_is_new info
      then ok (record {
        session = u.session;
        claim_hash = 0;
        merkle_root = 0;
        settled_at = pos 0;
        settled_amount = 0;
        bump = u.bump;
      })
      else (do
        existing ← ok_or (rt.try_deserialize info.content) (own settlement_record_invalid)
        require (existing.session == u.session) (own settlement_record_invalid)
        ok existing)

  unfoldable pub advance_receipt : ReceiptUpdate → AccountInfo → Result ProgramError AccountInfo
  advance_receipt u info = do
    account ← prepare_account u info
    old ← current_record u info
    let new = record old {
      claim_hash = u.claim_hash;
      merkle_root = u.merkle_root;
      settled_at = u.settled_at;
      settled_amount = u.settled_amount;
      bump = u.bump;
    }
    ok (record account { content = rt.try_serialize new })
