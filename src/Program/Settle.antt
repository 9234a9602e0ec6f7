-- ===== src/Program/Settle.antt =====
-- `settle_session` with the constraints of `struct SettleSession`.
use agentpay.Prelude.{
  ℕ, true, some, List, [], ◌∷◌, ◌++◌, ◌||◌, ltb, leb, ◌==◌, Result, ok, ◌>>=◌, ◌>>◌, require, ok_or,
}
use agentpay.Prelude.Int.{ℤ, leb_ℤ}
use agentpay.Prelude.Words.{checked_add, checked_sub, checked_add_i64}
use agentpay.Prelude.Bytes.{Bytes, le_bytes}
use agentpay.Program.Types.{
  Session, SessionSettled, AgentPayError, ProgramError, own, lift, unauthorized_settler,
  session_expired, claim_expired, claim_not_monotonic, claim_exceeds_deposit,
  payout_exceeds_deposit, arithmetic_overflow, mint_mismatch, vault_mismatch,
  token_account_owner_mismatch, account_not_signer, account_not_initialized, constraint_seeds,
  constraint_address, token_failed, settlement_seed, clock_skew_tolerance_secs,
}
use agentpay.Program.Runtime.{Runtime, Tx, World, AccountInfo, Transfer, update}
use agentpay.Program.Message.{build_claim_message}
use agentpay.Program.Ed25519.{verify_ed25519_claim}
use agentpay.Program.Open.{session_seeds, vault_seeds}
use agentpay.Program.Receipt.{ReceiptUpdate, advance_receipt}

pub record SettleAccounts : Type 0 where
  pub settler : ℕ
  pub session : ℕ
  pub settlement_record : ℕ
  pub vault : ℕ
  pub provider_token_account : ℕ
  pub mint : ℕ
  pub instructions_sysvar : ℕ
  pub token_program : ℕ

pub record SettleArgs : Type 0 where
  pub cumulative_amount : ℕ
  pub nonce : ℕ
  pub claim_expires_at : ℤ
  pub merkle_root : ℕ

abbrev pub settlement_seeds : ℕ → List Bytes
settlement_seeds session = settlement_seed ∷ le_bytes 32 session ∷ []

-- What the account constraints hand to the handler.
pub record SettleValidated : Type 0 where
  pub session : Session
  pub record_bump : ℕ
  pub decimals : ℕ

-- The `require!`s ahead of the signature.
unfoldable pub settle_checks : SettleArgs → ℕ → ℤ → Session → Result AgentPayError (Unit {0})
settle_checks args settler now s = do
  require (settler == s.settlement_authority || settler == s.provider) unauthorized_settler
  limit ← ok_or (checked_add_i64 s.expires_at clock_skew_tolerance_secs) arithmetic_overflow
  require (leb_ℤ now limit) session_expired
  claim_limit ←
      ok_or (checked_add_i64 args.claim_expires_at clock_skew_tolerance_secs) arithmetic_overflow
  require (leb_ℤ now claim_limit) claim_expired
  require (ltb s.cumulative_settled args.cumulative_amount) claim_not_monotonic
  require (leb args.cumulative_amount s.deposited_total) claim_exceeds_deposit

-- `delta`, behind the check of the payout.
unfoldable pub settle_delta : ℕ → Session → Result AgentPayError ℕ
settle_delta cumulative_amount s = do
  delta ← ok_or (checked_sub cumulative_amount s.cumulative_settled) arithmetic_overflow
  settled_plus_refunded ← ok_or (checked_add cumulative_amount s.refunded_total) arithmetic_overflow
  require (leb settled_plus_refunded s.deposited_total) payout_exceeds_deposit
  ok delta

module _ (rt : Runtime) where
  -- The constraints on the session and its vault that settlement and refund share.
  unfoldable pub session_constraints : ℕ → ℕ → ℕ → Session → Result ProgramError (Unit {0})
  session_constraints session mint vault s = do
    key ←
        ok_or
          (rt.create_program_address
            (session_seeds s.agent s.provider s.session_id ++ (s.bump ∷ []) ∷ []))
          constraint_seeds
    require (key == session) constraint_seeds
    require (s.mint == mint) (own mint_mismatch)
    require (s.vault == vault) (own vault_mismatch)

  unfoldable pub vault_constraints : ℕ → ℕ → Session → Result ProgramError (Unit {0})
  vault_constraints session vault s = do
    key ←
        ok_or (rt.create_program_address (vault_seeds session ++ (s.vault_bump ∷ []) ∷ []))
          constraint_seeds
    require (key == vault) constraint_seeds

  -- The payee's token account: of this mint, and owned by the party that the session names.
  unfoldable pub payee_constraints : ℕ → ℕ → ℕ → rt.Ledger → Result ProgramError (Unit {0})
  payee_constraints account mint owner ledger = do
    t ← ok_or (rt.token_account ledger account) account_not_initialized
    require (t.mint == mint) (own mint_mismatch)
    require (t.owner == owner) (own token_account_owner_mismatch)

  unfoldable pub settle_validate :
      SettleAccounts → Tx → World rt → Result ProgramError SettleValidated
  unfolding session_constraints vault_constraints payee_constraints
  settle_validate a tx w = do
    require (tx.signers a.settler) account_not_signer
    s ← ok_or (w.sessions a.session) account_not_initialized
    session_constraints a.session a.mint a.vault s
    (record_key, record_bump) ←
        ok_or (rt.find_program_address (settlement_seeds a.session)) constraint_seeds
    require (record_key == a.settlement_record) constraint_seeds
    vault_account ← ok_or (rt.token_account w.ledger a.vault) account_not_initialized
    vault_constraints a.session a.vault s
    payee_constraints a.provider_token_account a.mint s.provider w.ledger
    decimals ← ok_or (rt.mint_decimals w.ledger a.mint) account_not_initialized
    require (a.instructions_sysvar == rt.instructions_sysvar) constraint_address
    ok (record { session = s; record_bump = record_bump; decimals = decimals })

  -- The transfer out of the vault, which the session's own address signs.
  abbrev pub payout : SettleAccounts → ℕ → ℕ → Transfer
  payout a delta decimals = record {
    token_program = a.token_program;
    from = a.vault;
    mint = a.mint;
    to = a.provider_token_account;
    authority = a.session;
    amount = delta;
    decimals = decimals;
  }

  -- `expected`
  abbrev pub claim_message : SettleAccounts → SettleArgs → Bytes
  claim_message a args =
      build_claim_message a.session args.cumulative_amount args.nonce args.claim_expires_at

  abbrev pub receipt_update : SettleAccounts → SettleArgs → Tx → SettleValidated → ReceiptUpdate
  receipt_update a args tx v = record {
    session = a.session;
    settler = a.settler;
    claim_hash = rt.sha256 (claim_message a args);
    merkle_root = args.merkle_root;
    settled_at = tx.now;
    settled_amount = args.cumulative_amount;
    bump = v.record_bump;
  }

  abbrev pub settled_world :
      SettleAccounts → SettleArgs → World rt → SettleValidated → rt.Ledger → AccountInfo → World rt
  settled_world a args w v ledger receipt = record {
    ledger = ledger;
    sessions = update w.sessions a.session (
        some
          (record (v.session) { cumulative_settled = args.cumulative_amount; is_settled = true }));
    receipts = update w.receipts a.settlement_record receipt;
  }

  abbrev pub settled_event : SettleAccounts → SettleArgs → Tx → SettleValidated → ℕ → SessionSettled
  settled_event a args tx v delta = record {
    session = a.session;
    provider = v.session.provider;
    cumulative_amount = args.cumulative_amount;
    transferred = delta;
    merkle_root = args.merkle_root;
    settled_at = tx.now;
  }

  unfoldable pub settle_session :
      SettleAccounts → SettleArgs → Tx → World rt → Result ProgramError (World rt × SessionSettled)
  settle_session a args tx w = do
    v ← settle_validate a tx w
    let s = v.session
    lift (settle_checks args a.settler tx.now s)
    lift (verify_ed25519_claim rt.ed25519_program tx s.agent (claim_message a args))
    delta ← lift (settle_delta args.cumulative_amount s)
    ledger ← ok_or (rt.transfer_checked w.ledger (payout a delta v.decimals)) token_failed
    receipt ← advance_receipt rt (receipt_update a args tx v) (w.receipts a.settlement_record)
    ok (settled_world a args w v ledger receipt, settled_event a args tx v delta)
