-- ===== src/Program/Open.antt =====
-- `open_session` with the constraints of `struct OpenSession`.
use agentpay.Prelude.{
  ℕ, true, false, none, some, List, [], ◌∷◌, ltb, ◌==◌, Result, ok, ◌>>=◌, ◌>>◌, require, ok_or,
}
use agentpay.Prelude.Int.{ℤ, ltb_ℤ, leb_ℤ}
use agentpay.Prelude.Words.{checked_sub_i64}
use agentpay.Prelude.Bytes.{Bytes, le_bytes}
use agentpay.Program.Types.{
  Session, SessionOpened, AgentPayError, ProgramError, own, lift, zero_deposit, expiry_in_past,
  expiry_too_distant, arithmetic_overflow, mint_mismatch, token_account_owner_mismatch,
  account_not_signer, account_not_initialized, account_in_use, constraint_seeds, token_failed,
  session_seed, vault_seed, max_session_duration_secs,
}
use agentpay.Program.Runtime.{Runtime, Tx, World, Transfer, update}

pub record OpenAccounts : Type 0 where
  pub agent : ℕ
  pub provider : ℕ
  pub mint : ℕ
  pub session : ℕ
  pub vault : ℕ
  pub agent_token_account : ℕ
  pub token_program : ℕ

pub record OpenArgs : Type 0 where
  pub session_id : ℕ
  pub deposit_amount : ℕ
  pub expires_at : ℤ
  pub settlement_authority : ℕ

-- The seeds of a session's address, without the bump.
abbrev pub session_seeds : ℕ → ℕ → ℕ → List Bytes
session_seeds agent provider session_id =
    session_seed ∷ le_bytes 32 agent ∷ le_bytes 32 provider ∷ le_bytes 16 session_id ∷ []

abbrev pub vault_seeds : ℕ → List Bytes
vault_seeds session = vault_seed ∷ le_bytes 32 session ∷ []

-- What the account constraints hand to the handler.
pub record OpenValidated : Type 0 where
  pub bump : ℕ
  pub vault_bump : ℕ
  pub decimals : ℕ

unfoldable pub open_checks : OpenArgs → ℤ → Result AgentPayError (Unit {0})
open_checks args now = do
  require (ltb 0 args.deposit_amount) zero_deposit
  require (ltb_ℤ now args.expires_at) expiry_in_past
  duration ← ok_or (checked_sub_i64 args.expires_at now) arithmetic_overflow
  require (leb_ℤ duration max_session_duration_secs) expiry_too_distant

-- The fields that `open_session` writes.
abbrev pub opened : OpenAccounts → OpenArgs → OpenValidated → Session
opened a args v = record {
  agent = a.agent;
  provider = a.provider;
  settlement_authority = args.settlement_authority;
  mint = a.mint;
  vault = a.vault;
  deposited_total = args.deposit_amount;
  cumulative_settled = 0;
  refunded_total = 0;
  expires_at = args.expires_at;
  session_id = args.session_id;
  bump = v.bump;
  vault_bump = v.vault_bump;
  is_settled = false;
}

abbrev pub deposit : OpenAccounts → ℕ → ℕ → Transfer
deposit a deposit_amount decimals = record {
  token_program = a.token_program;
  from = a.agent_token_account;
  mint = a.mint;
  to = a.vault;
  authority = a.agent;
  amount = deposit_amount;
  decimals = decimals;
}

module _ (rt : Runtime) where
  unfoldable pub open_validate :
      OpenAccounts → OpenArgs → Tx → World rt → Result ProgramError (OpenValidated × rt.Ledger)
  open_validate a args tx w = do
    require (tx.signers a.agent) account_not_signer
    decimals ← ok_or (rt.mint_decimals w.ledger a.mint) account_not_initialized
    (session_key, bump) ←
        ok_or (rt.find_program_address (session_seeds a.agent a.provider args.session_id))
          constraint_seeds
    require (session_key == a.session) constraint_seeds
    require (elim (w.sessions a.session) [ none ↦ true | some _ ↦ false ]) account_in_use
    (vault_key, vault_bump) ←
        ok_or (rt.find_program_address (vault_seeds a.session)) constraint_seeds
    require (vault_key == a.vault) constraint_seeds
    ledger ← ok_or (rt.init_token_account w.ledger a.vault a.mint a.session) account_in_use
    source ← ok_or (rt.token_account ledger a.agent_token_account) account_not_initialized
    require (source.mint == a.mint) (own mint_mismatch)
    require (source.owner == a.agent) (own token_account_owner_mismatch)
    ok (record { bump = bump; vault_bump = vault_bump; decimals = decimals }, ledger)

  abbrev pub opened_world :
      OpenAccounts → OpenArgs → World rt → OpenValidated → rt.Ledger → World rt
  opened_world a args w v ledger = record w {
    ledger = ledger;
    sessions = update w.sessions a.session (some (opened a args v));
  }

  abbrev pub opened_event : OpenAccounts → OpenArgs → SessionOpened
  opened_event a args = record {
    session = a.session;
    agent = a.agent;
    provider = a.provider;
    settlement_authority = args.settlement_authority;
    mint = a.mint;
    deposited_total = args.deposit_amount;
    expires_at = args.expires_at;
  }

  unfoldable pub open_session :
      OpenAccounts → OpenArgs → Tx → World rt → Result ProgramError (World rt × SessionOpened)
  open_session a args tx w = do
    (v, ledger) ← open_validate a args tx w
    lift (open_checks args tx.now)
    ledger' ←
        ok_or (rt.transfer_checked ledger (deposit a args.deposit_amount v.decimals)) token_failed
    ok (opened_world a args w v ledger', opened_event a args)
