-- ===== src/Program/Refund.antt =====
-- `refund_session` with the constraints of `struct RefundSession`.
use agentpay.Prelude.{
  ℕ, Bool, true, false, some, ltb, ◌==◌, if◌then◌else◌, Result, ok, ◌>>=◌, ◌>>◌, require, ok_or,
}
use agentpay.Prelude.Int.{ℤ, ltb_ℤ}
use agentpay.Prelude.Words.{checked_add, checked_sub, checked_add_i64}
use agentpay.Program.Types.{
  Session, SessionRefunded, AgentPayError, ProgramError, own, lift, unauthorized_refund,
  session_still_active, nothing_to_refund, arithmetic_overflow, account_not_signer,
  account_not_initialized, token_failed, clock_skew_tolerance_secs,
}
use agentpay.Program.Runtime.{Runtime, Tx, World, Transfer, update}
use agentpay.Program.Settle.{session_constraints, vault_constraints, payee_constraints}

pub record RefundAccounts : Type 0 where
  pub caller : ℕ
  pub session : ℕ
  pub vault : ℕ
  pub agent_token_account : ℕ
  pub mint : ℕ
  pub token_program : ℕ

pub record RefundValidated : Type 0 where
  pub session : Session
  pub decimals : ℕ

-- `expired`, and what a caller must be before it.
unfoldable pub refund_expired : ℕ → ℤ → Session → Result AgentPayError Bool
refund_expired caller now s = do
  limit ← ok_or (checked_add_i64 s.expires_at clock_skew_tolerance_secs) arithmetic_overflow
  let expired = ltb_ℤ limit now
  if expired then ok true else (do
    require (caller == s.agent) unauthorized_refund
    require s.is_settled session_still_active
    ok false)

unfoldable pub refund_remaining : Session → Result AgentPayError ℕ
refund_remaining s = do
  unsettled ← ok_or (checked_sub s.deposited_total s.cumulative_settled) arithmetic_overflow
  remaining ← ok_or (checked_sub unsettled s.refunded_total) arithmetic_overflow
  require (ltb 0 remaining) nothing_to_refund
  ok remaining

module _ (rt : Runtime) where
  unfoldable pub refund_validate :
      RefundAccounts → Tx → World rt → Result ProgramError RefundValidated
  unfolding session_constraints vault_constraints payee_constraints
  refund_validate a tx w = do
    require (tx.signers a.caller) account_not_signer
    s ← ok_or (w.sessions a.session) account_not_initialized
    session_constraints rt a.session a.mint a.vault s
    vault_account ← ok_or (rt.token_account w.ledger a.vault) account_not_initialized
    vault_constraints rt a.session a.vault s
    payee_constraints rt a.agent_token_account a.mint s.agent w.ledger
    decimals ← ok_or (rt.mint_decimals w.ledger a.mint) account_not_initialized
    ok (record { session = s; decimals = decimals })

  abbrev pub refund : RefundAccounts → ℕ → ℕ → Transfer
  refund a remaining decimals = record {
    token_program = a.token_program;
    from = a.vault;
    mint = a.mint;
    to = a.agent_token_account;
    authority = a.session;
    amount = remaining;
    decimals = decimals;
  }

  abbrev pub refunded_world : RefundAccounts → World rt → RefundValidated → rt.Ledger → ℕ → World rt
  refunded_world a w v ledger refunded_total = record w {
    ledger = ledger;
    sessions =
        update w.sessions a.session (some (record (v.session) { refunded_total = refunded_total }));
  }

  abbrev pub refunded_event : RefundAccounts → Tx → RefundValidated → ℕ → Bool → SessionRefunded
  refunded_event a tx v remaining expired = record {
    session = a.session;
    agent = v.session.agent;
    amount = remaining;
    permissionless = expired;
    refunded_at = tx.now;
  }

  unfoldable pub refund_session :
      RefundAccounts → Tx → World rt → Result ProgramError (World rt × SessionRefunded)
  refund_session a tx w = do
    v ← refund_validate a tx w
    let s = v.session
    expired ← lift (refund_expired a.caller tx.now s)
    remaining ← lift (refund_remaining s)
    ledger ← ok_or (rt.transfer_checked w.ledger (refund a remaining v.decimals)) token_failed
    refunded_total ← ok_or (checked_add s.refunded_total remaining) (own arithmetic_overflow)
    ok (refunded_world a w v ledger refunded_total, refunded_event a tx v remaining expired)
