-- ===== src/Program/Outcome.antt =====
-- What an instruction that succeeds has checked and done, as one record for each instruction; the
-- other proofs about the program start from these.
use agentpay.Prelude.{
  ℕ, ◌+◌, ◌≤◌, ◌<◌, ◌≡◌, sym, ◌⊎◌, ok_or-eq-ok, ok-injective, Bool, true, false, none, some, arith,
  ok, ok_or, >>=-eq-ok,
}
use agentpay.Prelude.Int.{ℤ, ◌+ℤ◌, ◌-ℤ◌, ◌≤ℤ◌, ◌<ℤ◌}
use agentpay.Program.Types.{
  SessionOpened, own, arithmetic_overflow, max_session_duration_secs, lift, lift-eq-ok,
  token_failed, Session, SessionSettled, SessionRefunded, clock_skew_tolerance_secs,
}
use agentpay.Program.Runtime.{Runtime, Tx, World, AccountInfo, TokenAccount}
use agentpay.Program.Ed25519.{verify_ed25519_claim}
use agentpay.Prelude.Words.{checked_add}
use agentpay.Program.Open.{
  OpenAccounts, OpenArgs, OpenValidated, open_checks, open_validate, open_session, opened_world,
  opened_event, deposit,
}
use agentpay.Program.Refund.{
  RefundAccounts, RefundValidated, refund_validate, refund_expired, refund_remaining,
  refund_session, refunded_world, refunded_event, refund,
}
use agentpay.Program.Receipt.{advance_receipt}
use agentpay.Program.Settle.{
  SettleAccounts, SettleArgs, SettleValidated, settle_checks, settle_delta, settle_validate,
  settle_session, settled_world, settled_event, claim_message, receipt_update, payout,
  payee_constraints, session_constraints,
}

-- The guards of `settle_checks` and `settle_delta`.
pub record SettleGuards (args : SettleArgs) (settler : ℕ) (now : ℤ) (s : Session) : Type 0 where
  pub authorised : (settler ≡ s.settlement_authority) ⊎ (settler ≡ s.provider)
  pub in_session : now ≤ℤ s.expires_at +ℤ clock_skew_tolerance_secs
  pub in_claim : now ≤ℤ args.claim_expires_at +ℤ clock_skew_tolerance_secs
  pub grows : s.cumulative_settled < args.cumulative_amount
  pub bounded : args.cumulative_amount ≤ s.deposited_total

pub settle_checks-SettleGuards :
    (args : SettleArgs) (settler : ℕ) (now : ℤ) (s : Session)
    → settle_checks args settler now s ≡ ok tt
    → SettleGuards args settler now s
unfolding settle_checks
settle_checks-SettleGuards args settler now s h = ground arith

pub settle_delta_exact :
    (c d : ℕ) (s : Session)
    → settle_delta c s ≡ ok d
    → (s.cumulative_settled + d ≡ c) × (c + s.refunded_total ≤ s.deposited_total)
unfolding settle_delta
settle_delta_exact c d s h = ground arith

module _ (rt : Runtime) where
  pub payee_constraints_exact :
      (k mint owner : ℕ) (l : rt.Ledger)
      → payee_constraints rt k mint owner l ≡ ok tt
      → (t : TokenAccount) × (rt.token_account l k ≡ some t) × (t.mint ≡ mint) × (t.owner ≡ owner)
  unfolding payee_constraints
  payee_constraints_exact k mint owner l h = ground arith

  pub session_constraints_exact :
      (k mint vault : ℕ) (s : Session)
      → session_constraints rt k mint vault s ≡ ok tt
      → (s.mint ≡ mint) × (s.vault ≡ vault)
  unfolding session_constraints
  session_constraints_exact k mint vault s h = ground arith

  pub settle_validate_exact :
      (a : SettleAccounts) (tx : Tx) (w : World rt) (v : SettleValidated)
      → settle_validate rt a tx w ≡ ok v
      → (tx.signers a.settler ≡ true)
        × (w.sessions a.session ≡ some v.session)
        × (session_constraints rt a.session a.mint a.vault v.session ≡ ok tt)
        × (payee_constraints rt a.provider_token_account a.mint v.session.provider w.ledger ≡ ok tt)
  unfolding settle_validate
  settle_validate_exact a tx w v h = ground arith

  pub settle_session_parts :
      (a : SettleAccounts) (args : SettleArgs) (tx : Tx) (w : World rt)
      (r : World rt × SessionSettled)
      → settle_session rt a args tx w ≡ ok r
      → (v : SettleValidated) × (d : ℕ) × (l : rt.Ledger) × (receipt : AccountInfo)
        × (settle_validate rt a tx w ≡ ok v)
        × (settle_checks args a.settler tx.now v.session ≡ ok tt)
        × (verify_ed25519_claim rt.ed25519_program tx v.session.agent (claim_message rt a args)
            ≡ ok tt)
        × (settle_delta args.cumulative_amount v.session ≡ ok d)
        × (rt.transfer_checked w.ledger (payout rt a d v.decimals) ≡ some l)
        × (advance_receipt rt (receipt_update rt a args tx v) (w.receipts a.settlement_record)
            ≡ ok receipt)
        × (r ≡ (settled_world rt a args w v l receipt, settled_event rt a args tx v d))
  unfolding settle_session
  settle_session_parts a args tx w r h =
      let (v, hv, h1) = >>=-eq-ok (settle_validate rt a tx w) _ h in
      let (u, hc, h2) = >>=-eq-ok (lift (settle_checks args a.settler tx.now v.session)) _ h1 in
      let (u', he, h3) =
        >>=-eq-ok
          (lift
            (verify_ed25519_claim rt.ed25519_program tx v.session.agent (claim_message rt a args)))
          _ h2 in
      let (d, hd, h4) = >>=-eq-ok (lift (settle_delta args.cumulative_amount v.session)) _ h3 in
      let (l, hl, h5) =
        >>=-eq-ok (ok_or (rt.transfer_checked w.ledger (payout rt a d v.decimals)) token_failed) _
          h4 in
      let (receipt, hr, h6) =
        >>=-eq-ok
          (advance_receipt rt (receipt_update rt a args tx v) (w.receipts a.settlement_record)) _
          h5 in
      (
        v,
        d,
        l,
        receipt,
        hv,
        lift-eq-ok _ hc,
        lift-eq-ok _ he,
        lift-eq-ok _ hd,
        ok_or-eq-ok _ _ hl,
        hr,
        sym (ok-injective h6),
      )

  pub open_session_parts :
      (a : OpenAccounts) (args : OpenArgs) (tx : Tx) (w : World rt) (r : World rt × SessionOpened)
      → open_session rt a args tx w ≡ ok r
      → (v : OpenValidated) × (l : rt.Ledger) × (l' : rt.Ledger) × (open_validate rt a args tx w
          ≡ ok (v, l))
        × (open_checks args tx.now ≡ ok tt)
        × (rt.transfer_checked l (deposit a args.deposit_amount v.decimals) ≡ some l')
        × (r ≡ (opened_world rt a args w v l', opened_event rt a args))
  unfolding open_session
  open_session_parts a args tx w r h =
      let ((v, l), hv, h1) = >>=-eq-ok (open_validate rt a args tx w) _ h in
      let (u, hc, h2) = >>=-eq-ok (lift (open_checks args tx.now)) _ h1 in
      let (l', hl, h3) =
        >>=-eq-ok
          (ok_or (rt.transfer_checked l (deposit a args.deposit_amount v.decimals)) token_failed) _
          h2 in
      (v, l, l', hv, lift-eq-ok _ hc, ok_or-eq-ok _ _ hl, sym (ok-injective h3))

  pub open_validate_fresh :
      (a : OpenAccounts) (args : OpenArgs) (tx : Tx) (w : World rt) (r : OpenValidated × rt.Ledger)
      → open_validate rt a args tx w ≡ ok r
      → (tx.signers a.agent ≡ true) × (w.sessions a.session ≡ none)
  unfolding open_validate
  open_validate_fresh a args tx w r h = ground arith

  pub refund_session_parts :
      (a : RefundAccounts) (tx : Tx) (w : World rt) (r : World rt × SessionRefunded)
      → refund_session rt a tx w ≡ ok r
      → (v : RefundValidated) × (e : Bool) × (n : ℕ) × (l : rt.Ledger) × (t : ℕ) × (refund_validate
            rt a tx w
          ≡ ok v)
        × (refund_expired a.caller tx.now v.session ≡ ok e)
        × (refund_remaining v.session ≡ ok n)
        × (rt.transfer_checked w.ledger (refund rt a n v.decimals) ≡ some l)
        × (checked_add v.session.refunded_total n ≡ some t)
        × (r ≡ (refunded_world rt a w v l t, refunded_event rt a tx v n e))
  unfolding refund_session
  refund_session_parts a tx w r h =
      let (v, hv, h1) = >>=-eq-ok (refund_validate rt a tx w) _ h in
      let (e, he, h2) = >>=-eq-ok (lift (refund_expired a.caller tx.now v.session)) _ h1 in
      let (n, hn, h3) = >>=-eq-ok (lift (refund_remaining v.session)) _ h2 in
      let (l, hl, h4) =
        >>=-eq-ok (ok_or (rt.transfer_checked w.ledger (refund rt a n v.decimals)) token_failed) _
          h3 in
      let (t, ht, h5) =
        >>=-eq-ok (ok_or (checked_add v.session.refunded_total n) (own arithmetic_overflow)) _ h4 in
      (
        v,
        e,
        n,
        l,
        t,
        hv,
        lift-eq-ok _ he,
        lift-eq-ok _ hn,
        ok_or-eq-ok _ _ hl,
        ok_or-eq-ok _ _ ht,
        sym (ok-injective h5),
      )

  pub refund_validate_exact :
      (a : RefundAccounts) (tx : Tx) (w : World rt) (v : RefundValidated)
      → refund_validate rt a tx w ≡ ok v
      → (tx.signers a.caller ≡ true)
        × (w.sessions a.session ≡ some v.session)
        × (session_constraints rt a.session a.mint a.vault v.session ≡ ok tt)
        × (payee_constraints rt a.agent_token_account a.mint v.session.agent w.ledger ≡ ok tt)
  unfolding refund_validate
  refund_validate_exact a tx w v h = ground arith

pub refund_remaining_exact :
    (n : ℕ) (s : Session)
    → refund_remaining s ≡ ok n
    → (s.cumulative_settled + s.refunded_total + n ≡ s.deposited_total) × (0 < n)
unfolding refund_remaining
refund_remaining_exact n s h = ground arith

-- Before expiry the agent alone, and only once the session has settled.
pub refund_expired_exact :
    (caller : ℕ) (now : ℤ) (e : Bool) (s : Session)
    → refund_expired caller now s ≡ ok e
    → ((e ≡ true) × (s.expires_at +ℤ clock_skew_tolerance_secs <ℤ now))
      ⊎ ((e ≡ false)
          × (now ≤ℤ s.expires_at +ℤ clock_skew_tolerance_secs)
          × (caller ≡ s.agent)
          × (s.is_settled ≡ true))
unfolding refund_expired
refund_expired_exact caller now e s h = ground arith

pub open_checks_exact :
    (args : OpenArgs) (now : ℤ)
    → open_checks args now ≡ ok tt
    → (0 < args.deposit_amount)
      × (now <ℤ args.expires_at)
      × (args.expires_at -ℤ now ≤ℤ max_session_duration_secs)
unfolding open_checks
open_checks_exact args now h = ground arith
