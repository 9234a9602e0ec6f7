-- ===== src/Program/Guards.antt =====
-- When the program's own checks pass: exactly, and for a late refund always.
use agentpay.Prelude.{ℕ, ◌+◌, ◌<◌, ◌≡◌, ◌↔◌, true, some, arith, ok}
use agentpay.Prelude.Int.{ℤ, ◌+ℤ◌, ◌<ℤ◌}
use agentpay.Prelude.Words.{IsI64, checked_add}
use agentpay.Program.Types.{Session, clock_skew_tolerance_secs}
use agentpay.Program.Runtime.{Runtime, Tx, World}
use agentpay.Program.Settle.{SettleArgs, settle_checks}
use agentpay.Program.Refund.{
  RefundAccounts, RefundValidated, refund_validate, refund_expired, refund_remaining,
  refund_session, refund, refunded_world, refunded_event,
}
use agentpay.Program.Outcome.{SettleGuards, settle_checks-SettleGuards}
use agentpay.Program.Accounting.{IsBalanced}

-- Adding the skew to both expiries stays within an i64.
abbrev pub SkewFits : ℤ → Type 0
SkewFits z = IsI64 (z +ℤ clock_skew_tolerance_secs)

SettleGuards-settle_checks :
    (args : SettleArgs) (settler : ℕ) (now : ℤ) (s : Session)
    → SettleGuards args settler now s
    → SkewFits s.expires_at
    → SkewFits args.claim_expires_at
    → settle_checks args settler now s ≡ ok tt
unfolding settle_checks
SettleGuards-settle_checks args settler now s g p q = ground arith

settle_checks-SkewFits :
    (args : SettleArgs) (settler : ℕ) (now : ℤ) (s : Session)
    → settle_checks args settler now s ≡ ok tt
    → SkewFits s.expires_at × SkewFits args.claim_expires_at
unfolding settle_checks
settle_checks-SkewFits args settler now s h = ground arith

-- The checks ahead of the signature pass exactly if the settler is the authority or the
-- provider, neither expiry has passed, both expiries can be extended by the skew without
-- overflow, and the claimed total lies above the settled one and within the deposit.
pub settle_checks_iff :
    (args : SettleArgs) (settler : ℕ) (now : ℤ) (s : Session)
    → (settle_checks args settler now s ≡ ok tt)
      ↔ (SettleGuards args settler now s × SkewFits s.expires_at × SkewFits args.claim_expires_at)
settle_checks_iff args settler now s = (
  λ h.
      let (p, q) = settle_checks-SkewFits args settler now s h in
      (settle_checks-SettleGuards args settler now s h, p, q),
  λ h. SettleGuards-settle_checks args settler now s h.0 h.1 h.2,
)

late_refund_checks :
    (caller : ℕ) (now : ℤ) (s : Session)
    → SkewFits s.expires_at
    → s.expires_at +ℤ clock_skew_tolerance_secs <ℤ now
    → refund_expired caller now s ≡ ok true
unfolding refund_expired
late_refund_checks caller now s p q = ground arith

unspent_remaining :
    (n : ℕ) (s : Session)
    → IsBalanced s
    → s.cumulative_settled + s.refunded_total + n ≡ s.deposited_total
    → 0 < n
    → refund_remaining s ≡ ok n
unfolding refund_remaining
unspent_remaining n s b e p = ground arith

refunded_total_fits :
    (n : ℕ) (s : Session)
    → IsBalanced s
    → s.cumulative_settled + s.refunded_total + n ≡ s.deposited_total
    → checked_add s.refunded_total n ≡ some (s.refunded_total + n)
refunded_total_fits n s b e = ground arith

module _ (rt : Runtime) where
  -- Recovery needs nobody: once a session has expired (skew allowed) any signer whose accounts pass the
  -- constraints gets everything that is left paid back to the agent, if the token program
  -- accepts the transfer. The session is balanced, as every reachable one is.
  pub late_refund_succeeds :
      (a : RefundAccounts) (tx : Tx) (w : World rt) (v : RefundValidated) (n : ℕ) (l : rt.Ledger)
      → refund_validate rt a tx w ≡ ok v
      → IsBalanced v.session
      → SkewFits v.session.expires_at
      → v.session.expires_at +ℤ clock_skew_tolerance_secs <ℤ tx.now
      → v.session.cumulative_settled + v.session.refunded_total + n ≡ v.session.deposited_total
      → 0 < n
      → rt.transfer_checked w.ledger (refund rt a n v.decimals) ≡ some l
      → refund_session rt a tx w
        ≡ ok (
          refunded_world rt a w v l (v.session.refunded_total + n),
          refunded_event rt a tx v n true,
        )
  unfolding refund_session
  late_refund_succeeds a tx w v n l hv b p q e pos_n t = rw (
    hv,
    late_refund_checks a.caller tx.now v.session p q,
    unspent_remaining n v.session b e pos_n,
    t,
    refunded_total_fits n v.session b e,
  )
