-- ===== src/Program/Tests/Guarantees.antt =====
-- Tests of the program's guards, its receipt and its signature check.
use agentpay.Prelude.{
  ℕ, zero, suc, ◌+◌, ◌≤◌, ◌≡◌, ◌≢◌, refl, true, false, some, [], ◌∷◌, arith, ok, length, take, drop,
}
use agentpay.Prelude.Int.{pos, ◌+ℤ◌, ◌<ℤ◌}
use agentpay.Prelude.Bytes.{Bytes, le_bytes}
use agentpay.Program.Types.{Session}
use agentpay.Program.Runtime.{World, Tx, update}
use agentpay.Program.Message.{build_claim_message}
use agentpay.Program.Settle.{
  settle_session, settle_checks, session_constraints, vault_constraints, payee_constraints,
}
use agentpay.Program.Refund.{
  RefundAccounts, RefundValidated, refund_session, refund_validate, refund_expired, refunded_world,
  refunded_event,
}
use agentpay.Program.Accounting.{IsBalanced}
use agentpay.Program.Guards.{SkewFits, late_refund_succeeds}
use agentpay.Program.ReceiptLaws.{settle_writes_receipt, prefunded_receipt_blocks_settlement}
use agentpay.Program.Consent.{settle_needs_agent_signature}
use agentpay.Program.Ed25519.{read_u16}
use agentpay.Program.Ed25519.Laws.{Precompile}
use agentpay.Program.Tests.{Ledger, chain, settle_accounts, settle_args, refund_accounts, tx}
use agentpay.Program.Tests.Life.{
  session_opened, session_settled, after_open, after_settle, settle_event, settle_ok,
}

settle_writes_receipt_example :
    (bump : ℕ) × ((after_settle.receipts 10).content
      ≡ chain.try_serialize (record {
        session = 7;
        claim_hash = chain.sha256 (build_claim_message 7 40 1 (pos 900));
        merkle_root = 77;
        settled_at = pos 500;
        settled_amount = 40;
        bump = bump;
      }))
settle_writes_receipt_example =
    settle_writes_receipt chain settle_accounts settle_args tx after_open after_settle settle_event
      settle_ok

abbrev prefunded : World chain
prefunded = record after_open { receipts = λ k. record { owner = 2; lamports = 1; content = [] } }

prefunded_receipt_blocks_settlement_example :
    settle_session chain settle_accounts settle_args tx prefunded ≢ ok (after_settle, settle_event)
prefunded_receipt_blocks_settlement_example =
    prefunded_receipt_blocks_settlement chain settle_accounts settle_args tx prefunded
      (after_settle, settle_event) (λ payer info lamports space owner held. ground (arith, held))
      refl (λ h. omega (arith, h))

checks_settled :
    settle_checks (record settle_args { cumulative_amount = 50 }) 14 (pos 500) session_settled
    ≡ ok tt
unfolding settle_checks ◌+ℤ◌
checks_settled = refl

refund_settled : refund_expired 11 (pos 500) session_settled ≡ ok false
unfolding refund_expired ◌+ℤ◌
refund_settled = refl

-- A stranger, 99, a while after the expiry.
abbrev late_accounts : RefundAccounts
late_accounts = record refund_accounts { caller = 99 }

abbrev late_tx : Tx
late_tx = record tx { now = pos 2000 }

abbrev late_validated : RefundValidated
late_validated = record { session = session_opened; decimals = 6 }

late_validates : refund_validate chain late_accounts late_tx after_open ≡ ok late_validated
unfolding refund_validate session_constraints vault_constraints payee_constraints
late_validates = refl

session_opened-IsBalanced : IsBalanced session_opened
session_opened-IsBalanced = ground arith

opened-SkewFits : SkewFits (pos 1000)
unfolding ◌+ℤ◌
opened-SkewFits = omega arith

opened_over : pos 1000 +ℤ pos 30 <ℤ pos 2000
unfolding ◌+ℤ◌
opened_over = omega arith

abbrev late_ledger : Ledger
late_ledger =
    update (update after_open.ledger 5 (some (record { mint = 13; owner = 7; amount = 0 }))) 21
      (some (record { mint = 13; owner = 11; amount = 500 }))

late_refund_succeeds_example :
    refund_session chain late_accounts late_tx after_open
    ≡ ok (
      refunded_world chain late_accounts after_open late_validated late_ledger (0 + 100),
      refunded_event chain late_accounts late_tx late_validated 100 true,
    )
late_refund_succeeds_example =
    late_refund_succeeds chain late_accounts late_tx after_open late_validated 100 late_ledger
      late_validates session_opened-IsBalanced opened-SkewFits opened_over refl (omega arith) refl

-- A scheme in which any text of at most 64 bytes is a signature.
abbrev Signs : Bytes → Bytes → Bytes → Type 0
Signs key message signature = length signature ≤ 64

length-take_le : (n : ℕ) (bs : Bytes) → length (take n bs) ≤ n
length-take_le zero bs = omega arith
length-take_le (suc n) [] = omega arith
length-take_le (suc n) (b ∷ bs) = omega (arith, length-take_le n bs)

tx-Precompile : Precompile Signs 3 tx
tx-Precompile i ix at ed one a b c = length-take_le 64 (drop (read_u16 ix.content 2) ix.content)

settle_needs_agent_signature_example :
    (s : Session) × (signature : Bytes) × (after_open.sessions 7 ≡ some s)
    × Signs (le_bytes 32 s.agent) (build_claim_message 7 40 1 (pos 900)) signature
settle_needs_agent_signature_example =
    settle_needs_agent_signature chain Signs settle_accounts settle_args tx after_open
      (after_settle, settle_event) tx-Precompile settle_ok
