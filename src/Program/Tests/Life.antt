-- ===== src/Program/Tests/Life.antt =====
-- A session from opening to settlement to refund, and what the theorems say of it.
use agentpay.Prelude.{◌≡◌, ◌≢◌, refl, true, false, some, none-ne-some, [], ◌∷◌, arith, ok}
use agentpay.Prelude.Int.{pos, ◌+ℤ◌, ◌-ℤ◌}
use agentpay.Prelude.Bytes.{le_bytes, from_le}
use agentpay.Program.Types.{Session, SessionOpened, SessionSettled, SessionRefunded}
use agentpay.Program.Runtime.{World, Tx, update}
use agentpay.Program.Message.{build_claim_message}
use agentpay.Program.Ed25519.{verify_ed25519_claim, check_ed25519_data}
use agentpay.Program.Open.{open_session, open_validate, open_checks}
use agentpay.Program.Settle.{
  SettleAccounts, SettleArgs, settle_session, settle_validate, settle_checks, settle_delta,
  session_constraints, vault_constraints, payee_constraints,
}
use agentpay.Program.Receipt.{advance_receipt, prepare_account, current_record}
use agentpay.Program.Refund.{
  RefundAccounts, refund_session, refund_validate, refund_expired, refund_remaining,
}
use agentpay.Program.Steps.{Reach, here, next, opens, settles, IsOpenArgs}
use agentpay.Program.Accounting.{IsBalanced, AllBalanced, Reach-AllBalanced}
use agentpay.Program.Terms.{Later, Reach-Continues}
use agentpay.Program.Closure.{refund_is_final}
use agentpay.Program.Payments.{Paid, settle_pays_exactly, Refunded, refund_pays_exactly}
use agentpay.Gateway.Settle.{build_ed25519_instruction, ed25519_data}
use agentpay.Program.Tests.{
  Ledger, chain, chain-TokenLaws, ledger, before, open_accounts, open_args, settle_accounts,
  settle_args, refund_accounts, tx,
}

abbrev pub session_opened : Session
session_opened = record {
  agent = 11;
  provider = 12;
  settlement_authority = 14;
  mint = 13;
  vault = 5;
  deposited_total = 100;
  cumulative_settled = 0;
  refunded_total = 0;
  expires_at = pos 1000;
  session_id = 1;
  bump = 255;
  vault_bump = 255;
  is_settled = false;
}

abbrev pub session_settled : Session
session_settled = record session_opened { cumulative_settled = 40; is_settled = true }

abbrev pub session_refunded : Session
session_refunded = record session_settled { refunded_total = 60 }

abbrev ledger_opened : Ledger
ledger_opened =
    update
      (update (update ledger 5 (some (record { mint = 13; owner = 7; amount = 0 }))) 21
        (some (record { mint = 13; owner = 11; amount = 400 })))
      5 (some (record { mint = 13; owner = 7; amount = 100 }))

abbrev ledger_settled : Ledger
ledger_settled =
    update (update ledger_opened 5 (some (record { mint = 13; owner = 7; amount = 60 }))) 22
      (some (record { mint = 13; owner = 12; amount = 40 }))

abbrev ledger_refunded : Ledger
ledger_refunded =
    update (update ledger_settled 5 (some (record { mint = 13; owner = 7; amount = 0 }))) 21
      (some (record { mint = 13; owner = 11; amount = 460 }))

abbrev pub after_open : World chain
after_open = record before {
  ledger = ledger_opened;
  sessions = update before.sessions 7 (some session_opened);
}

abbrev pub after_settle : World chain
after_settle = record {
  ledger = ledger_settled;
  sessions = update after_open.sessions 7 (some session_settled);
  receipts =
      update before.receipts 10 (record { owner = 1; lamports = 121; content = 40 ∷ 77 ∷ [] });
}

abbrev pub after_refund : World chain
after_refund = record after_settle {
  ledger = ledger_refunded;
  sessions = update after_settle.sessions 7 (some session_refunded);
}

abbrev open_event : SessionOpened
open_event = record {
  session = 7;
  agent = 11;
  provider = 12;
  settlement_authority = 14;
  mint = 13;
  deposited_total = 100;
  expires_at = pos 1000;
}

abbrev pub settle_event : SessionSettled
settle_event = record {
  session = 7;
  provider = 12;
  cumulative_amount = 40;
  transferred = 40;
  merkle_root = 77;
  settled_at = pos 500;
}

abbrev refund_event : SessionRefunded
refund_event = record {
  session = 7;
  agent = 11;
  amount = 60;
  permissionless = false;
  refunded_at = pos 500;
}

pub open_ok : open_session chain open_accounts open_args tx before ≡ ok (after_open, open_event)
unfolding open_session open_validate open_checks ◌-ℤ◌
open_ok = refl

pub settle_ok :
    settle_session chain settle_accounts settle_args tx after_open ≡ ok (after_settle, settle_event)
unfolding settle_session settle_validate settle_checks settle_delta session_constraints
    vault_constraints payee_constraints verify_ed25519_claim check_ed25519_data advance_receipt
    prepare_account current_record build_claim_message build_ed25519_instruction ed25519_data
    le_bytes from_le ◌+ℤ◌
settle_ok = refl

pub refund_ok :
    refund_session chain refund_accounts tx after_settle ≡ ok (after_refund, refund_event)
unfolding refund_session refund_validate refund_expired refund_remaining session_constraints
    vault_constraints payee_constraints ◌+ℤ◌
refund_ok = refl

pub before-AllBalanced : AllBalanced chain before
before-AllBalanced k s h = absurd (none-ne-some h)

open_args-IsOpenArgs : IsOpenArgs open_args
open_args-IsOpenArgs = record { deposit_fits = omega arith; expiry_fits = omega arith }

pub life : Reach chain before after_settle
life =
    next {u = after_open}
      (next {u = before} here (
        opens {w = before} {w' = after_open} open_accounts open_args tx open_event
          open_args-IsOpenArgs open_ok))
      (settles {w = after_open} {w' = after_settle} settle_accounts settle_args tx settle_event
        settle_ok)

Reach-AllBalanced_example : IsBalanced session_settled
Reach-AllBalanced_example =
    Reach-AllBalanced chain {w = before} {w' = after_settle} before-AllBalanced life 7
      session_settled refl

settle_step : Reach chain after_open after_settle
settle_step = next {u = after_open} here (
    settles {w = after_open} {w' = after_settle} settle_accounts settle_args tx settle_event
      settle_ok)

Reach-Continues_example : Later session_opened (after_settle.sessions 7)
Reach-Continues_example =
    Reach-Continues chain after_open after_settle settle_step 7 session_opened refl

settle_pays_exactly_example :
    (s : Session) × Paid chain chain-TokenLaws settle_accounts settle_args tx after_open s
      (after_settle, settle_event)
settle_pays_exactly_example =
    settle_pays_exactly chain chain-TokenLaws settle_accounts settle_args tx after_open
      (after_settle, settle_event) (λ h. omega (arith, h)) settle_ok

refund_pays_exactly_example :
    (s : Session) × Refunded chain chain-TokenLaws refund_accounts tx after_settle s
      (after_refund, refund_event)
refund_pays_exactly_example =
    refund_pays_exactly chain chain-TokenLaws refund_accounts tx after_settle
      (after_refund, refund_event) (λ h. omega (arith, h)) refund_ok

settled-AllBalanced : AllBalanced chain after_settle
settled-AllBalanced =
    Reach-AllBalanced chain {w = before} {w' = after_settle} before-AllBalanced life

refund_is_final_example :
    ((b : SettleAccounts) (args : SettleArgs) (t : Tx) (r : World chain × SessionSettled)
      → b.session ≡ 7
      → settle_session chain b args t after_refund ≢ ok r)
    × ((b : RefundAccounts) (t : Tx) (r : World chain × SessionRefunded)
        → b.session ≡ 7
        → refund_session chain b t after_refund ≢ ok r)
refund_is_final_example =
    refund_is_final chain refund_accounts tx after_settle after_refund after_refund refund_event
      settled-AllBalanced refund_ok here
