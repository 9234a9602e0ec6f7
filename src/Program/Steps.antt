-- ===== src/Program/Steps.antt =====
-- The program as a step relation: each instruction that succeeds is a step (a failing one is
-- rolled back whole and is none), and so is anything that others do to the token accounts and
-- to accounts that are not sessions.
use agentpay.Prelude.{◌≤◌, ◌≡◌, ok}
use agentpay.Prelude.Words.{u64_max, IsI64}
use agentpay.Program.Types.{SessionOpened, SessionSettled, SessionRefunded}
use agentpay.Program.Runtime.{Runtime, Tx, World}
use agentpay.Program.Open.{OpenAccounts, OpenArgs, open_session}
use agentpay.Program.Settle.{SettleAccounts, SettleArgs, settle_session}
use agentpay.Program.Refund.{RefundAccounts, refund_session}

-- The ranges that the types of the arguments give.
pub record IsOpenArgs (args : OpenArgs) : Type 0 where
  pub deposit_fits : args.deposit_amount ≤ u64_max
  pub expiry_fits : IsI64 args.expires_at

pub data Step (rt : Runtime) : World rt → World rt → Type 0 where
  opens :
      {w w' : World rt} (a : OpenAccounts) (args : OpenArgs) (tx : Tx) (ev : SessionOpened)
      → IsOpenArgs args
      → open_session rt a args tx w ≡ ok (w', ev)
      → Step rt w w'
  settles :
      {w w' : World rt} (a : SettleAccounts) (args : SettleArgs) (tx : Tx) (ev : SessionSettled)
      → settle_session rt a args tx w ≡ ok (w', ev)
      → Step rt w w'
  refunds :
      {w w' : World rt} (a : RefundAccounts) (tx : Tx) (ev : SessionRefunded)
      → refund_session rt a tx w ≡ ok (w', ev)
      → Step rt w w'
  outside : {w w' : World rt} → w'.sessions ≡ w.sessions → Step rt w w'

pub data Reach (rt : Runtime) (w : World rt) : World rt → Type 0 where
  here : Reach rt w w
  next : {u v : World rt} → Reach rt w u → Step rt u v → Reach rt w v
