-- ===== src/Program/Tests.antt =====
-- A small chain for the program's tests: token accounts in a map, addresses read off the seeds.
pub mod Life
pub mod Guarantees
use agentpay.Prelude.{
  ℕ, ◌+◌, ◌-◌, ◌≤◌, ◌≡◌, ◌≢◌, refl, sym, ap, ◌∙◌, inl, inr, Bool, true, false, Option, none, some,
  some-eq, none-ne-some, List, [], ◌∷◌, arith, leb, leb→le, ◌==◌, ==_iff, ==_refl, if◌then◌else◌,
  length, replicate, Bool-cases, Option-cases,
}
use agentpay.Prelude.Int.{ℤ, pos}
use agentpay.Prelude.Bytes.{Bytes, le_bytes}
use agentpay.Program.Types.{Session, SettlementRecord}
use agentpay.Program.Runtime.{
  TokenAccount, Transfer, AccountInfo, Runtime, Tx, World, TokenLaws, update, balance,
}
use agentpay.Program.Message.{build_claim_message}
use agentpay.Program.Open.{OpenAccounts, OpenArgs}
use agentpay.Program.Settle.{SettleAccounts, SettleArgs}
use agentpay.Program.Refund.{RefundAccounts}
use agentpay.Gateway.Settle.{build_ed25519_instruction}

abbrev pub Ledger : Type 0
Ledger = ℕ → Option TokenAccount

abbrev pub move_between :
    Ledger → Transfer → Option TokenAccount → Option TokenAccount → Option Ledger
move_between l t none b = none
move_between l t (some a) none = none
move_between l t (some a) (some b) =
    if leb t.amount a.amount
    then some (
        update (update l t.from (some (record a { amount = a.amount - t.amount }))) t.to
          (some (record b { amount = b.amount + t.amount })))
    else none

abbrev pub toy_transfer : Ledger → Transfer → Option Ledger
toy_transfer l t = move_between l t (l t.from) (l t.to)

abbrev pub toy_init : Ledger → ℕ → ℕ → ℕ → Option Ledger
toy_init l account mint owner = elim (l account) [
  | none ↦ some (update l account (some (record { mint = mint; owner = owner; amount = 0 })))
  | some t ↦ none
]

-- The length of the first seed: 7 for a session, 5 for its vault, 10 for its receipt.
abbrev pub toy_address : List Bytes → Option ℕ
toy_address [] = none
toy_address (s ∷ ss) = some (length s)

abbrev pub toy_find : List Bytes → Option (ℕ × ℕ)
toy_find [] = none
toy_find (s ∷ ss) = some (length s, 255)

abbrev pub toy_create : ℕ → AccountInfo → ℕ → ℕ → ℕ → Option AccountInfo
toy_create payer info lamports space owner =
    if info.lamports == 0
    then some (record { owner = owner; lamports = lamports; content = replicate space 0 })
    else none

abbrev pub chain : Runtime
chain = record {
  Ledger = Ledger;
  token_account = λ l k. l k;
  mint_decimals = λ l k. some 6;
  transfer_checked = toy_transfer;
  init_token_account = toy_init;
  create_program_address = toy_address;
  find_program_address = toy_find;
  sha256 = λ bs. length bs;
  try_serialize = λ r. r.settled_amount ∷ r.merkle_root ∷ [];
  try_deserialize = λ bs. none;
  settlement_record_space = 121;
  minimum_balance = λ n. n;
  create_account = toy_create;
  program_id = 1;
  system_program = 2;
  ed25519_program = 3;
  instructions_sysvar = 4;
}

move_between-Moves :
    (l l' : Ledger) (t : Transfer) (x y : Option TokenAccount)
    → l t.from ≡ x
    → l t.to ≡ y
    → move_between l t x y ≡ some l'
    → (a : TokenAccount) × (b : TokenAccount) × (l t.from ≡ some a)
      × (l t.to ≡ some b)
      × (t.amount ≤ a.amount)
      × (l'
          ≡ update
              (update l t.from (some (record a { amount = a.amount - t.amount })))
              t.to
              (some (record b { amount = b.amount + t.amount })))
move_between-Moves l l' t none y e f h = absurd (none-ne-some h)
move_between-Moves l l' t (some a) none e f h = absurd (none-ne-some h)
move_between-Moves l l' t (some a) (some b) e f h = elim (Bool-cases (leb t.amount a.amount)) [
  | inl enough ↦ (a, b, e, f, leb→le t.amount a.amount enough, sym (some-eq (rw enough at h)))
  | inr short ↦ absurd (none-ne-some (rw short at h))
]

covered_lem :
    (l l' : Ledger) (t : Transfer) → toy_transfer l t ≡ some l' → t.amount ≤ balance chain l t.from
covered_lem l l' t h =
    let (a, b, e, f, enough, same) = move_between-Moves l l' t (l t.from) (l t.to) refl refl h in
    rw e enough

differs : (a b : ℕ) → a ≢ b → (a == b) ≡ false
differs a b h = elim (Bool-cases (a == b)) [
  | inl same ↦ absurd (h ((==_iff a b).0 same))
  | inr other ↦ other
]

debited_lem :
    (l l' : Ledger) (t : Transfer)
    → toy_transfer l t ≡ some l'
    → t.from ≢ t.to
    → balance chain l' t.from + t.amount ≡ balance chain l t.from
debited_lem l l' t h apart =
    let (a, b, e, f, enough, same) = move_between-Moves l l' t (l t.from) (l t.to) refl refl h in
    rw (same, e, differs t.from t.to apart, ==_refl t.from) (omega arith)

credited_lem :
    (l l' : Ledger) (t : Transfer)
    → toy_transfer l t ≡ some l'
    → t.from ≢ t.to
    → balance chain l' t.to ≡ balance chain l t.to + t.amount
credited_lem l l' t h apart =
    let (a, b, e, f, enough, same) = move_between-Moves l l' t (l t.from) (l t.to) refl refl h in
    rw (same, f, ==_refl t.to) refl

others_lem :
    (l l' : Ledger) (t : Transfer) (k : ℕ)
    → toy_transfer l t ≡ some l'
    → k ≢ t.from
    → k ≢ t.to
    → balance chain l' k ≡ balance chain l k
others_lem l l' t k h p q =
    let (a, b, e, f, enough, same) = move_between-Moves l l' t (l t.from) (l t.to) refl refl h in
    rw (same, differs k t.to q, differs k t.from p) refl

-- The map of token accounts keeps the laws of the token program.
pub chain-TokenLaws : TokenLaws chain
chain-TokenLaws = record {
  has_fee = λ l mint. false;
  fee = λ l mint amount. 0;
  covered = covered_lem;
  debited = debited_lem;
  credited = λ l l' t h apart plain. credited_lem l l' t h apart;
  credited_less = λ l l' t h apart fee. absurd (cc (fee));
  others = others_lem;
}

-- An agent 11 with 500 in account 21, a provider 12 with account 22, both of mint 13.
abbrev pub ledger : Ledger
ledger =
    update (update (λ k. none) 21 (some (record { mint = 13; owner = 11; amount = 500 }))) 22
      (some (record { mint = 13; owner = 12; amount = 0 }))

abbrev pub before : World chain
before = record {
  ledger = ledger;
  sessions = λ k. none;
  receipts = λ k. record { owner = 2; lamports = 0; content = [] };
}

abbrev pub open_accounts : OpenAccounts
open_accounts = record {
  agent = 11;
  provider = 12;
  mint = 13;
  session = 7;
  vault = 5;
  agent_token_account = 21;
  token_program = 6;
}

abbrev pub open_args : OpenArgs
open_args = record {
  session_id = 1;
  deposit_amount = 100;
  expires_at = pos 1000;
  settlement_authority = 14;
}

abbrev pub settle_accounts : SettleAccounts
settle_accounts = record {
  settler = 14;
  session = 7;
  settlement_record = 10;
  vault = 5;
  provider_token_account = 22;
  mint = 13;
  instructions_sysvar = 4;
  token_program = 6;
}

abbrev pub settle_args : SettleArgs
settle_args = record {
  cumulative_amount = 40;
  nonce = 1;
  claim_expires_at = pos 900;
  merkle_root = 77;
}

abbrev pub refund_accounts : RefundAccounts
refund_accounts = record {
  caller = 11;
  session = 7;
  vault = 5;
  agent_token_account = 21;
  mint = 13;
  token_program = 6;
}

-- A transaction with the agent's signature over the claim ahead of the settlement.
abbrev pub tx : Tx
tx = record {
  now = pos 500;
  signers = λ k. true;
  instructions =
      build_ed25519_instruction 3 11 99 (build_claim_message 7 40 1 (pos 900))
      ∷ record { program_id = 1; content = [] }
      ∷ [];
  current_index = 1;
}
