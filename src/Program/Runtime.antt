-- ===== src/Program/Runtime.antt =====
-- What the program is given by Solana: token accounts, derived addresses, SHA-256, the receipt's
-- serialisation and account creation are parameters (none is in the repository), and the
-- accounts that the program itself owns are state.
use agentpay.Prelude.{
  ℕ, ◌+◌, ◌≤◌, ◌≡◌, ◌≢◌, ◌⊎◌, inl, inr, Bool, true, false, Option, none, some, List, ◌==◌,
  if◌then◌else◌, ==_refl, ==_iff, Bool-cases, some-eq,
}
use agentpay.Prelude.Int.{ℤ}
use agentpay.Prelude.Bytes.{Bytes}
use agentpay.Program.Types.{Session, SettlementRecord}

pub record TokenAccount : Type 0 where
  pub mint : ℕ
  pub owner : ℕ
  pub amount : ℕ

-- The arguments of `token_interface::transfer_checked`.
pub record Transfer : Type 0 where
  pub token_program : ℕ
  pub from : ℕ
  pub mint : ℕ
  pub to : ℕ
  pub authority : ℕ
  pub amount : ℕ
  pub decimals : ℕ

-- An account that is read raw: the settlement receipt.
pub record AccountInfo : Type 0 where
  pub owner : ℕ
  pub lamports : ℕ
  pub content : Bytes

pub record Runtime : Type 1 where
  pub Ledger : Type 0
  pub token_account : Ledger → ℕ → Option TokenAccount
  pub mint_decimals : Ledger → ℕ → Option ℕ
  pub transfer_checked : Ledger → Transfer → Option Ledger
  -- the `init` of a token account: address, mint, authority
  pub init_token_account : Ledger → ℕ → ℕ → ℕ → Option Ledger
  -- seeds, the bump among them, to the derived address of this program
  pub create_program_address : List Bytes → Option ℕ
  -- seeds to the canonical address and its bump
  pub find_program_address : List Bytes → Option (ℕ × ℕ)
  pub sha256 : Bytes → ℕ
  pub try_serialize : SettlementRecord → Bytes
  pub try_deserialize : Bytes → Option SettlementRecord
  -- `8 + SettlementRecord::INIT_SPACE`, and the rent for so many bytes
  pub settlement_record_space : ℕ
  pub minimum_balance : ℕ → ℕ
  -- payer, the account, lamports, space, owner
  pub create_account : ℕ → AccountInfo → ℕ → ℕ → ℕ → Option AccountInfo
  pub program_id : ℕ
  pub system_program : ℕ
  pub ed25519_program : ℕ
  pub instructions_sysvar : ℕ

pub record Instruction : Type 0 where
  pub program_id : ℕ
  pub content : Bytes

-- The transaction around an instruction: the clock, who signed, and the instructions sysvar.
pub record Tx : Type 0 where
  pub now : ℤ
  pub signers : ℕ → Bool
  pub instructions : List Instruction
  pub current_index : ℕ

pub record World (rt : Runtime) : Type 0 where
  pub ledger : rt.Ledger
  pub sessions : ℕ → Option Session
  pub receipts : ℕ → AccountInfo

abbrev pub update {ℓ} : {A : Type ℓ} → (ℕ → A) → ℕ → A → ℕ → A
update f k v j = if j == k then v else f j

abbrev pub balance : (rt : Runtime) → rt.Ledger → ℕ → ℕ
balance rt l k = elim (rt.token_account l k) [ none ↦ 0 | some t ↦ t.amount ]

-- What SPL Token and Token-2022 document of a transfer that succeeds: the source held the amount,
-- and between two accounts the amount leaves the source; all of it reaches the recipient, unless the
-- mint has a transfer fee, which is then withheld from what the recipient can spend; and no third
-- account changes its balance.
pub record TokenLaws (rt : Runtime) : Type 0 where
  -- whether a mint has a transfer fee, and the fee on an amount
  pub has_fee : rt.Ledger → ℕ → Bool
  pub fee : rt.Ledger → ℕ → ℕ → ℕ
  pub covered :
      (l l' : rt.Ledger) (t : Transfer)
      → rt.transfer_checked l t ≡ some l'
      → t.amount ≤ balance rt l t.from
  pub debited :
      (l l' : rt.Ledger) (t : Transfer)
      → rt.transfer_checked l t ≡ some l'
      → t.from ≢ t.to
      → balance rt l' t.from + t.amount ≡ balance rt l t.from
  pub credited :
      (l l' : rt.Ledger) (t : Transfer)
      → rt.transfer_checked l t ≡ some l'
      → t.from ≢ t.to
      → has_fee l t.mint ≡ false
      → balance rt l' t.to ≡ balance rt l t.to + t.amount
  pub credited_less :
      (l l' : rt.Ledger) (t : Transfer)
      → rt.transfer_checked l t ≡ some l'
      → t.from ≢ t.to
      → has_fee l t.mint ≡ true
      → (balance rt l' t.to + fee l t.mint t.amount ≡ balance rt l t.to + t.amount)
        × (fee l t.mint t.amount ≤ t.amount)
  pub others :
      (l l' : rt.Ledger) (t : Transfer) (k : ℕ)
      → rt.transfer_checked l t ≡ some l'
      → k ≢ t.from
      → k ≢ t.to
      → balance rt l' k ≡ balance rt l k

pub update_self {ℓ} : {A : Type ℓ} (f : ℕ → A) (k : ℕ) (v : A) → update f k v k ≡ v
update_self f k v = rw (==_refl k)

-- A value found in an updated map is the new one, at its key, or an old one.
pub update_cases {ℓ} :
    {A : Type ℓ} (f : ℕ → Option A) (k : ℕ) (v : A) (j : ℕ) {t : A}
    → update f k (some v) j ≡ some t
    → ((j ≡ k) × (v ≡ t)) ⊎ (f j ≡ some t)
update_cases f k v j {t} e = elim (Bool-cases (j == k)) [
  | inl same ↦ inl ((==_iff j k).0 same, some-eq (rw same at e))
  | inr other ↦ inr (rw other at e)
]
