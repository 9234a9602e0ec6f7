-- ===== src/Gateway/Settle/Transaction.antt =====
-- The settlement's transaction, `build_settle_instruction` and `submit_settlement` of
-- gateway/src/settle.rs. The addresses of Solana's programs, the derivation of addresses, SHA-256
-- and the RPC client are parameters.
use agentpay.Prelude.{
  ℕ, Bool, true, false, Option, List, [], ◌∷◌, ◌++◌, take, Result, ok, ◌>>=◌, ok_or,
}
use agentpay.Prelude.Bytes.{Bytes, codes, le_bytes, i64_word}
use agentpay.Program.Runtime.{Instruction}
use agentpay.Gateway.Claim.{Claim, signing_bytes}
use agentpay.Gateway.Settle.{build_ed25519_instruction}

pub record Cluster : Type 0 where
  pub ed25519_program : ℕ
  pub instructions_sysvar : ℕ
  pub system_program : ℕ
  pub associated_token_program : ℕ
  -- seeds and program
  pub find_program_address : List Bytes → ℕ → ℕ × ℕ
  -- the bytes of a digest
  pub sha256 : Bytes → Bytes

pub record AccountMeta : Type 0 where
  pub pubkey : ℕ
  pub is_signer : Bool
  pub is_writable : Bool

-- An instruction with its accounts.
pub record SettleInstruction : Type 0 where
  pub call : Instruction
  pub accounts : List AccountMeta

pub record Transaction : Type 0 where
  pub verification : Instruction
  pub settlement : SettleInstruction
  pub payer : ℕ
  pub blockhash : ℕ

pub data SettleError : Type 0 where
  rpc : SettleError
  mint_not_found : ℕ → SettleError

-- What is settled, the arguments of `submit_settlement`.
pub record Request : Type 0 where
  pub program_id : ℕ
  pub settler : ℕ
  pub provider : ℕ
  pub session : ℕ
  pub mint : ℕ
  pub claim : Claim
  pub signature : ℕ
  pub agent : ℕ
  pub merkle_root : ℕ

pub record SettlementOutcome : Type 0 where
  pub signature : Bytes
  pub cumulative_amount : ℕ
  pub nonce : ℕ
  pub token_program : ℕ
  pub provider_token_account : ℕ
  pub settlement_record : ℕ

-- `AccountMeta::new` and `new_readonly`.
abbrev pub writable : ℕ → Bool → AccountMeta
writable pubkey is_signer = record { pubkey = pubkey; is_signer = is_signer; is_writable = true }

abbrev pub readonly : ℕ → AccountMeta
readonly pubkey = record { pubkey = pubkey; is_signer = false; is_writable = false }

-- The data of the instruction behind its discriminator.
unfoldable pub settle_arguments : Claim → ℕ → Bytes
settle_arguments claim merkle_root =
    le_bytes 8 claim.cumulative_amount
    ++ (le_bytes 8 claim.nonce
        ++ (le_bytes 8 (i64_word claim.expires_at) ++ le_bytes 32 merkle_root))

module _ (net : Cluster) where
  unfoldable pub anchor_discriminator : Bytes → Bytes
  anchor_discriminator instruction_name = take 8 (net.sha256 (codes "global:" ++ instruction_name))

  abbrev pub derive_vault : ℕ → ℕ → ℕ × ℕ
  derive_vault program_id session =
      net.find_program_address (codes "vault" ∷ le_bytes 32 session ∷ []) program_id

  abbrev pub derive_settlement_record : ℕ → ℕ → ℕ × ℕ
  derive_settlement_record program_id session =
      net.find_program_address (codes "settlement" ∷ le_bytes 32 session ∷ []) program_id

  abbrev pub derive_associated_token_account : ℕ → ℕ → ℕ → ℕ
  derive_associated_token_account owner token_program mint =
      (net.find_program_address
        (le_bytes 32 owner ∷ le_bytes 32 token_program ∷ le_bytes 32 mint ∷ [])
        net.associated_token_program).0

  -- With the addresses of the receipt, the vault, the token account and the token program.
  unfoldable pub build_settle_instruction : Request → ℕ → ℕ → ℕ → ℕ → SettleInstruction
  build_settle_instruction r settlement_record vault provider_token_account token_program = record {
    call = record {
      program_id = r.program_id;
      content =
          anchor_discriminator (codes "settle_session") ++ settle_arguments r.claim r.merkle_root;
    };
    accounts =
        writable r.settler true
        ∷ writable r.session false
        ∷ writable settlement_record false
        ∷ writable vault false
        ∷ writable provider_token_account false
        ∷ readonly r.mint
        ∷ readonly net.instructions_sysvar
        ∷ readonly token_program
        ∷ readonly net.system_program
        ∷ [];
  }

  -- The transaction, with the token program and the blockhash that were read.
  unfoldable pub settlement_transaction : Request → ℕ → ℕ → Transaction
  settlement_transaction r token_program blockhash = record {
    verification =
        build_ed25519_instruction net.ed25519_program r.agent r.signature (signing_bytes r.claim);
    settlement =
        build_settle_instruction r (derive_settlement_record r.program_id r.session).0
          (derive_vault r.program_id r.session).0
          (derive_associated_token_account r.provider token_program r.mint) token_program;
    payer = r.settler;
    blockhash = blockhash;
  }

  -- `owner_of` is the owner of an account, and `send` the confirmed transaction's signature.
  unfoldable pub submit_settlement :
      (ℕ → Option ℕ)
      → Option ℕ
      → (Transaction → Option Bytes)
      → Request
      → Result SettleError SettlementOutcome
  submit_settlement owner_of latest_blockhash send r = do
    token_program ← ok_or (owner_of r.mint) (mint_not_found r.mint)
    blockhash ← ok_or latest_blockhash rpc
    signature ← ok_or (send (settlement_transaction r token_program blockhash)) rpc
    ok (record {
      signature = signature;
      cumulative_amount = r.claim.cumulative_amount;
      nonce = r.claim.nonce;
      token_program = token_program;
      provider_token_account = derive_associated_token_account r.provider token_program r.mint;
      settlement_record = (derive_settlement_record r.program_id r.session).0;
    })
