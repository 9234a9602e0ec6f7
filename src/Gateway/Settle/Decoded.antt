-- ===== src/Gateway/Settle/Decoded.antt =====
-- What the program makes of the transaction that the gateway submits.
use agentpay.Prelude.{
  ℕ, ◌<◌, ◌^◌, ◌≡◌, ◌&&◌, Option, none, some, List, [], ◌∷◌, length, take, drop, leb, if◌then◌else◌,
  ok,
}
use agentpay.Prelude.Words.{IsI64}
use agentpay.Prelude.Bytes.{Bytes, codes, slice, le_bytes, from_le, word_i64}
use agentpay.Program.Runtime.{Tx}
use agentpay.Program.Message.{build_claim_message}
use agentpay.Program.Ed25519.{verify_ed25519_claim}
use agentpay.Program.Open.{vault_seeds}
use agentpay.Program.Settle.{SettleArgs, SettleAccounts, settlement_seeds}
use agentpay.Gateway.Claim.{Claim}
use agentpay.Gateway.Settle.Transaction.{Cluster, AccountMeta, Transaction, Request}

-- Borsh reads the arguments of `settle_session` one after the other.
abbrev pub decode_args : Bytes → Option SettleArgs
decode_args bs =
    if leb 56 (length bs)
    then some (record {
      cumulative_amount = from_le (slice bs 0 8);
      nonce = from_le (slice bs 8 8);
      claim_expires_at = word_i64 (from_le (slice bs 16 8));
      merkle_root = from_le (slice bs 24 32);
    })
    else none

-- Anchor takes the accounts in the order of `struct SettleSession`; those that it marks `mut` have
-- to be writable, and the `Signer` has to sign.
abbrev pub decode_accounts : List AccountMeta → Option SettleAccounts
decode_accounts
      (settler ∷ session ∷ receipt ∷ vault ∷ payee ∷ mint ∷ sysvar ∷ token_program ∷ system
        ∷ rest) =
    if settler.is_signer && settler.is_writable && session.is_writable && receipt.is_writable
      && vault.is_writable && payee.is_writable
    then some (record {
      settler = settler.pubkey;
      session = session.pubkey;
      settlement_record = receipt.pubkey;
      vault = vault.pubkey;
      provider_token_account = payee.pubkey;
      mint = mint.pubkey;
      instructions_sysvar = sysvar.pubkey;
      token_program = token_program.pubkey;
    })
    else none
decode_accounts ms = none

-- The numbers of a request are in the range of their types.
pub record IsRequest (r : Request) : Type 0 where
  pub amount : r.claim.cumulative_amount < 256 ^ 8
  pub nonce : r.claim.nonce < 256 ^ 8
  pub expires_at : IsI64 r.claim.expires_at
  pub merkle_root : r.merkle_root < 256 ^ 32

-- The arguments that settle a request's claim.
abbrev pub args_of : Request → SettleArgs
args_of r = record {
  cumulative_amount = r.claim.cumulative_amount;
  nonce = r.claim.nonce;
  claim_expires_at = r.claim.expires_at;
  merkle_root = r.merkle_root;
}

-- What the program makes of a transaction that settles a request, with the token program of its
-- mint: it goes to the session's program, the settler pays, the instruction is `settle_session` by
-- Anchor's rule, its arguments are the claim's and the
-- root, its accounts are the receipt and the vault at the addresses that the program's own seeds
-- derive and the associated token account of the payee for the mint, and right behind the precompile
-- the check of the agent's signature on the claim passes.
pub record Understood (net : Cluster) (r : Request) (token_program : ℕ) (t : Transaction)
    : Type 0 where
  pub program : t.settlement.call.program_id ≡ r.program_id
  pub payer : t.payer ≡ r.settler
  pub instruction :
      take 8 t.settlement.call.content ≡ take 8 (net.sha256 (codes "global:settle_session"))
  pub arguments : decode_args (drop 8 t.settlement.call.content) ≡ some (args_of r)
  pub accounts :
      decode_accounts t.settlement.accounts
      ≡ some (record {
        settler = r.settler;
        session = r.session;
        settlement_record = (net.find_program_address (settlement_seeds r.session) r.program_id).0;
        vault = (net.find_program_address (vault_seeds r.session) r.program_id).0;
        provider_token_account =
            (net.find_program_address
              (le_bytes 32 r.provider ∷ le_bytes 32 token_program ∷ le_bytes 32 r.mint ∷ [])
              net.associated_token_program).0;
        mint = r.mint;
        instructions_sysvar = net.instructions_sysvar;
        token_program = token_program;
      })
  pub attested :
      (tx : Tx)
      → tx.instructions ≡ t.verification ∷ t.settlement.call ∷ []
      → tx.current_index ≡ 1
      → verify_ed25519_claim net.ed25519_program tx r.agent
          (build_claim_message r.session r.claim.cumulative_amount r.claim.nonce r.claim.expires_at)
        ≡ ok tt
