-- ===== src/Gateway/Chain.antt =====
-- Reading the chain, gateway/src/chain.rs: the two layouts of a session account, the receipt, and
-- the reconciliation of a session with what its opener asserted. The RPC client is a parameter:
-- the answer of `fetch`.
pub mod Layouts
pub mod Reconcile
use agentpay.Prelude.{
  ℕ, ◌+◌, ◌-◌, ◌<◌, Bool, true, false, not, ◌||◌, Option, none, some, List, [], ◌∷◌, ltb, leb, ◌==◌,
  if◌then◌else◌, Result, ok, err, ◌>>=◌, ◌>>◌, require, length, take, get_or,
}
use agentpay.Prelude.Int.{ℤ, eq_ℤ}
use agentpay.Prelude.Bytes.{Bytes, bytes_eq, slice, from_le, word_i64}

abbrev pub session_discriminator : Bytes
session_discriminator = 243 ∷ 81 ∷ 72 ∷ 115 ∷ 214 ∷ 188 ∷ 72 ∷ 144 ∷ []

abbrev pub session_account_len_v1 : ℕ
session_account_len_v1 = 187

abbrev pub session_account_len_v2 : ℕ
session_account_len_v2 = 219

abbrev pub settlement_discriminator : Bytes
settlement_discriminator = 172 ∷ 159 ∷ 67 ∷ 74 ∷ 96 ∷ 85 ∷ 37 ∷ 205 ∷ []

abbrev pub settlement_record_len : ℕ
settlement_record_len = 8 + 32 + 32 + 32 + 8 + 8 + 1

-- The byte offsets that differ between the versions, discriminator included; `agent` is at 8 and
-- `provider` at 40 in both.
pub record Offsets : Type 0 where
  pub off_mint : ℕ
  pub off_vault : ℕ
  pub off_deposited : ℕ
  pub off_cumulative : ℕ
  pub off_refunded : ℕ
  pub off_expires : ℕ
  pub off_session_id : ℕ
  pub off_bump : ℕ
  pub off_vault_bump : ℕ
  pub off_is_settled : ℕ

abbrev pub v1_offsets : Offsets
v1_offsets = record {
  off_mint = 72;
  off_vault = 104;
  off_deposited = 136;
  off_cumulative = 144;
  off_refunded = 152;
  off_expires = 160;
  off_session_id = 168;
  off_bump = 184;
  off_vault_bump = 185;
  off_is_settled = 186;
}

abbrev pub v2_offsets : Offsets
v2_offsets = record {
  off_mint = 104;
  off_vault = 136;
  off_deposited = 168;
  off_cumulative = 176;
  off_refunded = 184;
  off_expires = 192;
  off_session_id = 200;
  off_bump = 216;
  off_vault_bump = 217;
  off_is_settled = 218;
}

pub record SettlementRecordAccount : Type 0 where
  pub session : ℕ
  pub claim_hash : ℕ
  pub merkle_root : ℕ
  pub settled_at : ℤ
  pub settled_amount : ℕ

pub record SessionAccount : Type 0 where
  pub agent : ℕ
  pub provider : ℕ
  pub settlement_authority : Option ℕ
  pub mint : ℕ
  pub vault : ℕ
  pub deposited_total : ℕ
  pub cumulative_settled : ℕ
  pub refunded_total : ℕ
  pub expires_at : ℤ
  pub session_id : ℕ
  pub bump : ℕ
  pub vault_bump : ℕ
  pub is_settled : Bool

pub data Field : Type 0 where
  field_agent field_provider field_mint field_expires_at : Field

-- Of `FieldMismatch`, the two values' texts are left out; they only go into the message.
pub data SessionVerificationError : Type 0 where
  account_not_found not_a_session_account already_settled rpc_unavailable : SessionVerificationError
  wrong_program_owner deposit_mismatch : ℕ → ℕ → SessionVerificationError
  invalid_account_data : ℕ → SessionVerificationError
  field_mismatch : Field → SessionVerificationError

-- `pubkey_at`, `u64_at`, `i64_at`, and the 16 bytes of a session id
abbrev pub pubkey_at : Bytes → ℕ → ℕ
pubkey_at bs off = from_le (slice bs off 32)

abbrev pub u64_at : Bytes → ℕ → ℕ
u64_at bs off = from_le (slice bs off 8)

abbrev pub i64_at : Bytes → ℕ → ℤ
i64_at bs off = word_i64 (from_le (slice bs off 8))

abbrev pub id_at : Bytes → ℕ → ℕ
id_at bs off = from_le (slice bs off 16)

abbrev pub byte_at : Bytes → ℕ → ℕ
byte_at bs off = get_or bs off 0

unfoldable pub parse_settlement_record :
    ℕ → ℕ → Bytes → Result SessionVerificationError SettlementRecordAccount
parse_settlement_record owner program_id bs = do
  require (owner == program_id) (wrong_program_owner program_id owner)
  require (length bs == settlement_record_len) (invalid_account_data (length bs))
  require (bytes_eq (take 8 bs) settlement_discriminator) not_a_session_account
  ok (record {
    session = pubkey_at bs 8;
    claim_hash = pubkey_at bs 40;
    merkle_root = pubkey_at bs 72;
    settled_at = i64_at bs 104;
    settled_amount = u64_at bs 112;
  })

-- Which layout a length stands for: `true` is v2.
abbrev pub layout_of : ℕ → Result SessionVerificationError Bool
layout_of n =
    if n == session_account_len_v1
    then ok false
    else if n == session_account_len_v2
    then ok true
    else err (invalid_account_data n)

abbrev pub offsets : Bool → Offsets
offsets true = v2_offsets
offsets false = v1_offsets

abbrev pub settled_flag : ℕ → Result SessionVerificationError Bool
settled_flag b = if b == 0 then ok false else if b == 1 then ok true else err not_a_session_account

-- `v2.then(..)`
abbrev pub authority_at : Bool → Bytes → Option ℕ
authority_at true bs = some (pubkey_at bs 72)
authority_at false bs = none

-- `SessionAccount::parse`
unfoldable pub parse_session : Bytes → Result SessionVerificationError SessionAccount
parse_session bs = do
  require (leb 8 (length bs)) (invalid_account_data (length bs))
  require (bytes_eq (take 8 bs) session_discriminator) not_a_session_account
  v2 ← layout_of (length bs)
  let off : Offsets = offsets v2
  is_settled ← settled_flag (byte_at bs off.off_is_settled)
  ok (record {
    agent = pubkey_at bs 8;
    provider = pubkey_at bs 40;
    settlement_authority = authority_at v2 bs;
    mint = pubkey_at bs off.off_mint;
    vault = pubkey_at bs off.off_vault;
    deposited_total = u64_at bs off.off_deposited;
    cumulative_settled = u64_at bs off.off_cumulative;
    refunded_total = u64_at bs off.off_refunded;
    expires_at = i64_at bs off.off_expires;
    session_id = id_at bs off.off_session_id;
    bump = byte_at bs off.off_bump;
    vault_bump = byte_at bs off.off_vault_bump;
    is_settled = is_settled;
  })

-- `SessionAccount::remaining`, with saturating subtractions.
unfoldable pub remaining : SessionAccount → ℕ
remaining a = a.deposited_total - a.cumulative_settled - a.refunded_total

pub record ClaimedSession : Type 0 where
  pub agent : ℕ
  pub provider : ℕ
  pub mint : ℕ
  pub deposited_total : ℕ
  pub expires_at : ℤ

-- What a fetch answers: a dead RPC, no account, or an account's owner and bytes.
pub data Fetched : Type 0 where
  unreachable absent : Fetched
  found : ℕ → Bytes → Fetched

abbrev pub is_id : Option ℕ → ℕ → Bool
is_id none k = false
is_id (some l) k = l == k

-- The comparisons after the account was parsed.
unfoldable pub reconcile_account :
    SessionAccount → ClaimedSession → Result SessionVerificationError SessionAccount
reconcile_account a claimed = do
  require (not a.is_settled) already_settled
  require (a.deposited_total == claimed.deposited_total)
      (deposit_mismatch claimed.deposited_total a.deposited_total)
  require (a.agent == claimed.agent) (field_mismatch field_agent)
  require (a.provider == claimed.provider) (field_mismatch field_provider)
  require (a.mint == claimed.mint) (field_mismatch field_mint)
  require (eq_ℤ a.expires_at claimed.expires_at) (field_mismatch field_expires_at)
  ok a

unfoldable pub verify_on_chain_session :
    Fetched → ℕ → Option ℕ → ClaimedSession → Result SessionVerificationError SessionAccount
verify_on_chain_session unreachable program_id legacy claimed = err rpc_unavailable
verify_on_chain_session absent program_id legacy claimed = err account_not_found
verify_on_chain_session (found owner bs) program_id legacy claimed = do
  require (owner == program_id || is_id legacy owner) (wrong_program_owner program_id owner)
  account ← parse_session bs
  reconcile_account account claimed
