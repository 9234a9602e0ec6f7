-- ===== src/Gateway/Claim.antt =====
-- Claims as the gateway encodes and decodes them, gateway/src/claim.rs.
use agentpay.Prelude.{
  ℕ, ◌+◌, ◌-◌, ◌*◌, Bool, false, Option, none, some, [], ◌∷◌, ◌++◌, leb, ◌==◌, ◌&&◌, if◌then◌else◌,
  length, take, drop, replicate, Result, ok, ◌>>=◌, ◌>>◌, require, ok_or,
}
use agentpay.Prelude.Int.{ℤ, pos, negsuc, ltb_ℤ}
use agentpay.Prelude.Words.{u64_max, i64_max, checked_add_i64}
use agentpay.Prelude.Bytes.{Bytes, codes, le_bytes, from_le, i64_word}

abbrev pub claim_domain : Bytes
claim_domain = codes "agentpay:claim:v1"

abbrev pub claim_message_len : ℕ
claim_message_len = 17 + 32 + 8 + 8 + 8

abbrev pub clock_skew_tolerance_secs : ℤ
clock_skew_tolerance_secs = pos 30

abbrev pub off_domain : ℕ
off_domain = 0

abbrev pub off_session : ℕ
off_session = 17

abbrev pub off_cumulative : ℕ
off_cumulative = 49

abbrev pub off_nonce : ℕ
off_nonce = 57

abbrev pub off_expiry : ℕ
off_expiry = 65

pub record Claim : Type 0 where
  pub session : ℕ
  pub cumulative_amount : ℕ
  pub nonce : ℕ
  pub expires_at : ℤ

-- `buf[off..off + src.len()].copy_from_slice(src)`
abbrev pub copy_at : ℕ → Bytes → Bytes → Bytes
copy_at off src buf = take off buf ++ (src ++ drop (off + length src) buf)

unfoldable pub signing_bytes : Claim → Bytes
signing_bytes c = copy_at off_expiry (le_bytes 8 (i64_word c.expires_at)) (
    copy_at off_nonce (le_bytes 8 c.nonce) (
      copy_at off_cumulative (le_bytes 8 c.cumulative_amount) (
        copy_at off_session (le_bytes 32 c.session)
          (copy_at off_domain claim_domain (replicate claim_message_len 0)))))

unfoldable pub is_expired : Claim → ℤ → Bool
is_expired c now = elim (checked_add_i64 c.expires_at clock_skew_tolerance_secs) [
  | some limit ↦ ltb_ℤ limit now
  | none ↦ false
]

-- The fields as text; amounts are decimal strings.
pub record ClaimWire : Type 0 where
  pub session : Bytes
  pub cumulative_amount : Bytes
  pub nonce : Bytes
  pub expires_at : Bytes
  pub signature : Bytes

pub data ClaimDecodeError : Type 0 where
  bad_session bad_cumulative_amount bad_nonce bad_expires_at bad_signature : ClaimDecodeError

-- `str::parse::<u64>` of the standard library: an optional `+`, then one or more digits, with
-- overflow refused.
unfoldable pub parse_digits : Bytes → ℕ → Option ℕ
parse_digits [] n = some n
parse_digits (c ∷ s) n =
    let rest = parse_digits s (n * 10 + (c - b'0')) in
    if leb b'0' c && leb c b'9' && leb (n * 10 + (c - b'0')) u64_max then rest else none

unfoldable pub parse_u64 : Bytes → Option ℕ
unfolding parse_digits
parse_u64 [] = none
parse_u64 (c ∷ []) = parse_digits (c ∷ []) 0
parse_u64 (c ∷ d ∷ s) = if c == b'+' then parse_digits (d ∷ s) 0 else parse_digits (c ∷ d ∷ s) 0

-- `str::parse::<i64>`: a leading `-` as well, within the range of an i64.
abbrev pub negative : ℕ → Option ℤ
negative n =
    if n == 0 then some (pos 0) else if leb n (i64_max + 1) then some (negsuc (n - 1)) else none

abbrev pub positive : ℕ → Option ℤ
positive n = if leb n i64_max then some (pos n) else none

unfoldable pub parse_i64 : Bytes → Option ℤ
unfolding parse_digits
parse_i64 [] = none
parse_i64 (c ∷ []) = elim (parse_digits (c ∷ []) 0) [ none ↦ none | some n ↦ positive n ]
parse_i64 (c ∷ d ∷ s) =
    if c == b'-'
    then (elim (parse_digits (d ∷ s) 0) [ none ↦ none | some n ↦ negative n ])
    else if c == b'+'
    then (elim (parse_digits (d ∷ s) 0) [ none ↦ none | some n ↦ positive n ])
    else (elim (parse_digits (c ∷ d ∷ s) 0) [ none ↦ none | some n ↦ positive n ])

-- Base58 is the work of the crates `solana_pubkey` and `bs58`: text to a key, text to bytes.
pub record Base58 : Type 0 where
  pub parse_pubkey : Bytes → Option ℕ
  pub decode : Bytes → Option Bytes

unfoldable pub decode : Base58 → ClaimWire → Result ClaimDecodeError (Claim × ℕ)
unfolding parse_u64 parse_i64
decode b58 w = do
  session ← ok_or (b58.parse_pubkey w.session) bad_session
  cumulative_amount ← ok_or (parse_u64 w.cumulative_amount) bad_cumulative_amount
  nonce ← ok_or (parse_u64 w.nonce) bad_nonce
  expires_at ← ok_or (parse_i64 w.expires_at) bad_expires_at
  sig_bytes ← ok_or (b58.decode w.signature) bad_signature
  require (length sig_bytes == 64) bad_signature
  ok (
    record {
      session = session;
      cumulative_amount = cumulative_amount;
      nonce = nonce;
      expires_at = expires_at;
    },
    from_le sig_bytes,
  )
