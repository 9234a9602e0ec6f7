-- ===== src/Gateway/Evidence.antt =====
-- The evidence log, gateway/src/evidence.rs, and the statement of gateway/src/db.rs that appends to
-- it. SHA-256 (a crate) is a parameter; a hash is the number that its 32 bytes encode.
pub mod Merkle
pub mod Log
pub mod Tamper
pub mod Inclusion
use agentpay.Prelude.{
  ℕ, zero, suc, ◌+◌, ◌-◌, ◌/◌, ◌%◌, Bool, true, false, Option, none, some, List, [], ◌∷◌, ◌++◌, leb,
  ◌==◌, if◌then◌else◌, Result, ok, err, ◌>>=◌, ◌>>◌, require, ok_or, map,
}
use agentpay.Prelude.Int.{ℤ, pos, eq_ℤ}
use agentpay.Prelude.Bytes.{Bytes, codes, bytes_eq, le_bytes}
use agentpay.Prelude.Words.{i64_max, checked_add_i64}
use agentpay.Gateway.Claim.{Claim}

abbrev pub genesis_prev_hash : ℕ
genesis_prev_hash = 0

abbrev pub empty_root : ℕ
empty_root = 0

pub data Decision : Type 0 where
  decided_allowed decided_not_monotonic decided_nonce_not_monotonic decided_exceeds_deposit
        decided_session_expired :
      Decision

unfoldable pub decision_as_str : Decision → Bytes
decision_as_str decided_allowed = codes "ALLOWED"
decision_as_str decided_not_monotonic = codes "ERR_CLAIM_NOT_MONOTONIC"
decision_as_str decided_nonce_not_monotonic = codes "ERR_NONCE_NOT_MONOTONIC"
decision_as_str decided_exceeds_deposit = codes "ERR_CLAIM_EXCEEDS_DEPOSIT"
decision_as_str decided_session_expired = codes "ERR_SESSION_EXPIRED"

-- `Decision::parse`
unfoldable pub parse_decision : Bytes → Option Decision
parse_decision s =
    if bytes_eq s (codes "ALLOWED")
    then some decided_allowed
    else if bytes_eq s (codes "ERR_CLAIM_NOT_MONOTONIC")
    then some decided_not_monotonic
    else if bytes_eq s (codes "ERR_NONCE_NOT_MONOTONIC")
    then some decided_nonce_not_monotonic
    else if bytes_eq s (codes "ERR_CLAIM_EXCEEDS_DEPOSIT")
    then some decided_exceeds_deposit
    else if bytes_eq s (codes "ERR_SESSION_EXPIRED")
    then some decided_session_expired
    else none

-- `Decision::is_allowed`
abbrev pub is_allowed : Decision → Bool
is_allowed decided_allowed = true
is_allowed decided_not_monotonic = false
is_allowed decided_nonce_not_monotonic = false
is_allowed decided_exceeds_deposit = false
is_allowed decided_session_expired = false

pub record EvidenceEntry : Type 0 where
  pub sequence_id : ℤ
  pub cumulative_amount : ℕ
  pub nonce : ℕ
  pub decision : Bytes
  pub prev_hash : ℕ
  pub entry_hash : ℕ

pub data ChainError : Type 0 where
  sequence_gap : ℤ → ℤ → ChainError
  broken_link hash_mismatch : ℤ → ChainError

-- What the hasher is fed.
abbrev pub preimage : ℕ → ℕ → ℕ → ℕ → Bytes → Bytes
preimage prev_hash session cumulative_amount nonce decision =
    le_bytes 32 prev_hash
    ++ (le_bytes 32 session ++ (le_bytes 8 cumulative_amount ++ (le_bytes 8 nonce ++ decision)))

-- A row of `evidence_log`.
pub record EvidenceRow : Type 0 where
  pub entry : EvidenceEntry
  pub signature : ℕ

-- `DbError`; `row_not_found` is the case of `Sqlx` that the store tells from the others.
pub data DbError : Type 0 where
  sqlx_error row_not_found migrate out_of_range negative_amount bad_pubkey bad_signature bad_hash :
      DbError

abbrev pub entries : List EvidenceRow → List EvidenceEntry
entries [] = []
entries (r ∷ rs) = r.entry ∷ entries rs

-- `ORDER BY sequence_id DESC LIMIT 1` on one session's rows, which are kept in the order of
-- their insertion.
abbrev pub last_row : List EvidenceEntry → Option EvidenceEntry
last_row [] = none
last_row (e ∷ []) = some e
last_row (e ∷ f ∷ es) = last_row (f ∷ es)

abbrev pub clamp : ℕ → ℕ
clamp n = if leb n i64_max then n else i64_max

-- Where the next entry goes: its number and the hash it links to.
unfoldable pub next_link : Option EvidenceEntry → Result DbError (ℤ × ℕ)
next_link none = ok (pos 0, genesis_prev_hash)
next_link (some last) = do
  sequence_id ← ok_or (checked_add_i64 last.sequence_id (pos 1)) out_of_range
  ok (sequence_id, last.entry_hash)

module _ (sha256 : Bytes → ℕ) where
  unfoldable pub compute_entry_hash : ℕ → ℕ → ℕ → ℕ → Bytes → ℕ
  compute_entry_hash prev_hash session cumulative_amount nonce decision =
      sha256 (preimage prev_hash session cumulative_amount nonce decision)

  -- The loop of `verify_chain`, at entry `i`.
  unfoldable pub verify_from : ℕ → ℕ → ℕ → List EvidenceEntry → Result ChainError (Unit {0})
  verify_from session i expected_prev [] = ok tt
  verify_from session i expected_prev (e ∷ es) = do
    require (eq_ℤ e.sequence_id (pos i)) (sequence_gap (pos i) e.sequence_id)
    require (e.prev_hash == expected_prev) (broken_link e.sequence_id)
    require
        (compute_entry_hash e.prev_hash session e.cumulative_amount e.nonce e.decision
          == e.entry_hash)
        (hash_mismatch e.sequence_id)
    verify_from session (suc i) e.entry_hash es

  unfoldable pub verify_chain : ℕ → List EvidenceEntry → Result ChainError (Unit {0})
  verify_chain session es = verify_from session 0 genesis_prev_hash es

  abbrev pub new_row : Claim → Decision → ℕ → ℤ × ℕ → EvidenceRow
  new_row claim decision signature link = record {
    entry = record {
      sequence_id = link.0;
      cumulative_amount = clamp claim.cumulative_amount;
      nonce = clamp claim.nonce;
      decision = decision_as_str decision;
      prev_hash = link.1;
      entry_hash =
          compute_entry_hash link.1 claim.session (clamp claim.cumulative_amount)
            (clamp claim.nonce) (decision_as_str decision);
    };
    signature = signature;
  }

  unfoldable pub append_evidence :
      List EvidenceRow → Claim → Decision → ℕ → Result DbError (List EvidenceRow)
  append_evidence log claim decision signature = do
    link ← next_link (last_row (entries log))
    ok (log ++ (new_row claim decision signature link ∷ []))
