-- ===== src/Gateway/State.antt =====
-- Session state and the claim tracker, gateway/src/state.rs: the ordering rules and the
-- in-memory store. The store's lock makes each operation one step, so the operations are
-- functions on the map; a poisoned lock is the case `unavailable`, which leaves the map alone.
pub mod Rules
pub mod Store
pub mod Histories
use agentpay.Prelude.{
  ℕ, ◌-◌, Bool, true, false, Option, none, some, ltb, leb, ◌==◌, if◌then◌else◌, Result, ok, err,
  ◌>>=◌, ◌>>◌, require, ok_or,
}
use agentpay.Prelude.Int.{ℤ, pos, ltb_ℤ}
use agentpay.Prelude.Words.{i64_max, checked_add_i64, checked_sub}
use agentpay.Gateway.Claim.{Claim, clock_skew_tolerance_secs}
use agentpay.Program.Runtime.{update}

pub record SignedClaim : Type 0 where
  pub claim : Claim
  pub signature : ℕ

pub record SessionRecord : Type 0 where
  pub session : ℕ
  pub agent : ℕ
  pub provider : ℕ
  pub mint : ℕ
  pub deposited_total : ℕ
  pub expires_at : ℤ
  pub cumulative_accepted : ℕ
  pub last_nonce : Option ℕ
  pub highest_claim : Option SignedClaim
  pub is_settled : Bool
  pub chain_verified : Bool

-- `SessionRecord::new`
abbrev pub new_record : ℕ → ℕ → ℕ → ℕ → ℕ → ℤ → SessionRecord
new_record session agent provider mint deposited_total expires_at = record {
  session = session;
  agent = agent;
  provider = provider;
  mint = mint;
  deposited_total = deposited_total;
  expires_at = expires_at;
  cumulative_accepted = 0;
  last_nonce = none;
  highest_claim = none;
  is_settled = false;
  chain_verified = false;
}

pub data ClaimRejection : Type 0 where
  session_expired session_settled not_monotonic nonce_not_monotonic exceeds_deposit : ClaimRejection

pub record ClaimAccepted : Type 0 where
  pub cumulative_amount : ℕ
  pub previous_cumulative : ℕ
  pub delta : ℕ
  pub nonce : ℕ

pub data StoreError : Type 0 where
  unavailable already_open unknown : StoreError

-- `checked_add(..).unwrap_or(i64::MAX)`
abbrev pub session_limit : ℤ → ℤ
session_limit expires_at = elim (checked_add_i64 expires_at clock_skew_tolerance_secs) [
  | some limit ↦ limit
  | none ↦ pos i64_max
]

abbrev pub nonce_exceeds : Option ℕ → ℕ → Bool
nonce_exceeds none nonce = true
nonce_exceeds (some last) nonce = ltb last nonce

unfoldable pub evaluate_claim : SessionRecord → Claim → ℤ → Result ClaimRejection ClaimAccepted
evaluate_claim r claim now = do
  require (if r.is_settled then false else true) session_settled
  require (if ltb_ℤ (session_limit r.expires_at) now then false else true) session_expired
  require (if leb claim.cumulative_amount r.cumulative_accepted then false else true) not_monotonic
  require (nonce_exceeds r.last_nonce claim.nonce) nonce_not_monotonic
  require (if ltb r.deposited_total claim.cumulative_amount then false else true) exceeds_deposit
  delta ← ok_or (checked_sub claim.cumulative_amount r.cumulative_accepted) not_monotonic
  ok (record {
    cumulative_amount = claim.cumulative_amount;
    previous_cumulative = r.cumulative_accepted;
    delta = delta;
    nonce = claim.nonce;
  })

-- `inner`: the map of `InMemorySessionStore`.
abbrev pub Sessions : Type 0
Sessions = ℕ → Option SessionRecord

abbrev pub empty : Sessions
empty k = none

-- `contains_key`, then `insert`.
unfoldable pub open_record : SessionRecord → Sessions → Result StoreError Sessions
open_record r m = elim (m r.session) [
  | some _ ↦ err already_open
  | none ↦ ok (update m r.session (some r))
]

unfoldable pub get : ℕ → Sessions → Result StoreError SessionRecord
get k m = ok_or (m k) unknown

-- What an accepted claim writes into the record.
abbrev pub advance : Claim → ℕ → ClaimAccepted → SessionRecord → SessionRecord
advance claim signature accepted r = record r {
  cumulative_accepted = accepted.cumulative_amount;
  last_nonce = some accepted.nonce;
  highest_claim = some (record { claim = claim; signature = signature });
}

-- The outcome for the caller, and the map.
unfoldable pub admit_claim :
    Claim → ℕ → ℤ → Sessions → Result StoreError (Result ClaimRejection ClaimAccepted × Sessions)
admit_claim claim signature now m = elim (m claim.session) [
  | none ↦ err unknown
  | some r ↦ elim (evaluate_claim r claim now) [
    | ok accepted ↦
        ok (ok accepted, update m claim.session (some (advance claim signature accepted r)))
    | err rejection ↦ ok (err rejection, m)
  ]
]

unfoldable pub mark_settled : ℕ → Sessions → Result StoreError Sessions
mark_settled k m = elim (m k) [
  | none ↦ err unknown
  | some r ↦ ok (update m k (some (record r { is_settled = true })))
]

unfoldable pub mark_chain_verified : ℕ → Sessions → Result StoreError Sessions
mark_chain_verified k m = elim (m k) [
  | none ↦ err unknown
  | some r ↦ ok (update m k (some (record r { chain_verified = true })))
]
