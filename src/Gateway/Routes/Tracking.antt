-- ===== src/Gateway/Routes/Tracking.antt =====
-- `open_session` and `reconcile_session` of gateway/src/routes.rs: how a session comes to be tracked,
-- and what the flag `chain_verified` of a record says.
use agentpay.Prelude.{
  ℕ, ◌≡◌, sym, subst, Bool, true, false, none, some, inl, inr, Result, ok, ◌>>=◌, ok_or, map_err,
  >>=-eq-ok, ok_or-eq-ok, ok-injective, Option-cases, arith,
}
use agentpay.Prelude.Bytes.{Bytes}
use agentpay.Gateway.Claim.{parse_u64, parse_i64}
use agentpay.Gateway.Chain.{ClaimedSession, SessionAccount, Fetched, verify_on_chain_session}
use agentpay.Gateway.Chain.Reconcile.{Reconciled, verify_on_chain_session_iff}
use agentpay.Gateway.State.{
  SessionRecord, new_record, Sessions, open_record, get, mark_chain_verified,
}
use agentpay.Gateway.Reason.{ReasonCode, err_malformed_request, err_chain_unavailable}
use agentpay.Gateway.Routes.{AppState, store_denial, reconciliation_code}
use agentpay.Gateway.Routes.Claims.{map_err-eq-ok}
use agentpay.Program.Runtime.{update}

pub record OpenSessionRequest : Type 0 where
  pub session : Bytes
  pub agent : Bytes
  pub provider : Bytes
  pub mint : Bytes
  pub deposited_total : Bytes
  pub expires_at : Bytes

-- The checks against the chain, and the flag that they set: without a fetcher there are none.
unfoldable pub chain_check : AppState → ℕ → ClaimedSession → Result ReasonCode Bool
chain_check state session claimed = elim state.session_fetcher [
  | none ↦ ok false
  | some fetch ↦
      map_err reconciliation_code
        (verify_on_chain_session (fetch session) state.program_id state.legacy_program_id claimed)
      >>= λ account. ok true
]

-- The record that the request asks for.
unfoldable pub requested : AppState → OpenSessionRequest → Result ReasonCode SessionRecord
requested state req = do
  session ← ok_or (state.base58.parse_pubkey req.session) err_malformed_request
  agent ← ok_or (state.base58.parse_pubkey req.agent) err_malformed_request
  provider ← ok_or (state.base58.parse_pubkey req.provider) err_malformed_request
  mint ← ok_or (state.base58.parse_pubkey req.mint) err_malformed_request
  deposited_total ← ok_or (parse_u64 req.deposited_total) err_malformed_request
  expires_at ← ok_or (parse_i64 req.expires_at) err_malformed_request
  ok (new_record session agent provider mint deposited_total expires_at)

abbrev pub claimed_of : SessionRecord → ClaimedSession
claimed_of r = record {
  agent = r.agent;
  provider = r.provider;
  mint = r.mint;
  deposited_total = r.deposited_total;
  expires_at = r.expires_at;
}

unfoldable pub open_session : AppState → OpenSessionRequest → Sessions → Result ReasonCode Sessions
open_session state req m = do
  r ← requested state req
  chain_verified ← chain_check state r.session (claimed_of r)
  map_err store_denial (open_record (record r { chain_verified = chain_verified }) m)

unfoldable pub fetcher_of : AppState → Result ReasonCode (ℕ → Fetched)
fetcher_of state = ok_or state.session_fetcher err_chain_unavailable

unfoldable pub reconcile_session : AppState → Bytes → Sessions → Result ReasonCode Sessions
reconcile_session state text m = do
  session ← ok_or (state.base58.parse_pubkey text) err_malformed_request
  r ← map_err store_denial (get session m)
  fetch ← fetcher_of state
  account ← map_err reconciliation_code (
      verify_on_chain_session (fetch session) state.program_id state.legacy_program_id
        (claimed_of r))
  map_err store_denial (mark_chain_verified session m)

-- The record's flag is raised only if the chain bears the record out.
abbrev pub IsBacked : AppState → SessionRecord → Type 0
IsBacked state r =
    r.chain_verified ≡ true
    → (fetch : ℕ → Fetched) × (a : SessionAccount) × (state.session_fetcher ≡ some fetch)
      × Reconciled (fetch r.session) state.program_id state.legacy_program_id (claimed_of r) a

chain_check-true :
    (state : AppState) (session : ℕ) (claimed : ClaimedSession)
    → chain_check state session claimed ≡ ok true
    → (fetch : ℕ → Fetched) × (a : SessionAccount) × (state.session_fetcher ≡ some fetch)
      × Reconciled (fetch session) state.program_id state.legacy_program_id claimed a
unfolding chain_check
chain_check-true state session claimed h = elim (Option-cases state.session_fetcher) [
  | inl off ↦ absurd (cc (rw (off, chain_check) at h))
  | inr (fetch, on) ↦
      let (a, e, k) =
        >>=-eq-ok
          (map_err reconciliation_code (
            verify_on_chain_session (fetch session) state.program_id state.legacy_program_id
              claimed))
          (λ (a : SessionAccount). ok true) (rw (on, chain_check) at h) in
      (
        fetch,
        a,
        on,
        (verify_on_chain_session_iff (fetch session) state.program_id state.legacy_program_id
              claimed a).0
            (map_err-eq-ok reconciliation_code _ e),
      )
]

chain_check-on :
    (state : AppState) (session : ℕ) (claimed : ClaimedSession) (fetch : ℕ → Fetched) (b : Bool)
    → state.session_fetcher ≡ some fetch
    → chain_check state session claimed ≡ ok b
    → b ≡ true
unfolding chain_check
chain_check-on state session claimed fetch b on h =
    let (a, e, k) =
      >>=-eq-ok
        (map_err reconciliation_code (
          verify_on_chain_session (fetch session) state.program_id state.legacy_program_id claimed))
        (λ (a : SessionAccount). ok true) (rw (on, chain_check) at h) in
    sym (ok-injective k)

-- How an opened session is tracked.
pub record Opened (state : AppState) (m m' : Sessions) : Type 0 where
  pub r : SessionRecord
  pub fresh : m r.session ≡ none
  pub written : m' ≡ update m r.session (some r)
  pub nothing_accepted :
      (r.cumulative_accepted ≡ 0) × (r.last_nonce ≡ none) × (r.is_settled ≡ false)
  pub backed : IsBacked state r
  pub flagged : (fetch : ℕ → Fetched) → state.session_fetcher ≡ some fetch → r.chain_verified ≡ true

open_record-eq :
    (r : SessionRecord) (m m' : Sessions)
    → open_record r m ≡ ok m'
    → (m r.session ≡ none) × (m' ≡ update m r.session (some r))
unfolding open_record
open_record-eq r m m' h = elim (Option-cases (m r.session)) [
  | inl fresh ↦ (fresh, sym (ok-injective (rw (fresh, open_record) at h)))
  | inr (s, known) ↦ absurd (cc (rw (known, open_record) at h))
]

requested-new :
    (state : AppState) (req : OpenSessionRequest) (r : SessionRecord)
    → requested state req ≡ ok r
    → (r.cumulative_accepted ≡ 0) × (r.last_nonce ≡ none) × (r.is_settled ≡ false)
unfolding requested
requested-new state req r h = ground arith

-- A session that is opened was not tracked before, starts with nothing accepted and unsettled, and
-- bears the mark of verification only if its account on chain is owned by a known program,
-- unsettled, and has the agent, provider, mint, deposit and expiry of the record; with a fetcher
-- configured it always bears it.
pub open_session-Opened :
    (state : AppState) (req : OpenSessionRequest) (m m' : Sessions)
    → open_session state req m ≡ ok m'
    → Opened state m m'
unfolding open_session
open_session-Opened state req m m' h =
    let (r, e1, h1) = >>=-eq-ok (requested state req) _ h in
    let (b, e2, h2) = >>=-eq-ok (chain_check state r.session (claimed_of r)) _ h1 in
    let s : SessionRecord = record r { chain_verified = b } in
    let (fresh, written) =
      open_record-eq s m m' (map_err-eq-ok store_denial (open_record s m) h2) in
    record {
      r = s;
      fresh = fresh;
      written = written;
      nothing_accepted = requested-new state req r e1;
      backed = λ yes.
          chain_check-true state r.session (claimed_of r)
            (subst (λ (c : Bool). chain_check state r.session (claimed_of r) ≡ ok c) yes e2);
      flagged = λ fetch on. chain_check-on state r.session (claimed_of r) fetch b on e2;
    }

mark_chain_verified-eq :
    (k : ℕ) (m m' : Sessions) (r : SessionRecord)
    → m k ≡ some r
    → mark_chain_verified k m ≡ ok m'
    → m' ≡ update m k (some (record r { chain_verified = true }))
unfolding mark_chain_verified
mark_chain_verified-eq k m m' r at h = sym (ok-injective (rw (at, mark_chain_verified) at h))

-- Reconciliation raises the flag only on a tracked session whose account on chain, under a known
-- program and unsettled, has the record's agent, provider, mint, deposit and expiry; nothing else
-- of the map changes.
pub reconcile_session-Reconciled :
    (state : AppState) (text : Bytes) (m m' : Sessions)
    → reconcile_session state text m ≡ ok m'
    → (session : ℕ) × (r : SessionRecord) × (fetch : ℕ → Fetched) × (a : SessionAccount)
      × (state.base58.parse_pubkey text ≡ some session)
      × (m session ≡ some r)
      × (state.session_fetcher ≡ some fetch)
      × Reconciled (fetch session) state.program_id state.legacy_program_id (claimed_of r) a
      × (m' ≡ update m session (some (record r { chain_verified = true })))
unfolding reconcile_session get fetcher_of
reconcile_session-Reconciled state text m m' h =
    let (k, e1, h1) =
      >>=-eq-ok (ok_or (state.base58.parse_pubkey text) err_malformed_request) _ h in
    let (r, e2, h2) = >>=-eq-ok (map_err store_denial (get k m)) _ h1 in
    let (fetch, e3, h3) = >>=-eq-ok (fetcher_of state) _ h2 in
    let (a, e4, h4) =
      >>=-eq-ok
        (map_err reconciliation_code (
          verify_on_chain_session (fetch k) state.program_id state.legacy_program_id
            (claimed_of r)))
        _ h3 in
    let at = ok_or-eq-ok (m k) _ (map_err-eq-ok store_denial (get k m) e2) in
    (
      k,
      r,
      fetch,
      a,
      ok_or-eq-ok (state.base58.parse_pubkey text) _ e1,
      at,
      ok_or-eq-ok state.session_fetcher _ e3,
      (verify_on_chain_session_iff (fetch k) state.program_id state.legacy_program_id (claimed_of r)
            a).0
          (map_err-eq-ok reconciliation_code _ e4),
      mark_chain_verified-eq k m m' r at (map_err-eq-ok store_denial (mark_chain_verified k m) h4),
    )
