-- ===== src/Gateway/Routes/Settlement.antt =====
-- `settle_session` of gateway/src/routes.rs: which claim, root, program and key a settlement is
-- submitted with. The submission itself (the RPC node) is a parameter. The handler awaits the
-- evidence, the record, the account and the submission one after the other, so that other calls on
-- the store come in between: some before the record is read, some before it is marked.
pub mod Plans
use agentpay.Prelude.{
  ℕ, ◌≡◌, ◌≢◌, refl, sym, ap, ◌∙◌, subst, Bool, true, false, not, ◌||◌, Option, none, some, List,
  [], ◌∷◌, ◌⊎◌, inl, inr, arith, ◌==◌, ==_iff, Result, ok, err, ◌>>=◌, ◌>>◌, require, ok_or,
  map_err, >>=-eq-ok, ok_or-eq-ok, ok-injective, some-eq, if◌then◌else◌, length, Bool-cases,
  Option-cases,
}
use agentpay.Prelude.Bytes.{Bytes}
use agentpay.Program.Runtime.{update}
use agentpay.Gateway.Claim.{Claim}
use agentpay.Gateway.Chain.{Fetched, unreachable, absent, found, session_account_len_v2, is_id}
use agentpay.Gateway.Evidence.Merkle.{new_tree, root}
use agentpay.Gateway.State.{SessionRecord, SignedClaim, Sessions, get, mark_settled}
use agentpay.Gateway.State.Histories.{kept, Call, serve_all}
use agentpay.Gateway.State.Store.{AllTracked, IsTracked, Retains}
use agentpay.Gateway.Reason.{
  ReasonCode, err_malformed_request, err_evidence_unavailable, err_settlement_unavailable,
  err_session_settled, err_nothing_to_settle, err_chain_unavailable, err_wrong_program_owner,
  err_wrong_provider_key, err_settlement_failed,
}
use agentpay.Gateway.Routes.{AppState, store_denial}
use agentpay.Gateway.Routes.Claims.{map_err-eq-ok, require-eq-ok}

-- The configuration that a settlement reads: the two keys (their public halves), and whether an RPC
-- node is set.
pub record Keys : Type 0 where
  pub settlement_authority : Option ℕ
  pub provider_keypair : Option ℕ
  pub has_rpc : Bool

-- The evidence: no store and the root of the request if it parses, or a store and its leaves if
-- they could be read.
pub data Evidence : Type 0 where
  no_store : Option ℕ → Evidence
  store : Option (List ℕ) → Evidence

pub record Submission : Type 0 where
  pub program : ℕ
  pub settler : ℕ
  pub provider : ℕ
  pub session : ℕ
  pub mint : ℕ
  pub highest : SignedClaim
  pub agent : ℕ
  pub merkle_root : ℕ

module _ (sha256 : Bytes → ℕ) where
  unfoldable pub committed_root : Evidence → Result ReasonCode ℕ
  committed_root (no_store given) = ok_or given err_malformed_request
  committed_root (store none) = err err_evidence_unavailable
  committed_root (store (some ls)) = ok (root (new_tree sha256 ls))

-- The account's owner and whether it has the v2 length.
abbrev pub version_of : Fetched → Result ReasonCode (ℕ × Bool)
version_of unreachable = err err_chain_unavailable
version_of absent = err err_chain_unavailable
version_of (found owner bs) = ok (owner, length bs == session_account_len_v2)

unfoldable pub account_version : Option (ℕ → Fetched) → ℕ → Result ReasonCode (ℕ × Bool)
account_version none session = err err_chain_unavailable
account_version (some fetch) session = version_of (fetch session)

unfoldable pub settler_for : Keys → Bool → ℕ → Result ReasonCode ℕ
settler_for keys true provider = ok_or keys.settlement_authority err_settlement_unavailable
settler_for keys false provider = do
  keypair ← ok_or keys.provider_keypair err_settlement_unavailable
  require (keypair == provider) err_wrong_provider_key
  ok keypair

module _ (sha256 : Bytes → ℕ) where
  unfoldable pub plan_settlement :
      AppState → Keys → Evidence → ℕ → Sessions → Result ReasonCode Submission
  plan_settlement state keys evidence session m = do
    merkle_root ← committed_root sha256 evidence
    require keys.has_rpc err_settlement_unavailable
    r ← map_err store_denial (get session m)
    require (not r.is_settled) err_session_settled
    highest ← ok_or r.highest_claim err_nothing_to_settle
    version ← account_version state.session_fetcher session
    require (version.0 == state.program_id || is_id state.legacy_program_id version.0)
        err_wrong_program_owner
    settler ← settler_for keys version.1 r.provider
    ok (record {
      program = version.0;
      settler = settler;
      provider = r.provider;
      session = session;
      mint = r.mint;
      highest = highest;
      agent = r.agent;
      merkle_root = merkle_root;
    })

  -- `submit` answers whether the chain confirmed; a failure to mark is only logged.
  abbrev pub submitted :
      (Submission → Bool)
      → Sessions
      → Result ReasonCode Submission
      → Result ReasonCode Submission × Sessions
  submitted submit m (err c) = (err c, m)
  submitted submit m (ok s) =
      if submit s then (ok s, kept m (mark_settled s.session m)) else (err err_settlement_failed, m)

  -- The evidence is what was read on entry.
  unfoldable pub settle_session :
      AppState
      → Keys
      → Evidence
      → (Submission → Bool)
      → Option ℕ
      → List Call
      → List Call
      → Sessions
      → Result ReasonCode Submission × Sessions
  settle_session state keys evidence submit session before_read before_mark m =
      let read = serve_all before_read m in
      submitted submit (serve_all before_mark read)
        (ok_or session err_malformed_request >>= λ k. plan_settlement state keys evidence k read)
