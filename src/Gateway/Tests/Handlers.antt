-- ===== src/Gateway/Tests/Handlers.antt =====
-- Tests of the handlers.
use agentpay.Prelude.{
  List, ℕ, ◌≡◌, ◌≤◌, refl, ap, ◌∙◌, some-eq, subst, true, false, none, some, [], ◌∷◌, arith, ok,
  ◌==◌, if◌then◌else◌, replicate,
}
use agentpay.Prelude.Int.{pos, ◌+ℤ◌}
use agentpay.Prelude.Words.{u64_max}
use agentpay.Prelude.Bytes.{codes, le_bytes, from_le}
use agentpay.Program.Runtime.{update}
use agentpay.Gateway.Claim.{
  Claim, ClaimWire, decode, is_expired, parse_u64, parse_i64, parse_digits,
}
use agentpay.Gateway.Verify.{verify_claim_signature}
use agentpay.Gateway.State.{
  SessionRecord, Sessions, empty, get, open_record, admit_claim, evaluate_claim,
  mark_chain_verified, advance,
}
use agentpay.Gateway.State.Histories.{serve_all, Call, admits}
use agentpay.Gateway.Chain.{
  Fetched, found, absent, SessionAccount, verify_on_chain_session, parse_session, reconcile_account,
}
use agentpay.Gateway.Chain.Layouts.{v2_layout}
use agentpay.Gateway.Chain.Reconcile.{Reconciled}
use agentpay.Gateway.Policy.{autonomous, active, AgentPolicy, evaluate, normalise_resource}
use agentpay.Gateway.Routes.{AppState}
use agentpay.Gateway.Routes.Claims.{Served, verify_claim, verify_claim-Served}
use agentpay.Gateway.Routes.Tracking.{
  OpenSessionRequest, Opened, open_session, requested, chain_check, open_session-Opened, claimed_of,
  fetcher_of, reconcile_session, reconcile_session-Reconciled,
}
use agentpay.Gateway.Control.{AgentRecord}
use agentpay.Gateway.Routes.Authority.{
  Db, PolicyWords, Authorised, identity_of, enforce_agent_policy, enforce_agent_policy-Authorised,
}
use agentpay.Gateway.Routes.Purchase.{
  Request, charged, Purchased, presented, checked_purchase, buy, buy-Purchased,
}
use agentpay.Gateway.Routes.Settlement.{Keys, Evidence, store}
use agentpay.Gateway.Tests.{sample_record, sample_claim, sample_accepted, sample_store}
use agentpay.Gateway.Tests.Ledger.{on_chain}

abbrev app : AppState
app = record {
  base58 = record { parse_pubkey = parse_u64; decode = λ t. some t };
  dalek = record { is_point = λ k. true; verify_strict = λ k m s. s == 0 };
  program_id = 1;
  legacy_program_id = none;
  session_fetcher = some (λ k. if k == 7 then found 1 (v2_layout on_chain false) else absent);
  require_agent_policy = true;
}

abbrev wire : ClaimWire
wire = record {
  session = codes "7";
  cumulative_amount = codes "40";
  nonce = codes "1";
  expires_at = codes "900";
  signature = replicate 64 0;
}

verify_claim-Served_example :
    Served app wire (pos 500) sample_store (verify_claim app wire (pos 500) sample_store)
verify_claim-Served_example = verify_claim-Served app wire (pos 500) sample_store

abbrev request : OpenSessionRequest
request = record {
  session = codes "7";
  agent = codes "11";
  provider = codes "12";
  mint = codes "13";
  deposited_total = codes "100";
  expires_at = codes "1000";
}

abbrev backed_record : SessionRecord
backed_record = record sample_record { chain_verified = true }

opened_ok : open_session app request empty ≡ ok (update empty 7 (some backed_record))
unfolding open_session requested chain_check verify_on_chain_session parse_session reconcile_account
    open_record parse_u64 parse_i64 parse_digits le_bytes from_le
opened_ok = refl

open_session-Opened_example : Opened app empty (update empty 7 (some backed_record))
open_session-Opened_example =
    open_session-Opened app request empty (update empty 7 (some backed_record)) opened_ok

reconciled_ok :
    reconcile_session app (codes "7") sample_store ≡ ok (update sample_store 7 (some backed_record))
unfolding reconcile_session get fetcher_of verify_on_chain_session parse_session reconcile_account
    mark_chain_verified parse_u64 parse_digits le_bytes from_le
reconciled_ok = refl

reconcile_session-Reconciled_example :
    (session : ℕ) × (r : SessionRecord) × (fetch : ℕ → Fetched) × (a : SessionAccount)
    × (app.base58.parse_pubkey (codes "7") ≡ some session)
    × (sample_store session ≡ some r)
    × (app.session_fetcher ≡ some fetch)
    × Reconciled (fetch session) 1 none (claimed_of r) a
    × (update sample_store 7 (some backed_record)
        ≡ update sample_store session (some (record r { chain_verified = true })))
reconcile_session-Reconciled_example =
    reconcile_session-Reconciled app (codes "7") sample_store
      (update sample_store 7 (some backed_record)) reconciled_ok

abbrev policy : AgentPolicy
policy = record {
  max_total = 1000;
  max_per_call = 50;
  approval_threshold = some 10;
  allowed_resources = some (codes "weather" ∷ []);
  max_calls = none;
}

abbrev agent : AgentRecord
agent = record {
  agent_id = codes "a1";
  label = codes "Agent";
  agent_pubkey = codes "11";
  owner_pubkey = none;
  created_at = pos 0;
  workspace_id = none;
  mode = autonomous;
  status = active;
  policy = some policy;
}

abbrev db : Db
db = record {
  get_agent_by_pubkey = some (some agent);
  agent_spend = some (record { spent = 0; calls = 0 });
  consume_approval = some true;
  has_pending_approval = some false;
}

db-PolicyWords : PolicyWords (some db)
db-PolicyWords a p e f =
    let at : agent ≡ a = some-eq (some-eq e) in
    let same : policy ≡ p = some-eq (ap (λ (x : AgentRecord). x.policy) at ∙ f) in
    subst (λ (x : AgentPolicy). x.max_total ≤ u64_max) same (omega arith)

granted : (enforce_agent_policy true (some db) (codes "/weather") 40).0 ≡ ok (identity_of agent)
unfolding enforce_agent_policy evaluate normalise_resource
granted = refl

enforce_agent_policy-Authorised_example : Authorised true (some db) (codes "/weather") 40
enforce_agent_policy-Authorised_example =
    enforce_agent_policy-Authorised true (some db) (codes "/weather") 40 (identity_of agent)
      db-PolicyWords granted

abbrev order : Request
order = record {
  price_of = some (ok 40);
  resource_path = codes "/weather";
  claim = some (some wire);
  db = some db;
}

abbrev decoded : Claim
decoded = sample_claim

bought : buy app order (pos 500) [] sample_store ≡ (
  ok (charged 40 sample_accepted),
  update sample_store 7 (some (advance decoded 0 sample_accepted sample_record)),
)
unfolding buy presented checked_purchase decode is_expired get verify_claim_signature
    enforce_agent_policy evaluate normalise_resource admit_claim evaluate_claim serve_all parse_u64
    parse_i64 parse_digits from_le ◌+ℤ◌
bought = refl

buy-Purchased_example :
    Purchased app order
      (pos 500)
      []
      sample_store
      40
      sample_accepted
      (update sample_store 7 (some (advance decoded 0 sample_accepted sample_record)))
buy-Purchased_example =
    buy-Purchased app order (pos 500) [] sample_store 40 sample_accepted
      (update sample_store 7 (some (advance decoded 0 sample_accepted sample_record)))
      db-PolicyWords bought

abbrev keys : Keys
keys = record { settlement_authority = some 14; provider_keypair = none; has_rpc = true }

abbrev leaf : Evidence
leaf = store (some (21 ∷ []))

abbrev claimed_store : Sessions
claimed_store = update sample_store 7 (some (advance sample_claim 99 sample_accepted sample_record))

-- A second claim is admitted while the first one is being settled.
abbrev late_claim : Claim
late_claim = record { session = 7; cumulative_amount = 60; nonce = 2; expires_at = pos 900 }

abbrev meanwhile : List Call
meanwhile = admits late_claim 98 (pos 501) ∷ []
