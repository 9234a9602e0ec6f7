-- ===== src/Gateway/Tests/Ledger.antt =====
-- Tests of the evidence log, the policy and the account layouts.
use agentpay.Prelude.{ℕ, ◌≡◌, ◌↔◌, ◌⊎◌, refl, true, false, none, some, List, [], ◌∷◌, arith, ok}
use agentpay.Prelude.Int.{pos}
use agentpay.Prelude.Bytes.{codes}
use agentpay.Gateway.Evidence.{
  decided_allowed, EvidenceRow, entries, new_row, verify_chain, verify_from, next_link,
  append_evidence,
}
use agentpay.Gateway.Evidence.Log.{append_evidence-verify_chain}
use agentpay.Gateway.Evidence.Tamper.{AllEntries, Collision, verify_chain-tamper_evident}
use agentpay.Gateway.Evidence.Merkle.{ProofNode, proof, new_tree, root, verify_proof}
use agentpay.Gateway.Evidence.Inclusion.{proof_lem}
use agentpay.Gateway.Policy.{AgentPolicy, Spend}
use agentpay.Gateway.Policy.Resources.{IsName}
use agentpay.Gateway.Chain.{parse_session, found, ClaimedSession, verify_on_chain_session}
use agentpay.Gateway.Chain.Layouts.{v2_layout, account_of, IsSession, parse_session-v2_layout}
use agentpay.Gateway.Chain.Reconcile.{Reconciled, verify_on_chain_session_iff}
use agentpay.Program.Types.{Session}
use agentpay.Gateway.Tests.{sample_claim, toy_hash}

abbrev first_row : EvidenceRow
first_row = new_row toy_hash sample_claim decided_allowed 99 (pos 0, 0)

appended : append_evidence toy_hash [] sample_claim decided_allowed 99 ≡ ok (first_row ∷ [])
unfolding append_evidence next_link
appended = refl

empty_verifies : verify_chain toy_hash 7 [] ≡ ok tt
unfolding verify_chain verify_from
empty_verifies = refl

first_verifies : verify_chain toy_hash 7 (entries (first_row ∷ [])) ≡ ok tt
first_verifies =
    append_evidence-verify_chain toy_hash [] sample_claim decided_allowed 99 (first_row ∷ [])
      empty_verifies appended

first-AllEntries : AllEntries (entries (first_row ∷ []))
first-AllEntries = ((omega arith, omega arith, omega arith), tt)

verify_chain-tamper_evident_example :
    (entries (first_row ∷ []) ≡ entries (first_row ∷ [])) ⊎ Collision toy_hash
verify_chain-tamper_evident_example =
    verify_chain-tamper_evident toy_hash 7 (entries (first_row ∷ [])) (entries (first_row ∷ []))
      first-AllEntries first-AllEntries refl refl first_verifies first_verifies

abbrev sample_leaves : List ℕ
sample_leaves = 21 ∷ 22 ∷ 23 ∷ []

proof_lem_example :
    (nodes : List ProofNode) × (proof (new_tree toy_hash sample_leaves) 2 ≡ some nodes)
    × (verify_proof toy_hash 23 nodes (root (new_tree toy_hash sample_leaves)) ≡ true)
proof_lem_example = proof_lem toy_hash sample_leaves 2 23 refl

weather-IsName : IsName 119 (codes "eather")
weather-IsName = record {
  no_blanks = (refl, (refl, (refl, (refl, (refl, (refl, (refl, tt)))))));
  no_question = (refl, (refl, (refl, (refl, (refl, (refl, (refl, tt)))))));
  start = refl;
  end = refl;
}

abbrev sample_policy : AgentPolicy
sample_policy = record {
  max_total = 1000000;
  max_per_call = 25000;
  approval_threshold = some 10000;
  allowed_resources = some (codes "weather" ∷ []);
  max_calls = some 3;
}

abbrev sample_spend : Spend
sample_spend = record { spent = 990000; calls = 2 }

abbrev pub on_chain : Session
on_chain = record {
  agent = 11;
  provider = 12;
  settlement_authority = 14;
  mint = 13;
  vault = 15;
  deposited_total = 100;
  cumulative_settled = 0;
  refunded_total = 0;
  expires_at = pos 1000;
  session_id = 1;
  bump = 255;
  vault_bump = 254;
  is_settled = false;
}

on_chain-IsSession : IsSession on_chain
on_chain-IsSession = record {
  agent = omega arith;
  provider = omega arith;
  settlement_authority = omega arith;
  mint = omega arith;
  vault = omega arith;
  deposited_total = omega arith;
  cumulative_settled = omega arith;
  refunded_total = omega arith;
  expires_at = omega arith;
  session_id = omega arith;
}

parse_session-v2_layout_example :
    parse_session (v2_layout on_chain false) ≡ ok (account_of on_chain)
parse_session-v2_layout_example = parse_session-v2_layout on_chain on_chain-IsSession

abbrev asserted : ClaimedSession
asserted = record {
  agent = 11;
  provider = 12;
  mint = 13;
  deposited_total = 100;
  expires_at = pos 1000;
}

verify_on_chain_session_iff_example :
    (verify_on_chain_session (found 1 (v2_layout on_chain false)) 1 none asserted
      ≡ ok (account_of on_chain))
    ↔ Reconciled (found 1 (v2_layout on_chain false)) 1 none asserted (account_of on_chain)
verify_on_chain_session_iff_example =
    verify_on_chain_session_iff (found 1 (v2_layout on_chain false)) 1 none asserted
      (account_of on_chain)
