-- ===== src/Gateway/Tests/Transactions.antt =====
-- A test of the settlement's transaction.
use agentpay.Prelude.{ℕ, zero, suc, ◌≡◌, refl, Option, none, some, List, [], ◌∷◌, length, err, ◌+◌}
use agentpay.Prelude.Bytes.{Bytes, codes}
use agentpay.Gateway.Settle.Transaction.{
  Cluster, Transaction, Request, SettlementOutcome, submit_settlement, mint_not_found,
}
use agentpay.Gateway.Tests.{sample_claim}

abbrev zeros : ℕ → List ℕ
zeros zero = []
zeros (suc n) = 0 ∷ zeros n

abbrev cluster : Cluster
cluster = record {
  ed25519_program = 3;
  instructions_sysvar = 4;
  system_program = 0;
  associated_token_program = 5;
  find_program_address = λ seeds program. (600 + length seeds, 255);
  sha256 = λ s. zeros 32;
}

abbrev request : Request
request = record {
  program_id = 1;
  settler = 21;
  provider = 12;
  session = 7;
  mint = 9;
  claim = sample_claim;
  signature = 99;
  agent = 11;
  merkle_root = 5;
}

abbrev mint_owner : ℕ → Option ℕ
mint_owner mint = some 8

abbrev confirmed : Transaction → Option Bytes
confirmed t = some (codes "sig")

abbrev outcome : SettlementOutcome
outcome = record {
  signature = codes "sig";
  cumulative_amount = sample_claim.cumulative_amount;
  nonce = sample_claim.nonce;
  token_program = 8;
  provider_token_account = 603;
  settlement_record = 602;
}

mint_must_exist :
    submit_settlement cluster (λ mint. none) (some 77) confirmed request ≡ err (mint_not_found 9)
unfolding submit_settlement
mint_must_exist = refl
