-- ===== src/Gateway/Tests/Tracker.antt =====
-- Tests of the claim rules, the store and the parity of the two sides.
use agentpay.Prelude.{
  ℕ, ◌≡◌, ◌↔◌, refl, sym, subst, inl, inr, true, some, none-ne-some, List, [], ◌∷◌, arith, ok, err,
}
use agentpay.Prelude.Int.{pos, ◌+ℤ◌}
use agentpay.Prelude.Bytes.{Bytes}
use agentpay.Program.Runtime.{update, update_cases, Instruction, Tx}
use agentpay.Program.Message.{build_claim_message}
use agentpay.Gateway.Claim.{signing_bytes}
use agentpay.Gateway.Settle.{build_ed25519_instruction}
use agentpay.Gateway.Parity.{signing_bytes-build_claim_message}
use agentpay.Gateway.State.{
  SessionRecord, ClaimAccepted, ClaimRejection, empty, evaluate_claim, admit_claim, advance,
}
use agentpay.Gateway.State.Rules.{Admissible, Reports, Refuses, evaluate_claim_iff}
use agentpay.Gateway.State.Store.{AllTracked, IsTracked}
use agentpay.Gateway.State.Histories.{
  Call, admits, settles, serve_all, charges, Later, serve_all-Later, no_replay,
}
use agentpay.Gateway.Tests.{sample_record, sample_claim, sample_accepted, sample_store}

evaluate_claim_iff_example :
    (((a : ClaimAccepted) × (evaluate_claim sample_record sample_claim (pos 500) ≡ ok a))
      ↔ Admissible sample_record sample_claim (pos 500))
    × ((a : ClaimAccepted)
        → evaluate_claim sample_record sample_claim (pos 500) ≡ ok a
        → Reports sample_record sample_claim a)
    × ((x : ClaimRejection)
        → (evaluate_claim sample_record sample_claim (pos 500) ≡ err x)
          ↔ Refuses x sample_record sample_claim (pos 500))
evaluate_claim_iff_example = evaluate_claim_iff sample_record sample_claim (pos 500)

pub sample_admitted :
    admit_claim sample_claim 99 (pos 500) sample_store
    ≡ ok (
      ok sample_accepted,
      update sample_store 7 (some (advance sample_claim 99 sample_accepted sample_record)),
    )
unfolding admit_claim evaluate_claim ◌+ℤ◌
sample_admitted = refl

pub sample_store-AllTracked : AllTracked sample_store
sample_store-AllTracked k r h = elim (update_cases empty 7 sample_record k h) [
  | inl (at, same) ↦
      subst (λ (i : ℕ). IsTracked i r) (sym at)
        (subst (λ (x : SessionRecord). IsTracked 7 x) same
          (record { own_key = refl; within_deposit = omega arith; retains = refl }))
  | inr e ↦ absurd (none-ne-some e)
]

abbrev sample_calls : List Call
sample_calls = admits sample_claim 99 (pos 500) ∷ settles 7 ∷ []

serve_all-Later_example :
    (r' : SessionRecord) × (serve_all sample_calls sample_store 7 ≡ some r')
    × Later (charges 7 sample_calls sample_store) sample_record r'
serve_all-Later_example = serve_all-Later sample_calls sample_store 7 sample_record refl

no_replay_example :
    (x : ClaimRejection) × (admit_claim sample_claim 98 (pos 600) (
        serve_all sample_calls
          (update sample_store 7 (some (advance sample_claim 99 sample_accepted sample_record))))
      ≡ ok (
        err x,
        serve_all sample_calls
            (update sample_store 7 (some (advance sample_claim 99 sample_accepted sample_record))),
      ))
no_replay_example =
    no_replay sample_claim 99 98 (pos 500) (pos 600) sample_calls sample_store sample_accepted
      (update sample_store 7 (some (advance sample_claim 99 sample_accepted sample_record)))
      sample_admitted

signing_bytes-build_claim_message_example :
    signing_bytes sample_claim ≡ build_claim_message 7 40 1 (pos 900)
signing_bytes-build_claim_message_example = signing_bytes-build_claim_message sample_claim

abbrev settle_instruction : Instruction
settle_instruction = record { program_id = 1; content = [] }

abbrev sample_message : Bytes
sample_message = 1 ∷ 2 ∷ 3 ∷ []

abbrev sample_tx : Tx
sample_tx = record {
  now = pos 500;
  signers = λ k. true;
  instructions = build_ed25519_instruction 3 11 99 sample_message ∷ settle_instruction ∷ [];
  current_index = 1;
}
