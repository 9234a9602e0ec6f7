-- ===== src/Gateway/Tests/Endless.antt =====
-- A test of a claim whose expiry overflows.
use agentpay.Prelude.{◌≡◌, ◌≢◌, refl, true, false, some, none, inl, ok, arith, replicate, ◌==◌}
use agentpay.Prelude.Int.{pos, ◌+ℤ◌}
use agentpay.Prelude.Bytes.{codes, from_le}
use agentpay.Program.Types.{Session}
use agentpay.Program.Runtime.{update}
use agentpay.Program.Guards.{SkewFits}
use agentpay.Program.Settle.{SettleArgs, settle_checks}
use agentpay.Gateway.Claim.{Claim, ClaimWire, decode, parse_u64}
use agentpay.Gateway.Verify.{verify_claim_signature, is_valid}
use agentpay.Gateway.State.{advance}
use agentpay.Gateway.State.Rules.{Admissible}
use agentpay.Gateway.Routes.{AppState}
use agentpay.Gateway.Routes.Claims.{verify_claim}
use agentpay.Gateway.Parity.{accepted_by, overflowing_expiry_diverges}
use agentpay.Gateway.Tests.{sample_record, sample_store}

abbrev app : AppState
app = record {
  base58 = record { parse_pubkey = parse_u64; decode = λ t. some t };
  dalek = record { is_point = λ k. true; verify_strict = λ k m s. s == 0 };
  program_id = 1;
  legacy_program_id = none;
  session_fetcher = none;
  require_agent_policy = true;
}

abbrev wire : ClaimWire
wire = record {
  session = codes "7";
  cumulative_amount = codes "40";
  nonce = codes "1";
  expires_at = codes "9223372036854775807";
  signature = replicate 64 0;
}

abbrev endless_claim : Claim
endless_claim = record {
  session = 7;
  cumulative_amount = 40;
  nonce = 1;
  expires_at = pos 9223372036854775807;
}

abbrev endless_args : SettleArgs
endless_args = record {
  cumulative_amount = 40;
  nonce = 1;
  claim_expires_at = pos 9223372036854775807;
  merkle_root = 0;
}

abbrev sample_session : Session
sample_session = record {
  agent = 11;
  provider = 12;
  settlement_authority = 14;
  mint = 13;
  vault = 15;
  deposited_total = 100;
  cumulative_settled = 0;
  refunded_total = 0;
  expires_at = pos 1000;
  session_id = 1;
  bump = 255;
  vault_bump = 254;
  is_settled = false;
}

endless_wide : ¬ (SkewFits (pos 9223372036854775807))
unfolding ◌+ℤ◌
endless_wide h = omega arith

endless_decodes : decode app.base58 wire ≡ ok (endless_claim, 0)
unfolding decode from_le
endless_decodes = refl

endless_signed : is_valid (verify_claim_signature app.dalek 11 endless_claim 0) ≡ true
unfolding verify_claim_signature
endless_signed = refl

endless_claim-Admissible : Admissible sample_record endless_claim (pos 500)
unfolding ◌+ℤ◌
endless_claim-Admissible = record {
  unsettled = refl;
  in_time = inl (omega arith, omega arith);
  grows = omega arith;
  fresh_nonce = tt;
  bounded = omega arith;
}

overflowing_expiry_diverges_example :
    (verify_claim app wire (pos 500) sample_store ≡ (
      ok (accepted_by sample_record endless_claim),
      update sample_store 7
          (some (advance endless_claim 0 (accepted_by sample_record endless_claim) sample_record)),
    ))
    × (settle_checks endless_args 12 (pos 600) sample_session ≢ ok tt)
overflowing_expiry_diverges_example =
    overflowing_expiry_diverges app wire (pos 500) sample_store endless_claim 0 sample_record
      endless_args 12 (pos 600) sample_session endless_wide refl endless_decodes refl endless_signed
      endless_claim-Admissible
