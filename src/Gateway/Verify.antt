-- ===== src/Gateway/Verify.antt =====
-- Off-chain claim verification, gateway/src/verify.rs. The curve arithmetic is the crate
-- `ed25519_dalek`'s.
use agentpay.Prelude.{ℕ, Bool, true, false, if◌then◌else◌}
use agentpay.Prelude.Bytes.{Bytes}
use agentpay.Gateway.Claim.{Claim, signing_bytes}

pub data SignatureVerdict : Type 0 where
  valid invalid : SignatureVerdict

-- `VerifyingKey::from_bytes(..).is_ok()` and `verify_strict(..).is_ok()`.
pub record Dalek : Type 0 where
  pub is_point : ℕ → Bool
  pub verify_strict : ℕ → Bytes → ℕ → Bool

unfoldable pub verify_claim_signature : Dalek → ℕ → Claim → ℕ → SignatureVerdict
verify_claim_signature d agent claim signature =
    if d.is_point agent
    then (if d.verify_strict agent (signing_bytes claim) signature then valid else invalid)
    else invalid

abbrev pub is_valid : SignatureVerdict → Bool
is_valid valid = true
is_valid invalid = false
