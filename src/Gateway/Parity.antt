-- ===== src/Gateway/Parity.antt =====
-- The gateway and the program agree on what a claim is.
use agentpay.Prelude.{
  ◌-◌, true, some, ℕ, ◌≡◌, ◌≢◌, ◌<◌, ◌↔◌, ◌+◌, subst, false, refl, ok, arith, length, take_all,
  ==_refl, [], ◌∷◌,
}
use agentpay.Program.Message.{build_claim_message}
use agentpay.Gateway.Claim.{Claim, signing_bytes, is_expired, clock_skew_tolerance_secs}
use agentpay.Gateway.Claim.{ClaimWire, decode}
use agentpay.Gateway.Verify.{verify_claim_signature, is_valid}
use agentpay.Gateway.State.{
  SessionRecord, ClaimAccepted, Sessions, get, evaluate_claim, admit_claim, advance,
}
use agentpay.Gateway.State.Rules.{Admissible, InTime-session_limit, Fresh-nonce_exceeds}
use agentpay.Gateway.Routes.{AppState}
use agentpay.Gateway.Routes.Claims.{checked_claim, verify_claim}
use agentpay.Prelude.Int.{ℤ, ◌+ℤ◌, ◌≤ℤ◌}
use agentpay.Program.Types.{Session}
use agentpay.Program.Settle.{SettleArgs, settle_checks}
use agentpay.Program.Guards.{SkewFits, settle_checks_iff}
use agentpay.Prelude.Bytes.{le_bytes, Bytes}
use agentpay.Program.Runtime.{Instruction, Tx, update}
use agentpay.Program.Ed25519.{verify_ed25519_claim}
use agentpay.Program.Ed25519.Laws.{Attests, Attests-check_ed25519_data}
use agentpay.Gateway.Settle.{ed25519_data, build_ed25519_instruction}

-- The bytes that the gateway verifies a signature over are, for every claim, those that the program
-- rebuilds from the instruction's arguments.
pub signing_bytes-build_claim_message :
    (c : Claim)
    → signing_bytes c ≡ build_claim_message c.session c.cumulative_amount c.nonce c.expires_at
unfolding signing_bytes build_claim_message le_bytes
signing_bytes-build_claim_message c = refl

length-ed25519_data :
    (signer signature : ℕ) (message : Bytes)
    → length (ed25519_data signer signature message) ≡ 112 + length message
unfolding ed25519_data le_bytes
length-ed25519_data signer signature message = omega arith

ed25519_data-Attests :
    (signer signature : ℕ) (message : Bytes)
    → length message < 65536
    → Attests (ed25519_data signer signature message) signer message
unfolding ed25519_data le_bytes
ed25519_data-Attests signer signature message h = record {
  header = omega arith;
  one_signature = refl;
  padding = refl;
  own_signature = refl;
  own_key = refl;
  own_message = refl;
  message_size = omega arith;
  signature_inside = omega arith;
  key_inside = omega arith;
  message_inside = omega arith;
  key_bytes = refl;
  message_bytes = take_all message (length message) refl;
}

-- The instruction that the gateway builds for a key, a signature and a message of less than
-- 64 KiB passes the program's check for that key and message, when it stands right
-- before the settlement in the transaction.
pub built_instruction_verifies :
    (ed25519 signer signature : ℕ) (message : Bytes) (settle : Instruction) (tx : Tx)
    → length message < 65536
    → tx.instructions ≡ build_ed25519_instruction ed25519 signer signature message ∷ settle ∷ []
    → tx.current_index ≡ 1
    → verify_ed25519_claim ed25519 tx signer message ≡ ok tt
unfolding verify_ed25519_claim build_ed25519_instruction
built_instruction_verifies ed25519 signer signature message settle tx h instructions index =
    rw (instructions, index, ==_refl ed25519)
      (Attests-check_ed25519_data (ed25519_data signer signature message) signer message
        (omega (arith, length-ed25519_data signer signature message))
        (ed25519_data-Attests signer signature message h))

-- Where extending the claim's expiry by the skew fits an i64, the gateway and the program expire a
-- claim at the same moment.
pub is_expired_iff :
    (c : Claim) (now : ℤ)
    → SkewFits c.expires_at
    → (is_expired c now ≡ false) ↔ (now ≤ℤ c.expires_at +ℤ clock_skew_tolerance_secs)
unfolding is_expired
is_expired_iff c now fits = (λ h. ground arith, λ h. ground arith)

is_expired_never : (c : Claim) (now : ℤ) → ¬ (SkewFits c.expires_at) → is_expired c now ≡ false
unfolding is_expired
is_expired_never c now wide = ground arith

abbrev pub accepted_by : SessionRecord → Claim → ClaimAccepted
accepted_by r c = record {
  cumulative_amount = c.cumulative_amount;
  previous_cumulative = r.cumulative_accepted;
  delta = c.cumulative_amount - r.cumulative_accepted;
  nonce = c.nonce;
}

admits_whole :
    (r : SessionRecord) (c : Claim) (now : ℤ)
    → Admissible r c now
    → evaluate_claim r c now ≡ ok (accepted_by r c)
unfolding evaluate_claim
admits_whole r c now h = ground (
  arith,
  h.unsettled,
  h.grows,
  h.bounded,
  InTime-session_limit r.expires_at now h.in_time,
  Fresh-nonce_exceeds r.last_nonce c.nonce h.fresh_nonce,
)

-- If a claim decodes, is signed by the agent of its tracked session and is admissible against the
-- record, but its expiry leaves the range of an i64 when the skew is added, then the gateway answers
-- ALLOW and records it, while the program's checks refuse to settle it at every time and for every
-- settler, whatever the state of the session on chain.
pub overflowing_expiry_diverges :
    (state : AppState) (wire : ClaimWire) (now : ℤ) (m : Sessions) (c : Claim) (signature : ℕ)
    (r : SessionRecord) (args : SettleArgs) (settler : ℕ) (at : ℤ) (s : Session)
    → ¬ (SkewFits c.expires_at)
    → args.claim_expires_at ≡ c.expires_at
    → decode state.base58 wire ≡ ok (c, signature)
    → m c.session ≡ some r
    → is_valid (verify_claim_signature state.dalek r.agent c signature) ≡ true
    → Admissible r c now
    → (verify_claim state wire now m ≡ (
      ok (accepted_by r c),
      update m c.session (some (advance c signature (accepted_by r c) r)),
    ))
      × (settle_checks args settler at s ≢ ok tt)
unfolding verify_claim checked_claim get admit_claim
overflowing_expiry_diverges state wire now m c signature r args settler at s wide same read tracked
      valid h =
    (
      rw
          (
            read,
            is_expired_never c now wide,
            tracked,
            valid,
            admit_claim,
            tracked,
            admits_whole r c now h,
          )
          refl,
      λ e. wide (subst SkewFits same ((settle_checks_iff args settler at s).0 e).2),
    )
