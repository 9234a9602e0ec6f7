-- ===== src/Program/Consent.antt =====
-- A settlement carries out what the agent signed, and nothing else.
use agentpay.Prelude.{ℕ, ◌^◌, ◌<◌, ◌≡◌, refl, some, arith, ok, length, sym, ◌∙◌}
use agentpay.Prelude.Int.{ℤ}
use agentpay.Prelude.Words.{IsI64}
use agentpay.Prelude.Bytes.{
  Bytes, le_bytes, length-le_bytes, le_bytes-injective, append-injective, i64_word,
  i64_word-injective,
}
use agentpay.Program.Types.{Session, SessionSettled, claim_domain}
use agentpay.Program.Runtime.{Runtime, Tx, World}
use agentpay.Program.Message.{build_claim_message}
use agentpay.Program.Ed25519.Laws.{Precompile, verify_ed25519_claim_sound}
use agentpay.Program.Settle.{SettleAccounts, SettleArgs, settle_session, claim_message}
use agentpay.Program.Outcome.{settle_session_parts, settle_validate_exact}

i64_word-lt : (z : ℤ) → IsI64 z → i64_word z < 256 ^ 8
i64_word-lt z h = ground arith

same_width : (w a b : ℕ) → length (le_bytes w a) ≡ length (le_bytes w b)
same_width w a b = length-le_bytes w a ∙ sym (length-le_bytes w b)

-- No two claims have the same signed bytes: sessions of 32 bytes, u64 amounts and nonces and
-- i64 expiries that are built into one message are equal.
pub build_claim_message-injective :
    (s s' c c' n n' : ℕ) (e e' : ℤ)
    → (s < 256 ^ 32) × (s' < 256 ^ 32)
    → (c < 256 ^ 8) × (c' < 256 ^ 8)
    → (n < 256 ^ 8) × (n' < 256 ^ 8)
    → IsI64 e × IsI64 e'
    → build_claim_message s c n e ≡ build_claim_message s' c' n' e'
    → (s ≡ s') × (c ≡ c') × (n ≡ n') × (e ≡ e')
unfolding build_claim_message
build_claim_message-injective s s' c c' n n' e e' hs hc hn he eq =
    let (_, q1) = append-injective claim_domain claim_domain _ _ refl eq in
    let (ps, q2) = append-injective (le_bytes 32 s) (le_bytes 32 s') _ _ (same_width 32 s s') q1 in
    let (pc, q3) = append-injective (le_bytes 8 c) (le_bytes 8 c') _ _ (same_width 8 c c') q2 in
    let (pn, pe) = append-injective (le_bytes 8 n) (le_bytes 8 n') _ _ (same_width 8 n n') q3 in
    (
      le_bytes-injective 32 s s' hs.0 hs.1 ps,
      le_bytes-injective 8 c c' hc.0 hc.1 pc,
      le_bytes-injective 8 n n' hn.0 hn.1 pn,
      i64_word-injective e e' he.0 he.1 (
          le_bytes-injective 8 (i64_word e) (i64_word e') (i64_word-lt e he.0) (i64_word-lt e' he.1)
            pe),
    )

module _ (rt : Runtime) where
  -- If the precompile keeps its guarantee, a settlement that succeeds is backed by a signature
  -- of the session's recorded agent over exactly the message of this session, cumulative
  -- amount, nonce and claim expiry.
  pub settle_needs_agent_signature :
      (Signs : Bytes → Bytes → Bytes → Type 0) (a : SettleAccounts) (args : SettleArgs) (tx : Tx)
      (w : World rt) (r : World rt × SessionSettled)
      → Precompile Signs rt.ed25519_program tx
      → settle_session rt a args tx w ≡ ok r
      → (s : Session) × (signature : Bytes) × (w.sessions a.session ≡ some s)
        × Signs
            (le_bytes 32 s.agent)
            (build_claim_message a.session args.cumulative_amount args.nonce args.claim_expires_at)
            signature
  settle_needs_agent_signature Signs a args tx w r precompile e =
      let (v, _, _, _, hv, _, he, _, _, _, _) = settle_session_parts rt a args tx w r e in
      let (signature, signs) =
        verify_ed25519_claim_sound Signs rt.ed25519_program tx v.session.agent
          (claim_message rt a args) precompile he in
      (v.session, signature, (settle_validate_exact rt a tx w v hv).1, signs)
