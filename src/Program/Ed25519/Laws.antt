-- ===== src/Program/Ed25519/Laws.antt =====
-- What the introspection of the Ed25519 instruction accepts, exactly.
use agentpay.Prelude.{
  ℕ, ◌+◌, ◌-◌, ◌≤◌, ◌≡◌, ap, ◌∙◌, subst, arith, length, get_or, get_elem?, some, ok, >>=-eq-ok,
  ok_or-eq-ok, ◌==◌, ltb, require, ok_or,
}
use agentpay.Prelude.Words.{u64_max}
use agentpay.Prelude.Bytes.{Bytes, bytes_eq_sound, bytes_eq_refl, slice, le_bytes}
use agentpay.Program.Types.{missing_ed25519_instruction}
use agentpay.Program.Runtime.{Instruction, Tx}
use agentpay.Program.Ed25519.{u16_max, read_u16, check_ed25519_data, verify_ed25519_claim}

-- One signature; key, signature and message lie in the instruction's own bytes, and the key and
-- the message are the expected ones.
pub record Attests (d : Bytes) (signer : ℕ) (message : Bytes) : Type 0 where
  pub header : 16 ≤ length d
  pub one_signature : get_or d 0 0 ≡ 1
  pub padding : get_or d 1 0 ≡ 0
  pub own_signature : read_u16 d 4 ≡ u16_max
  pub own_key : read_u16 d 8 ≡ u16_max
  pub own_message : read_u16 d 14 ≡ u16_max
  pub message_size : read_u16 d 12 ≡ length message
  pub signature_inside : read_u16 d 2 + 64 ≤ length d
  pub key_inside : read_u16 d 6 + 32 ≤ length d
  pub message_inside : read_u16 d 10 + length message ≤ length d
  pub key_bytes : slice d (read_u16 d 6) 32 ≡ le_bytes 32 signer
  pub message_bytes : slice d (read_u16 d 10) (length message) ≡ message

pub check_ed25519_data-Attests :
    (d : Bytes) (signer : ℕ) (message : Bytes)
    → check_ed25519_data d signer message ≡ ok tt
    → Attests d signer message
unfolding check_ed25519_data
check_ed25519_data-Attests d signer message h = ground (
  arith,
  bytes_eq_sound (slice d (read_u16 d 6) (read_u16 d 6 + 32 - read_u16 d 6)) (le_bytes 32 signer),
  bytes_eq_sound (slice d (read_u16 d 10) (read_u16 d 10 + read_u16 d 12 - read_u16 d 10)) message,
)

pub Attests-check_ed25519_data :
    (d : Bytes) (signer : ℕ) (message : Bytes)
    → length d ≤ u64_max
    → Attests d signer message
    → check_ed25519_data d signer message ≡ ok tt
unfolding check_ed25519_data
Attests-check_ed25519_data d signer message fits h =
    ground (arith, bytes_eq_refl (le_bytes 32 signer), bytes_eq_refl message)

-- The precompile's guarantee, as Solana documents it: a transaction runs only if in each of its Ed25519
-- instructions that names one signature of its own bytes the signature at that offset signs the message for the key.
abbrev pub Precompile : (Bytes → Bytes → Bytes → Type 0) → ℕ → Tx → Type 0
Precompile Signs ed25519 tx =
    (i : ℕ) (ix : Instruction)
    → get_elem? tx.instructions i ≡ some ix
    → ix.program_id ≡ ed25519
    → get_or ix.content 0 0 ≡ 1
    → read_u16 ix.content 4 ≡ u16_max
    → read_u16 ix.content 8 ≡ u16_max
    → read_u16 ix.content 14 ≡ u16_max
    → Signs (slice ix.content (read_u16 ix.content 6) 32)
        (slice ix.content (read_u16 ix.content 10) (read_u16 ix.content 12))
        (slice ix.content (read_u16 ix.content 2) 64)

-- In a transaction that satisfies the precompile's guarantee a check that passes means that
-- some signature signs exactly the expected message for exactly the expected key.
pub verify_ed25519_claim_sound :
    (Signs : Bytes → Bytes → Bytes → Type 0) (ed25519 : ℕ) (tx : Tx) (signer : ℕ) (message : Bytes)
    → Precompile Signs ed25519 tx
    → verify_ed25519_claim ed25519 tx signer message ≡ ok tt
    → (signature : Bytes) × Signs (le_bytes 32 signer) message signature
unfolding verify_ed25519_claim
verify_ed25519_claim_sound Signs ed25519 tx signer message precompile h =
    let (u, _, h1) = >>=-eq-ok (require (ltb 0 tx.current_index) missing_ed25519_instruction) _ h in
    let (ix, hi, h2) =
      >>=-eq-ok
        (ok_or (get_elem? tx.instructions (tx.current_index - 1)) missing_ed25519_instruction) _
        h1 in
    let (u', hp, h3) =
      >>=-eq-ok (require (ix.program_id == ed25519) missing_ed25519_instruction) _ h2 in
    let ok_data = check_ed25519_data-Attests ix.content signer message h3 in
    let signs =
      precompile (tx.current_index - 1) ix (ok_or-eq-ok _ _ hi) (ground arith) ok_data.one_signature
        ok_data.own_signature ok_data.own_key ok_data.own_message in
    (
      slice ix.content (read_u16 ix.content 2) 64,
      subst
          (λ (m : Bytes).
            Signs (le_bytes 32 signer) m (slice ix.content (read_u16 ix.content 2) 64))
          (ap (λ (n : ℕ). slice ix.content (read_u16 ix.content 10) n) ok_data.message_size
            ∙ ok_data.message_bytes)
          (subst
            (λ (k : Bytes).
              Signs k (slice ix.content (read_u16 ix.content 10) (read_u16 ix.content 12))
                (slice ix.content (read_u16 ix.content 2) 64))
            ok_data.key_bytes signs),
    )
