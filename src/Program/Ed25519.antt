-- ===== src/Program/Ed25519.antt =====
-- `verify_ed25519_claim`: the check that the instruction before this one had the Ed25519
-- precompile verify exactly this message under exactly this key.
pub mod Laws
use agentpay.Prelude.{
  ℕ, ◌+◌, ◌-◌, ◌*◌, ◌&&◌, leb, ltb, ◌==◌, length, get_elem?, get_or, Result, ◌>>=◌, ◌>>◌, require,
  ok_or,
}
use agentpay.Prelude.Words.{checked_add}
use agentpay.Prelude.Bytes.{Bytes, bytes_eq, slice, le_bytes}
use agentpay.Program.Types.{
  AgentPayError, missing_ed25519_instruction, malformed_ed25519_instruction,
  ed25519_indirect_reference, claim_signer_mismatch, claim_message_mismatch,
}
use agentpay.Program.Runtime.{Tx}

abbrev pub u16_max : ℕ
u16_max = 65535

-- The closure `read_u16`.
abbrev pub read_u16 : Bytes → ℕ → ℕ
read_u16 d at = get_or d at 0 + 256 * get_or d (at + 1) 0

-- From `let data = &ix.data` on.
unfoldable pub check_ed25519_data : Bytes → ℕ → Bytes → Result AgentPayError (Unit {0})
check_ed25519_data d expected_signer expected_message = do
  require (leb 16 (length d)) malformed_ed25519_instruction
  require (get_or d 0 0 == 1) malformed_ed25519_instruction
  require (get_or d 1 0 == 0) malformed_ed25519_instruction
  let signature_offset = read_u16 d 2
  let public_key_offset = read_u16 d 6
  let message_offset = read_u16 d 10
  let message_size = read_u16 d 12
  require (read_u16 d 4 == u16_max && (read_u16 d 8 == u16_max && read_u16 d 14 == u16_max))
      ed25519_indirect_reference
  require (message_size == length expected_message) claim_message_mismatch
  sig_end ← ok_or (checked_add signature_offset 64) malformed_ed25519_instruction
  key_end ← ok_or (checked_add public_key_offset 32) malformed_ed25519_instruction
  msg_end ← ok_or (checked_add message_offset message_size) malformed_ed25519_instruction
  require (leb sig_end (length d) && (leb key_end (length d) && leb msg_end (length d)))
      malformed_ed25519_instruction
  require
      (bytes_eq (slice d public_key_offset (key_end - public_key_offset))
        (le_bytes 32 expected_signer))
      claim_signer_mismatch
  require (bytes_eq (slice d message_offset (msg_end - message_offset)) expected_message)
      claim_message_mismatch

-- `ed25519` is the precompile's program id.
unfoldable pub verify_ed25519_claim : ℕ → Tx → ℕ → Bytes → Result AgentPayError (Unit {0})
verify_ed25519_claim ed25519 tx expected_signer expected_message = do
  require (ltb 0 tx.current_index) missing_ed25519_instruction
  ix ← ok_or (get_elem? tx.instructions (tx.current_index - 1)) missing_ed25519_instruction
  require (ix.program_id == ed25519) missing_ed25519_instruction
  check_ed25519_data ix.content expected_signer expected_message
