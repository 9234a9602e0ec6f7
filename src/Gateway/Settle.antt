-- ===== src/Gateway/Settle.antt =====
-- The two instructions of a settlement transaction, gateway/src/settle.rs.
pub mod Transaction
pub mod Decoded
use agentpay.Prelude.{ℕ, ◌%◌, ◌∷◌, ◌++◌, length}
use agentpay.Prelude.Bytes.{Bytes, le_bytes}
use agentpay.Program.Runtime.{Instruction}

abbrev pub ed25519_pubkey_offset : ℕ
ed25519_pubkey_offset = 16

abbrev pub ed25519_signature_offset : ℕ
ed25519_signature_offset = 48

abbrev pub ed25519_message_offset : ℕ
ed25519_message_offset = 112

abbrev pub ed25519_self_ref : ℕ
ed25519_self_ref = 65535

-- `message.len() as u16` wraps.
unfoldable pub ed25519_data : ℕ → ℕ → Bytes → Bytes
ed25519_data signer signature message =
    1
    ∷ 0
    ∷ (le_bytes 2 ed25519_signature_offset
        ++ (le_bytes 2 ed25519_self_ref
            ++ (le_bytes 2 ed25519_pubkey_offset
                ++ (le_bytes 2 ed25519_self_ref
                    ++ (le_bytes 2 ed25519_message_offset
                        ++ (le_bytes 2 (length message % 65536)
                            ++ (le_bytes 2 ed25519_self_ref
                                ++ (le_bytes 32 signer ++ (le_bytes 64 signature ++ message)))))))))

unfoldable pub build_ed25519_instruction : ℕ → ℕ → ℕ → Bytes → Instruction
build_ed25519_instruction ed25519_program signer signature message = record {
  program_id = ed25519_program;
  content = ed25519_data signer signature message;
}
