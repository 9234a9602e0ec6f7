-- ===== src/Program/Message.antt =====
-- `build_claim_message`: the bytes that the agent signs, as the program builds them.
use agentpay.Prelude.{ℕ, ◌++◌}
use agentpay.Prelude.Int.{ℤ}
use agentpay.Prelude.Bytes.{Bytes, le_bytes, i64_word}
use agentpay.Program.Types.{claim_domain}

unfoldable pub build_claim_message : ℕ → ℕ → ℕ → ℤ → Bytes
build_claim_message session cumulative_amount nonce claim_expires_at =
    claim_domain
    ++ (le_bytes 32 session
        ++ (le_bytes 8 cumulative_amount
            ++ (le_bytes 8 nonce ++ le_bytes 8 (i64_word claim_expires_at))))
