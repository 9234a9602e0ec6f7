-- ===== src/Gateway/Chain/Layouts.antt =====
-- The layouts: what the program writes is what the gateway reads.
use agentpay.Prelude.{ℕ, ◌<◌, ◌^◌, ◌≡◌, refl, ap, ◌∙◌, Bool, true, false, some, [], ◌∷◌, ◌++◌, ok}
use agentpay.Prelude.Words.{IsI64}
use agentpay.Prelude.Bytes.{
  Bytes, le_bytes, from_le, from_le-le_bytes, i64_word, i64_word_bound, word_i64, word_i64-i64_word,
}
use agentpay.Program.Types.{Session}
use agentpay.Gateway.Chain.{SessionAccount, parse_session, session_discriminator}

abbrev pub flag : Bool → ℕ
flag true = 1
flag false = 0

-- The fields of the program's `Session` in their order, as Borsh writes them, behind the
-- discriminator: the 219 bytes of a v2 account.
abbrev pub v2_layout : Session → Bool → Bytes
v2_layout s is_settled =
    session_discriminator
    ++ (le_bytes 32 s.agent
        ++ (le_bytes 32 s.provider
            ++ (le_bytes 32 s.settlement_authority
                ++ (le_bytes 32 s.mint
                    ++ (le_bytes 32 s.vault
                        ++ (le_bytes 8 s.deposited_total
                            ++ (le_bytes 8 s.cumulative_settled
                                ++ (le_bytes 8 s.refunded_total
                                    ++ (le_bytes 8 (i64_word s.expires_at)
                                        ++ (le_bytes 16 s.session_id
                                            ++ (s.bump
                                                ∷ s.vault_bump
                                                ∷ flag is_settled
                                                ∷ [])))))))))))

-- A session as the gateway reads it back, word by word.
abbrev read_back : Session → Bool → SessionAccount
read_back s is_settled = record {
  agent = from_le (le_bytes 32 s.agent);
  provider = from_le (le_bytes 32 s.provider);
  settlement_authority = some (from_le (le_bytes 32 s.settlement_authority));
  mint = from_le (le_bytes 32 s.mint);
  vault = from_le (le_bytes 32 s.vault);
  deposited_total = from_le (le_bytes 8 s.deposited_total);
  cumulative_settled = from_le (le_bytes 8 s.cumulative_settled);
  refunded_total = from_le (le_bytes 8 s.refunded_total);
  expires_at = word_i64 (from_le (le_bytes 8 (i64_word s.expires_at)));
  session_id = from_le (le_bytes 16 s.session_id);
  bump = s.bump;
  vault_bump = s.vault_bump;
  is_settled = is_settled;
}

parse_fields : (s : Session) (b : Bool) → parse_session (v2_layout s b) ≡ ok (read_back s b)
unfolding parse_session le_bytes
parse_fields s true = refl
parse_fields s false = refl

-- The numbers of a session are in the range of their types.
pub record IsSession (s : Session) : Type 0 where
  pub agent : s.agent < 256 ^ 32
  pub provider : s.provider < 256 ^ 32
  pub settlement_authority : s.settlement_authority < 256 ^ 32
  pub mint : s.mint < 256 ^ 32
  pub vault : s.vault < 256 ^ 32
  pub deposited_total : s.deposited_total < 256 ^ 8
  pub cumulative_settled : s.cumulative_settled < 256 ^ 8
  pub refunded_total : s.refunded_total < 256 ^ 8
  pub expires_at : IsI64 s.expires_at
  pub session_id : s.session_id < 256 ^ 16

-- What the gateway holds of a session of the program.
abbrev pub account_of : Session → SessionAccount
account_of s = record {
  agent = s.agent;
  provider = s.provider;
  settlement_authority = some s.settlement_authority;
  mint = s.mint;
  vault = s.vault;
  deposited_total = s.deposited_total;
  cumulative_settled = s.cumulative_settled;
  refunded_total = s.refunded_total;
  expires_at = s.expires_at;
  session_id = s.session_id;
  bump = s.bump;
  vault_bump = s.vault_bump;
  is_settled = s.is_settled;
}

read_back_lem : (s : Session) → IsSession s → read_back s s.is_settled ≡ account_of s
read_back_lem s w = cc (
  from_le-le_bytes 32 s.agent w.agent,
  from_le-le_bytes 32 s.provider w.provider,
  from_le-le_bytes 32 s.settlement_authority w.settlement_authority,
  from_le-le_bytes 32 s.mint w.mint,
  from_le-le_bytes 32 s.vault w.vault,
  from_le-le_bytes 8 s.deposited_total w.deposited_total,
  from_le-le_bytes 8 s.cumulative_settled w.cumulative_settled,
  from_le-le_bytes 8 s.refunded_total w.refunded_total,
  from_le-le_bytes 8 (i64_word s.expires_at) (i64_word_bound s.expires_at w.expires_at),
  word_i64-i64_word s.expires_at w.expires_at,
  from_le-le_bytes 16 s.session_id w.session_id,
)

-- The bytes of a program session whose numbers are in range parse as exactly that session, its
-- settlement authority among them.
pub parse_session-v2_layout :
    (s : Session) → IsSession s → parse_session (v2_layout s s.is_settled) ≡ ok (account_of s)
parse_session-v2_layout s w =
    parse_fields s s.is_settled ∙ ap (λ (a : SessionAccount). ok a) (read_back_lem s w)
