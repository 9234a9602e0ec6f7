-- ===== src/Gateway/Chain/Reconcile.antt =====
-- What a reconciled session is.
use agentpay.Prelude.{
  ℕ, ◌≡◌, ◌↔◌, ◌⊎◌, refl, sym, subst, Bool, true, false, ◌||◌, Option, none, some, arith, ok, ◌>>=◌,
  require, >>=-eq-ok, ◌==◌,
}
use agentpay.Prelude.Int.{eq_of_parts}
use agentpay.Prelude.Bytes.{Bytes}
use agentpay.Gateway.Chain.{
  SessionAccount, ClaimedSession, wrong_program_owner, Fetched, found, unreachable, absent, is_id,
  parse_session, reconcile_account, verify_on_chain_session,
}

-- The account's owner, contents and what they were compared with.
pub record Reconciled (f : Fetched) (program_id : ℕ) (legacy : Option ℕ) (claimed : ClaimedSession)
    (a : SessionAccount) : Type 0 where
  pub account :
      (owner : ℕ) × (bs : Bytes) × (f ≡ found owner bs)
      × ((owner ≡ program_id) ⊎ (legacy ≡ some owner))
      × (parse_session bs ≡ ok a)
  pub unsettled : a.is_settled ≡ false
  pub deposit : a.deposited_total ≡ claimed.deposited_total
  pub agent : a.agent ≡ claimed.agent
  pub provider : a.provider ≡ claimed.provider
  pub mint : a.mint ≡ claimed.mint
  pub expiry : a.expires_at ≡ claimed.expires_at

reconcile_account-eq :
    (a b : SessionAccount) (claimed : ClaimedSession)
    → reconcile_account a claimed ≡ ok b
    → (b ≡ a)
      × (a.is_settled ≡ false)
      × (a.deposited_total ≡ claimed.deposited_total)
      × (a.agent ≡ claimed.agent)
      × (a.provider ≡ claimed.provider)
      × (a.mint ≡ claimed.mint)
      × (a.expires_at ≡ claimed.expires_at)
unfolding reconcile_account
reconcile_account-eq a b claimed h = ground (arith, eq_of_parts a.expires_at claimed.expires_at)

require-eq-ok : {E : Type 0} (b : Bool) (e : E) {t : Unit {0}} → require b e ≡ ok t → b ≡ true
require-eq-ok true e h = refl
require-eq-ok false e h = cc

owner_iff :
    (program_id : ℕ) (legacy : Option ℕ) (owner : ℕ)
    → ((owner == program_id || is_id legacy owner) ≡ true)
      ↔ ((owner ≡ program_id) ⊎ (legacy ≡ some owner))
owner_iff program_id none owner = ground arith
owner_iff program_id (some l) owner = ground arith

sound :
    (f : Fetched) (program_id : ℕ) (legacy : Option ℕ) (claimed : ClaimedSession)
    (a : SessionAccount)
    → verify_on_chain_session f program_id legacy claimed ≡ ok a
    → Reconciled f program_id legacy claimed a
unfolding verify_on_chain_session
sound unreachable program_id legacy claimed a h = absurd (cc)
sound absent program_id legacy claimed a h = absurd (cc)
sound (found owner bs) program_id legacy claimed a h =
    let (x, owned, h1) =
      >>=-eq-ok
        (require (owner == program_id || is_id legacy owner) (wrong_program_owner program_id owner))
        (λ x. parse_session bs >>= λ b. reconcile_account b claimed) h in
    let (b, parsed, h2) = >>=-eq-ok (parse_session bs) (λ b. reconcile_account b claimed) h1 in
    let (same, unsettled, deposit, agent, provider, mint, expiry) =
      reconcile_account-eq b a claimed h2 in
    subst (Reconciled (found owner bs) program_id legacy claimed) (sym same) (record {
      account = (
        owner,
        bs,
        refl,
        (owner_iff program_id legacy owner).0 (require-eq-ok _ _ owned),
        parsed,
      );
      unsettled = unsettled;
      deposit = deposit;
      agent = agent;
      provider = provider;
      mint = mint;
      expiry = expiry;
    })

complete :
    (f : Fetched) (program_id : ℕ) (legacy : Option ℕ) (claimed : ClaimedSession)
    (a : SessionAccount)
    → Reconciled f program_id legacy claimed a
    → verify_on_chain_session f program_id legacy claimed ≡ ok a
unfolding verify_on_chain_session reconcile_account
complete f program_id legacy claimed a r =
    let (owner, bs, fetched, owned, parsed) = r.account in
    subst (λ (x : Fetched). verify_on_chain_session x program_id legacy claimed ≡ ok a)
      (sym fetched) (ground (arith, (owner_iff program_id legacy owner).1 owned, parsed, r))

-- A session reconciles exactly if the chain was read, the account is owned by one of the two
-- programs and parses as an unsettled session, and its deposit, agent, provider, mint and expiry
-- are the asserted ones; the result is then that account.
pub verify_on_chain_session_iff :
    (f : Fetched) (program_id : ℕ) (legacy : Option ℕ) (claimed : ClaimedSession)
    (a : SessionAccount)
    → (verify_on_chain_session f program_id legacy claimed ≡ ok a)
      ↔ Reconciled f program_id legacy claimed a
verify_on_chain_session_iff f program_id legacy claimed a =
    (sound f program_id legacy claimed a, complete f program_id legacy claimed a)
