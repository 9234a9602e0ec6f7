-- ===== src/Gateway/Routes/Settlement/Plans.antt =====
-- What a settlement that the gateway reports rests on.
use agentpay.Prelude.{
  ◌+◌, List, ℕ, ◌≡◌, Bool, true, false, ◌||◌, Option, none, some, ◌==◌, Result, ok, err, length,
}
use agentpay.Prelude.Bytes.{Bytes}
use agentpay.Program.Runtime.{update}
use agentpay.Gateway.Chain.{Fetched, found, session_account_len_v2, is_id}
use agentpay.Gateway.Evidence.Merkle.{new_tree, root}
use agentpay.Gateway.State.{SessionRecord, Sessions}
use agentpay.Gateway.State.Histories.{Call, serve_all, charges}
use agentpay.Gateway.Reason.{ReasonCode}
use agentpay.Gateway.Routes.{AppState}
use agentpay.Gateway.Routes.Settlement.{Keys, Evidence, no_store, store, Submission}

-- The key that signs: for a v2 account the gateway's settlement authority, for a v1 account the
-- provider of the session.
abbrev pub Signs : Keys → Bool → ℕ → ℕ → Type 0
Signs keys true provider settler = keys.settlement_authority ≡ some settler
Signs keys false provider settler = (keys.provider_keypair ≡ some settler) × (settler ≡ provider)

-- The root that is committed: the tree's over the stored leaves, or the request's.
abbrev pub Commits : (Bytes → ℕ) → Evidence → ℕ → Type 0
Commits sha256 (no_store given) merkle_root = given ≡ some merkle_root
Commits sha256 (store none) merkle_root = ⊥
Commits sha256 (store (some ls)) merkle_root = merkle_root ≡ root (new_tree sha256 ls)

-- What a submission rests on.
pub record IsPlanned (sha256 : Bytes → ℕ) (state : AppState) (keys : Keys) (evidence : Evidence)
    (session : ℕ) (m : Sessions) (s : Submission) : Type 0 where
  pub r : SessionRecord
  pub fetch : ℕ → Fetched
  pub bs : Bytes
  pub tracked : m session ≡ some r
  pub unsettled : r.is_settled ≡ false
  pub highest : r.highest_claim ≡ some s.highest
  pub fetcher : state.session_fetcher ≡ some fetch
  pub owned : fetch session ≡ found s.program bs
  pub recognised : (s.program == state.program_id || is_id state.legacy_program_id s.program) ≡ true
  pub signer : Signs keys (length bs == session_account_len_v2) r.provider s.settler
  pub same_session : s.session ≡ session
  pub parties : (s.provider ≡ r.provider) × (s.agent ≡ r.agent) × (s.mint ≡ r.mint)
  pub committed : Commits sha256 evidence s.merkle_root

module _ (sha256 : Bytes → ℕ) where
  -- The claim that is submitted is the session's own and carries its whole accepted total.
  abbrev pub Whole : Sessions → ℕ → Submission → Type 0
  Whole m session s =
      (r : SessionRecord) × (m session ≡ some r)
      × (s.highest.claim.session ≡ session)
      × (s.highest.claim.cumulative_amount ≡ r.cumulative_accepted)

  -- How the call ended, and the map after it, where the record was read from `read` and the calls
  -- `later` were served before the end.
  abbrev pub Settles :
      AppState
      → Keys
      → Evidence
      → (Submission → Bool)
      → Option ℕ
      → List Call
      → Sessions
      → Result ReasonCode Submission × Sessions
      → Type 0
  Settles state keys evidence submit session later read (err c, m') = m' ≡ serve_all later read
  Settles state keys evidence submit session later read (ok s, m') =
      (session ≡ some s.session)
      × IsPlanned sha256 state keys evidence s.session read s
      × Whole read s.session s
      × (submit s ≡ true)
      × ((r : SessionRecord) × (serve_all later read s.session ≡ some r)
          × (s.highest.claim.cumulative_amount + charges s.session later read
              ≡ r.cumulative_accepted)
          × (m' ≡ update (serve_all later read) s.session (some (record r { is_settled = true }))))
