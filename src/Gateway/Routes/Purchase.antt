-- ===== src/Gateway/Routes/Purchase.antt =====
-- `buy` of gateway/src/routes.rs: a claim pays for a resource. The checks read the record at one
-- moment and the claim is admitted at a later one; the calls served in between are an argument.
-- Fetching the goods and metering them are left out: they come after the charge.
-- Of the permission envelope only the answer is kept here; its effects stand in Authority.
use agentpay.Prelude.{
  ℕ, ◌+◌, ◌≡◌, refl, sym, ap, ◌∙◌, subst, true, not, Option, none, some, List, arith, ◌==◌, ==_iff,
  Result, ok, err, ◌>>=◌, ◌>>◌, require, ok_or, map_err, >>=-eq-ok, ok_or-eq-ok, some-eq,
}
use agentpay.Prelude.Int.{ℤ}
use agentpay.Prelude.Bytes.{Bytes}
use agentpay.Prelude.Words.{checked_add}
use agentpay.Program.Runtime.{update}
use agentpay.Gateway.Claim.{Claim, ClaimWire, decode, is_expired}
use agentpay.Gateway.Verify.{verify_claim_signature, is_valid}
use agentpay.Gateway.State.{
  SessionRecord, ClaimAccepted, ClaimRejection, StoreError, Sessions, get, admit_claim,
  evaluate_claim, advance,
}
use agentpay.Gateway.State.Rules.{Written, advance-Written, Admissible, evaluate_claim-Admissible}
use agentpay.Gateway.State.Store.{Admitted, admit_claim_cases}
use agentpay.Gateway.State.Histories.{Call, serve_all, charges, serve_all-Later}
use agentpay.Gateway.Reason.{
  ReasonCode, err_malformed_claim, err_claim_expired, err_invalid_signature,
  err_claim_exceeds_deposit, err_price_mismatch, err_upstream_not_configured, err_unknown_resource,
  err_upstream_unavailable,
}
use agentpay.Gateway.Routes.{AppState, store_denial, admitted}
use agentpay.Gateway.Routes.Authority.{
  Db, AgentIdentity, enforce_agent_policy, Authorised, PolicyWords, enforce_agent_policy-Authorised,
}
use agentpay.Gateway.Routes.Claims.{map_err-eq-ok, require-eq-ok}

pub data UpstreamError : Type 0 where
  not_configured unknown_resource bad_price bad_catalogue unreachable : UpstreamError

abbrev pub upstream_denial : UpstreamError → ReasonCode
upstream_denial not_configured = err_upstream_not_configured
upstream_denial unknown_resource = err_unknown_resource
upstream_denial bad_price = err_upstream_unavailable
upstream_denial bad_catalogue = err_upstream_unavailable
upstream_denial unreachable = err_upstream_unavailable

-- What a request brings: the provider's price for its resource, `none` where no provider is
-- configured, the resource path, the claim of its header, and the answers of the tables.
pub record Request : Type 0 where
  pub price_of : Option (Result UpstreamError ℕ)
  pub resource_path : Bytes
  pub claim : Option (Option ClaimWire)
  pub db : Option Db

pub data Quoted : Type 0 where
  quote : ℕ → Quoted
  present : ℕ → Claim → ℕ → Quoted

-- The price, and the claim if one is brought.
unfoldable pub presented : AppState → Request → ℤ → Result ReasonCode Quoted
presented state req now = do
  upstream ← ok_or req.price_of err_upstream_not_configured
  price ← map_err upstream_denial upstream
  elim req.claim [
    | none ↦ ok (quote price)
    | some raw ↦ ok_or raw err_malformed_claim >>= λ wire.
        map_err (λ e. err_malformed_claim) (decode state.base58 wire) >>= λ decoded.
        ok (present price decoded.0 decoded.1)
  ]

-- The checks of a claim against the record and the price, and the permission envelope.
unfoldable pub checked_purchase :
    AppState → Request → ℕ → Claim → ℕ → ℤ → Sessions → Result ReasonCode AgentIdentity
checked_purchase state req price claim signature now m = do
  require (not (is_expired claim now)) err_claim_expired
  r ← map_err store_denial (get claim.session m)
  require (is_valid (verify_claim_signature state.dalek r.agent claim signature))
      err_invalid_signature
  expected ← ok_or (checked_add r.cumulative_accepted price) err_claim_exceeds_deposit
  require (claim.cumulative_amount == expected) err_price_mismatch
  (enforce_agent_policy state.require_agent_policy req.db req.resource_path price).0

pub data Bought : Type 0 where
  quoted : ℕ → Bought
  charged : ℕ → ClaimAccepted → Bought

abbrev pub charge_for :
    ℕ → Result ReasonCode ClaimAccepted × Sessions → Result ReasonCode Bought × Sessions
charge_for price (ok a, m) = (ok (charged price a), m)
charge_for price (err c, m) = (err c, m)

abbrev pub admit_checked :
    ℕ
    → Claim
    → ℕ
    → ℤ
    → Sessions
    → Result ReasonCode AgentIdentity
    → Result ReasonCode Bought × Sessions
admit_checked price claim signature now m (err c) = (err c, m)
admit_checked price claim signature now m (ok i) =
    charge_for price (admitted m (admit_claim claim signature now m))

abbrev pub buy_presented :
    AppState
    → Request
    → ℤ
    → List Call
    → Sessions
    → Result ReasonCode Quoted
    → Result ReasonCode Bought × Sessions
buy_presented state req now between m (err c) = (err c, serve_all between m)
buy_presented state req now between m (ok (quote price)) = (ok (quoted price), serve_all between m)
buy_presented state req now between m (ok (present price claim signature)) =
    admit_checked price claim signature now (serve_all between m)
      (checked_purchase state req price claim signature now m)

unfoldable pub buy :
    AppState → Request → ℤ → List Call → Sessions → Result ReasonCode Bought × Sessions
buy state req now between m = buy_presented state req now between m (presented state req now)

-- A purchase that went through, and what it was charged.
pub record Purchased (state : AppState) (req : Request) (now : ℤ) (between : List Call)
    (m : Sessions) (price : ℕ) (a : ClaimAccepted) (m' : Sessions) : Type 0 where
  pub claim : Claim
  pub signature : ℕ
  pub seen : SessionRecord
  pub r : SessionRecord
  pub asked : presented state req now ≡ ok (present price claim signature)
  pub read : m claim.session ≡ some seen
  pub signed : is_valid (verify_claim_signature state.dalek seen.agent claim signature) ≡ true
  pub total : claim.cumulative_amount ≡ seen.cumulative_accepted + price
  pub authorised : Authorised state.require_agent_policy req.db req.resource_path price
  pub current : serve_all between m claim.session ≡ some r
  pub admissible : Admissible r claim now
  pub paid : charges claim.session between m + a.delta ≡ price
  pub r' : SessionRecord
  pub written : Written r claim signature r'
  pub advanced : m' ≡ update (serve_all between m) claim.session (some r')

checked_add-eq : (a b : ℕ) {c : ℕ} → checked_add a b ≡ some c → c ≡ a + b
checked_add-eq a b h = ground arith

checked_purchase-eq :
    (state : AppState) (req : Request) (price : ℕ) (claim : Claim) (signature : ℕ) (now : ℤ)
    (m : Sessions) (i : AgentIdentity)
    → PolicyWords req.db
    → checked_purchase state req price claim signature now m ≡ ok i
    → (r : SessionRecord) × (m claim.session ≡ some r)
      × (is_valid (verify_claim_signature state.dalek r.agent claim signature) ≡ true)
      × (claim.cumulative_amount ≡ r.cumulative_accepted + price)
      × Authorised state.require_agent_policy req.db req.resource_path price
unfolding checked_purchase get
checked_purchase-eq state req price claim signature now m i w h =
    let (t, e1, h1) = >>=-eq-ok (require (not (is_expired claim now)) err_claim_expired) _ h in
    let (r, e2, h2) = >>=-eq-ok (map_err store_denial (get claim.session m)) _ h1 in
    let (u, e3, h3) =
      >>=-eq-ok
        (require (is_valid (verify_claim_signature state.dalek r.agent claim signature))
          err_invalid_signature)
        _ h2 in
    let (expected, e4, h4) =
      >>=-eq-ok (ok_or (checked_add r.cumulative_accepted price) err_claim_exceeds_deposit) _ h3 in
    let (v, e5, h5) =
      >>=-eq-ok (require (claim.cumulative_amount == expected) err_price_mismatch) _ h4 in
    (
      r,
      ok_or-eq-ok (m claim.session) _ (map_err-eq-ok store_denial (get claim.session m) e2),
      require-eq-ok _ err_invalid_signature e3,
      (==_iff claim.cumulative_amount expected).0 (require-eq-ok _ err_price_mismatch e5)
          ∙ checked_add-eq r.cumulative_accepted price
              (ok_or-eq-ok (checked_add r.cumulative_accepted price) _ e4),
      enforce_agent_policy-Authorised state.require_agent_policy req.db req.resource_path price i w
          h5,
    )

charged-admitted :
    (price p : ℕ) (a : ClaimAccepted) (m m' : Sessions)
    (out : Result StoreError (Result ClaimRejection ClaimAccepted × Sessions))
    → charge_for price (admitted m out) ≡ (ok (charged p a), m')
    → (out ≡ ok (ok a, m')) × (price ≡ p)
charged-admitted price p a m m' (err e) h = cc
charged-admitted price p a m m' (ok (err x, n)) h = cc
charged-admitted price p a m m' (ok (ok b, n)) h = (cc, cc)

-- The delta is the price less what was charged since the record was read.
delta_lem :
    (claim : Claim) (now : ℤ) (between : List Call) (m : Sessions) (price : ℕ) (a : ClaimAccepted)
    (seen r : SessionRecord)
    → m claim.session ≡ some seen
    → claim.cumulative_amount ≡ seen.cumulative_accepted + price
    → serve_all between m claim.session ≡ some r
    → evaluate_claim r claim now ≡ ok a
    → charges claim.session between m + a.delta ≡ price
delta_lem claim now between m price a seen r at total current accepted =
    let (r', e, later) = serve_all-Later between m claim.session seen at in
    let same : r'.cumulative_accepted ≡ r.cumulative_accepted =
      ap (λ (x : SessionRecord). x.cumulative_accepted) (some-eq (sym e ∙ current)) in
    let (fits, reports) = evaluate_claim-Admissible r claim now a accepted in
    ground (arith, later.mark, same, reports)

charged-presented :
    (state : AppState) (req : Request) (now : ℤ) (between : List Call) (m : Sessions) (price : ℕ)
    (a : ClaimAccepted) (m' : Sessions) (p : ℕ) (claim : Claim) (signature : ℕ)
    (i : Result ReasonCode AgentIdentity)
    → PolicyWords req.db
    → presented state req now ≡ ok (present p claim signature)
    → checked_purchase state req p claim signature now m ≡ i
    → admit_checked p claim signature now (serve_all between m) i ≡ (ok (charged price a), m')
    → Purchased state req now between m price a m'
charged-presented state req now between m price a m' p claim signature (err c) w asked e h =
    absurd (cc)
charged-presented state req now between m price a m' p claim signature (ok i) w asked e h =
    let n = serve_all between m in
    let (seen, at, signed, total, authorised) =
      checked_purchase-eq state req p claim signature now m i w e in
    let (outcome, same) = charged-admitted p price a n m' (admit_claim claim signature now n) h in
    let (r, current, accepted, advanced) =
      subst (Admitted claim signature now n) outcome (admit_claim_cases claim signature now n) in
    let done : Purchased state req now between m p a m' = record {
      claim = claim;
      signature = signature;
      seen = seen;
      r = r;
      asked = asked;
      read = at;
      signed = signed;
      total = total;
      authorised = authorised;
      current = current;
      admissible = (evaluate_claim-Admissible r claim now a accepted).0;
      paid = delta_lem claim now between m p a seen r at total current accepted;
      r' = advance claim signature a r;
      written =
          advance-Written r claim signature a (evaluate_claim-Admissible r claim now a accepted).1;
      advanced = advanced;
    } in
    subst (λ (q : ℕ). Purchased state req now between m q a m') same done

buy_presented-Purchased :
    (state : AppState) (req : Request) (now : ℤ) (between : List Call) (m : Sessions) (price : ℕ)
    (a : ClaimAccepted) (m' : Sessions) (q : Result ReasonCode Quoted)
    → PolicyWords req.db
    → presented state req now ≡ q
    → buy_presented state req now between m q ≡ (ok (charged price a), m')
    → Purchased state req now between m price a m'
buy_presented-Purchased state req now between m price a m' (err c) w asked h = absurd (cc)
buy_presented-Purchased state req now between m price a m' (ok (quote p)) w asked h = absurd (cc)
buy_presented-Purchased state req now between m price a m' (ok (present p claim signature)) w asked
      h =
    charged-presented state req now between m price a m' p claim signature
      (checked_purchase state req p claim signature now m) w asked refl h

-- A purchase that is served was signed by the agent of the session that was read, authorised by
-- the permission envelope, and admissible when it was admitted; it is charged the price less what
-- other calls charged to the session since the record was read, so the whole price if there
-- were none. The totals of the policies are u64s.
pub buy-Purchased :
    (state : AppState) (req : Request) (now : ℤ) (between : List Call) (m : Sessions) (price : ℕ)
    (a : ClaimAccepted) (m' : Sessions)
    → PolicyWords req.db
    → buy state req now between m ≡ (ok (charged price a), m')
    → Purchased state req now between m price a m'
unfolding buy
buy-Purchased state req now between m price a m' w h =
    buy_presented-Purchased state req now between m price a m' (presented state req now) w refl h
