-- ===== src/Gateway/Routes/Claims.antt =====
-- `verify_claim` of gateway/src/routes.rs: what makes the gateway answer ALLOW.
use agentpay.Prelude.{
  ℕ, ◌≡◌, refl, sym, ◌∙◌, subst, Bool, true, false, not, some, arith, Result, ok, err, ◌>>=◌, ◌>>◌,
  require, map_err, >>=-eq-ok, ok_or-eq-ok, ok-injective, some-eq,
}
use agentpay.Prelude.Int.{ℤ}
use agentpay.Gateway.Claim.{Claim, ClaimWire, decode, is_expired, signing_bytes}
use agentpay.Gateway.Verify.{verify_claim_signature, is_valid, Dalek}
use agentpay.Gateway.State.{
  SessionRecord, ClaimAccepted, ClaimRejection, StoreError, Sessions, get, admit_claim, advance,
}
use agentpay.Gateway.State.Rules.{
  Written, advance-Written, Admissible, Reports, evaluate_claim-Admissible,
}
use agentpay.Gateway.State.Store.{Admitted, admit_claim_cases}
use agentpay.Gateway.Reason.{
  ReasonCode, err_malformed_claim, err_claim_expired, err_invalid_signature,
}
use agentpay.Gateway.Routes.{AppState, store_denial, admitted}
use agentpay.Program.Runtime.{update}

-- Steps 1 to 4, which only read: the claim, its signature and the session's record.
unfoldable pub checked_claim :
    AppState → ClaimWire → ℤ → Sessions → Result ReasonCode (Claim × ℕ × SessionRecord)
checked_claim state wire now m = do
  decoded ← map_err (λ e. err_malformed_claim) (decode state.base58 wire)
  require (not (is_expired decoded.0 now)) err_claim_expired
  r ← map_err store_denial (get decoded.0.session m)
  require (is_valid (verify_claim_signature state.dalek r.agent decoded.0 decoded.1))
      err_invalid_signature
  ok (decoded.0, decoded.1, r)

abbrev pub then_admit :
    ℤ
    → Sessions
    → Result ReasonCode (Claim × ℕ × SessionRecord)
    → Result ReasonCode ClaimAccepted × Sessions
then_admit now m (err c) = (err c, m)
then_admit now m (ok (claim, signature, r)) = admitted m (admit_claim claim signature now m)

unfoldable pub verify_claim :
    AppState → ClaimWire → ℤ → Sessions → Result ReasonCode ClaimAccepted × Sessions
verify_claim state wire now m = then_admit now m (checked_claim state wire now m)

pub map_err-eq-ok :
    {D E A : Type 0} (f : D → E) (r : Result D A) {a : A} → map_err f r ≡ ok a → r ≡ ok a
map_err-eq-ok f (ok b) h = cc
map_err-eq-ok f (err e) h = cc

-- A claim that passed the reading steps.
pub record IsChecked (state : AppState) (wire : ClaimWire) (now : ℤ) (m : Sessions) (claim : Claim)
    (signature : ℕ) (r : SessionRecord) : Type 0 where
  pub decoded : decode state.base58 wire ≡ ok (claim, signature)
  pub in_time : is_expired claim now ≡ false
  pub tracked : m claim.session ≡ some r
  pub point : state.dalek.is_point r.agent ≡ true
  pub signed : state.dalek.verify_strict r.agent (signing_bytes claim) signature ≡ true

signature_iff :
    (d : Dalek) (agent : ℕ) (claim : Claim) (signature : ℕ)
    → is_valid (verify_claim_signature d agent claim signature) ≡ true
    → (d.is_point agent ≡ true) × (d.verify_strict agent (signing_bytes claim) signature ≡ true)
unfolding verify_claim_signature
signature_iff d agent claim signature h = ground arith

pub require-eq-ok : {E : Type 0} (b : Bool) (e : E) {t : Unit {0}} → require b e ≡ ok t → b ≡ true
require-eq-ok true e h = refl
require-eq-ok false e h = cc

not-eq-true : (b : Bool) → not b ≡ true → b ≡ false
not-eq-true true h = cc
not-eq-true false h = refl

checked_claim-IsChecked :
    (state : AppState) (wire : ClaimWire) (now : ℤ) (m : Sessions) (claim : Claim) (signature : ℕ)
    (r : SessionRecord)
    → checked_claim state wire now m ≡ ok (claim, signature, r)
    → IsChecked state wire now m claim signature r
unfolding checked_claim get
checked_claim-IsChecked state wire now m claim signature r h =
    let (d, e1, h1) =
      >>=-eq-ok (map_err (λ e. err_malformed_claim) (decode state.base58 wire)) _ h in
    let (t, e2, h2) = >>=-eq-ok (require (not (is_expired d.0 now)) err_claim_expired) _ h1 in
    let (s, e3, h3) = >>=-eq-ok (map_err store_denial (get d.0.session m)) _ h2 in
    let (u, e4, h4) =
      >>=-eq-ok
        (require (is_valid (verify_claim_signature state.dalek s.agent d.0 d.1))
          err_invalid_signature)
        _ h3 in
    let same = ok-injective h4 in
    let valid =
      signature_iff state.dalek s.agent d.0 d.1 (require-eq-ok _ err_invalid_signature e4) in
    let fact : IsChecked state wire now m d.0 d.1 s = record {
      decoded = map_err-eq-ok (λ e. err_malformed_claim) (decode state.base58 wire) e1;
      in_time = not-eq-true (is_expired d.0 now) (require-eq-ok _ err_claim_expired e2);
      tracked = ok_or-eq-ok (m d.0.session) _ (map_err-eq-ok store_denial (get d.0.session m) e3);
      point = valid.0;
      signed = valid.1;
    } in
    subst (λ (x : Claim × ℕ × SessionRecord). IsChecked state wire now m x.0 x.1 x.2) same fact

-- What an ALLOW rests on, and the map after it.
pub record Allowed (state : AppState) (wire : ClaimWire) (now : ℤ) (m : Sessions)
    (a : ClaimAccepted) (m' : Sessions) : Type 0 where
  pub claim : Claim
  pub signature : ℕ
  pub r : SessionRecord
  pub checked : IsChecked state wire now m claim signature r
  pub admissible : Admissible r claim now
  pub reports : Reports r claim a
  pub r' : SessionRecord
  pub written : Written r claim signature r'
  pub advanced : m' ≡ update m claim.session (some r')

abbrev pub Served :
    AppState → ClaimWire → ℤ → Sessions → Result ReasonCode ClaimAccepted × Sessions → Type 0
Served state wire now m (err c, m') = m' ≡ m
Served state wire now m (ok a, m') = Allowed state wire now m a m'

admitted-Served :
    (state : AppState) (wire : ClaimWire) (now : ℤ) (m : Sessions) (claim : Claim) (signature : ℕ)
    (r : SessionRecord) (out : Result StoreError (Result ClaimRejection ClaimAccepted × Sessions))
    → IsChecked state wire now m claim signature r
    → Admitted claim signature now m out
    → Served state wire now m (admitted m out)
admitted-Served state wire now m claim signature r (err e) c h = refl
admitted-Served state wire now m claim signature r (ok (err x, m')) c (s, at, refused, same) = same
admitted-Served state wire now m claim signature r (ok (ok a, m')) c (s, at, accepted, same) =
    let one : r ≡ s = some-eq (sym c.tracked ∙ at) in
    let (fits, reports) = evaluate_claim-Admissible s claim now a accepted in
    record {
      claim = claim;
      signature = signature;
      r = s;
      checked = subst (IsChecked state wire now m claim signature) one c;
      admissible = fits;
      reports = reports;
      r' = advance claim signature a s;
      written = advance-Written s claim signature a reports;
      advanced = same;
    }

then_admit-Served :
    (state : AppState) (wire : ClaimWire) (now : ℤ) (m : Sessions)
    (x : Result ReasonCode (Claim × ℕ × SessionRecord))
    → checked_claim state wire now m ≡ x
    → Served state wire now m (then_admit now m x)
then_admit-Served state wire now m (err c) h = refl
then_admit-Served state wire now m (ok (claim, signature, r)) h =
    admitted-Served state wire now m claim signature r (admit_claim claim signature now m)
      (checked_claim-IsChecked state wire now m claim signature r h)
      (admit_claim_cases claim signature now m)

-- A claim is answered ALLOW only if it decodes, has not expired, is signed over its own bytes by the
-- agent of the tracked session's record, and is admissible against that record, whose total, last
-- nonce and retained claim it then replaces; after a denial the map is what it was.
pub verify_claim-Served :
    (state : AppState) (wire : ClaimWire) (now : ℤ) (m : Sessions)
    → Served state wire now m (verify_claim state wire now m)
unfolding verify_claim
verify_claim-Served state wire now m =
    then_admit-Served state wire now m (checked_claim state wire now m) refl
