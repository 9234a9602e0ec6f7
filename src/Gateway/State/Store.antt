-- ===== src/Gateway/State/Store.antt =====
-- The in-memory store under its operations: the tracked records stay well formed, and a refused
-- or failed operation changes nothing.
use agentpay.Prelude.{
  ℕ, ◌≤◌, ◌≡◌, refl, sym, subst, inl, inr, Option, none, some, arith, Result, ok, err, Option-cases,
  Result-cases,
}
use agentpay.Prelude.Int.{ℤ}
use agentpay.Program.Runtime.{update, update_cases}
use agentpay.Gateway.Claim.{Claim}
use agentpay.Gateway.State.{
  SessionRecord, SignedClaim, ClaimRejection, ClaimAccepted, StoreError, unknown, Sessions,
  evaluate_claim, advance, admit_claim,
}
use agentpay.Gateway.State.Rules.{evaluate_claim-Admissible}

-- The retained claim is the one that set the mark.
abbrev pub Retains : ℕ → ℕ → Option ℕ → Option SignedClaim → Type 0
Retains k cumulative none none = cumulative ≡ 0
Retains k cumulative none (some c) = ⊥
Retains k cumulative (some n) none = ⊥
Retains k cumulative (some n) (some c) =
    (c.claim.session ≡ k) × (c.claim.cumulative_amount ≡ cumulative) × (c.claim.nonce ≡ n)

-- A record tracked under `k`.
pub record IsTracked (k : ℕ) (r : SessionRecord) : Type 0 where
  pub own_key : r.session ≡ k
  pub within_deposit : r.cumulative_accepted ≤ r.deposited_total
  pub retains : Retains k r.cumulative_accepted r.last_nonce r.highest_claim

abbrev pub AllTracked : Sessions → Type 0
AllTracked m = (k : ℕ) (r : SessionRecord) → m k ≡ some r → IsTracked k r

-- How the call ended, and the map after it.
abbrev pub Admitted :
    Claim
    → ℕ
    → ℤ
    → Sessions
    → Result StoreError (Result ClaimRejection ClaimAccepted × Sessions)
    → Type 0
Admitted claim signature now m (err e) = (e ≡ unknown) × (m claim.session ≡ none)
Admitted claim signature now m (ok (err x, m')) =
    (r : SessionRecord) × (m claim.session ≡ some r)
    × (evaluate_claim r claim now ≡ err x)
    × (m' ≡ m)
Admitted claim signature now m (ok (ok a, m')) =
    (r : SessionRecord) × (m claim.session ≡ some r)
    × (evaluate_claim r claim now ≡ ok a)
    × (m' ≡ update m claim.session (some (advance claim signature a r)))

pub admit_unknown :
    (claim : Claim) (signature : ℕ) (now : ℤ) (m : Sessions)
    → m claim.session ≡ none
    → admit_claim claim signature now m ≡ err unknown
unfolding admit_claim
admit_unknown claim signature now m e = rw (e, admit_claim)

pub admit_refused :
    (claim : Claim) (signature : ℕ) (now : ℤ) (m : Sessions) (r : SessionRecord)
    (x : ClaimRejection)
    → m claim.session ≡ some r
    → evaluate_claim r claim now ≡ err x
    → admit_claim claim signature now m ≡ ok (err x, m)
unfolding admit_claim
admit_refused claim signature now m r x e h = rw (e, admit_claim, h)

pub admit_accepted :
    (claim : Claim) (signature : ℕ) (now : ℤ) (m : Sessions) (r : SessionRecord) (a : ClaimAccepted)
    → m claim.session ≡ some r
    → evaluate_claim r claim now ≡ ok a
    → admit_claim claim signature now m
      ≡ ok (ok a, update m claim.session (some (advance claim signature a r)))
unfolding admit_claim
admit_accepted claim signature now m r a e h = rw (e, admit_claim, h)

-- An unknown session is an error and a broken rule a refusal, and neither changes the map; an
-- accepted claim changes its own session's record only.
pub admit_claim_cases :
    (claim : Claim) (signature : ℕ) (now : ℤ) (m : Sessions)
    → Admitted claim signature now m (admit_claim claim signature now m)
admit_claim_cases claim signature now m = elim (Option-cases (m claim.session)) [
  | inl e ↦
      subst (Admitted claim signature now m) (sym (admit_unknown claim signature now m e)) (refl, e)
  | inr (r, e) ↦ elim (Result-cases (evaluate_claim r claim now)) [
    | inl (a, h) ↦
        subst (Admitted claim signature now m) (sym (admit_accepted claim signature now m r a e h))
          (r, e, h, refl)
    | inr (x, h) ↦
        subst (Admitted claim signature now m) (sym (admit_refused claim signature now m r x e h))
          (r, e, h, refl)
  ]
]

advance-IsTracked :
    (claim : Claim) (signature : ℕ) (now : ℤ) (a : ClaimAccepted) (r : SessionRecord)
    → IsTracked claim.session r
    → evaluate_claim r claim now ≡ ok a
    → IsTracked claim.session (advance claim signature a r)
advance-IsTracked claim signature now a r t h =
    ground (arith, evaluate_claim-Admissible r claim now a h)

update-AllTracked :
    (m : Sessions) (k : ℕ) (r : SessionRecord)
    → AllTracked m
    → IsTracked k r
    → AllTracked (update m k (some r))
update-AllTracked m k r all t j s h = elim (update_cases m k r j h) [
  | inl (same, e) ↦
      subst (λ (i : ℕ). IsTracked i s) (sym same) (subst (λ (x : SessionRecord). IsTracked k x) e t)
  | inr e ↦ all j s e
]

-- A refused or failed claim leaves every record as it was; after an accepted one, as before, each
-- tracked record stands under its own key with its accepted total within its deposit, and keeps
-- the very claim, of its own session, that set that total and the last nonce.
pub admit_claim-AllTracked :
    (claim : Claim) (signature : ℕ) (now : ℤ) (m : Sessions)
    (out : Result ClaimRejection ClaimAccepted) (m' : Sessions)
    → AllTracked m
    → admit_claim claim signature now m ≡ ok (out, m')
    → AllTracked m'
admit_claim-AllTracked claim signature now m (err x) m' all h =
    let (r, e, refused, same) =
      subst (Admitted claim signature now m) h (admit_claim_cases claim signature now m) in
    subst AllTracked (sym same) all
admit_claim-AllTracked claim signature now m (ok a) m' all h =
    let (r, e, accepted, same) =
      subst (Admitted claim signature now m) h (admit_claim_cases claim signature now m) in
    subst AllTracked (sym same) (
      update-AllTracked m claim.session (advance claim signature a r) all
        (advance-IsTracked claim signature now a r (all claim.session r e) accepted))
