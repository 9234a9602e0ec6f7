-- ===== src/Gateway/State/Rules.antt =====
-- The ordering rules, `evaluate_claim`: when a claim is accepted, and which rule refuses it.
use agentpay.Prelude.{
  refl, ℕ, Option, none, some, ◌⊎◌, ◌+◌, ◌-◌, ◌≤◌, ◌<◌, ◌≡◌, ◌↔◌, true, false, arith, ok, err,
}
use agentpay.Prelude.Int.{ℤ, pos, ◌+ℤ◌, ltb_ℤ, ◌≤ℤ◌, ◌<ℤ◌}
use agentpay.Prelude.Words.{IsI64}
use agentpay.Gateway.Claim.{Claim}
use agentpay.Gateway.State.{
  SessionRecord, ClaimRejection, ClaimAccepted, session_expired, session_settled, not_monotonic,
  nonce_not_monotonic, exceeds_deposit, session_limit, nonce_exceeds, evaluate_claim, advance,
}

-- No later than 30 seconds after the session's end, as far as an i64 reaches.
abbrev pub InTime : ℤ → ℤ → Type 0
InTime expires_at now =
    (IsI64 (expires_at +ℤ pos 30) × (now ≤ℤ expires_at +ℤ pos 30))
    ⊎ ((¬ IsI64 (expires_at +ℤ pos 30)) × (now ≤ℤ pos 9223372036854775807))

abbrev pub Late : ℤ → ℤ → Type 0
Late expires_at now =
    (IsI64 (expires_at +ℤ pos 30) × (expires_at +ℤ pos 30 <ℤ now))
    ⊎ ((¬ IsI64 (expires_at +ℤ pos 30)) × (pos 9223372036854775807 <ℤ now))

-- The nonce lies above the last one, if there is one.
abbrev pub Fresh : Option ℕ → ℕ → Type 0
Fresh none nonce = Unit {0}
Fresh (some last) nonce = last < nonce

abbrev pub Stale : Option ℕ → ℕ → Type 0
Stale none nonce = ⊥
Stale (some last) nonce = nonce ≤ last

session_limit-InTime :
    (expires_at now : ℤ) → ltb_ℤ (session_limit expires_at) now ≡ false → InTime expires_at now
session_limit-InTime expires_at now h = ground arith

session_limit-Late :
    (expires_at now : ℤ) → ltb_ℤ (session_limit expires_at) now ≡ true → Late expires_at now
session_limit-Late expires_at now h = ground arith

pub InTime-session_limit :
    (expires_at now : ℤ) → InTime expires_at now → ltb_ℤ (session_limit expires_at) now ≡ false
InTime-session_limit expires_at now h = ground arith

Late-session_limit :
    (expires_at now : ℤ) → Late expires_at now → ltb_ℤ (session_limit expires_at) now ≡ true
Late-session_limit expires_at now h = ground arith

nonce_exceeds-Fresh :
    (last : Option ℕ) (nonce : ℕ) → nonce_exceeds last nonce ≡ true → Fresh last nonce
nonce_exceeds-Fresh none nonce h = tt
nonce_exceeds-Fresh (some last) nonce h = ground arith

nonce_exceeds-Stale :
    (last : Option ℕ) (nonce : ℕ) → nonce_exceeds last nonce ≡ false → Stale last nonce
nonce_exceeds-Stale none nonce h = absurd (cc)
nonce_exceeds-Stale (some last) nonce h = ground arith

pub Fresh-nonce_exceeds :
    (last : Option ℕ) (nonce : ℕ) → Fresh last nonce → nonce_exceeds last nonce ≡ true
Fresh-nonce_exceeds none nonce h = refl
Fresh-nonce_exceeds (some last) nonce h = ground arith

Stale-nonce_exceeds :
    (last : Option ℕ) (nonce : ℕ) → Stale last nonce → nonce_exceeds last nonce ≡ false
Stale-nonce_exceeds none nonce h = absurd h
Stale-nonce_exceeds (some last) nonce h = ground arith

-- What it takes for a claim to be admitted.
pub record Admissible (r : SessionRecord) (claim : Claim) (now : ℤ) : Type 0 where
  pub unsettled : r.is_settled ≡ false
  pub in_time : InTime r.expires_at now
  pub grows : r.cumulative_accepted < claim.cumulative_amount
  pub fresh_nonce : Fresh r.last_nonce claim.nonce
  pub bounded : claim.cumulative_amount ≤ r.deposited_total

-- The claim's total, the record's, the difference between the two, and the nonce.
abbrev pub Reports : SessionRecord → Claim → ClaimAccepted → Type 0
Reports r claim a =
    (a.cumulative_amount ≡ claim.cumulative_amount)
    × (a.previous_cumulative ≡ r.cumulative_accepted)
    × (r.cumulative_accepted + a.delta ≡ claim.cumulative_amount)
    × (a.nonce ≡ claim.nonce)

-- The record once a claim is written to it: the claim's total and nonce, and the claim with its
-- signature.
abbrev pub Written : SessionRecord → Claim → ℕ → SessionRecord → Type 0
Written r claim signature r' = r' ≡ record r {
  cumulative_accepted = claim.cumulative_amount;
  last_nonce = some claim.nonce;
  highest_claim = some (record { claim = claim; signature = signature });
}

pub advance-Written :
    (r : SessionRecord) (claim : Claim) (signature : ℕ) (a : ClaimAccepted)
    → Reports r claim a
    → Written r claim signature (advance claim signature a r)
advance-Written r claim signature a (total, previous, growth, nonce) = rw (total, nonce) refl

pub evaluate_claim-Admissible :
    (r : SessionRecord) (claim : Claim) (now : ℤ) (a : ClaimAccepted)
    → evaluate_claim r claim now ≡ ok a
    → Admissible r claim now × Reports r claim a
unfolding evaluate_claim
evaluate_claim-Admissible r claim now a h = ground (
  arith,
  session_limit-InTime r.expires_at now,
  session_limit-Late r.expires_at now,
  nonce_exceeds-Fresh r.last_nonce claim.nonce,
  nonce_exceeds-Stale r.last_nonce claim.nonce,
)

pub Admissible-evaluate_claim :
    (r : SessionRecord) (claim : Claim) (now : ℤ)
    → Admissible r claim now
    → (a : ClaimAccepted) × (evaluate_claim r claim now ≡ ok a)
unfolding evaluate_claim
Admissible-evaluate_claim r claim now h = (
  record {
    cumulative_amount = claim.cumulative_amount;
    previous_cumulative = r.cumulative_accepted;
    delta = claim.cumulative_amount - r.cumulative_accepted;
    nonce = claim.nonce;
  },
  ground (
    arith,
    h.unsettled,
    h.grows,
    h.bounded,
    InTime-session_limit r.expires_at now h.in_time,
    Fresh-nonce_exceeds r.last_nonce claim.nonce h.fresh_nonce,
  ),
)

-- The rule that a refusal names, behind those that are checked before it.
abbrev pub Refuses : ClaimRejection → SessionRecord → Claim → ℤ → Type 0
Refuses session_settled r claim now = r.is_settled ≡ true
Refuses session_expired r claim now = (r.is_settled ≡ false) × Late r.expires_at now
Refuses not_monotonic r claim now =
    (r.is_settled ≡ false)
    × InTime r.expires_at now
    × (claim.cumulative_amount ≤ r.cumulative_accepted)
Refuses nonce_not_monotonic r claim now =
    (r.is_settled ≡ false)
    × InTime r.expires_at now
    × (r.cumulative_accepted < claim.cumulative_amount)
    × Stale r.last_nonce claim.nonce
Refuses exceeds_deposit r claim now =
    (r.is_settled ≡ false)
    × InTime r.expires_at now
    × (r.cumulative_accepted < claim.cumulative_amount)
    × Fresh r.last_nonce claim.nonce
    × (r.deposited_total < claim.cumulative_amount)

refusal_sound :
    (x : ClaimRejection) (r : SessionRecord) (claim : Claim) (now : ℤ)
    → evaluate_claim r claim now ≡ err x
    → Refuses x r claim now
unfolding evaluate_claim
refusal_sound session_settled r claim now h = ground (
  arith,
  session_limit-InTime r.expires_at now,
  session_limit-Late r.expires_at now,
  nonce_exceeds-Fresh r.last_nonce claim.nonce,
  nonce_exceeds-Stale r.last_nonce claim.nonce,
)
refusal_sound session_expired r claim now h = ground (
  arith,
  session_limit-InTime r.expires_at now,
  session_limit-Late r.expires_at now,
  nonce_exceeds-Fresh r.last_nonce claim.nonce,
  nonce_exceeds-Stale r.last_nonce claim.nonce,
)
refusal_sound not_monotonic r claim now h = ground (
  arith,
  session_limit-InTime r.expires_at now,
  session_limit-Late r.expires_at now,
  nonce_exceeds-Fresh r.last_nonce claim.nonce,
  nonce_exceeds-Stale r.last_nonce claim.nonce,
)
refusal_sound nonce_not_monotonic r claim now h = ground (
  arith,
  session_limit-InTime r.expires_at now,
  session_limit-Late r.expires_at now,
  nonce_exceeds-Fresh r.last_nonce claim.nonce,
  nonce_exceeds-Stale r.last_nonce claim.nonce,
)
refusal_sound exceeds_deposit r claim now h = ground (
  arith,
  session_limit-InTime r.expires_at now,
  session_limit-Late r.expires_at now,
  nonce_exceeds-Fresh r.last_nonce claim.nonce,
  nonce_exceeds-Stale r.last_nonce claim.nonce,
)

refusal_complete :
    (x : ClaimRejection) (r : SessionRecord) (claim : Claim) (now : ℤ)
    → Refuses x r claim now
    → evaluate_claim r claim now ≡ err x
unfolding evaluate_claim
refusal_complete session_settled r claim now h = ground (
  arith,
  InTime-session_limit r.expires_at now,
  Late-session_limit r.expires_at now,
  Fresh-nonce_exceeds r.last_nonce claim.nonce,
  Stale-nonce_exceeds r.last_nonce claim.nonce,
)
refusal_complete session_expired r claim now h = ground (
  arith,
  InTime-session_limit r.expires_at now,
  Late-session_limit r.expires_at now,
  Fresh-nonce_exceeds r.last_nonce claim.nonce,
  Stale-nonce_exceeds r.last_nonce claim.nonce,
)
refusal_complete not_monotonic r claim now h = ground (
  arith,
  InTime-session_limit r.expires_at now,
  Late-session_limit r.expires_at now,
  Fresh-nonce_exceeds r.last_nonce claim.nonce,
  Stale-nonce_exceeds r.last_nonce claim.nonce,
)
refusal_complete nonce_not_monotonic r claim now h = ground (
  arith,
  InTime-session_limit r.expires_at now,
  Late-session_limit r.expires_at now,
  Fresh-nonce_exceeds r.last_nonce claim.nonce,
  Stale-nonce_exceeds r.last_nonce claim.nonce,
)
refusal_complete exceeds_deposit r claim now h = ground (
  arith,
  InTime-session_limit r.expires_at now,
  Late-session_limit r.expires_at now,
  Fresh-nonce_exceeds r.last_nonce claim.nonce,
  Stale-nonce_exceeds r.last_nonce claim.nonce,
)

-- A claim is accepted exactly if the session is not settled and not expired, its total lies
-- above the highest accepted one and within the deposit, and its nonce is above the last; what
-- is reported is then the growth over the record. It is refused with a given reason exactly
-- where that rule is broken and the ones checked before it are kept.
pub evaluate_claim_iff :
    (r : SessionRecord) (claim : Claim) (now : ℤ)
    → (((a : ClaimAccepted) × (evaluate_claim r claim now ≡ ok a)) ↔ Admissible r claim now)
      × ((a : ClaimAccepted) → evaluate_claim r claim now ≡ ok a → Reports r claim a)
      × ((x : ClaimRejection) → (evaluate_claim r claim now ≡ err x) ↔ Refuses x r claim now)
evaluate_claim_iff r claim now = (
  (λ h. (evaluate_claim-Admissible r claim now h.0 h.1).0, Admissible-evaluate_claim r claim now),
  λ a h. (evaluate_claim-Admissible r claim now a h).1,
  λ x. (refusal_sound x r claim now, refusal_complete x r claim now),
)
