-- ===== src/Gateway/State/Histories.antt =====
-- Histories of the store: any interleaving of the calls of any number of requests is a list of
-- calls, since each runs under the store's lock.
use agentpay.Prelude.{
  ℕ, ◌+◌, ◌≤◌, ◌≡◌, sym, ap, ◌∙◌, subst, inl, inr, Bool, true, false, some, some-eq, none-ne-some,
  arith, Result, ok, err, Option-cases, Result-cases, List, [], ◌∷◌, ◌==◌, ==_iff, Bool-cases,
  if◌then◌else◌,
}
use agentpay.Prelude.Int.{ℤ}
use agentpay.Program.Runtime.{update, update_self}
use agentpay.Gateway.Claim.{Claim}
use agentpay.Gateway.State.{
  SessionRecord, ClaimRejection, ClaimAccepted, StoreError, Sessions, evaluate_claim, advance,
  open_record, admit_claim, mark_settled, mark_chain_verified,
}
use agentpay.Gateway.State.Rules.{evaluate_claim-Admissible}
use agentpay.Gateway.State.Store.{Admitted, admit_claim_cases, admit_refused}

pub data Call : Type 0 where
  opens : SessionRecord → Call
  admits : Claim → ℕ → ℤ → Call
  settles : ℕ → Call
  verifies : ℕ → Call

-- The map after an operation that can fail.
abbrev pub kept : Sessions → Result StoreError Sessions → Sessions
kept m (ok m') = m'
kept m (err e) = m

abbrev pub kept_admit :
    Sessions → Result StoreError (Result ClaimRejection ClaimAccepted × Sessions) → Sessions
kept_admit m (ok (x, m')) = m'
kept_admit m (err e) = m

unfoldable pub serve : Call → Sessions → Sessions
serve (opens r) m = kept m (open_record r m)
serve (admits claim signature now) m = kept_admit m (admit_claim claim signature now m)
serve (settles k) m = kept m (mark_settled k m)
serve (verifies k) m = kept m (mark_chain_verified k m)

unfoldable pub serve_all : List Call → Sessions → Sessions
serve_all [] m = m
serve_all (c ∷ cs) m = serve_all cs (serve c m)

-- What an outcome charges.
abbrev pub delta_of : Result StoreError (Result ClaimRejection ClaimAccepted × Sessions) → ℕ
delta_of (ok (ok a, m')) = a.delta
delta_of (ok (err x, m')) = 0
delta_of (err e) = 0

-- What a call charges to session `k`.
unfoldable pub charge : ℕ → Call → Sessions → ℕ
charge k (admits claim signature now) m =
    if k == claim.session then delta_of (admit_claim claim signature now m) else 0
charge k (opens r) m = 0
charge k (settles j) m = 0
charge k (verifies j) m = 0

unfoldable pub charges : ℕ → List Call → Sessions → ℕ
charges k [] m = 0
charges k (c ∷ cs) m = charge k c m + charges k cs (serve c m)

-- `r'` is `r` after `paid` more has been charged.
pub record Later (paid : ℕ) (r r' : SessionRecord) : Type 0 where
  pub agent : r'.agent ≡ r.agent
  pub provider : r'.provider ≡ r.provider
  pub mint : r'.mint ≡ r.mint
  pub deposited_total : r'.deposited_total ≡ r.deposited_total
  pub expires_at : r'.expires_at ≡ r.expires_at
  pub mark : r.cumulative_accepted + paid ≡ r'.cumulative_accepted
  pub bounded :
      r.cumulative_accepted ≤ r.deposited_total → r'.cumulative_accepted ≤ r'.deposited_total
  pub settled_stays : r.is_settled ≡ true → (r'.is_settled ≡ true) × (paid ≡ 0)
  pub verified_stays : r.chain_verified ≡ true → r'.chain_verified ≡ true

Later-refl : (r : SessionRecord) → Later 0 r r
Later-refl r = ground arith

Later-trans : (p q : ℕ) (r s t : SessionRecord) → Later p r s → Later q s t → Later (p + q) r t
Later-trans p q r s t h k = ground arith

advance-Later :
    (claim : Claim) (signature : ℕ) (now : ℤ) (r : SessionRecord) (a : ClaimAccepted)
    → evaluate_claim r claim now ≡ ok a
    → Later a.delta r (advance claim signature a r)
advance-Later claim signature now r a h = ground (arith, evaluate_claim-Admissible r claim now a h)

-- The record under `k` in a map where `s'` replaced the record `s` under `j`.
update-Later :
    (m : Sessions) (j k paid : ℕ) (s s' r : SessionRecord)
    → m j ≡ some s
    → m k ≡ some r
    → Later paid s s'
    → (r' : SessionRecord) × (update m j (some s') k ≡ some r')
      × Later (if k == j then paid else 0) r r'
update-Later m j k paid s s' r f e h = elim (Bool-cases (k == j)) [
  | inl same ↦
      let at_j : m j ≡ some r = ap m (sym ((==_iff k j).0 same)) ∙ e in
      (
        s',
        rw same,
        subst (λ (b : Bool). Later (if b then paid else 0) r s') (sym same)
            (subst (λ (x : SessionRecord). Later paid x s') (some-eq (sym f ∙ at_j)) h),
      )
  | inr other ↦ (
    r,
    rw other e,
    subst (λ (b : Bool). Later (if b then paid else 0) r r) (sym other) (Later-refl r),
  )
]

unchanged-Later :
    (m : Sessions) (k : ℕ) (r : SessionRecord) (b : Bool)
    → m k ≡ some r
    → (r' : SessionRecord) × (m k ≡ some r') × Later (if b then 0 else 0) r r'
unchanged-Later m k r true e = (r, e, Later-refl r)
unchanged-Later m k r false e = (r, e, Later-refl r)

opens-Later :
    (s : SessionRecord) (m : Sessions) (k : ℕ) (r : SessionRecord)
    → m k ≡ some r
    → serve (opens s) m k ≡ some r
unfolding serve open_record
opens-Later s m k r e = elim (Option-cases (m s.session)) [
  | inl absent ↦
      rw (absent, open_record)
        elim (Bool-cases (k == s.session)) [
          | inl same ↦
              absurd (none-ne-some (sym absent ∙ ap m (sym ((==_iff k s.session).0 same)) ∙ e))
          | inr other ↦ rw other e
        ]
  | inr (t, present) ↦ rw (present, open_record) e
]

admits-Later :
    (claim : Claim) (signature : ℕ) (now : ℤ) (m : Sessions) (k : ℕ) (r : SessionRecord)
    → m k ≡ some r
    → (out : Result StoreError (Result ClaimRejection ClaimAccepted × Sessions))
    → Admitted claim signature now m out
    → (r' : SessionRecord) × (kept_admit m out k ≡ some r')
      × Later (if k == claim.session then delta_of out else 0) r r'
admits-Later claim signature now m k r e (err x) h = unchanged-Later m k r (k == claim.session) e
admits-Later claim signature now m k r e (ok (err x, m')) (s, f, h, same) =
    let (r', g, l) = unchanged-Later m k r (k == claim.session) e in
    (r', ap (λ (n : Sessions). n k) same ∙ g, l)
admits-Later claim signature now m k r e (ok (ok a, m')) (s, f, h, same) =
    let (r', g, l) =
      update-Later m claim.session k a.delta s (advance claim signature a s) r f e
        (advance-Later claim signature now s a h) in
    (r', ap (λ (n : Sessions). n k) same ∙ g, l)

mark_settled-Later : (s : SessionRecord) → Later 0 s (record s { is_settled = true })
mark_settled-Later s = ground arith

mark_chain_verified-Later : (s : SessionRecord) → Later 0 s (record s { chain_verified = true })
mark_chain_verified-Later s = ground arith

no_charge : (b : Bool) (r r' : SessionRecord) → Later (if b then 0 else 0) r r' → Later 0 r r'
no_charge true r r' l = l
no_charge false r r' l = l

settles-Later :
    (j : ℕ) (m : Sessions) (k : ℕ) (r : SessionRecord)
    → m k ≡ some r
    → (r' : SessionRecord) × (serve (settles j) m k ≡ some r') × Later 0 r r'
unfolding serve mark_settled
settles-Later j m k r e = elim (Option-cases (m j)) [
  | inl absent ↦ (r, rw (absent, mark_settled) e, Later-refl r)
  | inr (s, present) ↦
      let (r', g, l) =
        update-Later m j k 0 s (record s { is_settled = true }) r present e
          (mark_settled-Later s) in
      (r', rw (present, mark_settled) g, no_charge (k == j) r r' l)
]

verifies-Later :
    (j : ℕ) (m : Sessions) (k : ℕ) (r : SessionRecord)
    → m k ≡ some r
    → (r' : SessionRecord) × (serve (verifies j) m k ≡ some r') × Later 0 r r'
unfolding serve mark_chain_verified
verifies-Later j m k r e = elim (Option-cases (m j)) [
  | inl absent ↦ (r, rw (absent, mark_chain_verified) e, Later-refl r)
  | inr (s, present) ↦
      let (r', g, l) =
        update-Later m j k 0 s (record s { chain_verified = true }) r present e
          (mark_chain_verified-Later s) in
      (r', rw (present, mark_chain_verified) g, no_charge (k == j) r r' l)
]

pub serve-Later :
    (c : Call) (m : Sessions) (k : ℕ) (r : SessionRecord)
    → m k ≡ some r
    → (r' : SessionRecord) × (serve c m k ≡ some r') × Later (charge k c m) r r'
unfolding serve charge
serve-Later (opens s) m k r e = (r, opens-Later s m k r e, Later-refl r)
serve-Later (admits claim signature now) m k r e =
    admits-Later claim signature now m k r e (admit_claim claim signature now m)
      (admit_claim_cases claim signature now m)
serve-Later (settles j) m k r e = settles-Later j m k r e
serve-Later (verifies j) m k r e = verifies-Later j m k r e

-- However the calls of any number of requests interleave, the record of a tracked session stays,
-- its parties, deposit and expiry do not change, its accepted total grows by exactly the sum of
-- the deltas that accepted claims reported, it stays within the deposit if it was, once marked
-- settled the record stays so and nothing more is charged, and once verified it stays so.
pub serve_all-Later :
    (cs : List Call) (m : Sessions) (k : ℕ) (r : SessionRecord)
    → m k ≡ some r
    → (r' : SessionRecord) × (serve_all cs m k ≡ some r') × Later (charges k cs m) r r'
unfolding serve_all charges
serve_all-Later [] m k r e = (r, e, Later-refl r)
serve_all-Later (c ∷ cs) m k r e =
    let (s, f, l) = serve-Later c m k r e in
    let (t, g, n) = serve_all-Later cs (serve c m) k s f in
    (t, g, Later-trans (charge k c m) (charges k cs (serve c m)) r s t l n)

-- A claim that was accepted once is refused ever after, whatever calls came between.
pub no_replay :
    (claim : Claim) (s1 s2 : ℕ) (t1 t2 : ℤ) (cs : List Call) (m : Sessions) (a : ClaimAccepted)
    (m1 : Sessions)
    → admit_claim claim s1 t1 m ≡ ok (ok a, m1)
    → (x : ClaimRejection) × (admit_claim claim s2 t2 (serve_all cs m1)
        ≡ ok (err x, serve_all cs m1))
no_replay claim s1 s2 t1 t2 cs m a m1 h =
    let (r, e, accepted, same) =
      subst (Admitted claim s1 t1 m) h (admit_claim_cases claim s1 t1 m) in
    let marked : m1 claim.session ≡ some (advance claim s1 a r) =
      ap (λ (n : Sessions). n claim.session) same
      ∙ update_self m claim.session (some (advance claim s1 a r)) in
    let (r', f, l) = serve_all-Later cs m1 claim.session (advance claim s1 a r) marked in
    elim (Result-cases (evaluate_claim r' claim t2)) [
      | inl (b, again) ↦ absurd (
          ground (
            arith,
            evaluate_claim-Admissible r claim t1 a accepted,
            evaluate_claim-Admissible r' claim t2 b again,
            l.mark,
          ))
      | inr (x, refused) ↦ (x, admit_refused claim s2 t2 (serve_all cs m1) r' x f refused)
    ]
