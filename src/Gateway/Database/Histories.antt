-- ===== src/Gateway/Database/Histories.antt =====
-- Any interleaving of calls on the database store, as a run of the in-memory store in which a call
-- may also be denied: the database store refines `SessionStore`.
use agentpay.Prelude.{
  ℕ, ◌≡◌, ◌⊎◌, inl, inr, refl, Bool, true, Option, none, some, List, [], ◌∷◌, Result, ok, err,
  Option-cases, Result-cases,
}
use agentpay.Prelude.Int.{ℤ}
use agentpay.Prelude.Bytes.{Bytes}
use agentpay.Program.Runtime.{update}
use agentpay.Gateway.Claim.{Claim}
use agentpay.Gateway.State.{
  SessionRecord, Sessions, ClaimRejection, ClaimAccepted, StoreError, unavailable, open_record,
  admit_claim, mark_settled, mark_chain_verified, evaluate_claim,
}
use agentpay.Gateway.State.Histories.{Call, opens, admits, settles, verifies}
use agentpay.Gateway.State.Store.{admit_unknown, admit_refused, admit_accepted}
use agentpay.Gateway.Keyed.{find}
use agentpay.Gateway.Database.{
  Tables, store_open, store_admit_claim, store_mark_settled, store_mark_chain_verified, settle_row,
  verify_row,
}
use agentpay.Gateway.Database.Represents.{Represents, row_found, row_missing}
use agentpay.Gateway.Database.Refines.{
  IsNew, open_missing, open_found, settled_cases, verified_cases, opened-Represents,
  set_row-Represents, set_row_missing, settled_row, verified_row,
}
use agentpay.Gateway.Database.Claims.{after_claim, admit_claim-Judged}

-- What the caller is told.
pub data Answer : Type 0 where
  done : Answer
  judged : Result ClaimRejection ClaimAccepted → Answer
  failed : StoreError → Answer

abbrev pub mark_reply {ℓ} : {S : Type ℓ} → S → Result StoreError S → Answer × S
mark_reply s (ok s') = (done, s')
mark_reply s (err e) = (failed e, s)

abbrev pub claim_reply {ℓ} :
    {S : Type ℓ} → S → Result StoreError (Result ClaimRejection ClaimAccepted × S) → Answer × S
claim_reply s (ok (out, s')) = (judged out, s')
claim_reply s (err e) = (failed e, s)

-- A call on the in-memory store: the answer and the map.
unfoldable pub ask_store : Call → Sessions → Answer × Sessions
ask_store (opens r) m = mark_reply m (open_record r m)
ask_store (admits claim signature now) m = claim_reply m (admit_claim claim signature now m)
ask_store (settles k) m = mark_reply m (mark_settled k m)
ask_store (verifies k) m = mark_reply m (mark_chain_verified k m)

-- A call, the queries that fail under it, and the database's clock.
pub record Request : Type 0 where
  pub call : Call
  pub fails : ℕ → Bool
  pub clock : ℤ

-- What a call may do to the map: nothing, and the caller is denied; what the in-memory store does;
-- or, where a session that is not tracked is mark_reply settled, nothing.
abbrev pub Permitted : Call → Sessions → Answer → Sessions → Type 0
Permitted c m a m' =
    ((a ≡ failed unavailable) × (m' ≡ m))
    ⊎ (ask_store c m ≡ (a, m'))
    ⊎ ((k : ℕ) × (c ≡ settles k) × (m k ≡ none) × (a ≡ done) × (m' ≡ m))

abbrev pub Follows : List Request → Sessions → List Answer → Sessions → Type 0
Follows [] m [] m' = m' ≡ m
Follows [] m (a ∷ answers) m' = ⊥
Follows (q ∷ qs) m [] m' = ⊥
Follows (q ∷ qs) m (a ∷ answers) m' =
    (s : Sessions) × Permitted q.call m a s × Follows qs s answers m'

-- Records are opened as the handler builds them.
abbrev pub OpensNew : Call → Type 0
OpensNew (opens r) = IsNew r
OpensNew (admits claim signature now) = Unit {0}
OpensNew (settles k) = Unit {0}
OpensNew (verifies k) = Unit {0}

abbrev pub AllOpenNew : List Request → Type 0
AllOpenNew [] = Unit {0}
AllOpenNew (q ∷ qs) = OpensNew q.call × AllOpenNew qs

module _ (to_base58 : ℕ → Bytes) (parse_base58 : Bytes → Option ℕ) (sha256 : Bytes → ℕ) where
  unfoldable pub ask_database : (ℕ → Bool) → ℤ → Call → Tables → Answer × Tables
  ask_database fails clock (opens r) t = mark_reply t (store_open to_base58 fails r t)
  ask_database fails clock (admits claim signature now) t =
      claim_reply t (store_admit_claim to_base58 parse_base58 sha256 fails claim signature now t)
  ask_database fails clock (settles k) t =
      mark_reply t (store_mark_settled to_base58 fails k clock t)
  ask_database fails clock (verifies k) t =
      mark_reply t (store_mark_chain_verified to_base58 fails k t)

  unfoldable pub run_database : List Request → Tables → List Answer × Tables
  run_database [] t = ([], t)
  run_database (q ∷ qs) t =
      let (a, t') = ask_database q.fails q.clock q.call t in
      let (answers, t'') = run_database qs t' in (a ∷ answers, t'')

module _ (to_base58 : ℕ → Bytes) (parse_base58 : Bytes → Option ℕ) (sha256 : Bytes → ℕ)
    (roundtrip : (k : ℕ) → parse_base58 (to_base58 k) ≡ some k) (t : Tables) (m : Sessions)
    (rep : Represents to_base58 parse_base58 t m) where
  -- The call's answer and tables, as a step of the map.
  abbrev pub Refined : Call → Answer × Tables → Type 0
  Refined c (a, t') = (m' : Sessions) × Permitted c m a m' × Represents to_base58 parse_base58 t' m'

  denied : (c : Call) → Refined c (failed unavailable, t)
  denied c = (m, inl (refl, refl), rep)

  opens-Refined :
      (fails : ℕ → Bool) (r : SessionRecord)
      → IsNew r
      → Refined (opens r) (mark_reply t (store_open to_base58 fails r t))
  unfolding ask_store open_record
  opens-Refined fails r new = elim (Option-cases (find (to_base58 r.session) t.sessions)) [
    | inl e ↦
        let absent = (row_missing to_base58 parse_base58 roundtrip t m r.session rep e).0 in
        elim (open_missing to_base58 fails r t e) [
          | inl u ↦ rw u (denied (opens r))
          | inr o ↦ rw o (
            update m r.session (some r),
            inr (inl (rw (absent, open_record) refl)),
            opened-Represents to_base58 parse_base58 roundtrip t m r rep new e,
          )
        ]
    | inr (row, e) ↦
        let (s, present, h) = row_found to_base58 parse_base58 roundtrip t m r.session row rep e in
        elim (open_found to_base58 fails r t row e) [
          | inl u ↦ rw u (denied (opens r))
          | inr o ↦ rw o (m, inr (inl (rw (present, open_record) refl)), rep)
        ]
  ]

  settles-Refined :
      (fails : ℕ → Bool) (k : ℕ) (now : ℤ)
      → Refined (settles k) (mark_reply t (store_mark_settled to_base58 fails k now t))
  unfolding ask_store mark_settled
  settles-Refined fails k now = elim (settled_cases to_base58 fails k now t) [
    | inl u ↦ rw u (denied (settles k))
    | inr o ↦ rw o (elim (Option-cases (find (to_base58 k) t.sessions)) [
      | inl e ↦ (
        m,
        inr (
            inr
              (k, refl, (row_missing to_base58 parse_base58 roundtrip t m k rep e).0, refl, refl)),
        set_row_missing to_base58 parse_base58 roundtrip t m k (settle_row now) rep e,
      )
      | inr (row, e) ↦
          let (r, present, h) = row_found to_base58 parse_base58 roundtrip t m k row rep e in
          (
            update m k (some (record r { is_settled = true })),
            inr (inl (rw (present, mark_settled) refl)),
            set_row-Represents to_base58 parse_base58 roundtrip t m k (settle_row now) row
                (record r { is_settled = true }) rep e
                (settled_row to_base58 parse_base58 roundtrip k now row
                  (find (to_base58 k) t.claim_tickets) r h),
          )
    ])
  ]

  verifies-Refined :
      (fails : ℕ → Bool) (k : ℕ)
      → Refined (verifies k) (mark_reply t (store_mark_chain_verified to_base58 fails k t))
  unfolding ask_store mark_chain_verified
  verifies-Refined fails k = elim (verified_cases to_base58 fails k t) [
    | inl u ↦ rw u (denied (verifies k))
    | inr (inl (e, o)) ↦
        let absent = (row_missing to_base58 parse_base58 roundtrip t m k rep e).0 in
        rw o (m, inr (inl (rw (absent, mark_chain_verified) refl)), rep)
    | inr (inr (row, e, o)) ↦
        let (r, present, h) = row_found to_base58 parse_base58 roundtrip t m k row rep e in
        rw o (
          update m k (some (record r { chain_verified = true })),
          inr (inl (rw (present, mark_chain_verified) refl)),
          set_row-Represents to_base58 parse_base58 roundtrip t m k verify_row row
              (record r { chain_verified = true }) rep e
              (verified_row to_base58 parse_base58 roundtrip k row
                (find (to_base58 k) t.claim_tickets) r h),
        )
  ]

  asked :
      (claim : Claim) (signature : ℕ) (now : ℤ) (r : SessionRecord)
      → m claim.session ≡ some r
      → ask_store (admits claim signature now) m ≡ (
        judged (evaluate_claim r claim now),
        after_claim claim signature r m (evaluate_claim r claim now),
      )
  unfolding ask_store
  asked claim signature now r present = elim (Result-cases (evaluate_claim r claim now)) [
    | inl (a, h) ↦ rw (h, admit_accepted claim signature now m r a present h) refl
    | inr (x, h) ↦ rw (h, admit_refused claim signature now m r x present h) refl
  ]

  admits-Refined :
      (fails : ℕ → Bool) (claim : Claim) (signature : ℕ) (now : ℤ)
      → Refined (admits claim signature now) (
          claim_reply t
            (store_admit_claim to_base58 parse_base58 sha256 fails claim signature now t))
  unfolding ask_store
  admits-Refined fails claim signature now =
      elim (admit_claim-Judged to_base58 parse_base58 roundtrip sha256 fails claim signature now t m
        rep) [
          | inl (absent, inl u) ↦ rw u (denied (admits claim signature now))
          | inl (absent, inr o) ↦
              rw o (m, inr (inl (rw (admit_unknown claim signature now m absent) refl)), rep)
          | inr (r, present, inl u) ↦ rw u (denied (admits claim signature now))
          | inr (r, present, inr (log, t', recorded, o, same, rep')) ↦ rw o (
            after_claim claim signature r m (evaluate_claim r claim now),
            inr (inl (asked claim signature now r present)),
            rep',
          )
        ]

  pub ask_database-Refined :
      (fails : ℕ → Bool) (clock : ℤ) (c : Call)
      → OpensNew c
      → Refined c (ask_database to_base58 parse_base58 sha256 fails clock c t)
  unfolding ask_database
  ask_database-Refined fails clock (opens r) new = opens-Refined fails r new
  ask_database-Refined fails clock (admits claim signature now) new =
      admits-Refined fails claim signature now
  ask_database-Refined fails clock (settles k) new = settles-Refined fails k clock
  ask_database-Refined fails clock (verifies k) new = verifies-Refined fails k

-- However the calls on the database store interleave and whichever of its queries fail, if records
-- are opened with nothing claimed, its answers are those of a run of the in-memory store from the
-- map that the tables stand for, and the tables stand for the map where that run ends, but for
-- calls that are denied as unavailable and change nothing, and for marking a session that is not
-- tracked as settled, which also changes nothing.
pub run_database-Follows :
    (to_base58 : ℕ → Bytes) (parse_base58 : Bytes → Option ℕ) (sha256 : Bytes → ℕ)
    → ((k : ℕ) → parse_base58 (to_base58 k) ≡ some k)
    → (qs : List Request) (t : Tables) (m : Sessions) → Represents to_base58 parse_base58 t m
    → AllOpenNew qs
    → (m' : Sessions) × Follows qs m (run_database to_base58 parse_base58 sha256 qs t).0 m'
      × Represents to_base58 parse_base58 (run_database to_base58 parse_base58 sha256 qs t).1 m'
unfolding run_database
run_database-Follows to_base58 parse_base58 sha256 roundtrip [] t m rep new = (m, refl, rep)
run_database-Follows to_base58 parse_base58 sha256 roundtrip (q ∷ qs) t m rep (n, new) =
    let (s, step, rep') =
      ask_database-Refined to_base58 parse_base58 sha256 roundtrip t m rep q.fails q.clock q.call
        n in
    let (m', follows, rep'') =
      run_database-Follows to_base58 parse_base58 sha256 roundtrip qs
        (ask_database to_base58 parse_base58 sha256 q.fails q.clock q.call t).1 s rep' new in
    (m', (s, step, follows), rep'')
