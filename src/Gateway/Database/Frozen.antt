-- ===== src/Gateway/Database/Frozen.antt =====
-- A settled session accrues no evidence, so that the root that was committed on chain stays the
-- root of its log.
use agentpay.Prelude.{
  ℕ, ◌≡◌, inl, inr, refl, sym, ap, ◌∙◌, subst, Bool, true, Option, some, List, [], ◌∷◌, ok, err,
  ◌==◌, ==_iff, Bool-cases, Result-cases, ok-injective, some-eq,
}
use agentpay.Prelude.Int.{ℤ}
use agentpay.Prelude.Bytes.{Bytes}
use agentpay.Gateway.Claim.{Claim}
use agentpay.Gateway.State.{
  SessionRecord, Sessions, evaluate_claim, session_settled, open_record, admit_claim, mark_settled,
  mark_chain_verified,
}
use agentpay.Gateway.State.Rules.{evaluate_claim_iff}
use agentpay.Gateway.State.Histories.{Call, opens, admits, settles, verifies, serve, serve-Later}
use agentpay.Gateway.Evidence.{EvidenceRow}
use agentpay.Gateway.Database.{
  Tables, store_open, store_admit_claim, store_mark_settled, store_mark_chain_verified,
  recorded_decision, recorded_evidence, with_log, load_evidence_leaves, get_session_merkle_root,
}
use agentpay.Gateway.Database.Represents.{Represents, key_eq}
use agentpay.Gateway.Database.Claims.{admit_claim-Judged}
use agentpay.Gateway.Database.Histories.{
  Answer, mark_reply, claim_reply, ask_store, Permitted, Request, ask_database, run_database,
  ask_database-Refined, AllOpenNew,
}
use agentpay.Gateway.Database.Audit.{
  open_keeps_evidence, settle_keeps_evidence, verify_keeps_evidence,
}

-- The map after `ask_store` is the one after `serve`.
ask_store-serve : (c : Call) (m : Sessions) → (ask_store c m).1 ≡ serve c m
unfolding ask_store serve
ask_store-serve (opens r) m = elim (Result-cases (open_record r m)) [
  | inl (m', e) ↦ rw e refl
  | inr (x, e) ↦ rw e refl
]
ask_store-serve (admits claim signature now) m =
    elim (Result-cases (admit_claim claim signature now m)) [
      | inl (out, e) ↦ rw e refl
      | inr (x, e) ↦ rw e refl
    ]
ask_store-serve (settles k) m = elim (Result-cases (mark_settled k m)) [
  | inl (m', e) ↦ rw e refl
  | inr (x, e) ↦ rw e refl
]
ask_store-serve (verifies k) m = elim (Result-cases (mark_chain_verified k m)) [
  | inl (m', e) ↦ rw e refl
  | inr (x, e) ↦ rw e refl
]

-- Session `k` is tracked and settled.
abbrev pub IsSettledAt : ℕ → Sessions → Type 0
IsSettledAt k m = (r : SessionRecord) × (m k ≡ some r) × (r.is_settled ≡ true)

Permitted-IsSettledAt :
    (k : ℕ) (c : Call) (m : Sessions) (a : Answer) (m' : Sessions)
    → Permitted c m a m'
    → IsSettledAt k m
    → IsSettledAt k m'
Permitted-IsSettledAt k c m a m' (inl (e, same)) s = subst (IsSettledAt k) (sym same) s
Permitted-IsSettledAt k c m a m' (inr (inl e)) (r, at, settled) =
    let (r', at', later) = serve-Later c m k r at in
    subst (IsSettledAt k) (sym (ask_store-serve c m) ∙ ap (λ (x : Answer × Sessions). x.1) e)
      (r', at', (later.settled_stays settled).0)
Permitted-IsSettledAt k c m a m' (inr (inr (j, e, absent, told, same))) s =
    subst (IsSettledAt k) (sym same) s

settled_refuses :
    (r : SessionRecord) (claim : Claim) (now : ℤ)
    → r.is_settled ≡ true
    → evaluate_claim r claim now ≡ err session_settled
settled_refuses r claim now h = ((evaluate_claim_iff r claim now).2 session_settled).1 h

module _ (to_base58 : ℕ → Bytes) (parse_base58 : Bytes → Option ℕ) (sha256 : Bytes → ℕ)
    (roundtrip : (k : ℕ) → parse_base58 (to_base58 k) ≡ some k) (t : Tables) (m : Sessions)
    (rep : Represents to_base58 parse_base58 t m) (k : ℕ) (settled : IsSettledAt k m) where
  -- The session's log is left as it was.
  abbrev Keeps : Answer × Tables → Type 0
  Keeps (a, t') = t'.evidence_log (to_base58 k) ≡ t.evidence_log (to_base58 k)

  unlogged-Keeps : (a : Answer) (t' : Tables) → t'.evidence_log ≡ t.evidence_log → Keeps (a, t')
  unlogged-Keeps a t' e = ap (λ (f : Bytes → List EvidenceRow). f (to_base58 k)) e

  judged-Keeps :
      (claim : Claim) (signature : ℕ) (now : ℤ) (r : SessionRecord) (log : List EvidenceRow)
      (t' : Tables) (fails : ℕ → Bool)
      → m claim.session ≡ some r
      → recorded_evidence sha256 fails
          (t.evidence_log (to_base58 claim.session))
          claim
          signature
          (recorded_decision (evaluate_claim r claim now))
        ≡ ok log
      → t'.evidence_log ≡ (with_log (to_base58 claim.session) log t).evidence_log
      → t'.evidence_log (to_base58 k) ≡ t.evidence_log (to_base58 k)
  unfolding recorded_evidence recorded_decision
  judged-Keeps claim signature now r log t' fails present recorded same =
      rw (same, key_eq to_base58 parse_base58 roundtrip k claim.session)
        (elim (Bool-cases (k == claim.session)) [
          | inl at_k ↦
              let (s, found, is_settled) = settled in
              let k_is = (==_iff k claim.session).0 at_k in
              let s_is : s ≡ r = some-eq (sym found ∙ ap m k_is ∙ present) in
              let refusal : evaluate_claim r claim now ≡ err session_settled =
                settled_refuses r claim now
                  (sym (ap (λ (x : SessionRecord). x.is_settled) s_is) ∙ is_settled) in
              rw (at_k, k_is) (sym (ok-injective (rw refusal at recorded)))
          | inr other ↦ rw other refl
        ])

  admits-Keeps :
      (fails : ℕ → Bool) (claim : Claim) (signature : ℕ) (now : ℤ)
      → Keeps (
          claim_reply t
            (store_admit_claim to_base58 parse_base58 sha256 fails claim signature now t))
  admits-Keeps fails claim signature now =
      elim (admit_claim-Judged to_base58 parse_base58 roundtrip sha256 fails claim signature now t m
        rep) [
          | inl (absent, inl u) ↦ rw u refl
          | inl (absent, inr o) ↦ rw o refl
          | inr (r, present, inl u) ↦ rw u refl
          | inr (r, present, inr (log, t', recorded, o, same, rep')) ↦
              rw o (judged-Keeps claim signature now r log t' fails present recorded same)
        ]

  ask_database-Keeps :
      (fails : ℕ → Bool) (clock : ℤ) (c : Call)
      → Keeps (ask_database to_base58 parse_base58 sha256 fails clock c t)
  unfolding ask_database
  ask_database-Keeps fails clock (opens r) =
      unlogged-Keeps (mark_reply t (store_open to_base58 fails r t)).0
        (mark_reply t (store_open to_base58 fails r t)).1
        (open_keeps_evidence to_base58 parse_base58 sha256 roundtrip t fails r)
  ask_database-Keeps fails clock (admits claim signature now) =
      admits-Keeps fails claim signature now
  ask_database-Keeps fails clock (settles j) =
      unlogged-Keeps (mark_reply t (store_mark_settled to_base58 fails j clock t)).0
        (mark_reply t (store_mark_settled to_base58 fails j clock t)).1
        (settle_keeps_evidence to_base58 parse_base58 sha256 roundtrip t fails j clock)
  ask_database-Keeps fails clock (verifies j) =
      unlogged-Keeps (mark_reply t (store_mark_chain_verified to_base58 fails j t)).0
        (mark_reply t (store_mark_chain_verified to_base58 fails j t)).1
        (verify_keeps_evidence to_base58 parse_base58 sha256 roundtrip t fails j)

settled_log_stays :
    (to_base58 : ℕ → Bytes) (parse_base58 : Bytes → Option ℕ) (sha256 : Bytes → ℕ)
    → ((j : ℕ) → parse_base58 (to_base58 j) ≡ some j)
    → (qs : List Request) (t : Tables) (m : Sessions) (k : ℕ)
    → Represents to_base58 parse_base58 t m
    → AllOpenNew qs
    → IsSettledAt k m
    → (run_database to_base58 parse_base58 sha256 qs t).1.evidence_log (to_base58 k)
      ≡ t.evidence_log (to_base58 k)
unfolding run_database
settled_log_stays to_base58 parse_base58 sha256 roundtrip [] t m k rep new settled = refl
settled_log_stays to_base58 parse_base58 sha256 roundtrip (q ∷ qs) t m k rep (n, new) settled =
    let (s, step, rep') =
      ask_database-Refined to_base58 parse_base58 sha256 roundtrip t m rep q.fails q.clock q.call
        n in
    settled_log_stays to_base58 parse_base58 sha256 roundtrip qs
      (ask_database to_base58 parse_base58 sha256 q.fails q.clock q.call t).1 s k rep' new
      (Permitted-IsSettledAt k q.call m
        (ask_database to_base58 parse_base58 sha256 q.fails q.clock q.call t).0 s step settled)
    ∙ ask_database-Keeps to_base58 parse_base58 sha256 roundtrip t m rep k settled q.fails q.clock
        q.call

-- Once a session's record is marked settled, the Merkle root of its evidence is the same after any
-- further history of calls on the database store, whichever of their queries fail, if records are
-- opened with nothing claimed.
pub settled_root_is_final :
    (to_base58 : ℕ → Bytes) (parse_base58 : Bytes → Option ℕ) (sha256 : Bytes → ℕ)
    → ((j : ℕ) → parse_base58 (to_base58 j) ≡ some j)
    → (qs : List Request) (t : Tables) (m : Sessions) (k : ℕ) (fails : ℕ → Bool)
    → Represents to_base58 parse_base58 t m
    → AllOpenNew qs
    → IsSettledAt k m
    → get_session_merkle_root to_base58 sha256 fails k
        (run_database to_base58 parse_base58 sha256 qs t).1
      ≡ get_session_merkle_root to_base58 sha256 fails k t
unfolding get_session_merkle_root load_evidence_leaves
settled_root_is_final to_base58 parse_base58 sha256 roundtrip qs t m k fails rep new settled =
    rw (settled_log_stays to_base58 parse_base58 sha256 roundtrip qs t m k rep new settled) refl
