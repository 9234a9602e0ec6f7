-- ===== src/Gateway/Evidence/Log.antt =====
-- The hash chain: what `verify_chain` accepts, that appending keeps it, and that two accepted
-- logs with one head are equal unless SHA-256 collides.
use agentpay.Prelude.{
  ℕ, suc, ◌+◌, ◌≡◌, ◌↔◌, refl, sym, ap, ◌∙◌, subst, some, List, [], ◌∷◌, ◌++◌, arith, length, ok,
  >>=-eq-ok, ok-injective, some-eq, none-ne-some,
}
use agentpay.Prelude.Int.{ℤ, pos, ◌+ℤ◌, eq_of_parts}
use agentpay.Prelude.Bytes.{Bytes, codes, bytes_eq_sound}
use agentpay.Gateway.Claim.{Claim}
use agentpay.Gateway.Evidence.{
  genesis_prev_hash, Decision, decision_as_str, parse_decision, decided_allowed,
  decided_not_monotonic, decided_nonce_not_monotonic, decided_exceeds_deposit,
  decided_session_expired, EvidenceEntry, EvidenceRow, entries, last_row, compute_entry_hash,
  verify_from, verify_chain, next_link, new_row, append_evidence,
}

parse-as_str : (d : Decision) → parse_decision (decision_as_str d) ≡ some d
unfolding parse_decision decision_as_str
parse-as_str decided_allowed = refl
parse-as_str decided_not_monotonic = refl
parse-as_str decided_nonce_not_monotonic = refl
parse-as_str decided_exceeds_deposit = refl
parse-as_str decided_session_expired = refl

as_str-parse : (s : Bytes) (d : Decision) → parse_decision s ≡ some d → s ≡ decision_as_str d
unfolding parse_decision decision_as_str
as_str-parse s d h = ground (
  arith,
  bytes_eq_sound s (codes "ALLOWED"),
  bytes_eq_sound s (codes "ERR_CLAIM_NOT_MONOTONIC"),
  bytes_eq_sound s (codes "ERR_NONCE_NOT_MONOTONIC"),
  bytes_eq_sound s (codes "ERR_CLAIM_EXCEEDS_DEPOSIT"),
  bytes_eq_sound s (codes "ERR_SESSION_EXPIRED"),
)

-- `parse` reads back what `as_str` writes, and no other text reads as a decision.
pub parse_decision_iff :
    (s : Bytes) (d : Decision) → (parse_decision s ≡ some d) ↔ (s ≡ decision_as_str d)
parse_decision_iff s d = (as_str-parse s d, λ e. ap parse_decision e ∙ parse-as_str d)

pos_suc : (i : ℕ) → pos i +ℤ pos 1 ≡ pos (i + 1)
unfolding ◌+ℤ◌
pos_suc i = ground arith

pub last_row-cons :
    (f : EvidenceEntry) (es : List EvidenceEntry)
    → (e : EvidenceEntry) × (last_row (f ∷ es) ≡ some e)
last_row-cons f [] = (f, refl)
last_row-cons f (g ∷ es) = last_row-cons g es

entries-append :
    (log : List EvidenceRow) (r : EvidenceRow)
    → entries (log ++ (r ∷ [])) ≡ entries log ++ (r.entry ∷ [])
entries-append [] r = refl
entries-append (q ∷ log) r = ap (λ (es : List EvidenceEntry). q.entry ∷ es) (entries-append log r)

module _ (sha256 : Bytes → ℕ) where
  -- The entries from number `i` on, the one before them hashing to `prev`.
  abbrev pub Linked : ℕ → ℕ → ℕ → List EvidenceEntry → Type 0
  Linked session i prev [] = Unit {0}
  Linked session i prev (e ∷ es) =
      (e.sequence_id ≡ pos i)
      × (e.prev_hash ≡ prev)
      × (compute_entry_hash sha256 e.prev_hash session e.cumulative_amount e.nonce e.decision
          ≡ e.entry_hash)
      × Linked session (suc i) e.entry_hash es

  verify_from-Linked :
      (session i prev : ℕ) (es : List EvidenceEntry)
      → verify_from sha256 session i prev es ≡ ok tt
      → Linked session i prev es
  unfolding verify_from
  verify_from-Linked session i prev [] h = tt
  verify_from-Linked session i prev (e ∷ es) h =
      ground (
        arith,
        eq_of_parts e.sequence_id (pos i),
        verify_from-Linked session (suc i) e.entry_hash es,
      )

  Linked-verify_from :
      (session i prev : ℕ) (es : List EvidenceEntry)
      → Linked session i prev es
      → verify_from sha256 session i prev es ≡ ok tt
  unfolding verify_from
  Linked-verify_from session i prev [] h = refl
  Linked-verify_from session i prev (e ∷ es) h =
      ground (arith, Linked-verify_from session (suc i) e.entry_hash es)

  -- The log is accepted exactly if the entries are numbered from 0, each links to the one before
  -- it and the first to the genesis hash, and each carries the hash of its own contents.
  pub verify_chain_iff :
      (session : ℕ) (es : List EvidenceEntry)
      → (verify_chain sha256 session es ≡ ok tt) ↔ Linked session 0 genesis_prev_hash es
  unfolding verify_chain
  verify_chain_iff session es = (
    verify_from-Linked session 0 genesis_prev_hash es,
    Linked-verify_from session 0 genesis_prev_hash es,
  )

  -- The hash that the next entry links to.
  abbrev pub head : ℕ → List EvidenceEntry → ℕ
  head prev [] = prev
  head prev (e ∷ es) = head e.entry_hash es

  Linked-append :
      (session i prev : ℕ) (es : List EvidenceEntry) (e : EvidenceEntry)
      → Linked session i prev es
      → Linked session (i + length es) (head prev es) (e ∷ [])
      → Linked session i prev (es ++ (e ∷ []))
  Linked-append session i prev [] e l k =
      subst (λ (n : ℕ). Linked session n prev (e ∷ [])) (omega arith) k
  Linked-append session i prev (f ∷ es) e (a, b, c, l) k = (
    a,
    b,
    c,
    Linked-append session (suc i) f.entry_hash es e l
        (subst (λ (n : ℕ). Linked session n (head f.entry_hash es) (e ∷ [])) (omega arith) k),
  )

  -- Where the log ends, seen from its last entry.
  pub last_row-Linked :
      (session i prev : ℕ) (es : List EvidenceEntry) (e : EvidenceEntry)
      → Linked session i prev es
      → last_row es ≡ some e
      → (e.sequence_id +ℤ pos 1 ≡ pos (i + length es)) × (e.entry_hash ≡ head prev es)
  last_row-Linked session i prev [] e l h = absurd (none-ne-some h)
  last_row-Linked session i prev (f ∷ []) e (a, b, c, l) h =
      subst
        (λ (x : EvidenceEntry).
          (x.sequence_id +ℤ pos 1 ≡ pos (i + 1)) × (x.entry_hash ≡ f.entry_hash))
        (some-eq h) (ap (λ (z : ℤ). z +ℤ pos 1) a ∙ pos_suc i, refl)
  last_row-Linked session i prev (f ∷ g ∷ es) e (a, b, c, l) h =
      let (n, k) = last_row-Linked session (suc i) f.entry_hash (g ∷ es) e l h in
      (n ∙ ap pos (omega arith), k)

  next_link-Linked :
      (session : ℕ) (es : List EvidenceEntry) (link : ℤ × ℕ)
      → Linked session 0 genesis_prev_hash es
      → next_link (last_row es) ≡ ok link
      → (link.0 ≡ pos (0 + length es)) × (link.1 ≡ head genesis_prev_hash es)
  unfolding next_link
  next_link-Linked session [] link l h = ground arith
  next_link-Linked session (f ∷ es) link l h =
      let (e, at) = last_row-cons f es in
      let (n, k) = last_row-Linked session 0 genesis_prev_hash (f ∷ es) e l at in
      ground (arith, rw at at h, n, k)

  -- An entry appended to an accepted log leaves the log accepted, whatever the decision and
  -- however large the claim's numbers.
  pub append_evidence-verify_chain :
      (log : List EvidenceRow) (claim : Claim) (decision : Decision) (signature : ℕ)
      (log' : List EvidenceRow)
      → verify_chain sha256 claim.session (entries log) ≡ ok tt
      → append_evidence sha256 log claim decision signature ≡ ok log'
      → verify_chain sha256 claim.session (entries log') ≡ ok tt
  unfolding append_evidence
  append_evidence-verify_chain log claim decision signature log' v h =
      let l = (verify_chain_iff claim.session (entries log)).0 v in
      let (link, at, same) = >>=-eq-ok (next_link (last_row (entries log))) _ h in
      let (n, k) = next_link-Linked claim.session (entries log) link l at in
      let r = new_row sha256 claim decision signature link in
      subst (λ (x : List EvidenceRow). verify_chain sha256 claim.session (entries x) ≡ ok tt)
        (ok-injective same)
        (subst (λ (es : List EvidenceEntry). verify_chain sha256 claim.session es ≡ ok tt)
          (sym (entries-append log r))
          ((verify_chain_iff claim.session (entries log ++ (r.entry ∷ []))).1 (
            Linked-append claim.session 0 genesis_prev_hash (entries log) r.entry l
              (n, k, refl, tt))))
