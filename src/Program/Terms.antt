-- ===== src/Program/Terms.antt =====
-- What the parties agreed when a session was opened stays as it is, and its totals only grow.
use agentpay.Prelude.{
  ℕ, ◌≤◌, ◌≡◌, sym, ap, ◌∙◌, subst, inl, inr, true, Option, none, some, some-eq, none-ne-some,
  arith, ◌==◌, ==_iff, Bool-cases,
}
use agentpay.Program.Types.{Session}
use agentpay.Program.Runtime.{Runtime, World, update}
use agentpay.Program.Outcome.{
  settle_delta_exact, settle_session_parts, settle_validate_exact, open_session_parts,
  open_validate_fresh, refund_session_parts, refund_validate_exact,
}
use agentpay.Program.Steps.{Step, opens, settles, refunds, outside, Reach, here, next}

-- `s'` is `s` at a later time.
pub record Continues (s s' : Session) : Type 0 where
  pub agent : s'.agent ≡ s.agent
  pub provider : s'.provider ≡ s.provider
  pub settlement_authority : s'.settlement_authority ≡ s.settlement_authority
  pub mint : s'.mint ≡ s.mint
  pub vault : s'.vault ≡ s.vault
  pub deposited_total : s'.deposited_total ≡ s.deposited_total
  pub expires_at : s'.expires_at ≡ s.expires_at
  pub session_id : s'.session_id ≡ s.session_id
  pub settled_grows : s.cumulative_settled ≤ s'.cumulative_settled
  pub refunded_grows : s.refunded_total ≤ s'.refunded_total
  pub stays_settled : s.is_settled ≡ true → s'.is_settled ≡ true

Continues-refl : (s : Session) → Continues s s
Continues-refl s = ground arith

Continues-trans : {s t u : Session} → Continues s t → Continues t u → Continues s u
Continues-trans h k = ground arith

-- What became of the session under a key.
abbrev pub Later : Session → Option Session → Type 0
Later s o = (t : Session) × (o ≡ some t) × Continues s t

module _ (rt : Runtime) where
  -- The written session continues the one that was found under its key.
  write-Later :
      (w : World rt) (m : ℕ → Option Session) (k : ℕ) (s s' : Session)
      → m ≡ update w.sessions k (some s')
      → w.sessions k ≡ some s
      → Continues s s'
      → (j : ℕ) (t : Session) → w.sessions j ≡ some t
      → Later t (m j)
  write-Later w m k s s' h found cont j t e = elim (Bool-cases (j == k)) [
    | inl same ↦ (
      s',
      ap (λ f. f j) h ∙ rw same,
      subst (λ z. Continues z s')
          (some-eq (sym found ∙ ap w.sessions (sym ((==_iff j k).0 same)) ∙ e)) cont,
    )
    | inr other ↦ (t, ap (λ f. f j) h ∙ rw other e, Continues-refl t)
  ]

  -- Under a key that was free no session is lost.
  write_fresh :
      (w : World rt) (m : ℕ → Option Session) (k : ℕ) (s' : Session)
      → m ≡ update w.sessions k (some s')
      → w.sessions k ≡ none
      → (j : ℕ) (t : Session) → w.sessions j ≡ some t
      → Later t (m j)
  write_fresh w m k s' h free j t e = elim (Bool-cases (j == k)) [
    | inl same ↦
        let clash : none ≡ some t = sym free ∙ ap w.sessions (sym ((==_iff j k).0 same)) ∙ e in
        absurd (none-ne-some clash)
    | inr other ↦ (t, ap (λ f. f j) h ∙ rw other e, Continues-refl t)
  ]

  -- A step keeps every session, with its terms.
  pub Step-Continues :
      (w w' : World rt)
      → Step rt w w'
      → (j : ℕ) (t : Session) → w.sessions j ≡ some t
      → Later t (w'.sessions j)
  Step-Continues w w' (opens a args tx ev h e) j t f =
      let (v, l, l', hv, _, _, r) = open_session_parts rt a args tx w (w', ev) e in
      write_fresh w w'.sessions a.session _ (ap (λ p. p.0.sessions) r)
        (open_validate_fresh rt a args tx w (v, l) hv).1 j t f
  Step-Continues w w' (settles a args tx ev e) j t f =
      let (v, d, l, receipt, hv, hc, _, hd, _, _, r) =
        settle_session_parts rt a args tx w (w', ev) e in
      write-Later w w'.sessions a.session v.session _ (ap (λ p. p.0.sessions) r)
        (settle_validate_exact rt a tx w v hv).1
        (ground (arith, settle_delta_exact args.cumulative_amount d v.session hd)) j t f
  Step-Continues w w' (refunds a tx ev e) j t f =
      let (v, x, n, l, u, hv, _, hn, _, hu, r) = refund_session_parts rt a tx w (w', ev) e in
      write-Later w w'.sessions a.session v.session _ (ap (λ p. p.0.sessions) r)
        (refund_validate_exact rt a tx w v hv).1 (ground arith) j t f
  Step-Continues w w' (outside h) j t f = (t, ap (λ g. g j) h ∙ f, Continues-refl t)

  -- In every reachable world the session is still there, with the same parties, token, vault,
  -- deposit, expiry and id, and totals that have not fallen.
  pub Reach-Continues :
      (w w' : World rt)
      → Reach rt w w'
      → (j : ℕ) (t : Session) → w.sessions j ≡ some t
      → Later t (w'.sessions j)
  Reach-Continues w w' here j t f = (t, f, Continues-refl t)
  Reach-Continues w w' (next {u} r st) j t f =
      let (s, g, c) = Reach-Continues w u r j t f in
      let (s', g', c') = Step-Continues u w' st j s g in (s', g', Continues-trans c c')
