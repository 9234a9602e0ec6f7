-- ===== src/Program/Closure.antt =====
-- A refund ends a session, and settling and refunding by strangers never overlap.
use agentpay.Prelude.{
  ℕ, ◌+◌, ◌<◌, ◌≡◌, ◌≢◌, sym, ap, ◌∙◌, subst, Bool, true, false, some, some-eq, arith, ok,
}
use agentpay.Prelude.Int.{ℤ}
use agentpay.Program.Types.{Session, SessionSettled, SessionRefunded}
use agentpay.Program.Runtime.{Runtime, Tx, World, update_self}
use agentpay.Program.Settle.{
  SettleAccounts, SettleArgs, settle_session, settle_delta, settle_checks,
}
use agentpay.Program.Refund.{RefundAccounts, refund_session, refund_remaining, refund_expired}
use agentpay.Program.Outcome.{
  settle_checks-SettleGuards, refund_expired_exact, settle_session_parts, settle_validate_exact,
  refund_session_parts, refund_validate_exact, refund_remaining_exact,
}
use agentpay.Program.Accounting.{IsBalanced, AllBalanced, Step-AllBalanced, Reach-AllBalanced}
use agentpay.Program.Steps.{Reach, refunds}
use agentpay.Program.Terms.{Continues, Reach-Continues}

-- Nothing is left to pay out or to pay back.
abbrev pub IsClosed : Session → Type 0
IsClosed s = s.cumulative_settled + s.refunded_total ≡ s.deposited_total

settle_delta_closed :
    (c d : ℕ) (s : Session) → IsClosed s → s.cumulative_settled < c → settle_delta c s ≢ ok d
unfolding settle_delta
settle_delta_closed c d s h p e = ground arith

refund_remaining_closed : (n : ℕ) (s : Session) → IsClosed s → refund_remaining s ≢ ok n
unfolding refund_remaining
refund_remaining_closed n s h e = ground arith

refunded-IsClosed :
    (n t : ℕ) (s : Session)
    → refund_remaining s ≡ ok n
    → s.refunded_total + n ≡ t
    → IsClosed (record s { refunded_total = t })
refunded-IsClosed n t s e u = omega (arith, refund_remaining_exact n s e)

module _ (rt : Runtime) where
  refund-IsClosed :
      (a : RefundAccounts) (tx : Tx) (w w' : World rt) (ev : SessionRefunded)
      → refund_session rt a tx w ≡ ok (w', ev)
      → (s : Session) × (w'.sessions a.session ≡ some s) × IsClosed s
  refund-IsClosed a tx w w' ev e =
      let (v, x, n, l, t, hv, _, hn, _, ht, r) = refund_session_parts rt a tx w (w', ev) e in
      (
        record (v.session) { refunded_total = t },
        ap (λ p. p.0.sessions a.session) r ∙ update_self w.sessions a.session _,
        refunded-IsClosed n t v.session hn (ground arith),
      )

  closed_settle :
      (a : SettleAccounts) (args : SettleArgs) (tx : Tx) (w : World rt) (s : Session)
      (r : World rt × SessionSettled)
      → w.sessions a.session ≡ some s
      → IsClosed s
      → settle_session rt a args tx w ≢ ok r
  closed_settle a args tx w s r f h e =
      let (v, d, l, receipt, hv, hc, _, hd, _, _, _) = settle_session_parts rt a args tx w r e in
      let same : s ≡ v.session = some-eq (sym f ∙ (settle_validate_exact rt a tx w v hv).1) in
      settle_delta_closed args.cumulative_amount d v.session (subst IsClosed same h)
        (settle_checks-SettleGuards args a.settler tx.now v.session hc).grows hd

  closed_refund :
      (a : RefundAccounts) (tx : Tx) (w : World rt) (s : Session) (r : World rt × SessionRefunded)
      → w.sessions a.session ≡ some s
      → IsClosed s
      → refund_session rt a tx w ≢ ok r
  closed_refund a tx w s r f h e =
      let (v, x, n, l, t, hv, _, hn, _, _, _) = refund_session_parts rt a tx w r e in
      let same : s ≡ v.session = some-eq (sym f ∙ (refund_validate_exact rt a tx w v hv).1) in
      refund_remaining_closed n v.session (subst IsClosed same h) hn

  Continues-IsClosed : (s t : Session) → Continues s t → IsBalanced t → IsClosed s → IsClosed t
  Continues-IsClosed s t c b h = ground arith

  IsClosed-later :
      (w w' : World rt) (k : ℕ) (s : Session)
      → AllBalanced rt w
      → Reach rt w w'
      → w.sessions k ≡ some s
      → IsClosed s
      → (t : Session) × (w'.sessions k ≡ some t) × IsClosed t
  IsClosed-later w w' k s b r f h =
      let (t, g, c) = Reach-Continues rt w w' r k s f in
      (t, g, Continues-IsClosed s t c (Reach-AllBalanced rt b r k t g) h)

  -- From a world whose sessions are balanced, after a refund that succeeds no settlement and no refund of that
  -- session ever succeeds again, whatever steps come between.
  pub refund_is_final :
      (a : RefundAccounts) (tx : Tx) (w w' u : World rt) (ev : SessionRefunded)
      → AllBalanced rt w
      → refund_session rt a tx w ≡ ok (w', ev)
      → Reach rt w' u
      → ((b : SettleAccounts) (args : SettleArgs) (tx' : Tx) (r : World rt × SessionSettled)
          → b.session ≡ a.session
          → settle_session rt b args tx' u ≢ ok r)
        × ((b : RefundAccounts) (tx' : Tx) (r : World rt × SessionRefunded)
            → b.session ≡ a.session
            → refund_session rt b tx' u ≢ ok r)
  refund_is_final a tx w w' u ev bal e reach =
      let (s, f, h) = refund-IsClosed a tx w w' ev e in
      let bal' : AllBalanced rt w' =
        Step-AllBalanced rt {w = w} {w' = w'} (refunds a tx ev e) bal in
      let (t, g, c) = IsClosed-later w' u a.session s bal' reach f h in
      (
        λ b args tx' r same. closed_settle b args tx' u t r (ap u.sessions same ∙ g) c,
        λ b tx' r same. closed_refund b tx' u t r (ap u.sessions same ∙ g) c,
      )

-- At one moment a session that the provider can still settle is not one that a stranger can
-- refund: where the settlement's checks pass, a refund's either fail or find the session not expired, called by its agent
-- and already settled once.
pub settle_excludes_stranger_refund :
    (args : SettleArgs) (settler caller : ℕ) (now : ℤ) (s : Session) (e : Bool)
    → settle_checks args settler now s ≡ ok tt
    → refund_expired caller now s ≡ ok e
    → (e ≡ false) × (caller ≡ s.agent) × (s.is_settled ≡ true)
settle_excludes_stranger_refund args settler caller now s e h k =
    ground (
      arith,
      settle_checks-SettleGuards args settler now s h,
      refund_expired_exact caller now e s k,
    )
