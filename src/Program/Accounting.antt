-- ===== src/Program/Accounting.antt =====
-- The accounts of a session balance in every reachable world.
use agentpay.Prelude.{
  ℕ, ◌+◌, ◌≤◌, ◌<◌, ◌≡◌, sym, subst, ap, ◌∙◌, ◌⊎◌, inl, inr, true, Option, some, arith, ltb, ok,
}
use agentpay.Prelude.Words.{u64_max, IsI64, checked_add}
use agentpay.Program.Types.{Session, SessionOpened, SessionSettled, SessionRefunded}
use agentpay.Program.Runtime.{Runtime, Tx, World, update, update_cases}
use agentpay.Program.Open.{OpenAccounts, OpenArgs, OpenValidated, open_session, opened}
use agentpay.Program.Settle.{SettleAccounts, SettleArgs, settle_session, settle_delta}
use agentpay.Program.Refund.{RefundAccounts, refund_session, refund_remaining}
use agentpay.Program.Outcome.{
  settle_checks-SettleGuards, settle_delta_exact, settle_session_parts, settle_validate_exact,
  open_session_parts, open_checks_exact, refund_session_parts, refund_validate_exact,
  refund_remaining_exact,
}
use agentpay.Program.Steps.{IsOpenArgs, Step, opens, settles, refunds, outside, Reach, here, next}

-- What is paid out and what is paid back never exceeds the deposit; a refund empties the session;
-- the flag says exactly whether something was settled.
pub record IsBalanced (s : Session) : Type 0 where
  pub funded : 0 < s.deposited_total
  pub fits : s.deposited_total ≤ u64_max
  pub expiry_fits : IsI64 s.expires_at
  pub covered : s.cumulative_settled + s.refunded_total ≤ s.deposited_total
  pub closed :
      (s.refunded_total ≡ 0) ⊎ (s.cumulative_settled + s.refunded_total ≡ s.deposited_total)
  pub flagged : s.is_settled ≡ ltb 0 s.cumulative_settled

abbrev pub AllBalanced : (rt : Runtime) → World rt → Type 0
AllBalanced rt w = (k : ℕ) (s : Session) → w.sessions k ≡ some s → IsBalanced s

opened-IsBalanced :
    (a : OpenAccounts) (args : OpenArgs) (v : OpenValidated)
    → IsOpenArgs args
    → 0 < args.deposit_amount
    → IsBalanced (opened a args v)
opened-IsBalanced a args v h p = ground arith

settled-IsBalanced :
    (c d : ℕ) (s : Session)
    → IsBalanced s
    → s.cumulative_settled < c
    → settle_delta c s ≡ ok d
    → IsBalanced (record s { cumulative_settled = c; is_settled = true })
settled-IsBalanced c d s h p e = ground (arith, settle_delta_exact c d s e)

refunded-IsBalanced :
    (n t : ℕ) (s : Session)
    → IsBalanced s
    → refund_remaining s ≡ ok n
    → checked_add s.refunded_total n ≡ some t
    → IsBalanced (record s { refunded_total = t })
refunded-IsBalanced n t s h e u = ground (arith, refund_remaining_exact n s e)

module _ (rt : Runtime) where
  -- A session that an instruction writes is balanced, and the others are as they were.
  write-AllBalanced :
      (w : World rt) (m : ℕ → Option Session) (k : ℕ) (s : Session)
      → m ≡ update w.sessions k (some s)
      → AllBalanced rt w
      → IsBalanced s
      → (j : ℕ) (t : Session) → m j ≡ some t
      → IsBalanced t
  write-AllBalanced w m k s h old new j t e =
      elim (update_cases w.sessions k s j (sym (ap (λ f. f j) h) ∙ e)) [
        | inl (_, same) ↦ subst IsBalanced same new
        | inr before ↦ old j t before
      ]

  open-AllBalanced :
      (w w' : World rt) (a : OpenAccounts) (args : OpenArgs) (tx : Tx) (ev : SessionOpened)
      → IsOpenArgs args
      → open_session rt a args tx w ≡ ok (w', ev)
      → AllBalanced rt w
      → AllBalanced rt w'
  open-AllBalanced w w' a args tx ev h e old =
      let (v, l, l', _, hc, _, r) = open_session_parts rt a args tx w (w', ev) e in
      write-AllBalanced w w'.sessions a.session (opened a args v) (ap (λ p. p.0.sessions) r) old
        (opened-IsBalanced a args v h (open_checks_exact args tx.now hc).0)

  settle-AllBalanced :
      (w w' : World rt) (a : SettleAccounts) (args : SettleArgs) (tx : Tx) (ev : SessionSettled)
      → settle_session rt a args tx w ≡ ok (w', ev)
      → AllBalanced rt w
      → AllBalanced rt w'
  settle-AllBalanced w w' a args tx ev e old =
      let (v, d, l, receipt, hv, hc, _, hd, _, _, r) =
        settle_session_parts rt a args tx w (w', ev) e in
      write-AllBalanced w w'.sessions a.session _ (ap (λ p. p.0.sessions) r) old (
        settled-IsBalanced args.cumulative_amount d v.session
          (old a.session v.session (settle_validate_exact rt a tx w v hv).1)
          (settle_checks-SettleGuards args a.settler tx.now v.session hc).grows hd)

  refund-AllBalanced :
      (w w' : World rt) (a : RefundAccounts) (tx : Tx) (ev : SessionRefunded)
      → refund_session rt a tx w ≡ ok (w', ev)
      → AllBalanced rt w
      → AllBalanced rt w'
  refund-AllBalanced w w' a tx ev e old =
      let (v, x, n, l, t, hv, _, hn, _, ht, r) = refund_session_parts rt a tx w (w', ev) e in
      write-AllBalanced w w'.sessions a.session _ (ap (λ p. p.0.sessions) r) old (
        refunded-IsBalanced n t v.session
          (old a.session v.session (refund_validate_exact rt a tx w v hv).1) hn ht)

  -- Every step keeps the accounts of every session balanced.
  pub Step-AllBalanced : {w w' : World rt} → Step rt w w' → AllBalanced rt w → AllBalanced rt w'
  Step-AllBalanced (opens a args tx ev h e) old k s f =
      open-AllBalanced _ _ a args tx ev h e old k s f
  Step-AllBalanced (settles a args tx ev e) old k s f =
      settle-AllBalanced _ _ a args tx ev e old k s f
  Step-AllBalanced (refunds a tx ev e) old k s f = refund-AllBalanced _ _ a tx ev e old k s f
  Step-AllBalanced (outside h) old k s e = old k s (sym (ap (λ f. f k) h) ∙ e)

  -- From a world whose sessions are balanced every reachable world's sessions are balanced: funded,
  -- with settled and refunded totals within the deposit, together equal to it once something was
  -- refunded, and marked as settled exactly if something was settled.
  pub Reach-AllBalanced : {w w' : World rt} → AllBalanced rt w → Reach rt w w' → AllBalanced rt w'
  Reach-AllBalanced h here = h
  Reach-AllBalanced h (next r st) = Step-AllBalanced st (Reach-AllBalanced h r)
