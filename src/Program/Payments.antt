-- ===== src/Program/Payments.antt =====
-- What one settlement or refund moves, and where to.
use agentpay.Prelude.{
  ℕ, ◌+◌, ◌≤◌, ◌<◌, ◌≡◌, ◌≢◌, refl, sym, ap, subst, ◌⊎◌, inl, inr, Bool-cases, false, true, false,
  some, arith, ok,
}
use agentpay.Prelude.Int.{◌+ℤ◌, ◌≤ℤ◌, ◌<ℤ◌}
use agentpay.Prelude.Words.{checked_add}
use agentpay.Program.Types.{Session, SessionSettled, SessionRefunded, clock_skew_tolerance_secs}
use agentpay.Program.Runtime.{
  Runtime, Tx, World, Transfer, update, TokenLaws, TokenAccount, balance,
}
use agentpay.Program.Settle.{SettleAccounts, SettleArgs, settle_session, payout}
use agentpay.Program.Refund.{RefundAccounts, refund_session, refund}
use agentpay.Program.Outcome.{
  SettleGuards, settle_checks-SettleGuards, refund_expired_exact, payee_constraints_exact,
  settle_delta_exact, settle_session_parts, settle_validate_exact, session_constraints_exact,
  refund_session_parts, refund_validate_exact, refund_remaining_exact,
}

module _ (rt : Runtime) where
  -- The recipient is a token account of the session's mint that `owner` owns.
  abbrev pub PaidTo : rt.Ledger → ℕ → ℕ → ℕ → Type 0
  PaidTo l account mint owner =
      (t : TokenAccount) × (rt.token_account l account ≡ some t)
      × (t.mint ≡ mint)
      × (t.owner ≡ owner)

  -- What an account gained: all of the amount, or where the mint has a transfer fee, all but the fee.
  abbrev pub Gained : TokenLaws rt → rt.Ledger → rt.Ledger → ℕ → ℕ → ℕ → Type 0
  Gained laws l l' mint to amount =
      ((laws.has_fee l mint ≡ false) × (balance rt l' to ≡ balance rt l to + amount))
      ⊎ ((laws.has_fee l mint ≡ true)
          × (balance rt l' to + laws.fee l mint amount ≡ balance rt l to + amount)
          × (laws.fee l mint amount ≤ amount))

  -- `amount` of a mint left one account for another and nothing else moved.
  abbrev pub Moved : TokenLaws rt → rt.Ledger → rt.Ledger → ℕ → ℕ → ℕ → ℕ → Type 0
  Moved laws l l' mint from to amount =
      (balance rt l' from + amount ≡ balance rt l from)
      × Gained laws l l' mint to amount
      × ((k : ℕ) → k ≢ from → k ≢ to → balance rt l' k ≡ balance rt l k)

  transfer-Moved :
      (laws : TokenLaws rt) (l l' : rt.Ledger) (t : Transfer)
      → rt.transfer_checked l t ≡ some l'
      → t.from ≢ t.to
      → Moved laws l l' t.mint t.from t.to t.amount
  transfer-Moved laws l l' t e apart = (
    laws.debited l l' t e apart,
    elim (Bool-cases (laws.has_fee l t.mint)) [
      | inl fee ↦
          let (less, bounded) = laws.credited_less l l' t e apart fee in inr (fee, less, bounded)
      | inr plain ↦ inl (plain, laws.credited l l' t e apart plain)
    ],
    λ k. laws.others l l' t k e,
  )

  -- What a settlement of session `s` has done.
  abbrev pub Paid :
      TokenLaws rt
      → SettleAccounts
      → SettleArgs
      → Tx
      → World rt
      → Session
      → World rt × SessionSettled
      → Type 0
  Paid laws a args tx w s (w', ev) =
      (w.sessions a.session ≡ some s)
      × (tx.signers a.settler ≡ true)
      × SettleGuards args a.settler tx.now s
      × (s.mint ≡ a.mint)
      × (s.vault ≡ a.vault)
      × PaidTo w.ledger a.provider_token_account a.mint s.provider
      × (s.cumulative_settled + ev.transferred ≡ args.cumulative_amount)
      × (args.cumulative_amount + s.refunded_total ≤ s.deposited_total)
      × Moved laws w.ledger w'.ledger a.mint a.vault a.provider_token_account ev.transferred
      × (w'.sessions
          ≡ update w.sessions a.session
              (some (record s { cumulative_settled = args.cumulative_amount; is_settled = true })))

  -- A settlement that succeeds was submitted by the session's settlement authority or its
  -- provider, who signed, before the session and the claim expired (with the skew allowed); exactly
  -- the growth of the cumulative amount leaves the session's vault for a token account of the
  -- session's mint that its provider owns, which gains all of it unless the mint has a transfer fee,
  -- and then all but the fee; no other balance changes; settled and refunded stay within the
  -- deposit; the session's settled total becomes the claim's amount and the other sessions are
  -- untouched. The documented laws of the token program are assumed, and that the vault is not
  -- itself the account paid to.
  pub settle_pays_exactly :
      (laws : TokenLaws rt) (a : SettleAccounts) (args : SettleArgs) (tx : Tx) (w : World rt)
      (r : World rt × SessionSettled)
      → a.vault ≢ a.provider_token_account
      → settle_session rt a args tx w ≡ ok r
      → (s : Session) × Paid laws a args tx w s r
  settle_pays_exactly laws a args tx w r apart e =
      let (v, d, l, receipt, hv, hc, _, hd, hl, _, same) =
        settle_session_parts rt a args tx w r e in
      let (signed, found, terms, payee) = settle_validate_exact rt a tx w v hv in
      let (mint, vault) = session_constraints_exact rt a.session a.mint a.vault v.session terms in
      let (exact, within) = settle_delta_exact args.cumulative_amount d v.session hd in
      (
        v.session,
        subst (Paid laws a args tx w v.session) (sym same) (
          found,
          signed,
          settle_checks-SettleGuards args a.settler tx.now v.session hc,
          mint,
          vault,
          payee_constraints_exact rt a.provider_token_account a.mint v.session.provider w.ledger
              payee,
          exact,
          within,
          transfer-Moved laws w.ledger l (payout rt a d v.decimals) hl apart,
          refl,
        ),
      )

  -- What a refund of session `s` has done.
  abbrev pub Refunded :
      TokenLaws rt → RefundAccounts → Tx → World rt → Session → World rt × SessionRefunded → Type 0
  Refunded laws a tx w s (w', ev) =
      (w.sessions a.session ≡ some s)
      × (tx.signers a.caller ≡ true)
      × (s.mint ≡ a.mint)
      × (s.vault ≡ a.vault)
      × PaidTo w.ledger a.agent_token_account a.mint s.agent
      × (s.cumulative_settled + s.refunded_total + ev.amount ≡ s.deposited_total)
      × (0 < ev.amount)
      × Moved laws w.ledger w'.ledger a.mint a.vault a.agent_token_account ev.amount
      × (w'.sessions
          ≡ update w.sessions a.session
              (some (record s { refunded_total = s.refunded_total + ev.amount })))
      × (((ev.permissionless ≡ true) × (s.expires_at +ℤ clock_skew_tolerance_secs <ℤ tx.now))
          ⊎ ((ev.permissionless ≡ false)
              × (tx.now ≤ℤ s.expires_at +ℤ clock_skew_tolerance_secs)
              × (a.caller ≡ s.agent)
              × (s.is_settled ≡ true)))

  checked_add_exact : (m n t : ℕ) → checked_add m n ≡ some t → t ≡ m + n
  checked_add_exact m n t h = ground arith

  -- A refund that succeeds moves everything that is neither settled nor refunded, more than zero,
  -- out of the session's vault to a token account of the session's mint that its agent owns, whoever
  -- called it; that account gains all of it unless the mint has a transfer fee, and then all but the
  -- fee; no other balance changes; the session records it and the others are untouched. Its caller
  -- signed, and the session has expired (skew allowed) or the caller is its agent and it has
  -- settled. The documented laws of the token program are assumed, and that the vault is not
  -- itself the account paid to.
  pub refund_pays_exactly :
      (laws : TokenLaws rt) (a : RefundAccounts) (tx : Tx) (w : World rt)
      (r : World rt × SessionRefunded)
      → a.vault ≢ a.agent_token_account
      → refund_session rt a tx w ≡ ok r
      → (s : Session) × Refunded laws a tx w s r
  refund_pays_exactly laws a tx w r apart e =
      let (v, x, n, l, t, hv, hx, hn, hl, ht, same) = refund_session_parts rt a tx w r e in
      let (signed, found, terms, payee) = refund_validate_exact rt a tx w v hv in
      let (mint, vault) = session_constraints_exact rt a.session a.mint a.vault v.session terms in
      let (exact, some_left) = refund_remaining_exact n v.session hn in
      (
        v.session,
        subst (Refunded laws a tx w v.session) (sym same) (
          found,
          signed,
          mint,
          vault,
          payee_constraints_exact rt a.agent_token_account a.mint v.session.agent w.ledger payee,
          exact,
          some_left,
          transfer-Moved laws w.ledger l (refund rt a n v.decimals) hl apart,
          ap
              (λ (z : ℕ).
                update w.sessions a.session (some (record (v.session) { refunded_total = z })))
              (checked_add_exact v.session.refunded_total n t ht),
          refund_expired_exact a.caller tx.now x v.session hx,
        ),
      )
