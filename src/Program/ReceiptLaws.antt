-- ===== src/Program/ReceiptLaws.antt =====
-- What the settlement receipt says after a settlement, and what its creation makes a settlement
-- depend on.
use agentpay.Prelude.{ℕ, ◌≡◌, ◌≢◌, sym, ap, ◌∙◌, none, arith, ok, >>=-eq-ok, ok-injective}
use agentpay.Program.Types.{SessionSettled, SettlementRecord}
use agentpay.Program.Runtime.{Runtime, Tx, World, AccountInfo, update_self}
use agentpay.Program.Settle.{
  SettleAccounts, SettleArgs, settle_session, claim_message, receipt_update,
}
use agentpay.Program.Receipt.{ReceiptUpdate, prepare_account, current_record, advance_receipt}
use agentpay.Program.Outcome.{settle_session_parts}

-- The record that an update writes.
abbrev pub written : ReceiptUpdate → SettlementRecord
written u = record {
  session = u.session;
  claim_hash = u.claim_hash;
  merkle_root = u.merkle_root;
  settled_at = u.settled_at;
  settled_amount = u.settled_amount;
  bump = u.bump;
}

module _ (rt : Runtime) where
  current_record-session :
      (u : ReceiptUpdate) (info : AccountInfo) (old : SettlementRecord)
      → current_record rt u info ≡ ok old
      → old.session ≡ u.session
  unfolding current_record
  current_record-session u info old h = ground arith

  advance_receipt-written :
      (u : ReceiptUpdate) (info info' : AccountInfo)
      → advance_receipt rt u info ≡ ok info'
      → info'.content ≡ rt.try_serialize (written u)
  unfolding advance_receipt
  advance_receipt-written u info info' h =
      let (account, _, h1) = >>=-eq-ok (prepare_account rt u info) _ h in
      let (old, ho, h2) = >>=-eq-ok (current_record rt u info) _ h1 in
      ap (λ i. i.content) (sym (ok-injective h2))
      ∙ ap (λ (z : ℕ). rt.try_serialize (record (written u) { session = z }))
          (current_record-session u info old ho)

  prefunded_receipt :
      (u : ReceiptUpdate) (info r : AccountInfo)
      → ((payer lamports space owner : ℕ)
          → rt.create_account payer info lamports space owner ≡ none)
      → info.owner ≡ rt.system_program
      → advance_receipt rt u info ≢ ok r
  unfolding advance_receipt prepare_account
  prefunded_receipt u info r refuses h e = grind arith

  -- After a settlement that succeeds the receipt is the serialisation of exactly this: the
  -- session, the hash of the signed message, the caller's evidence root, the time, and the
  -- cumulative amount (not the amount that this settlement moved).
  pub settle_writes_receipt :
      (a : SettleAccounts) (args : SettleArgs) (tx : Tx) (w w' : World rt) (ev : SessionSettled)
      → settle_session rt a args tx w ≡ ok (w', ev)
      → (bump : ℕ) × ((w'.receipts a.settlement_record).content
          ≡ rt.try_serialize (record {
            session = a.session;
            claim_hash = rt.sha256 (claim_message rt a args);
            merkle_root = args.merkle_root;
            settled_at = tx.now;
            settled_amount = args.cumulative_amount;
            bump = bump;
          }))
  settle_writes_receipt a args tx w w' ev e =
      let (v, d, l, receipt, _, _, _, _, _, hr, r) =
        settle_session_parts rt a args tx w (w', ev) e in
      (
        v.record_bump,
        ap (λ p. (p.0.receipts a.settlement_record).content) r
            ∙ ap (λ i. i.content) (update_self w.receipts a.settlement_record receipt)
            ∙ advance_receipt-written (receipt_update rt a args tx v)
                (w.receipts a.settlement_record) receipt hr,
      )

  -- Where the system program refuses to create the receipt, no settlement succeeds: while the receipt is owned by
  -- the system program and holds lamports (which anybody can send to its address), and
  -- `create_account` refuses every account that holds lamports, as it documents.
  pub prefunded_receipt_blocks_settlement :
      (a : SettleAccounts) (args : SettleArgs) (tx : Tx) (w : World rt)
      (r : World rt × SessionSettled)
      → ((payer : ℕ) (info : AccountInfo) (lamports space owner : ℕ)
          → info.lamports ≢ 0
          → rt.create_account payer info lamports space owner ≡ none)
      → (w.receipts a.settlement_record).owner ≡ rt.system_program
      → (w.receipts a.settlement_record).lamports ≢ 0
      → settle_session rt a args tx w ≢ ok r
  prefunded_receipt_blocks_settlement a args tx w r refuses owned held e =
      let (v, d, l, receipt, _, _, _, _, _, hr, _) = settle_session_parts rt a args tx w r e in
      prefunded_receipt (receipt_update rt a args tx v) (w.receipts a.settlement_record) receipt
        (λ payer lamports space owner.
          refuses payer (w.receipts a.settlement_record) lamports space owner held)
        owned hr
