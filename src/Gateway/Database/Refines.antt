-- ===== src/Gateway/Database/Refines.antt =====
-- Each operation of the database store against the same operation on the map that its tables stand
-- for.
use agentpay.Prelude.{
  ℕ, ◌≡◌, ◌⊎◌, inl, inr, refl, Bool, true, false, Option, none, some, ok, err, arith, Bool-cases,
  Option-cases,
}
use agentpay.Prelude.Int.{ℤ, pos}
use agentpay.Prelude.Bytes.{Bytes}
use agentpay.Program.Runtime.{update}
use agentpay.Gateway.State.{SessionRecord, Sessions, unavailable, already_open, unknown}
use agentpay.Gateway.Keyed.{find, find-set_row, find-insert_row, set_row, insert_row}
use agentpay.Gateway.Database.{
  SessionRow, TicketRow, Tables, row_to_record, session_row, store_open, store_mark_settled,
  store_mark_chain_verified, save_session, mark_session_settled, settle_row, verify_row,
  ticket_columns,
}
use agentpay.Gateway.Database.Rows.{Decodes-row_to_record, row_to_record-Decodes}
use agentpay.Gateway.Database.Represents.{
  Represents, key_eq, Represents-change, at_key, row_missing,
}

-- A record as `open` is given it: nothing claimed, not settled.
pub record IsNew (r : SessionRecord) : Type 0 where
  pub unclaimed : r.cumulative_accepted ≡ 0
  pub no_nonce : r.last_nonce ≡ none
  pub no_claim : r.highest_claim ≡ none
  pub unsettled : r.is_settled ≡ false

module _ (to_base58 : ℕ → Bytes) where
  abbrev pub opened_tables : SessionRecord → Tables → Tables
  opened_tables r t = record t {
    sessions =
        insert_row (to_base58 r.session) (session_row to_base58 r (pos r.deposited_total))
          t.sessions;
  }

  pub open_missing :
      (fails : ℕ → Bool) (r : SessionRecord) (t : Tables)
      → find (to_base58 r.session) t.sessions ≡ none
      → (store_open to_base58 fails r t ≡ err unavailable)
        ⊎ (store_open to_base58 fails r t ≡ ok (opened_tables r t))
  unfolding store_open save_session
  open_missing fails r t e = ground arith

  pub open_found :
      (fails : ℕ → Bool) (r : SessionRecord) (t : Tables) (row : SessionRow)
      → find (to_base58 r.session) t.sessions ≡ some row
      → (store_open to_base58 fails r t ≡ err unavailable)
        ⊎ (store_open to_base58 fails r t ≡ err already_open)
  unfolding store_open save_session
  open_found fails r t row e = ground arith

  pub settled_cases :
      (fails : ℕ → Bool) (k : ℕ) (now : ℤ) (t : Tables)
      → (store_mark_settled to_base58 fails k now t ≡ err unavailable)
        ⊎ (store_mark_settled to_base58 fails k now t
            ≡ ok (record t { sessions = set_row (to_base58 k) (settle_row now) t.sessions }))
  unfolding store_mark_settled mark_session_settled
  settled_cases fails k now t = ground arith

  pub verified_cases :
      (fails : ℕ → Bool) (k : ℕ) (t : Tables)
      → (store_mark_chain_verified to_base58 fails k t ≡ err unavailable)
        ⊎ ((find (to_base58 k) t.sessions ≡ none)
            × (store_mark_chain_verified to_base58 fails k t ≡ err unknown))
        ⊎ ((row : SessionRow) × (find (to_base58 k) t.sessions ≡ some row)
            × (store_mark_chain_verified to_base58 fails k t
                ≡ ok (record t { sessions = set_row (to_base58 k) verify_row t.sessions })))
  unfolding store_mark_chain_verified
  verified_cases fails k t = elim (Option-cases (find (to_base58 k) t.sessions)) [
    | inl e ↦ elim (Bool-cases (fails 0)) [
      | inl f ↦ inl (rw f refl)
      | inr f ↦ inr (inl (e, rw (f, e, store_mark_chain_verified) refl))
    ]
    | inr (row, e) ↦ elim (Bool-cases (fails 0)) [
      | inl f ↦ inl (rw f refl)
      | inr f ↦ inr (inr (row, e, rw (f, e, store_mark_chain_verified) refl))
    ]
  ]

module _ (to_base58 : ℕ → Bytes) (parse_base58 : Bytes → Option ℕ)
    (roundtrip : (k : ℕ) → parse_base58 (to_base58 k) ≡ some k) where
  opened_row :
      (r : SessionRecord)
      → IsNew r
      → row_to_record parse_base58
          (to_base58 r.session)
          (session_row to_base58 r (pos r.deposited_total))
          none
        ≡ ok r
  unfolding ticket_columns
  opened_row r new =
      Decodes-row_to_record parse_base58 (to_base58 r.session)
        (session_row to_base58 r (pos r.deposited_total)) none r
        (ground
          (arith, roundtrip r.session, roundtrip r.agent, roundtrip r.provider, roundtrip r.mint))

  pub opened-Represents :
      (t : Tables) (m : Sessions) (r : SessionRecord)
      → Represents to_base58 parse_base58 t m
      → IsNew r
      → find (to_base58 r.session) t.sessions ≡ none
      → Represents to_base58 parse_base58
          (opened_tables to_base58 r t)
          (update m r.session (some r))
  opened-Represents t m r rep new e =
      let (absent, no_ticket) = row_missing to_base58 parse_base58 roundtrip t m r.session rep e in
      Represents-change to_base58 parse_base58 roundtrip t (opened_tables to_base58 r t) m r.session
        (some (session_row to_base58 r (pos r.deposited_total))) none (some r) rep
        (λ j. ground (
          arith,
          e,
          key_eq to_base58 parse_base58 roundtrip j r.session,
          find-insert_row (to_base58 j) (to_base58 r.session)
              (session_row to_base58 r (pos r.deposited_total)) t.sessions,
          at_key to_base58 parse_base58 roundtrip (λ (x : Bytes). find x t.sessions) j r.session,
        ))
        (λ j. ground (
          arith,
          no_ticket,
          at_key to_base58 parse_base58 roundtrip (λ (x : Bytes). find x t.claim_tickets) j
              r.session,
        ))
        (opened_row r new)

  -- An `UPDATE` of one session's row.
  pub set_row-Represents :
      (t : Tables) (m : Sessions) (k : ℕ) (f : SessionRow → SessionRow) (row : SessionRow)
      (r : SessionRecord)
      → Represents to_base58 parse_base58 t m
      → find (to_base58 k) t.sessions ≡ some row
      → row_to_record parse_base58 (to_base58 k) (f row) (find (to_base58 k) t.claim_tickets) ≡ ok r
      → Represents to_base58 parse_base58
          (record t { sessions = set_row (to_base58 k) f t.sessions })
          (update m k (some r))
  set_row-Represents t m k f row r rep e h =
      Represents-change to_base58 parse_base58 roundtrip t
        (record t { sessions = set_row (to_base58 k) f t.sessions }) m k (some (f row))
        (find (to_base58 k) t.claim_tickets) (some r) rep
        (λ j. ground (
          arith,
          e,
          key_eq to_base58 parse_base58 roundtrip j k,
          find-set_row (to_base58 j) (to_base58 k) f t.sessions,
          at_key to_base58 parse_base58 roundtrip (λ (x : Bytes). find x t.sessions) j k,
        ))
        (λ j. at_key to_base58 parse_base58 roundtrip (λ (x : Bytes). find x t.claim_tickets) j k) h

  -- An `UPDATE` that meets no row.
  pub set_row_missing :
      (t : Tables) (m : Sessions) (k : ℕ) (f : SessionRow → SessionRow)
      → Represents to_base58 parse_base58 t m
      → find (to_base58 k) t.sessions ≡ none
      → Represents to_base58 parse_base58
          (record t { sessions = set_row (to_base58 k) f t.sessions })
          m
  set_row_missing t m k f rep e j =
      let same : find (to_base58 j) (set_row (to_base58 k) f t.sessions)
          ≡ find (to_base58 j) t.sessions =
        ground (
          arith,
          e,
          key_eq to_base58 parse_base58 roundtrip j k,
          find-set_row (to_base58 j) (to_base58 k) f t.sessions,
          at_key to_base58 parse_base58 roundtrip (λ (x : Bytes). find x t.sessions) j k,
        ) in
      rw same (rep j)

  pub settled_row :
      (k : ℕ) (now : ℤ) (row : SessionRow) (ticket : Option TicketRow) (r : SessionRecord)
      → row_to_record parse_base58 (to_base58 k) row ticket ≡ ok r
      → row_to_record parse_base58 (to_base58 k) (settle_row now row) ticket
        ≡ ok (record r { is_settled = true })
  settled_row k now row ticket r h =
      Decodes-row_to_record parse_base58 (to_base58 k) (settle_row now row) ticket
        (record r { is_settled = true })
        (ground (arith, row_to_record-Decodes parse_base58 (to_base58 k) row ticket r h))

  pub verified_row :
      (k : ℕ) (row : SessionRow) (ticket : Option TicketRow) (r : SessionRecord)
      → row_to_record parse_base58 (to_base58 k) row ticket ≡ ok r
      → row_to_record parse_base58 (to_base58 k) (verify_row row) ticket
        ≡ ok (record r { chain_verified = true })
  verified_row k row ticket r h =
      Decodes-row_to_record parse_base58 (to_base58 k) (verify_row row) ticket
        (record r { chain_verified = true })
        (ground (arith, row_to_record-Decodes parse_base58 (to_base58 k) row ticket r h))
