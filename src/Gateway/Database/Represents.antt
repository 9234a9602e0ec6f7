-- ===== src/Gateway/Database/Represents.antt =====
-- The tables as a representation of the tracker's map of records: what each operation of the
-- database store does to the map that the tables stand for.
use agentpay.Prelude.{
  ℕ, ◌≡◌, inl, inr, refl, sym, ap, ◌∙◌, subst, Option, none, some, ok, arith, if◌then◌else◌, ◌==◌,
  ==_iff, Bool-cases, Option-cases, some-eq,
}
use agentpay.Prelude.Bytes.{Bytes, bytes_eq, bytes_eq_sound, bytes_eq_refl}
use agentpay.Program.Runtime.{update}
use agentpay.Gateway.State.{SessionRecord, Sessions}
use agentpay.Gateway.Keyed.{find}
use agentpay.Gateway.Database.{SessionRow, TicketRow, Tables, row_to_record}

module _ (to_base58 : ℕ → Bytes) (parse_base58 : Bytes → Option ℕ) where
  -- A session's rows, and its record: no row and no ticket for a session that is not tracked.
  abbrev pub Row : ℕ → Option SessionRow → Option TicketRow → Option SessionRecord → Type 0
  Row k none ticket none = ticket ≡ none
  Row k none ticket (some r) = ⊥
  Row k (some row) ticket none = ⊥
  Row k (some row) ticket (some r) = row_to_record parse_base58 (to_base58 k) row ticket ≡ ok r

  -- The tables stand for the map.
  abbrev pub Represents : Tables → Sessions → Type 0
  Represents t m =
      (k : ℕ) → Row k (find (to_base58 k) t.sessions) (find (to_base58 k) t.claim_tickets) (m k)

module _ (to_base58 : ℕ → Bytes) (parse_base58 : Bytes → Option ℕ)
    (roundtrip : (k : ℕ) → parse_base58 (to_base58 k) ≡ some k) where
  pub key_eq : (j k : ℕ) → bytes_eq (to_base58 j) (to_base58 k) ≡ (j == k)
  key_eq j k = elim (Bool-cases (j == k)) [
    | inl same ↦ rw (same, (==_iff j k).0 same) (bytes_eq_refl (to_base58 k))
    | inr other ↦ elim (Bool-cases (bytes_eq (to_base58 j) (to_base58 k))) [
      | inl equal ↦
          let j_is_k : j ≡ k = some-eq (
            sym (roundtrip j)
            ∙ ap parse_base58 (bytes_eq_sound (to_base58 j) (to_base58 k) equal)
            ∙ roundtrip k) in
          absurd (ground (arith, (==_iff j k).1 j_is_k))
      | inr distinct ↦ ground arith
    ]
  ]

  -- The rows of one session are replaced.
  pub Represents-change :
      (t t' : Tables) (m : Sessions) (k : ℕ) (row : Option SessionRow) (ticket : Option TicketRow)
      (r : Option SessionRecord)
      → Represents to_base58 parse_base58 t m
      → ((j : ℕ)
          → find (to_base58 j) t'.sessions
            ≡ (if j == k then row else find (to_base58 j) t.sessions))
      → ((j : ℕ)
          → find (to_base58 j) t'.claim_tickets
            ≡ (if j == k then ticket else find (to_base58 j) t.claim_tickets))
      → Row to_base58 parse_base58 k row ticket r
      → Represents to_base58 parse_base58 t' (update m k r)
  Represents-change t t' m k row ticket r rep rows tickets h j =
      rw (rows j, tickets j)
        (elim (Bool-cases (j == k)) [
          | inl same ↦ rw same (
              subst (λ (i : ℕ). Row to_base58 parse_base58 i row ticket r)
                (sym ((==_iff j k).0 same)) h)
          | inr other ↦ rw other (rep j)
        ])

  pub at_key :
      {A : Type 0} (f : Bytes → A) (j k : ℕ)
      → f (to_base58 j) ≡ (if j == k then f (to_base58 k) else f (to_base58 j))
  at_key f j k = elim (Bool-cases (j == k)) [
    | inl same ↦ rw (same, (==_iff j k).0 same) refl
    | inr other ↦ rw other refl
  ]

  pub row_found :
      (t : Tables) (m : Sessions) (k : ℕ) (row : SessionRow)
      → Represents to_base58 parse_base58 t m
      → find (to_base58 k) t.sessions ≡ some row
      → (r : SessionRecord) × (m k ≡ some r)
        × (row_to_record parse_base58 (to_base58 k) row (find (to_base58 k) t.claim_tickets) ≡ ok r)
  row_found t m k row rep e = elim (Option-cases (m k)) [
    | inl absent ↦ absurd (rw (e, absent) at (rep k))
    | inr (r, present) ↦ (r, present, rw (e, present) at (rep k))
  ]

  pub row_missing :
      (t : Tables) (m : Sessions) (k : ℕ)
      → Represents to_base58 parse_base58 t m
      → find (to_base58 k) t.sessions ≡ none
      → (m k ≡ none) × (find (to_base58 k) t.claim_tickets ≡ none)
  row_missing t m k rep e = elim (Option-cases (m k)) [
    | inl absent ↦ (absent, rw (e, absent) at (rep k))
    | inr (r, present) ↦ absurd (rw (e, present) at (rep k))
  ]
