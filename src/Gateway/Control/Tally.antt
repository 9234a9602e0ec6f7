-- ===== src/Gateway/Control/Tally.antt =====
-- Counting the rows of `approvals` under its primary key: what each statement does to a count.
use agentpay.Prelude.{
  ℕ, ◌+◌, ◌≡◌, refl, sym, ap, ◌∙◌, inl, inr, Bool, false, none, some, [], ◌∷◌, arith, Bool-cases,
  if◌then◌else◌, some-eq, none-ne-some,
}
use agentpay.Prelude.Int.{ℤ}
use agentpay.Prelude.Bytes.{Bytes, bytes_eq, bytes_eq_sound}
use agentpay.Gateway.Keyed.{
  Table, find, set_row, insert_row, find-set_row, find-insert_row, bytes_eq_sym_true,
}
use agentpay.Gateway.Control.{ApprovalRow, approved}
use agentpay.Gateway.Control.Approvals.{is_for, consume_oldest}

-- The primary key.
abbrev pub IsKeyed {ℓ} : {R : Type ℓ} → Table R → Type ℓ
IsKeyed [] = Unit
IsKeyed ((k, row) ∷ rows) = (find k rows ≡ none) × IsKeyed rows

abbrev pub tally : (ApprovalRow → Bool) → Table ApprovalRow → ℕ
tally p [] = 0
tally p ((k, row) ∷ rows) = (if p row then 1 else 0) + tally p rows

pub set_row_missing_tally :
    (p : ApprovalRow → Bool) (key : Bytes) (f : ApprovalRow → ApprovalRow)
    (rows : Table ApprovalRow)
    → find key rows ≡ none
    → tally p (set_row key f rows) ≡ tally p rows
unfolding find set_row
set_row_missing_tally p key f [] e = refl
set_row_missing_tally p key f ((k, row) ∷ rows) e = elim (Bool-cases (bytes_eq key k)) [
  | inl same ↦ absurd (none-ne-some (sym (rw same at e)))
  | inr other ↦ rw other (ground (arith, set_row_missing_tally p key f rows (rw other at e)))
]

pub set_row-tally :
    (p : ApprovalRow → Bool) (key : Bytes) (f : ApprovalRow → ApprovalRow)
    (rows : Table ApprovalRow) (old : ApprovalRow)
    → IsKeyed rows
    → find key rows ≡ some old
    → tally p (set_row key f rows) + (if p old then 1 else 0)
      ≡ tally p rows + (if p (f old) then 1 else 0)
unfolding find set_row
set_row-tally p key f [] old keyed e = cc
set_row-tally p key f ((k, row) ∷ rows) old (unique, keyed) e = elim (Bool-cases (bytes_eq key k)) [
  | inl same ↦
      let old_is : row ≡ old = some-eq (rw same at e) in
      let missing : find key rows ≡ none =
        ap (λ (x : Bytes). find x rows) (bytes_eq_sound key k same) ∙ unique in
      rw (same, old_is) (ground (arith, set_row_missing_tally p key f rows missing))
  | inr other ↦ rw other (ground (arith, set_row-tally p key f rows old keyed (rw other at e)))
]

pub insert_row-tally :
    (p : ApprovalRow → Bool) (key : Bytes) (row : ApprovalRow) (rows : Table ApprovalRow)
    → tally p (insert_row key row rows) ≡ tally p rows + (if p row then 1 else 0)
insert_row-tally p key row [] = omega arith
insert_row-tally p key row ((k, r) ∷ rows) = ground (arith, insert_row-tally p key row rows)

-- The keys stay apart.
find-set_row-none :
    (j key : Bytes) (f : ApprovalRow → ApprovalRow) (rows : Table ApprovalRow)
    → find j rows ≡ none
    → find j (set_row key f rows) ≡ none
find-set_row-none j key f rows e = rw (find-set_row j key f rows, e) (ground arith)

pub set_row-IsKeyed :
    (key : Bytes) (f : ApprovalRow → ApprovalRow) (rows : Table ApprovalRow)
    → IsKeyed rows
    → IsKeyed (set_row key f rows)
unfolding set_row
set_row-IsKeyed key f [] keyed = tt
set_row-IsKeyed key f ((k, row) ∷ rows) (unique, keyed) = elim (Bool-cases (bytes_eq key k)) [
  | inl same ↦ rw same (find-set_row-none k key f rows unique, set_row-IsKeyed key f rows keyed)
  | inr other ↦ rw other (find-set_row-none k key f rows unique, set_row-IsKeyed key f rows keyed)
]

bytes_eq_sym_false : (a b : Bytes) → bytes_eq a b ≡ false → bytes_eq b a ≡ false
bytes_eq_sym_false a b h = elim (Bool-cases (bytes_eq b a)) [
  | inl same ↦ absurd (ground (arith, bytes_eq_sym_true b a same, h))
  | inr other ↦ other
]

pub insert_row-IsKeyed :
    (key : Bytes) (row : ApprovalRow) (rows : Table ApprovalRow)
    → IsKeyed rows
    → find key rows ≡ none
    → IsKeyed (insert_row key row rows)
unfolding find
insert_row-IsKeyed key row [] keyed e = (refl, tt)
insert_row-IsKeyed key row ((k, r) ∷ rows) (unique, keyed) e = elim (Bool-cases (bytes_eq key k)) [
  | inl same ↦ absurd (none-ne-some (sym (rw same at e)))
  | inr other ↦ (
    rw (find-insert_row k key row rows, unique, bytes_eq_sym_false key k other) refl,
    insert_row-IsKeyed key row rows keyed (rw other at e),
  )
]

find-consume_oldest :
    (j agent_id resource : Bytes) (price : ℤ) (rows : Table ApprovalRow)
    → find j rows ≡ none
    → find j (consume_oldest agent_id resource price rows).1 ≡ none
unfolding find consume_oldest
find-consume_oldest j agent_id resource price [] e = refl
find-consume_oldest j agent_id resource price ((k, r) ∷ rows) e =
    ground (arith, find-consume_oldest j agent_id resource price rows)

pub consume_oldest-IsKeyed :
    (agent_id resource : Bytes) (price : ℤ) (rows : Table ApprovalRow)
    → IsKeyed rows
    → IsKeyed (consume_oldest agent_id resource price rows).1
unfolding consume_oldest
consume_oldest-IsKeyed agent_id resource price [] keyed = tt
consume_oldest-IsKeyed agent_id resource price ((k, r) ∷ rows) (unique, keyed) =
    elim (Bool-cases (is_for agent_id resource price approved r)) [
      | inl hit ↦ rw hit (unique, keyed)
      | inr miss ↦ rw miss (
        find-consume_oldest k agent_id resource price rows unique,
        consume_oldest-IsKeyed agent_id resource price rows keyed,
      )
    ]
