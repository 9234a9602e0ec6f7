-- ===== src/Gateway/Keyed.antt =====
-- A table with a text for its primary key, in the order of insertion, and what a query makes of it.
use agentpay.Prelude.{
  ◌≡◌, refl, arith, true, Option, none, some, List, [], ◌∷◌, ◌++◌, if◌then◌else◌,
}
use agentpay.Prelude.Bytes.{Bytes, bytes_eq, bytes_eq_sound, bytes_eq_refl}

abbrev pub Table {ℓ} : Type ℓ → Type ℓ
Table R = List (Bytes × R)

-- `SELECT .. WHERE key = $1`
unfoldable pub find {ℓ} : {R : Type ℓ} → Bytes → Table R → Option R
find key [] = none
find key ((k, row) ∷ rows) = if bytes_eq key k then some row else find key rows

-- `UPDATE .. WHERE key = $1`
unfoldable pub set_row {ℓ} : {R : Type ℓ} → Bytes → (R → R) → Table R → Table R
set_row key f [] = []
set_row key f ((k, row) ∷ rows) =
    let rest = set_row key f rows in if bytes_eq key k then (k, f row) ∷ rest else (k, row) ∷ rest

-- `INSERT`
abbrev pub insert_row {ℓ} : {R : Type ℓ} → Bytes → R → Table R → Table R
insert_row key row rows = rows ++ ((key, row) ∷ [])

abbrev pub map_row {ℓ} : {R : Type ℓ} → (R → R) → Option R → Option R
map_row f none = none
map_row f (some row) = some (f row)

abbrev pub or_else {ℓ} : {R : Type ℓ} → Option R → Option R → Option R
or_else none b = b
or_else (some a) b = some a

pub bytes_eq_sym_true : (a b : Bytes) → bytes_eq a b ≡ true → bytes_eq b a ≡ true
bytes_eq_sym_true a b h = rw (bytes_eq_sound a b h) (bytes_eq_refl b)

pub find-set_row {ℓ} :
    {R : Type ℓ} (key j : Bytes) (f : R → R) (rows : Table R)
    → find key (set_row j f rows)
      ≡ (if bytes_eq key j then map_row f (find key rows) else find key rows)
unfolding find set_row
find-set_row key j f [] = ground arith
find-set_row key j f ((k, row) ∷ rows) = ground (
  arith,
  find-set_row key j f rows,
  bytes_eq_sound key j,
  bytes_eq_sound j k,
  bytes_eq_sound key k,
  bytes_eq_refl key,
  bytes_eq_refl j,
)

pub find-insert_row {ℓ} :
    {R : Type ℓ} (key j : Bytes) (row : R) (rows : Table R)
    → find key (insert_row j row rows)
      ≡ or_else (find key rows) (if bytes_eq key j then some row else none)
unfolding find
find-insert_row key j row [] = refl
find-insert_row key j row ((k, r) ∷ rows) = ground (arith, find-insert_row key j row rows)
