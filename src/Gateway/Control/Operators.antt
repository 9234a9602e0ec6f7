-- ===== src/Gateway/Control/Operators.antt =====
-- The operators' credentials, gateway/src/control_db.rs.
use agentpay.Prelude.{
  Bool, true, false, Option, none, some, List, [], ◌∷◌, ◌++◌, ◌&&◌, ◌||◌, not, if◌then◌else◌,
  Result, ok, err,
}
use agentpay.Prelude.Int.{ℤ}
use agentpay.Prelude.Bytes.{Bytes, bytes_eq, codes}
use agentpay.Gateway.Evidence.{DbError, sqlx_error}
use agentpay.Gateway.Keyed.{Table, find, set_row, insert_row}
use agentpay.Gateway.Control.{OperatorRow, OperatorRecord, Control}
use agentpay.Gateway.Control.Agents.{is_found}

abbrev pub has_token_hash : Bytes → Table OperatorRow → Bool
has_token_hash token_hash [] = false
has_token_hash token_hash ((k, row) ∷ rows) =
    bytes_eq token_hash row.token_hash || has_token_hash token_hash rows

-- The columns that `create_operator` leaves out take their defaults.
abbrev pub new_operator_row : Bytes → Bytes → ℤ → OperatorRow
new_operator_row label token_hash now = record {
  label = label;
  token_hash = token_hash;
  role = codes "operator";
  workspace_id = none;
  enabled = true;
  created_at = now;
  last_used_at = none;
}

unfoldable pub create_operator : Bytes → Bytes → Bytes → ℤ → Control → Bool × Control
create_operator operator_id label token_hash now t =
    if is_found (find operator_id t.operators) || has_token_hash token_hash t.operators
    then (false, t)
    else (
      true,
      record t {
        operators = insert_row operator_id (new_operator_row label token_hash now) t.operators;
      },
    )

abbrev pub operator_from_row : Bytes → OperatorRow → OperatorRecord
operator_from_row operator_id row = record {
  operator_id = operator_id;
  label = row.label;
  role = row.role;
  workspace_id = row.workspace_id;
  enabled = row.enabled;
  created_at = row.created_at;
  last_used_at = row.last_used_at;
}

-- `WHERE token_hash = $1 AND enabled = true`
unfoldable pub enabled_operator : Bytes → Table OperatorRow → Option OperatorRecord
enabled_operator token_hash [] = none
enabled_operator token_hash ((k, row) ∷ rows) =
    if bytes_eq token_hash row.token_hash && row.enabled
    then some (operator_from_row k row)
    else enabled_operator token_hash rows

unfoldable pub operator_by_token_hash : Bytes → Control → Option OperatorRecord
operator_by_token_hash token_hash t = enabled_operator token_hash t.operators

unfoldable pub listed_operators : Table OperatorRow → List OperatorRecord
listed_operators [] = []
listed_operators ((k, row) ∷ rows) = listed_operators rows ++ (operator_from_row k row ∷ [])

-- The newest first.
unfoldable pub list_operators : Control → List OperatorRecord
list_operators t = listed_operators t.operators

unfoldable pub set_operator_enabled : Bytes → Bool → Control → Bool × Control
set_operator_enabled operator_id enabled t = (
  is_found (find operator_id t.operators),
  record t {
    operators = set_row operator_id (λ row. record row { enabled = enabled }) t.operators;
  },
)

-- The hash of one row among the others: `token_hash` is UNIQUE.
abbrev pub hash_is_taken : Bytes → Bytes → Table OperatorRow → Bool
hash_is_taken operator_id token_hash [] = false
hash_is_taken operator_id token_hash ((k, row) ∷ rows) =
    (bytes_eq token_hash row.token_hash && not (bytes_eq operator_id k))
    || hash_is_taken operator_id token_hash rows

unfoldable pub rotate_operator_token : Bytes → Bytes → Control → Result DbError (Bool × Control)
rotate_operator_token operator_id new_token_hash t = elim (find operator_id t.operators) [
  | none ↦ ok (false, t)
  | some row ↦
      if row.enabled
      then (if hash_is_taken operator_id new_token_hash t.operators
          then err sqlx_error
          else ok (
            true,
            record t {
              operators =
                  set_row operator_id (λ r. record r { token_hash = new_token_hash }) t.operators;
            },
          ))
      else ok (false, t)
]

unfoldable pub touch_operator : Bytes → ℤ → Control → Control
touch_operator operator_id now t = record t {
  operators = set_row operator_id (λ row. record row { last_used_at = some now }) t.operators;
}
