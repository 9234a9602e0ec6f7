-- ===== src/Gateway/Auth.antt =====
-- The control plane's credentials, gateway/src/auth.rs. SHA-256 is a parameter that gives 32 bytes.
pub mod Secrets
pub mod Admission
use Prim.Native.Nat.{bit_or, bit_xor}
use agentpay.Prelude.{
  ℕ, ◌+◌, ◌/◌, ◌%◌, Bool, true, false, ◌||◌, Option, none, some, List, [], ◌∷◌, ◌++◌, ltb, ◌==◌,
  if◌then◌else◌, Result, ok, err,
}
use agentpay.Prelude.Int.{ℤ}
use agentpay.Prelude.Bytes.{Bytes, codes, bytes_eq}
use agentpay.Gateway.Policy.{trim_start, trim_end, is_whitespace}
use agentpay.Gateway.Reason.{ReasonCode, err_unauthorized}
use agentpay.Gateway.Control.{Control, OperatorRecord}
use agentpay.Gateway.Control.Operators.{operator_by_token_hash, touch_operator}
use agentpay.Gateway.Admin.{Operator}

abbrev pub shared_token_operator : Bytes
shared_token_operator = codes "op_shared_token"

-- `strip_prefix`
unfoldable pub strip_prefix : Bytes → Bytes → Option Bytes
strip_prefix [] s = some s
strip_prefix (p ∷ ps) [] = none
strip_prefix (p ∷ ps) (c ∷ s) = let rest = strip_prefix ps s in if p == c then rest else none

abbrev pub or_else : Option Bytes → Option Bytes → Option Bytes
or_else none b = b
or_else (some a) b = some a

abbrev pub nonempty : Bytes → Option Bytes
nonempty [] = none
nonempty (c ∷ s) = some (c ∷ s)

unfoldable pub bearer : Bytes → Option Bytes
bearer raw =
    elim (or_else (strip_prefix (codes "Bearer ") raw) (strip_prefix (codes "bearer ") raw)) [
      | none ↦ none
      | some rest ↦ nonempty (trim_end is_whitespace (trim_start is_whitespace rest))
    ]

-- The loop over the two digests.
unfoldable pub difference : List ℕ → List ℕ → ℕ → ℕ
difference [] ys diff = diff
difference (x ∷ xs) [] diff = diff
difference (x ∷ xs) (y ∷ ys) diff = difference xs ys (bit_or diff (bit_xor x y))

abbrev pub hex_digit : ℕ → ℕ
hex_digit n = if ltb n 10 then 48 + n else 87 + n

abbrev pub hex : List ℕ → Bytes
hex [] = []
hex (b ∷ bs) = hex_digit (b / 16) ∷ hex_digit (b % 16) ∷ hex bs

-- The two headers of a request, as texts where they are present and readable.
pub record Headers : Type 0 where
  pub authorization : Option Bytes
  pub admin_token : Option Bytes

unfoldable pub presented : Headers → Option Bytes
presented h = or_else (elim h.authorization [ none ↦ none | some raw ↦ bearer raw ]) h.admin_token

abbrev pub loopback_operator : Operator
loopback_operator = record {
  operator_id = shared_token_operator;
  label = codes "Unauthenticated (loopback)";
  workspace_id = none;
  role = codes "owner";
}

abbrev pub shared_operator : Operator
shared_operator = record {
  operator_id = shared_token_operator;
  label = codes "Shared admin token";
  workspace_id = none;
  role = codes "owner";
}

abbrev pub operator_of : OperatorRecord → Operator
operator_of op = record {
  operator_id = op.operator_id;
  label = op.label;
  workspace_id = op.workspace_id;
  role = op.role;
}

unfoldable pub is_owner : Operator → Bool
is_owner o = bytes_eq o.role (codes "owner") || bytes_eq o.role (codes "operator")

module _ (digest : Bytes → List ℕ) where
  unfoldable pub secret_eq : Bytes → Bytes → Bool
  secret_eq shown expected = difference (digest shown) (digest expected) 0 == 0

  unfoldable pub token_hash : Bytes → Bytes
  token_hash token = hex (digest token)

  -- The lookup of a token that is not the shared one: `none` is no database, and `fails` says
  -- whether the query fails. The second query, whose outcome is ignored, stamps the credential.
  unfoldable pub per_operator :
      (ℕ → Bool) → Option Control → Bytes → ℤ → Result ReasonCode Operator × Option Control
  per_operator fails none token now = (err err_unauthorized, none)
  per_operator fails (some t) token now =
      if fails 0
      then (err err_unauthorized, some t)
      else elim (operator_by_token_hash (token_hash token) t) [
        | none ↦ (err err_unauthorized, some t)
        | some op ↦
            (ok (operator_of op), some (if fails 1 then t else touch_operator op.operator_id now t))
      ]

  -- With the configured token, and the token that was presented.
  unfoldable pub require_admin :
      (ℕ → Bool)
      → Option Bytes
      → Option Control
      → Headers
      → ℤ
      → Result ReasonCode Operator × Option Control
  require_admin fails none db h now = (ok loopback_operator, db)
  require_admin fails (some expected) db h now = elim (presented h) [
    | none ↦ (err err_unauthorized, db)
    | some token ↦
        if secret_eq token expected
        then (ok shared_operator, db)
        else per_operator fails db token now
  ]
