-- ===== src/Gateway/Auth/Admission.antt =====
-- Who is let into the control plane.
use agentpay.Prelude.{
  ◌≢◌, ◌++◌, ◌==◌, ==_iff, none-ne-some, In, ℕ, ◌≡◌, ◌⊎◌, inl, inr, refl, Bool, true, Option, none,
  some, List, [], ◌∷◌, ◌&&◌, sym, ap, ◌∙◌, some-eq, ok-injective, Result, ok, err, arith, length,
  Bool-cases, Option-cases,
}
use agentpay.Prelude.Int.{ℤ}
use agentpay.Prelude.Bytes.{codes, Bytes, bytes_eq, bytes_eq_sound}
use agentpay.Gateway.Keyed.{Table}
use agentpay.Gateway.Reason.{ReasonCode, err_unauthorized}
use agentpay.Gateway.Control.{Control, OperatorRecord, OperatorRow}
use agentpay.Gateway.Control.Operators.{operator_by_token_hash, enabled_operator, operator_from_row}
use agentpay.Gateway.Admin.{Operator}
use agentpay.Gateway.Policy.{trim_start, trim_end, is_whitespace}
use agentpay.Gateway.Auth.{
  strip_prefix, or_else, nonempty, bearer, hex, Headers, presented, secret_eq, token_hash,
  per_operator, require_admin, operator_of,
}
use agentpay.Gateway.Auth.Secrets.{secret_eq_iff}

-- A row of an enabled operator with a hash, and the record that is made of it.
abbrev Holds : Bytes → Table OperatorRow → OperatorRecord → Type 0
Holds hash rows op =
    (k : Bytes) × (row : OperatorRow) × In (k, row) rows
    × (row.token_hash ≡ hash)
    × (row.enabled ≡ true)
    × (op ≡ operator_from_row k row)

enabled_operator-Holds :
    (hash : Bytes) (rows : Table OperatorRow) (op : OperatorRecord)
    → enabled_operator hash rows ≡ some op
    → Holds hash rows op
unfolding enabled_operator
enabled_operator-Holds hash [] op h = absurd (cc)
enabled_operator-Holds hash ((k, row) ∷ rows) op h =
    elim (Bool-cases (bytes_eq hash row.token_hash && row.enabled)) [
      | inl hit ↦ (
        k,
        row,
        inl refl,
        sym (bytes_eq_sound hash row.token_hash (ground (arith, hit))),
        ground (arith, hit),
        sym (some-eq (rw hit at h)),
      )
      | inr miss ↦
          let (j, found, at, same, on, made) = enabled_operator-Holds hash rows op (rw miss at h) in
          (j, found, inr at, same, on, made)
    ]

-- The credential that was good: the configured token's digest, or the hash in the row of an enabled
-- operator, with whose id, label, workspace and role the request goes on.
abbrev pub Accepted : (Bytes → List ℕ) → Bytes → Bytes → Option Control → Operator → Type 0
Accepted digest token expected db o =
    ((digest token ≡ digest expected)
      × (o ≡ record {
        operator_id = codes "op_shared_token";
        label = codes "Shared admin token";
        workspace_id = none;
        role = codes "owner";
      }))
    ⊎ ((t : Control) × (k : Bytes) × (row : OperatorRow) × (db ≡ some t)
        × In (k, row) t.operators
        × (row.token_hash ≡ hex (digest token))
        × (row.enabled ≡ true)
        × (o ≡ record {
          operator_id = k;
          label = row.label;
          workspace_id = row.workspace_id;
          role = row.role;
        }))

-- The token that a request shows: what follows the scheme in its authorization, without blanks around
-- it and not empty, or the other header.
abbrev pub Shows : Headers → Bytes → Type 0
Shows h token =
    ((raw : Bytes) × (rest : Bytes) × (h.authorization ≡ some raw)
      × ((raw ≡ codes "Bearer " ++ rest) ⊎ (raw ≡ codes "bearer " ++ rest))
      × (token ≡ trim_end is_whitespace (trim_start is_whitespace rest))
      × (token ≢ []))
    ⊎ (h.admin_token ≡ some token)

strip_prefix-append : (p s r : Bytes) → strip_prefix p s ≡ some r → s ≡ p ++ r
unfolding strip_prefix
strip_prefix-append [] s r h = some-eq h
strip_prefix-append (x ∷ p) [] r h = absurd (cc)
strip_prefix-append (x ∷ p) (c ∷ s) r h = elim (Bool-cases (x == c)) [
  | inl same ↦ rw ((==_iff x c).0 same, strip_prefix-append p s r (rw same at h)) refl
  | inr other ↦ absurd (cc (rw other at h))
]

or_else-cases :
    (a b : Option Bytes) (c : Bytes) → or_else a b ≡ some c → (a ≡ some c) ⊎ (b ≡ some c)
or_else-cases none b c h = inr h
or_else-cases (some a) b c h = inl h

nonempty-eq : (s t : Bytes) → nonempty s ≡ some t → (t ≡ s) × (t ≢ [])
nonempty-eq [] t h = absurd (cc)
nonempty-eq (c ∷ s) t h = (sym (some-eq h), λ e. absurd (cc (some-eq h, e)))

bearer-Shows :
    (h : Headers) (raw token : Bytes)
    → h.authorization ≡ some raw
    → bearer raw ≡ some token
    → Shows h token
unfolding bearer
bearer-Shows h raw token at e =
    elim (Option-cases
      (or_else (strip_prefix (codes "Bearer ") raw) (strip_prefix (codes "bearer ") raw))) [
        | inl neither ↦ absurd (cc (rw (neither, bearer) at e))
        | inr (rest, one) ↦
            let (same, some_byte) =
              nonempty-eq (trim_end is_whitespace (trim_start is_whitespace rest)) token
                (rw (one, bearer) at e) in
            inl (
              raw,
              rest,
              at,
              elim (or_else-cases (strip_prefix (codes "Bearer ") raw)
                  (strip_prefix (codes "bearer ") raw) rest one) [
                    | inl upper ↦ inl (strip_prefix-append (codes "Bearer ") raw rest upper)
                    | inr lower ↦ inr (strip_prefix-append (codes "bearer ") raw rest lower)
                  ],
              same,
              some_byte,
            )
      ]

presented-Shows : (h : Headers) (token : Bytes) → presented h ≡ some token → Shows h token
unfolding presented
presented-Shows h token e = elim (Option-cases h.authorization) [
  | inl absent ↦ inr (rw absent at e)
  | inr (raw, at) ↦ elim (or_else-cases (bearer raw) h.admin_token token (rw at at e)) [
    | inl shown ↦ bearer-Shows h raw token at shown
    | inr other ↦ inr other
  ]
]

-- How a request came to be let in as `o`.
abbrev pub LetIn : (Bytes → List ℕ) → Option Bytes → Option Control → Headers → Operator → Type 0
LetIn digest none db h o = o ≡ record {
  operator_id = codes "op_shared_token";
  label = codes "Unauthenticated (loopback)";
  workspace_id = none;
  role = codes "owner";
}
LetIn digest (some expected) db h o =
    (token : Bytes) × Shows h token × Accepted digest token expected db o

per_operator-Accepted :
    (digest : Bytes → List ℕ) (fails : ℕ → Bool) (db : Option Control) (token expected : Bytes)
    (now : ℤ) (o : Operator)
    → (per_operator digest fails db token now).0 ≡ ok o
    → Accepted digest token expected db o
unfolding per_operator operator_by_token_hash token_hash
per_operator-Accepted digest fails none token expected now o h = absurd (cc (h))
per_operator-Accepted digest fails (some t) token expected now o h = elim (Bool-cases (fails 0)) [
  | inl down ↦ absurd (cc (rw down at h))
  | inr up ↦ elim (Option-cases (operator_by_token_hash (token_hash digest token) t)) [
    | inl unknown ↦ absurd (cc (rw (up, unknown, per_operator) at h))
    | inr (op, e) ↦
        let (k, row, at, same, on, made) =
          enabled_operator-Holds (token_hash digest token) t.operators op e in
        inr (
          t,
          k,
          row,
          refl,
          at,
          same,
          on,
          sym (ok-injective (rw (up, e, per_operator) at h)) ∙ ap operator_of made,
        )
  ]
]

per_operator-refused :
    (digest : Bytes → List ℕ) (fails : ℕ → Bool) (db : Option Control) (token : Bytes) (now : ℤ)
    (e : ReasonCode)
    → (per_operator digest fails db token now).0 ≡ err e
    → e ≡ err_unauthorized
unfolding per_operator
per_operator-refused digest fails none token now e h = cc
per_operator-refused digest fails (some t) token now e h = elim (Bool-cases (fails 0)) [
  | inl down ↦ cc (rw down at h)
  | inr up ↦ elim (Option-cases (operator_by_token_hash (token_hash digest token) t)) [
    | inl unknown ↦ cc (rw (up, unknown, per_operator) at h)
    | inr (op, at) ↦ absurd (cc (rw (up, at, per_operator) at h))
  ]
]

-- What a refusal means: a token is configured, and no token that has its digest was shown.
abbrev pub Refused : (Bytes → List ℕ) → Option Bytes → Headers → ReasonCode → Type 0
Refused digest none h e = ⊥
Refused digest (some expected) h e =
    (e ≡ err_unauthorized)
    × ((token : Bytes) → presented h ≡ some token → digest token ≢ digest expected)

require_admin-LetIn :
    (digest : Bytes → List ℕ) (fails : ℕ → Bool) (configured : Option Bytes) (db : Option Control)
    (h : Headers) (now : ℤ)
    → ((s : Bytes) → length (digest s) ≡ 32)
    → ((o : Operator)
        → (require_admin digest fails configured db h now).0 ≡ ok o
        → LetIn digest configured db h o)
      × ((e : ReasonCode)
          → (require_admin digest fails configured db h now).0 ≡ err e
          → Refused digest configured h e)
unfolding require_admin per_operator
require_admin-LetIn digest fails none db h now sized =
    (λ o done. sym (ok-injective done), λ e bad. absurd (cc (bad)))
require_admin-LetIn digest fails (some expected) db h now sized =
    elim (Option-cases (presented h)) [
      | inl absent ↦ (
        λ o done. absurd (cc (rw (absent, require_admin) at done)),
        λ e bad. (
          cc (rw (absent, require_admin) at bad),
          λ token shown. absurd (none-ne-some (sym absent ∙ shown)),
        ),
      )
      | inr (token, shown) ↦ elim (Bool-cases (secret_eq digest token expected)) [
        | inl same ↦ (
          λ o done. (
            token,
            presented-Shows h token shown,
            inl (
              (secret_eq_iff digest token expected sized).0 same,
              sym (ok-injective (rw (shown, same, require_admin) at done)),
            ),
          ),
          λ e bad. absurd (cc (rw (shown, same, require_admin) at bad)),
        )
        | inr other ↦ (
          λ o done. (
            token,
            presented-Shows h token shown,
            per_operator-Accepted digest fails db token expected now o
                (rw (shown, other, require_admin) at done),
          ),
          λ e bad. (
            per_operator-refused digest fails db token now e
                (rw (shown, other, require_admin) at bad),
            λ t also same. absurd (
                cc (
                  other,
                  (secret_eq_iff digest token expected sized).1
                      (ap digest (some-eq (sym shown ∙ also)) ∙ same),
                )),
          ),
        )
      ]
    ]

-- What a request is told.
abbrev pub Answered :
    (Bytes → List ℕ) → Option Bytes → Option Control → Headers → Result ReasonCode Operator → Type 0
Answered digest configured db h (ok o) = LetIn digest configured db h o
Answered digest configured db h (err e) = Refused digest configured h e

either-Answered :
    (digest : Bytes → List ℕ) (configured : Option Bytes) (db : Option Control) (h : Headers)
    (r : Result ReasonCode Operator)
    → ((o : Operator) → r ≡ ok o → LetIn digest configured db h o)
    → ((e : ReasonCode) → r ≡ err e → Refused digest configured h e)
    → Answered digest configured db h r
either-Answered digest configured db h (ok o) good bad = good o refl
either-Answered digest configured db h (err e) good bad = bad e refl

-- If digests have one length, a request is let into the control plane only where no token is
-- configured, or with a token whose digest is that of the configured one, or whose hash is that of
-- an enabled operator, as whom it then acts; any other is refused as unauthorized, and never one
-- that presents the configured token.
pub require_admin-Answered :
    (digest : Bytes → List ℕ) (fails : ℕ → Bool) (configured : Option Bytes) (db : Option Control)
    (h : Headers) (now : ℤ)
    → ((s : Bytes) → length (digest s) ≡ 32)
    → Answered digest configured db h (require_admin digest fails configured db h now).0
require_admin-Answered digest fails configured db h now sized =
    let (good, bad) = require_admin-LetIn digest fails configured db h now sized in
    either-Answered digest configured db h (require_admin digest fails configured db h now).0 good
      bad
