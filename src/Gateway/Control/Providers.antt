-- ===== src/Gateway/Control/Providers.antt =====
-- The provider registry's rows, gateway/src/control_db.rs.
use agentpay.Prelude.{Bool, true, false, Option, none, some, [], ◌∷◌, if◌then◌else◌}
use agentpay.Prelude.Bytes.{Bytes, bytes_eq}
use agentpay.Gateway.Keyed.{Table, find, set_row, insert_row}
use agentpay.Gateway.Control.{ProviderRow, ProviderRecord, Control, same_workspace, in_scope}

abbrev pub provider_row : ProviderRecord → Option Bytes → ProviderRow
provider_row p workspace = record {
  label = p.label;
  base_url = p.base_url;
  provider_pubkey = p.provider_pubkey;
  enabled = p.enabled;
  workspace_id = workspace;
}

-- What a conflicting insertion writes: the owner's row keeps its owner.
abbrev pub provider_update : ProviderRecord → ProviderRow → ProviderRow
provider_update p row = record row {
  label = p.label;
  base_url = p.base_url;
  provider_pubkey = p.provider_pubkey;
  enabled = p.enabled;
}

unfoldable pub upsert_provider : ProviderRecord → Option Bytes → Control → Control
upsert_provider p workspace t = elim (find p.provider_id t.providers) [
  | none ↦ record t { providers = insert_row p.provider_id (provider_row p workspace) t.providers }
  | some row ↦
      if same_workspace row.workspace_id workspace
      then record t { providers = set_row p.provider_id (provider_update p) t.providers }
      else t
]

-- `DELETE .. WHERE provider_id = $1`
unfoldable pub delete_row {ℓ} : {R : Type ℓ} → Bytes → Table R → Table R
delete_row key [] = []
delete_row key ((k, row) ∷ rows) =
    let rest = delete_row key rows in if bytes_eq key k then rest else (k, row) ∷ rest

-- Whether a row was deleted, and the tables.
unfoldable pub delete_provider : Bytes → Option Bytes → Control → Bool × Control
delete_provider provider_id workspace t = elim (find provider_id t.providers) [
  | none ↦ (false, t)
  | some row ↦
      if in_scope workspace row.workspace_id
      then (true, record t { providers = delete_row provider_id t.providers })
      else (false, t)
]
