-- ===== src/Gateway/Registry.antt =====
-- The registry of providers, gateway/src/registry.rs, and `normalise_resource` of gateway/src/buy.rs. The map of providers is a table, whose order
-- stands for that of the map's iteration, and a client is its base URL: what a provider answers at
-- it, a catalogue or nothing, is a parameter.
pub mod Merged
pub mod Offers
use agentpay.Prelude.{
  ℕ, ◌+◌, Bool, true, false, ◌&&◌, ◌||◌, Option, none, some, List, [], ◌∷◌, ◌++◌, ltb, ◌==◌, map,
  if◌then◌else◌,
}
use agentpay.Prelude.Bytes.{Bytes, bytes_eq}
use agentpay.Prelude.Words.{u64_max}
use agentpay.Gateway.Claim.{parse_u64}
use agentpay.Gateway.Policy.{trim_start, trim_end, is_slash}
use agentpay.Gateway.Keyed.{Table, find, set_row, insert_row}
use agentpay.Gateway.Control.{ProviderRecord}

pub record ResourcePrice : Type 0 where
  pub price : Bytes
  pub description : Bytes

abbrev pub Catalogue : Type 0
Catalogue = Table ResourcePrice

pub record CatalogueEntry : Type 0 where
  pub provider_id : Bytes
  pub provider_label : Bytes
  pub resource : Bytes
  pub price : Bytes
  pub description : Bytes

unfoldable pub upsert : ProviderRecord → Table ProviderRecord → Table ProviderRecord
upsert provider providers = elim (find provider.provider_id providers) [
  | none ↦ insert_row provider.provider_id provider providers
  | some old ↦ set_row provider.provider_id (λ r. provider) providers
]

-- The rows without a key, and whether it was there.
abbrev pub without : Bytes → Table ProviderRecord → Table ProviderRecord
without key [] = []
without key ((k, r) ∷ rs) = if bytes_eq key k then without key rs else (k, r) ∷ without key rs

unfoldable pub remove : Bytes → Table ProviderRecord → Bool × Table ProviderRecord
remove key providers = elim (find key providers) [
  | none ↦ (false, providers)
  | some r ↦ (true, without key providers)
]

unfoldable pub upstream_for : Bytes → Table ProviderRecord → Option Bytes
upstream_for key providers = elim (find key providers) [
  | none ↦ none
  | some r ↦ if r.enabled then some r.base_url else none
]

unfoldable pub snapshot : Table ProviderRecord → List ProviderRecord
snapshot [] = []
snapshot ((k, r) ∷ rs) = let rest = snapshot rs in if r.enabled then r ∷ rest else rest

-- `trim_matches('/')` behind a slash.
unfoldable pub normalise_resource : Bytes → Bytes
normalise_resource resource = b'/' ∷ trim_end is_slash (trim_start is_slash resource)

abbrev pub entry_of : ProviderRecord → Bytes × ResourcePrice → CatalogueEntry
entry_of r (resource, offer) = record {
  provider_id = r.provider_id;
  provider_label = r.label;
  resource = normalise_resource resource;
  price = offer.price;
  description = offer.description;
}

-- `parse::<u64>().unwrap_or(u64::MAX)`
abbrev pub price_or_max : Option ℕ → ℕ
price_or_max none = u64_max
price_or_max (some n) = n

unfoldable pub price_of_entry : CatalogueEntry → ℕ
price_of_entry e = price_or_max (parse_u64 e.price)

-- The order of texts, byte by byte.
unfoldable pub bytes_le : Bytes → Bytes → Bool
bytes_le [] ys = true
bytes_le (x ∷ xs) [] = false
bytes_le (x ∷ xs) (y ∷ ys) = ltb x y || (x == y && bytes_le xs ys)

-- The comparison is not `Greater`.
unfoldable pub not_after : CatalogueEntry → CatalogueEntry → Bool
not_after a b =
    ltb (price_of_entry a) (price_of_entry b)
    || (price_of_entry a == price_of_entry b && bytes_le a.provider_id b.provider_id)

-- `sort_by`, which is stable.
unfoldable pub insert_entry : CatalogueEntry → List CatalogueEntry → List CatalogueEntry
insert_entry e [] = e ∷ []
insert_entry e (x ∷ xs) =
    let rest = insert_entry e xs in if not_after e x then e ∷ x ∷ xs else x ∷ rest

unfoldable pub sort_entries : List CatalogueEntry → List CatalogueEntry
sort_entries [] = []
sort_entries (e ∷ es) = insert_entry e (sort_entries es)

-- The filter by resource.
abbrev pub offering : Bytes → List CatalogueEntry → List CatalogueEntry
offering wanted [] = []
offering wanted (e ∷ es) =
    if bytes_eq e.resource wanted then e ∷ offering wanted es else offering wanted es

module _ (catalogue : Bytes → Option Catalogue) where
  -- The entries that a provider contributes; one that does not answer contributes none.
  abbrev pub contributed : ProviderRecord → Option Catalogue → List CatalogueEntry
  contributed r none = []
  contributed r (some cat) = map (entry_of r) cat

  -- The loop over the snapshot.
  unfoldable pub merged : List ProviderRecord → List CatalogueEntry
  merged [] = []
  merged (r ∷ rs) = contributed r (catalogue r.base_url) ++ merged rs

  -- The providers that did not answer.
  unfoldable pub unavailable : List ProviderRecord → List Bytes
  unavailable [] = []
  unavailable (r ∷ rs) = elim (catalogue r.base_url) [
    | none ↦ r.provider_id ∷ unavailable rs
    | some cat ↦ unavailable rs
  ]

  unfoldable pub aggregate : Table ProviderRecord → List CatalogueEntry × List Bytes
  aggregate providers =
      (sort_entries (merged (snapshot providers)), unavailable (snapshot providers))

  unfoldable pub offers_of : Bytes → Table ProviderRecord → List CatalogueEntry
  offers_of resource providers = offering (normalise_resource resource) (aggregate providers).0
