-- ===== src/Gateway/Registry/Offers.antt =====
-- What the registry offers for a resource, and in which order.
use agentpay.Prelude.{ℕ, ◌⊎◌, ◌<◌, none, some, In, ◌≡◌, true, Option, List, [], ◌∷◌}
use agentpay.Prelude.Bytes.{Bytes}
use agentpay.Gateway.Claim.{parse_u64}
use agentpay.Gateway.Keyed.{Table}
use agentpay.Gateway.Control.{ProviderRecord}
use agentpay.Gateway.Registry.{normalise_resource, Catalogue, CatalogueEntry, not_after}
use agentpay.Gateway.Registry.Merged.{Contributes}

-- Each entry comes after none that follows it.
abbrev Ordered : List CatalogueEntry → Type 0
Ordered [] = Unit {0}
Ordered (x ∷ xs) = ((a : CatalogueEntry) → In a xs → not_after x a ≡ true) × Ordered xs

-- A price: the u64 that the text spells, or the largest one if it spells none.
abbrev pub Price : CatalogueEntry → ℕ → Type 0
Price e n = (parse_u64 e.price ≡ some n) ⊎ ((parse_u64 e.price ≡ none) × (n ≡ 18446744073709551615))

-- The order of texts: the first byte in which they differ is the lower one.
abbrev pub NotAbove : Bytes → Bytes → Type 0
NotAbove [] ys = Unit {0}
NotAbove (x ∷ xs) [] = ⊥
NotAbove (x ∷ xs) (y ∷ ys) = (x < y) ⊎ ((x ≡ y) × NotAbove xs ys)

-- The lower price, or the same one and a provider's id that is not above.
abbrev pub Before : CatalogueEntry → CatalogueEntry → Type 0
Before a b =
    (m : ℕ) × (n : ℕ) × Price a m
    × Price b n
    × ((m < n) ⊎ ((m ≡ n) × NotAbove a.provider_id b.provider_id))

-- Each entry comes before all that follow it.
abbrev pub Ranked : List CatalogueEntry → Type 0
Ranked [] = Unit {0}
Ranked (x ∷ xs) = ((a : CatalogueEntry) → In a xs → Before x a) × Ranked xs

-- An entry that an enabled provider's catalogue has for a resource.
pub record Sold (catalogue : Bytes → Option Catalogue) (providers : Table ProviderRecord)
    (resource : Bytes) (e : CatalogueEntry) : Type 0 where
  pub key : Bytes
  pub provider : ProviderRecord
  pub registered : In (key, provider) providers
  pub enabled : provider.enabled ≡ true
  pub contributes : Contributes catalogue provider e
  pub wanted : e.resource ≡ normalise_resource resource
