-- ===== src/Gateway/Tests/Market.antt =====
-- Tests of the registry: two enabled providers and a disabled one.
use agentpay.Prelude.{
  ◌≡◌, refl, Bool, true, false, Option, none, some, List, [], ◌∷◌, length, if◌then◌else◌,
}
use agentpay.Prelude.Bytes.{Bytes, codes, bytes_eq}
use agentpay.Gateway.Claim.{parse_u64}
use agentpay.Gateway.Control.{ProviderRecord}
use agentpay.Gateway.Registry.{
  normalise_resource, Catalogue, offers_of, aggregate, sort_entries, merged, snapshot, insert_entry,
  not_after, price_of_entry, bytes_le,
}

abbrev provider : Bytes → Bool → ProviderRecord
provider name enabled = record {
  provider_id = name;
  label = name;
  base_url = name;
  provider_pubkey = none;
  enabled = enabled;
}

abbrev providers : List (Bytes × ProviderRecord)
providers =
    (codes "dear", provider (codes "dear") true)
    ∷ (codes "off", provider (codes "off") false)
    ∷ (codes "fair", provider (codes "fair") true)
    ∷ []

-- Every provider sells the same, the dear one for more.
abbrev asks_for : Bytes → Option Catalogue
asks_for url = some (
    (
      codes "weather",
      record {
        price = if bytes_eq url (codes "dear") then codes "45" else codes "30";
        description = [];
      },
    )
    ∷ [])

two_offers : length (offers_of asks_for (codes "/weather") providers) ≡ 2
unfolding offers_of aggregate sort_entries merged snapshot insert_entry not_after price_of_entry
    bytes_le parse_u64 normalise_resource
two_offers = refl
