-- ===== src/Gateway/Tests/Doors.antt =====
-- Tests of the gateway's doors: the rate limiter, the operators' tokens and the planner.
use agentpay.Prelude.{
  ltb, ◌&&◌, Bool, true, ℕ, zero, suc, ◌+◌, ◌*◌, ◌-◌, ◌≡◌, inl, inr, refl, false, Option, none,
  some, List, [], ◌∷◌, leb, length, ok, arith, if◌then◌else◌,
}
use agentpay.Prelude.Int.{pos}
use agentpay.Prelude.Bytes.{Bytes, codes}
use agentpay.Gateway.Policy.{human, active, AgentPolicy, Spend, evaluate}
use agentpay.Gateway.Claim.{parse_u64}
use agentpay.Gateway.Control.{AgentRecord}
use agentpay.Gateway.Admin.Planner.{
  PlanOption, affordable, plan_options, cheapest, options_of, parse_amount, option_for, walk,
  recommended,
}
use agentpay.Gateway.Admin.Planner.Affords.{Affords, affordable-Affords}
use agentpay.Gateway.Admin.Planner.Choice.{Chosen, plan_options-Chosen}
use agentpay.Gateway.RateLimit.{
  Floats, Quota, refuse, check_at, check_bucket, split_commas, client_ip_with,
}
use agentpay.Gateway.Keyed.{find}
use agentpay.Gateway.RateLimit.Buckets.{after_all, IsCapped, after_all-IsCapped}
use agentpay.Gateway.RateLimit.Clients.{HasClient, spoofed_header_ignored}
use agentpay.Gateway.Registry.{CatalogueEntry}
use agentpay.Gateway.Auth.{
  Headers, presented, bearer, strip_prefix, secret_eq, difference, require_admin, shared_operator,
}
use agentpay.Gateway.Auth.Admission.{Answered, require_admin-Answered}

-- Whole tokens and seconds.
abbrev whole : Floats
whole = record {
  F = ℕ;
  from_u32 = λ n. n;
  seconds = λ n. n;
  add = λ a b. a + b;
  sub = λ a b. a - b;
  mul = λ a b. a * b;
  div = λ a b. 1;
  min = λ a b. if leb a b then a else b;
  at_least = λ a b. leb b a;
  whole_seconds = λ a. a;
}

abbrev quota : Quota
quota = record { capacity = 1; period = 60 }

abbrev burst : List (Bytes × ℕ)
burst = (codes "10.0.0.1", 0) ∷ (codes "10.0.0.1", 0) ∷ (codes "10.0.0.2", 5) ∷ []

after_all-IsCapped_example : IsCapped whole (after_all whole quota burst (some []))
after_all-IsCapped_example = after_all-IsCapped whole quota burst (some []) (omega arith)

second_request_refused :
    (check_at whole quota
      (codes "10.0.0.1")
      0
      (after_all whole quota ((codes "10.0.0.1", 0) ∷ []) (some []))).0
    ≡ refuse 1
unfolding check_at check_bucket find
second_request_refused = refl

-- Every text of the tests is an address.
abbrev address : Bytes → Option Bytes
address s = some s

abbrev proxy : Bytes
proxy = codes "10.0.0.9"

client_named : HasClient address (proxy ∷ []) (split_commas (codes " 5.6.7.8"))
unfolding split_commas
client_named = inl (codes "5.6.7.8", refl, refl)

-- Every byte of visible ASCII.
abbrev visible : Bytes → Bool
visible [] = true
visible (c ∷ s) = leb 32 c && (ltb c 127 && visible s)

abbrev readable : Bytes → Option Bytes
readable s = if visible s then some s else none

unreadable_header_is_the_proxy :
    client_ip_with address
      (proxy ∷ [])
      readable
      (some proxy)
      (some (200 ∷ codes ", 5.6.7.8"))
      (codes "0.0.0.0")
    ≡ proxy
unfolding client_ip_with
unreadable_header_is_the_proxy = refl

spoofed_header_ignored_example :
    client_ip_with address
      (proxy ∷ [])
      readable
      (some proxy)
      (some (codes "1.1.1.1, 5.6.7.8"))
      (codes "0.0.0.0")
    ≡ client_ip_with address
        (proxy ∷ [])
        readable
        (some proxy)
        (some (codes " 5.6.7.8"))
        (codes "0.0.0.0")
spoofed_header_ignored_example =
    spoofed_header_ignored address (proxy ∷ []) readable proxy (codes "0.0.0.0") (codes "1.1.1.1")
      (codes " 5.6.7.8") refl refl (inr client_named)

-- A digest of 32 bytes for every text.
abbrev zeros : ℕ → List ℕ
zeros zero = []
zeros (suc n) = 0 ∷ zeros n

abbrev digest : Bytes → List ℕ
digest [] = 0 ∷ zeros 31
digest (c ∷ s) = c ∷ zeros 31

digest_sized : (s : Bytes) → length (digest s) ≡ 32
digest_sized [] = refl
digest_sized (c ∷ s) = refl

abbrev shown : Headers
shown = record { authorization = some (codes "Bearer secret"); admin_token = none }

require_admin-Answered_example :
    Answered digest
      (some (codes "secret"))
      none
      shown
      (require_admin digest (λ n. false) (some (codes "secret")) none shown (pos 0)).0
require_admin-Answered_example =
    require_admin-Answered digest (λ n. false) (some (codes "secret")) none shown (pos 0)
      digest_sized

shared_token_admits :
    (require_admin digest (λ n. false) (some (codes "secret")) none shown (pos 0)).0
    ≡ ok shared_operator
unfolding require_admin presented bearer strip_prefix secret_eq difference
shared_token_admits = refl

abbrev envelope : AgentPolicy
envelope = record {
  max_total = 100;
  max_per_call = 50;
  approval_threshold = none;
  allowed_resources = none;
  max_calls = none;
}

abbrev buyer : AgentRecord
buyer = record {
  agent_id = codes "a1";
  label = codes "Agent";
  agent_pubkey = codes "11";
  owner_pubkey = none;
  mode = human;
  status = active;
  created_at = pos 0;
  policy = some envelope;
  workspace_id = none;
}

abbrev unspent : Spend
unspent = record { spent = 10; calls = 1 }

affordable-Affords_example :
    Affords active human envelope
      (codes "/weather")
      40
      unspent
      5
      (affordable buyer (codes "/weather") 40 5 unspent (some envelope)).0
affordable-Affords_example =
    affordable-Affords buyer envelope (codes "/weather") 40 5 unspent (omega arith) (omega arith)

abbrev entry : Bytes → Bytes → CatalogueEntry
entry name price = record {
  provider_id = name;
  provider_label = name;
  resource = codes "/weather";
  price = price;
  description = [];
}

abbrev market : List CatalogueEntry
market =
    entry (codes "dear") (codes "45")
    ∷ entry (codes "odd") (codes "4.5")
    ∷ entry (codes "fair") (codes "30")
    ∷ []

plan_options-Chosen_example :
    (best : Option PlanOption) × ((plan_options buyer unspent (codes "/weather") 5 market).1
      ≡ recommended best)
    × Chosen (plan_options buyer unspent (codes "/weather") 5 market).0 best
plan_options-Chosen_example = plan_options-Chosen buyer unspent (codes "/weather") 5 market

fair_is_recommended :
    (plan_options buyer unspent (codes "/weather") 5 market).1 ≡ some (codes "fair")
unfolding plan_options cheapest options_of parse_amount parse_u64 option_for affordable evaluate
    walk
fair_is_recommended = refl
