-- ===== src/Gateway/RateLimit.antt =====
-- The rate limiter, gateway/src/ratelimit.rs. f64 arithmetic is the hardware's and a parameter; an
-- Instant is a number of nanoseconds, an address its text.
pub mod Buckets
pub mod Clients
use agentpay.Prelude.{
  ℕ, ◌-◌, Bool, true, false, not, ◌||◌, Option, none, some, List, [], ◌∷◌, ◌++◌, ltb, leb, length,
  ◌==◌, if◌then◌else◌,
}
use agentpay.Prelude.Bytes.{Bytes, bytes_eq}
use agentpay.Gateway.Policy.{trim_start, trim_end, is_whitespace}
use agentpay.Gateway.Keyed.{Table, find, set_row, insert_row}

abbrev pub max_buckets : ℕ
max_buckets = 50000

-- 300 seconds.
abbrev pub idle_eviction : ℕ
idle_eviction = 300000000000

-- The operations on f64 that the limiter uses.
pub record Floats : Type 1 where
  pub F : Type 0
  pub from_u32 : ℕ → F
  -- `Duration::as_secs_f64`
  pub seconds : ℕ → F
  pub add : F → F → F
  pub sub : F → F → F
  pub mul : F → F → F
  pub div : F → F → F
  pub min : F → F → F
  -- `>=`
  pub at_least : F → F → Bool
  -- `x.ceil().max(1.0) as u64`
  pub whole_seconds : F → ℕ

pub record Quota : Type 0 where
  pub capacity : ℕ
  pub period : ℕ

pub data Decision : Type 0 where
  allow : Decision
  refuse : ℕ → Decision

module _ (f64 : Floats) where
  pub record Bucket : Type 0 where
    pub tokens : f64.F
    pub last : ℕ

  -- `now.duration_since(b.last)` is 0 for a time that is not before.
  unfoldable pub retain : ℕ → Table Bucket → Table Bucket
  retain now [] = []
  retain now ((k, b) ∷ bs) =
      let rest = retain now bs in if ltb (now - b.last) idle_eviction then (k, b) ∷ rest else rest

  abbrev pub evicted : ℕ → Table Bucket → Table Bucket
  evicted now bs = if leb max_buckets (length bs) then retain now bs else bs

  abbrev pub refill_per_sec : Quota → f64.F
  refill_per_sec q = f64.div (f64.from_u32 q.capacity) (f64.seconds q.period)

  -- A bucket's tokens at a time.
  abbrev pub refilled : Quota → ℕ → Bucket → f64.F
  refilled q now b =
      f64.min (f64.add b.tokens (f64.mul (f64.seconds (now - b.last)) (refill_per_sec q)))
        (f64.from_u32 q.capacity)

  abbrev pub take_token : Quota → ℕ → f64.F → Decision × Bucket
  take_token q now tokens =
      if f64.at_least tokens (f64.from_u32 1)
      then (allow, record { tokens = f64.sub tokens (f64.from_u32 1); last = now })
      else (
        refuse (f64.whole_seconds (f64.div (f64.sub (f64.from_u32 1) tokens) (refill_per_sec q))),
        record { tokens = tokens; last = now },
      )

  -- On the map after eviction.
  unfoldable pub check_bucket : Quota → Bytes → ℕ → Table Bucket → Decision × Table Bucket
  check_bucket q key now bs = elim (find key bs) [
    | some b ↦
        let taken = take_token q now (refilled q now b) in
        (taken.0, set_row key (λ old. taken.1) bs)
    | none ↦ if leb max_buckets (length bs) then (refuse 1, bs) else (
      allow,
      insert_row key
          (record { tokens = f64.sub (f64.from_u32 q.capacity) (f64.from_u32 1); last = now }) bs,
    )
  ]

  -- `none` is a poisoned lock.
  unfoldable pub check_at :
      Quota → Bytes → ℕ → Option (Table Bucket) → Decision × Option (Table Bucket)
  check_at q key now none = (refuse 1, none)
  check_at q key now (some bs) =
      let checked = check_bucket q key now (evicted now bs) in (checked.0, some checked.1)

-- `xff.split(',')`
unfoldable pub split_commas : Bytes → List Bytes
split_commas [] = [] ∷ []
split_commas (c ∷ s) = elim (split_commas s) [
  | [] ↦ (c ∷ []) ∷ []
  | part ∷ parts ↦ if c == b',' then [] ∷ part ∷ parts else (c ∷ part) ∷ parts
]

abbrev pub contains : List Bytes → Bytes → Bool
contains [] ip = false
contains (t ∷ ts) ip = bytes_eq t ip || contains ts ip

abbrev pub trimmed : Bytes → Bytes
trimmed s = trim_end is_whitespace (trim_start is_whitespace s)

abbrev pub reversed : List Bytes → List Bytes
reversed [] = []
reversed (x ∷ xs) = reversed xs ++ (x ∷ [])

-- No peer address means that the request did not come over TCP.
abbrev pub peer_of : Option Bytes → Bytes → Bytes
peer_of none unspecified = unspecified
peer_of (some ip) unspecified = ip

abbrev pub and_then : (Bytes → Option Bytes) → Option Bytes → Option Bytes
and_then f none = none
and_then f (some value) = f value

module _ (parse_ip : Bytes → Option Bytes) (trusted : List Bytes) where
  -- The walk, from the right.
  unfoldable pub first_untrusted : List Bytes → Bytes → Bytes
  first_untrusted [] peer = peer
  first_untrusted (hop ∷ hops) peer =
      let rest = first_untrusted hops peer in
      elim (parse_ip (trimmed hop)) [
        | none ↦ rest
        | some ip ↦ if contains trusted ip then rest else ip
      ]

  -- `to_str` is that of a header's value, which is no text if it has a byte outside visible ASCII.
  -- Then the connection's peer, and the header's value.
  unfoldable pub client_ip_with :
      (Bytes → Option Bytes) → Option Bytes → Option Bytes → Bytes → Bytes
  client_ip_with to_str connected xff unspecified =
      let peer = peer_of connected unspecified in
      if contains trusted peer
      then elim (and_then to_str xff) [
        | none ↦ peer
        | some header ↦ first_untrusted (reversed (split_commas header)) peer
      ]
      else peer
