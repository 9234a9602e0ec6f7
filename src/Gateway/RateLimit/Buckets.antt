-- ===== src/Gateway/RateLimit/Buckets.antt =====
-- The map of buckets never outgrows its cap, and a client is not touched by the others' requests.
use agentpay.Prelude.{
  ℕ, ◌≤◌, ◌≡◌, inl, inr, refl, Option, none, some, List, [], ◌∷◌, arith, Bool-cases, Option-cases,
  leb, length, length-append,
}
use agentpay.Prelude.Bytes.{Bytes}
use agentpay.Gateway.Keyed.{Table, find, set_row}
use agentpay.Gateway.RateLimit.{
  max_buckets, Floats, Quota, Bucket, retain, evicted, check_bucket, check_at, take_token, refilled,
}

module _ (f64 : Floats) where
  length-retain : (now : ℕ) (bs : Table (Bucket f64)) → length (retain f64 now bs) ≤ length bs
  unfolding retain
  length-retain now [] = omega arith
  length-retain now ((k, b) ∷ bs) = ground (arith, length-retain now bs)

  length-set_row :
      (key : Bytes) (f : Bucket f64 → Bucket f64) (bs : Table (Bucket f64))
      → length (set_row key f bs) ≡ length bs
  unfolding set_row
  length-set_row key f [] = refl
  length-set_row key f ((k, b) ∷ bs) = ground (arith, length-set_row key f bs)

  length-check_bucket :
      (q : Quota) (key : Bytes) (now : ℕ) (bs : Table (Bucket f64))
      → length bs ≤ max_buckets
      → length (check_bucket f64 q key now bs).1 ≤ max_buckets
  unfolding check_bucket
  length-check_bucket q key now bs h = elim (Option-cases (find key bs)) [
    | inl absent ↦ elim (Bool-cases (leb max_buckets (length bs))) [
      | inl full ↦ rw (absent, check_bucket, full) h
      | inr room ↦
          rw (absent, check_bucket, room)
            (ground (
              arith,
              room,
              length-append bs (
                  (
                    key,
                    record {
                      tokens = f64.sub (f64.from_u32 q.capacity) (f64.from_u32 1);
                      last = now;
                    },
                  )
                  ∷ []),
            ))
    ]
    | inr (b, at) ↦
        rw
          (
            at,
            check_bucket,
            length-set_row key
                (λ (old : Bucket f64). (take_token f64 q now (refilled f64 q now b)).1) bs,
          )
          h
  ]

  -- The limiter's map after any requests, in their order: client and time.
  abbrev pub after_all :
      Quota → List (Bytes × ℕ) → Option (Table (Bucket f64)) → Option (Table (Bucket f64))
  after_all q [] bs = bs
  after_all q ((key, now) ∷ requests) bs = after_all q requests (check_at f64 q key now bs).1

  abbrev pub IsCapped : Option (Table (Bucket f64)) → Type 0
  IsCapped none = Unit {0}
  IsCapped (some bs) = length bs ≤ max_buckets

  length-evicted : (now : ℕ) (bs : Table (Bucket f64)) → length (evicted f64 now bs) ≤ length bs
  length-evicted now bs = ground (arith, length-retain now bs)

  check_at-IsCapped :
      (q : Quota) (key : Bytes) (now : ℕ) (bs : Option (Table (Bucket f64)))
      → IsCapped bs
      → IsCapped (check_at f64 q key now bs).1
  unfolding check_at
  check_at-IsCapped q key now none h = tt
  check_at-IsCapped q key now (some bs) h =
      length-check_bucket q key now (evicted f64 now bs) (omega (arith, length-evicted now bs, h))

  -- However many clients send requests, and whenever, the limiter never holds more buckets than its
  -- cap.
  pub after_all-IsCapped :
      (q : Quota) (requests : List (Bytes × ℕ)) (bs : Option (Table (Bucket f64)))
      → IsCapped bs
      → IsCapped (after_all q requests bs)
  after_all-IsCapped q [] bs h = h
  after_all-IsCapped q ((key, now) ∷ requests) bs h =
      after_all-IsCapped q requests (check_at f64 q key now bs).1 (check_at-IsCapped q key now bs h)
