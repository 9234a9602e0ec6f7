-- ===== src/Gateway/RateLimit/Clients.antt =====
-- What a client can make of the address that it is limited by.
use mathlib.Core.List.{append_assoc, append-nil}
use agentpay.Prelude.{
  ◌≡◌, ◌⊎◌, inl, inr, refl, sym, false, Option, some, List, [], ◌∷◌, ◌++◌, Bool-cases, Option-cases,
  ◌==◌,
}
use agentpay.Prelude.Bytes.{Bytes}
use agentpay.Gateway.RateLimit.{
  split_commas, contains, trimmed, reversed, first_untrusted, client_ip_with,
}

split_commas-cons : (s : Bytes) → (p : Bytes) × (ps : List Bytes) × (split_commas s ≡ p ∷ ps)
unfolding split_commas
split_commas-cons [] = ([], [], refl)
split_commas-cons (c ∷ s) =
    let (p, ps, e) = split_commas-cons s in
    elim (Bool-cases (c == b',')) [
      | inl comma ↦ ([], p ∷ ps, rw (e, split_commas, comma) refl)
      | inr other ↦ (c ∷ p, ps, rw (e, split_commas, other) refl)
    ]

split_commas-append :
    (s rest : Bytes) → split_commas (s ++ (b',' ∷ rest)) ≡ split_commas s ++ split_commas rest
unfolding split_commas
split_commas-append [] rest = let (p, ps, e) = split_commas-cons rest in rw (e, split_commas) refl
split_commas-append (c ∷ s) rest =
    let (p, ps, e) = split_commas-cons s in
    elim (Bool-cases (c == b',')) [
      | inl comma ↦ rw (split_commas-append s rest, e, split_commas, comma) refl
      | inr other ↦ rw (split_commas-append s rest, e, split_commas, other) refl
    ]

reversed-append : (xs ys : List Bytes) → reversed (xs ++ ys) ≡ reversed ys ++ reversed xs
reversed-append [] ys = sym (append-nil (reversed ys))
reversed-append (x ∷ xs) ys =
    rw (reversed-append xs ys) (append_assoc (reversed ys) (reversed xs) (x ∷ []))

module _ (parse_ip : Bytes → Option Bytes) (trusted : List Bytes) where
  -- A hop that is an address and none of the proxies'.
  abbrev pub IsClient : Bytes → Type 0
  IsClient hop = (ip : Bytes) × (parse_ip (trimmed hop) ≡ some ip) × (contains trusted ip ≡ false)

  abbrev pub HasClient : List Bytes → Type 0
  HasClient [] = ⊥
  HasClient (hop ∷ hops) = IsClient hop ⊎ HasClient hops

  HasClient-append : (xs ys : List Bytes) → HasClient xs → HasClient (xs ++ ys)
  HasClient-append [] ys h = absurd h
  HasClient-append (x ∷ xs) ys (inl h) = inl h
  HasClient-append (x ∷ xs) ys (inr h) = inr (HasClient-append xs ys h)

  append-HasClient : (xs ys : List Bytes) → HasClient ys → HasClient (xs ++ ys)
  append-HasClient [] ys h = h
  append-HasClient (x ∷ xs) ys h = inr (append-HasClient xs ys h)

  reversed-HasClient : (xs : List Bytes) → HasClient xs → HasClient (reversed xs)
  reversed-HasClient [] h = absurd h
  reversed-HasClient (x ∷ xs) (inl h) = append-HasClient (reversed xs) (x ∷ []) (inl h)
  reversed-HasClient (x ∷ xs) (inr h) =
      HasClient-append (reversed xs) (x ∷ []) (reversed-HasClient xs h)

  -- Behind a client's hop nothing is read.
  first_untrusted-append :
      (xs ys : List Bytes) (peer : Bytes)
      → HasClient xs
      → first_untrusted parse_ip trusted (xs ++ ys) peer ≡ first_untrusted parse_ip trusted xs peer
  unfolding first_untrusted
  first_untrusted-append [] ys peer h = absurd h
  first_untrusted-append (x ∷ xs) ys peer (inl (ip, e, out)) = rw (e, first_untrusted, out) refl
  first_untrusted-append (x ∷ xs) ys peer (inr h) = elim (Option-cases (parse_ip (trimmed x))) [
    | inl e ↦ rw (e, first_untrusted) (first_untrusted-append xs ys peer h)
    | inr (ip, e) ↦ elim (Bool-cases (contains trusted ip)) [
      | inl known ↦ rw (e, first_untrusted, known) (first_untrusted-append xs ys peer h)
      | inr out ↦ rw (e, first_untrusted, out) refl
    ]
  ]

  -- If the peer is no trusted proxy, or what follows a comma of the header names an address that is
  -- none of the proxies', then whatever a client put in front of that comma has no effect on the
  -- address that it is limited by, provided that the header's value is a text with it and without.
  pub spoofed_header_ignored :
      (to_str : Bytes → Option Bytes) (peer unspecified spoof rest : Bytes)
      → to_str (spoof ++ (b',' ∷ rest)) ≡ some (spoof ++ (b',' ∷ rest))
      → to_str rest ≡ some rest
      → (contains trusted peer ≡ false) ⊎ HasClient (split_commas rest)
      → client_ip_with parse_ip trusted to_str
          (some peer)
          (some (spoof ++ (b',' ∷ rest)))
          unspecified
        ≡ client_ip_with parse_ip trusted to_str (some peer) (some rest) unspecified
  unfolding client_ip_with
  spoofed_header_ignored to_str peer unspecified spoof rest whole part (inl direct) = rw direct refl
  spoofed_header_ignored to_str peer unspecified spoof rest whole part (inr h) =
      elim (Bool-cases (contains trusted peer)) [
        | inr direct ↦ rw direct refl
        | inl proxied ↦
            rw
              (
                proxied,
                whole,
                part,
                split_commas-append spoof rest,
                reversed-append (split_commas spoof) (split_commas rest),
              )
              (first_untrusted-append (reversed (split_commas rest)) (reversed (split_commas spoof))
                peer (reversed-HasClient (split_commas rest) h))
      ]
