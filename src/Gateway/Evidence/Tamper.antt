-- ===== src/Gateway/Evidence/Tamper.antt =====
-- Tamper evidence: two accepted logs of one session with the same head are the same log, or
-- they exhibit a collision of SHA-256.
use agentpay.Prelude.{
  ℕ, suc, ◌<◌, ◌^◌, ◌≡◌, ◌≢◌, refl, sym, ap, ◌∙◌, ◌⊎◌, inl, inr, List, [], ◌∷◌, arith, length, ok,
  Bool-cases,
}
use agentpay.Prelude.Bytes.{
  Bytes, bytes_eq, bytes_eq_sound, bytes_eq_refl, le_bytes, length-le_bytes, le_bytes-injective,
  append-injective,
}
use agentpay.Gateway.Evidence.{
  genesis_prev_hash, EvidenceEntry, preimage, compute_entry_hash, verify_chain,
}
use agentpay.Gateway.Evidence.Log.{Linked, head, verify_chain_iff}

-- The words of an entry are in range: 32 bytes and 8 bytes.
abbrev pub IsEntry : EvidenceEntry → Type 0
IsEntry e = (e.prev_hash < 256 ^ 32) × (e.cumulative_amount < 256 ^ 8) × (e.nonce < 256 ^ 8)

abbrev pub AllEntries : List EvidenceEntry → Type 0
AllEntries [] = Unit {0}
AllEntries (e ∷ es) = IsEntry e × AllEntries es

-- No two entries share a preimage.
preimage-injective :
    (session p c n p' c' n' : ℕ) (d d' : Bytes)
    → p < 256 ^ 32
    → p' < 256 ^ 32
    → c < 256 ^ 8
    → c' < 256 ^ 8
    → n < 256 ^ 8
    → n' < 256 ^ 8
    → preimage p session c n d ≡ preimage p' session c' n' d'
    → (p ≡ p') × (c ≡ c') × (n ≡ n') × (d ≡ d')
preimage-injective session p c n p' c' n' d d' hp hp' hc hc' hn hn' e =
    let (e1, r1) =
      append-injective (le_bytes 32 p) (le_bytes 32 p') _ _
        (length-le_bytes 32 p ∙ sym (length-le_bytes 32 p')) e in
    let (e2, r2) = append-injective (le_bytes 32 session) (le_bytes 32 session) _ _ refl r1 in
    let (e3, r3) =
      append-injective (le_bytes 8 c) (le_bytes 8 c') _ _
        (length-le_bytes 8 c ∙ sym (length-le_bytes 8 c')) r2 in
    let (e4, r4) =
      append-injective (le_bytes 8 n) (le_bytes 8 n') d d'
        (length-le_bytes 8 n ∙ sym (length-le_bytes 8 n')) r3 in
    (
      le_bytes-injective 32 p p' hp hp' e1,
      le_bytes-injective 8 c c' hc hc' e3,
      le_bytes-injective 8 n n' hn hn' e4,
      r4,
    )

module _ (sha256 : Bytes → ℕ) where
  abbrev pub Collision : Type 0
  Collision = (a b : Bytes) × (a ≢ b) × (sha256 a ≡ sha256 b)

  same_hash : (a b : Bytes) → sha256 a ≡ sha256 b → (a ≡ b) ⊎ Collision
  same_hash a b h = elim (Bool-cases (bytes_eq a b)) [
    | inl same ↦ inl (bytes_eq_sound a b same)
    | inr other ↦ inr (a, b, λ e. cc (sym other ∙ ap (bytes_eq a) (sym e) ∙ bytes_eq_refl a), h)
  ]

  same_entry :
      (session : ℕ) (e f : EvidenceEntry)
      → IsEntry e
      → IsEntry f
      → e.sequence_id ≡ f.sequence_id
      → e.entry_hash ≡ f.entry_hash
      → preimage e.prev_hash session e.cumulative_amount e.nonce e.decision
        ≡ preimage f.prev_hash session f.cumulative_amount f.nonce f.decision
      → e ≡ f
  same_entry session e f (p, c, n) (p', c', n') s h k =
      let (ep, ec, en, ed) =
        preimage-injective session e.prev_hash e.cumulative_amount e.nonce f.prev_hash
          f.cumulative_amount f.nonce e.decision f.decision p p' c c' n n' k in
      cc

  same_log :
      (session i p q : ℕ) (es fs : List EvidenceEntry)
      → Linked sha256 session i p es
      → Linked sha256 session i q fs
      → AllEntries es
      → AllEntries fs
      → length es ≡ length fs
      → head sha256 p es ≡ head sha256 q fs
      → ((p ≡ q) × (es ≡ fs)) ⊎ Collision
  unfolding compute_entry_hash
  same_log session i p q [] [] l k b d n h = inl (h, refl)
  same_log session i p q [] (f ∷ fs) l k b d n h = absurd (omega arith)
  same_log session i p q (e ∷ es) [] l k b d n h = absurd (omega arith)
  same_log session i p q (e ∷ es) (f ∷ fs) (s, r, c, l) (s', r', c', k) (b, bs) (d, ds) n h =
      elim (same_log session (suc i) e.entry_hash f.entry_hash es fs l k bs ds (omega arith) h) [
        | inr found ↦ inr found
        | inl (same, rest) ↦ elim (same_hash _ _ (c ∙ same ∙ sym c')) [
          | inr found ↦ inr found
          | inl text ↦
              let one = same_entry session e f b d (s ∙ sym s') same text in
              inl (sym r ∙ ap (λ (x : EvidenceEntry). x.prev_hash) one ∙ r', cc)
        ]
      ]

  -- Two logs of one session that both verify, are equally long and end in the same hash hold the
  -- same entries, or two different byte strings with the same SHA-256 are at hand; the words of the
  -- entries are those that 32 and 8 bytes hold.
  pub verify_chain-tamper_evident :
      (session : ℕ) (es fs : List EvidenceEntry)
      → AllEntries es
      → AllEntries fs
      → length es ≡ length fs
      → head sha256 genesis_prev_hash es ≡ head sha256 genesis_prev_hash fs
      → verify_chain sha256 session es ≡ ok tt
      → verify_chain sha256 session fs ≡ ok tt
      → (es ≡ fs) ⊎ Collision
  verify_chain-tamper_evident session es fs b d n h v w =
      elim (same_log session 0 genesis_prev_hash genesis_prev_hash es fs
        ((verify_chain_iff sha256 session es).0 v) ((verify_chain_iff sha256 session fs).0 w) b d n
        h) [ inl (start, same) ↦ inl same | inr found ↦ inr found ]
