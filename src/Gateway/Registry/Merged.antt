-- ===== src/Gateway/Registry/Merged.antt =====
-- What a merge, a sort and a filter keep.
use agentpay.Prelude.{
  In, ◌≡◌, ◌↔◌, ◌⊎◌, inl, inr, refl, ap, ◌∙◌, true, Option, some, List, [], ◌∷◌, ◌++◌, map,
  Bool-cases, Option-cases, arith, subst,
}
use agentpay.Prelude.Bytes.{Bytes, bytes_eq, bytes_eq_sound, bytes_eq_refl}
use agentpay.Gateway.Keyed.{Table}
use agentpay.Gateway.Control.{ProviderRecord}
use agentpay.Gateway.Registry.{
  normalise_resource, ResourcePrice, Catalogue, CatalogueEntry, entry_of, snapshot, contributed,
  merged, insert_entry, sort_entries, offering, not_after,
}

In-left : {A : Type 0} (a : A) (xs ys : List A) → In a xs → In a (xs ++ ys)
In-left a [] ys h = absurd h
In-left a (x ∷ xs) ys (inl h) = inl h
In-left a (x ∷ xs) ys (inr h) = inr (In-left a xs ys h)

In-right : {A : Type 0} (a : A) (xs ys : List A) → In a ys → In a (xs ++ ys)
In-right a [] ys h = h
In-right a (x ∷ xs) ys h = inr (In-right a xs ys h)

In-split : {A : Type 0} (a : A) (xs ys : List A) → In a (xs ++ ys) → In a xs ⊎ In a ys
In-split a [] ys h = inr h
In-split a (x ∷ xs) ys (inl h) = inl (inl h)
In-split a (x ∷ xs) ys (inr h) = elim (In-split a xs ys h) [ inl l ↦ inl (inr l) | inr r ↦ inr r ]

In-map : {A B : Type 0} (f : A → B) (a : A) (xs : List A) → In a xs → In (f a) (map f xs)
In-map f a [] h = absurd h
In-map f a (x ∷ xs) (inl h) = inl (ap f h)
In-map f a (x ∷ xs) (inr h) = inr (In-map f a xs h)

map-In :
    {A B : Type 0} (f : A → B) (b : B) (xs : List A)
    → In b (map f xs)
    → (a : A) × In a xs × (b ≡ f a)
map-In f b [] h = absurd h
map-In f b (x ∷ xs) (inl h) = (x, inl refl, h)
map-In f b (x ∷ xs) (inr h) = let (a, at, e) = map-In f b xs h in (a, inr at, e)

-- The enabled providers.
pub snapshot_iff :
    (r : ProviderRecord) (rows : Table ProviderRecord)
    → In r (snapshot rows) ↔ ((k : Bytes) × In (k, r) rows × (r.enabled ≡ true))
unfolding snapshot
snapshot_iff r [] = (λ h. absurd h, λ h. absurd h.1)
snapshot_iff r ((k, x) ∷ rows) = elim (Bool-cases x.enabled) [
  | inl on ↦ rw on (
    λ h. elim h [
      | inl same ↦ (
        k,
        inl (ap (λ (y : ProviderRecord). (k, y)) same),
        ap (λ (y : ProviderRecord). y.enabled) same,
      )
      | inr later ↦ let (j, at, e) = (snapshot_iff r rows).0 later in (j, inr at, e)
    ],
    λ (j, at, e). elim at [
      | inl same ↦ inl (ap (λ (p : Bytes × ProviderRecord). p.1) same)
      | inr later ↦ inr ((snapshot_iff r rows).1 (j, later, e))
    ],
  )
  | inr off ↦ rw off (
    λ h. let (j, at, e) = (snapshot_iff r rows).0 h in (j, inr at, e),
    λ (j, at, e). elim at [
      | inl same ↦
          absurd (ground (arith, off, e, ap (λ (p : Bytes × ProviderRecord). p.1.enabled) same))
      | inr later ↦ (snapshot_iff r rows).1 (j, later, e)
    ],
  )
]

-- An entry that a provider contributes to the merge.
abbrev pub Contributes : (Bytes → Option Catalogue) → ProviderRecord → CatalogueEntry → Type 0
Contributes catalogue r e =
    (cat : Catalogue) × (item : Bytes × ResourcePrice) × (catalogue r.base_url ≡ some cat)
    × In item cat
    × (e ≡ record {
      provider_id = r.provider_id;
      provider_label = r.label;
      resource = normalise_resource item.0;
      price = item.1.price;
      description = item.1.description;
    })

contributed_iff :
    (catalogue : Bytes → Option Catalogue) (r : ProviderRecord) (e : CatalogueEntry)
    → In e (contributed catalogue r (catalogue r.base_url)) ↔ Contributes catalogue r e
contributed_iff catalogue r e = (
  λ h. elim (Option-cases (catalogue r.base_url)) [
    | inl down ↦ absurd (rw down at h)
    | inr (cat, up) ↦
        let (item, at, same) = map-In (entry_of r) e cat (rw up at h) in (cat, item, up, at, same)
  ],
  λ (cat, item, up, at, same). rw (up, same) (In-map (entry_of r) item cat at),
)

pub merged_iff :
    (catalogue : Bytes → Option Catalogue) (e : CatalogueEntry) (rs : List ProviderRecord)
    → In e (merged catalogue rs) ↔ ((r : ProviderRecord) × In r rs × Contributes catalogue r e)
unfolding merged
merged_iff catalogue e [] = (λ h. absurd h, λ h. absurd h.1)
merged_iff catalogue e (r ∷ rs) = (
  λ h. elim (In-split e (contributed catalogue r (catalogue r.base_url)) (merged catalogue rs) h) [
    | inl own ↦ (r, inl refl, (contributed_iff catalogue r e).0 own)
    | inr other ↦ let (x, at, c) = (merged_iff catalogue e rs).0 other in (x, inr at, c)
  ],
  λ (x, at, c). elim at [
    | inl same ↦ In-left e (contributed catalogue r (catalogue r.base_url)) (merged catalogue rs) (
        (contributed_iff catalogue r e).1
          (subst (λ (y : ProviderRecord). Contributes catalogue y e) same c))
    | inr later ↦
        In-right e (contributed catalogue r (catalogue r.base_url)) (merged catalogue rs)
          ((merged_iff catalogue e rs).1 (x, later, c))
  ],
)

pub In-insert_entry :
    (a e : CatalogueEntry) (xs : List CatalogueEntry)
    → In a (insert_entry e xs) ↔ ((a ≡ e) ⊎ In a xs)
unfolding insert_entry
In-insert_entry a e [] = (λ h. h, λ h. h)
In-insert_entry a e (x ∷ xs) = elim (Bool-cases (not_after e x)) [
  | inl before ↦ rw before (λ h. h, λ h. h)
  | inr after ↦ rw after (
    λ h. elim h [
      | inl same ↦ inr (inl same)
      | inr later ↦ elim ((In-insert_entry a e xs).0 later) [
        | inl same ↦ inl same
        | inr there ↦ inr (inr there)
      ]
    ],
    λ h. elim h [
      | inl same ↦ inr ((In-insert_entry a e xs).1 (inl same))
      | inr rest ↦ elim rest [
        | inl same ↦ inl same
        | inr there ↦ inr ((In-insert_entry a e xs).1 (inr there))
      ]
    ],
  )
]

pub sort_entries_iff :
    (a : CatalogueEntry) (es : List CatalogueEntry) → In a (sort_entries es) ↔ In a es
unfolding sort_entries
sort_entries_iff a [] = (λ h. h, λ h. h)
sort_entries_iff a (e ∷ es) = (
  λ h. elim ((In-insert_entry a e (sort_entries es)).0 h) [
    | inl same ↦ inl same
    | inr there ↦ inr ((sort_entries_iff a es).0 there)
  ],
  λ h.
      (In-insert_entry a e (sort_entries es)).1
        (elim h [ inl same ↦ inl same | inr there ↦ inr ((sort_entries_iff a es).1 there) ]),
)

pub offering_iff :
    (wanted : Bytes) (a : CatalogueEntry) (es : List CatalogueEntry)
    → In a (offering wanted es) ↔ (In a es × (a.resource ≡ wanted))
offering_iff wanted a [] = (λ h. absurd h, λ h. absurd h.0)
offering_iff wanted a (e ∷ es) = elim (Bool-cases (bytes_eq e.resource wanted)) [
  | inl hit ↦ rw hit (
    λ h. elim h [
      | inl same ↦ (
        inl same,
        ap (λ (y : CatalogueEntry). y.resource) same ∙ bytes_eq_sound e.resource wanted hit,
      )
      | inr later ↦ let (at, is) = (offering_iff wanted a es).0 later in (inr at, is)
    ],
    λ (at, is). elim at [
      | inl same ↦ inl same
      | inr later ↦ inr ((offering_iff wanted a es).1 (later, is))
    ],
  )
  | inr miss ↦ rw miss (
    λ h. let (at, is) = (offering_iff wanted a es).0 h in (inr at, is),
    λ (at, is). elim at [
      | inl same ↦ absurd (
          ground (
            arith,
            miss,
            bytes_eq_refl wanted,
            ap (λ (y : CatalogueEntry). bytes_eq y.resource wanted) same,
            ap (λ (s : Bytes). bytes_eq s wanted) is,
          ))
      | inr later ↦ (offering_iff wanted a es).1 (later, is)
    ],
  )
]
