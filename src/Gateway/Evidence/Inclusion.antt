-- ===== src/Gateway/Evidence/Inclusion.antt =====
-- Inclusion proofs: every leaf has one, and it leads to the root.
use agentpay.Prelude.{
  ℕ, zero, suc, ◌+◌, ◌/◌, ◌%◌, ◌≤◌, ◌<◌, ◌≡◌, refl, sym, ap, ◌∙◌, subst, Bool, true, Option, some,
  List, [], ◌∷◌, arith, ltb, ◌==◌, ==_iff, if◌then◌else◌, length, get_elem?, inl, inr, Bool-cases,
  ltb→lt, none-ne-some,
}
use agentpay.Prelude.Bytes.{Bytes}
use agentpay.Gateway.Evidence.Merkle.{
  left, right, ProofNode, last, sibling_idx, unwrap_or, proof_node, proof_nodes, push_node, leaves,
  leaf_count, proof, top_hash, root, hash_pair, next_level, build, new_tree, parent, climb,
  verify_proof,
}

pub get_elem?-inside :
    {A : Type 0} (xs : List A) (i : ℕ) → i < length xs → (x : A) × (get_elem? xs i ≡ some x)
get_elem?-inside [] i h = elim h [ ]
get_elem?-inside (x ∷ xs) zero h = (x, refl)
get_elem?-inside (x ∷ xs) (suc i) h = get_elem?-inside xs i (omega arith)

get_elem?-bound :
    {A : Type 0} (xs : List A) (i : ℕ) (x : A) → get_elem? xs i ≡ some x → i < length xs
get_elem?-bound [] i x h = absurd (none-ne-some h)
get_elem?-bound (y ∷ xs) zero x h = omega arith
get_elem?-bound (y ∷ xs) (suc i) x h = omega (arith, get_elem?-bound xs i x h)

half_step : (i : ℕ) → suc (suc i) / 2 ≡ suc (i / 2)
half_step i = omega arith

even_step : (i : ℕ) → suc (suc i) % 2 ≡ i % 2
even_step i = omega arith

sibling_step : (i : ℕ) → sibling_idx (suc (suc i)) ≡ suc (suc (sibling_idx i))
sibling_step i = ground (arith, even_step i)

get_some : {A : Type 0} {x y : A} → some x ≡ some y → x ≡ y
get_some h = cc

node_at :
    (l : List ℕ) (i x : ℕ) (sib : Option ℕ) (even : Bool)
    → get_elem? l i ≡ some x
    → get_elem? l (sibling_idx i) ≡ sib
    → (i % 2 == 0) ≡ even
    → proof_node l i ≡ some (record { hash = unwrap_or sib x; side = if even then right else left })
unfolding proof_node
node_at l i x sib even h s e = ground (arith, h, s, e)

node_step :
    (a b : ℕ) (l : List ℕ) (i x : ℕ)
    → get_elem? l i ≡ some x
    → proof_node (a ∷ b ∷ l) (suc (suc i)) ≡ proof_node l i
node_step a b l i x h =
    node_at (a ∷ b ∷ l) (suc (suc i)) x (get_elem? l (sibling_idx i)) (i % 2 == 0) h
      (ap (get_elem? (a ∷ b ∷ l)) (sibling_step i)) (ap (λ (n : ℕ). n == 0) (even_step i))
    ∙ sym (node_at l i x (get_elem? l (sibling_idx i)) (i % 2 == 0) h refl refl)

module _ (sha256 : Bytes → ℕ) where
  length-next_level :
      (l : List ℕ) → length (next_level sha256 l) + length (next_level sha256 l) ≤ suc (length l)
  unfolding next_level
  length-next_level [] = omega arith
  length-next_level (a ∷ []) = omega arith
  length-next_level (a ∷ b ∷ l) = omega (arith, length-next_level l)

  -- A node and its proof node give the parent in the next level.
  next_level-parent :
      (l : List ℕ) (i : ℕ) (x : ℕ)
      → get_elem? l i ≡ some x
      → (node : ProofNode) × (proof_node l i ≡ some node)
        × (get_elem? (next_level sha256 l) (i / 2) ≡ some (parent sha256 x node))
  unfolding next_level proof_node parent
  next_level-parent [] i x h = absurd (none-ne-some h)
  next_level-parent (a ∷ []) zero x h = (
    record { hash = a; side = right },
    refl,
    ap (λ (y : ℕ). some (hash_pair sha256 y a)) (get_some h),
  )
  next_level-parent (a ∷ []) (suc i) x h = absurd (none-ne-some h)
  next_level-parent (a ∷ b ∷ l) zero x h = (
    record { hash = b; side = right },
    refl,
    ap (λ (y : ℕ). some (hash_pair sha256 y b)) (get_some h),
  )
  next_level-parent (a ∷ b ∷ l) (suc zero) x h = (
    record { hash = a; side = left },
    refl,
    ap (λ (y : ℕ). some (hash_pair sha256 a y)) (get_some h),
  )
  next_level-parent (a ∷ b ∷ l) (suc (suc i)) x h =
      let (node, p, q) = next_level-parent l i x h in
      (
        node,
        node_step a b l i x h ∙ p,
        ap (get_elem? (hash_pair sha256 a b ∷ next_level sha256 l)) (half_step i) ∙ q,
      )

  build-cons : (fuel : ℕ) (l : List ℕ) → (ls : List (List ℕ)) × (build sha256 fuel l ≡ l ∷ ls)
  unfolding build
  build-cons zero l = ([], refl)
  build-cons (suc fuel) l = elim (Bool-cases (ltb 1 (length l))) [
    | inl more ↦ (build sha256 fuel (next_level sha256 l), rw more refl)
    | inr done ↦ ([], rw done refl)
  ]

  -- The nodes of a proof from index `i` of the lowest level, and where they lead.
  abbrev Leads : ℕ → ℕ → List (List ℕ) → Type 0
  Leads i x levels =
      (nodes : List ProofNode) × (proof_nodes levels i ≡ some nodes)
      × (climb sha256 x nodes ≡ top_hash (last levels))

  climb_level :
      (l next : List ℕ) (ls : List (List ℕ)) (i x : ℕ) (node : ProofNode)
      → proof_node l i ≡ some node
      → Leads (i / 2) (parent sha256 x node) (next ∷ ls)
      → Leads i x (l ∷ next ∷ ls)
  unfolding proof_nodes climb
  climb_level l next ls i x node p (nodes, q, c) = (
    node ∷ nodes,
    ap (λ (o : Option ProofNode). push_node o (proof_nodes (next ∷ ls) (i / 2))) p
        ∙ ap (push_node (some node)) q,
    c,
  )

  top_level : (l : List ℕ) (i x : ℕ) → length l ≤ 1 → get_elem? l i ≡ some x → Leads i x (l ∷ [])
  unfolding proof_nodes climb
  top_level [] i x b h = absurd (none-ne-some h)
  top_level (a ∷ []) zero x b h = ([], refl, sym (get_some h))
  top_level (a ∷ []) (suc i) x b h = absurd (none-ne-some h)
  top_level (a ∷ c ∷ l) i x b h = absurd (omega arith)

  -- Halving as often as the fuel allows ends at one node, so the proof leads to the top.
  build-Leads :
      (fuel : ℕ) (l : List ℕ) (i x : ℕ)
      → length l ≤ suc fuel
      → get_elem? l i ≡ some x
      → Leads i x (build sha256 fuel l)
  unfolding build
  build-Leads zero l i x b h = top_level l i x b h
  build-Leads (suc fuel) l i x b h = elim (Bool-cases (ltb 1 (length l))) [
    | inl more ↦
        let (node, p, q) = next_level-parent l i x h in
        let (ls, e) = build-cons fuel (next_level sha256 l) in
        let up =
          build-Leads fuel (next_level sha256 l) (i / 2) (parent sha256 x node)
            (omega (arith, length-next_level l, ltb→lt 1 (length l) more)) q in
        subst
          (λ (c : Bool).
            Leads i x (if c then l ∷ build sha256 fuel (next_level sha256 l) else l ∷ []))
          (sym more)
          (subst (λ (levels : List (List ℕ)). Leads i x (l ∷ levels)) (sym e)
            (climb_level l (next_level sha256 l) ls i x node p (
              subst (λ (levels : List (List ℕ)). Leads (i / 2) (parent sha256 x node) levels) e
                up)))
    | inr done ↦
        subst
          (λ (c : Bool).
            Leads i x (if c then l ∷ build sha256 fuel (next_level sha256 l) else l ∷ []))
          (sym done) (top_level l i x (ground arith) h)
  ]

  verify_climb :
      (x : ℕ) (nodes : List ProofNode) (r : ℕ)
      → climb sha256 x nodes ≡ r
      → verify_proof sha256 x nodes r ≡ true
  unfolding verify_proof
  verify_climb x nodes r e = (==_iff (climb sha256 x nodes) r).1 e

  leaf_count-new_tree : (ls : List ℕ) → leaf_count (new_tree sha256 ls) ≡ length ls
  unfolding new_tree
  leaf_count-new_tree [] = refl
  leaf_count-new_tree (h ∷ hs) =
      let (ls, e) = build-cons (length hs) (h ∷ hs) in
      ap (λ (levels : List (List ℕ)). length (leaves (record { levels = levels }))) e

  -- Each leaf of a tree has an inclusion proof, which `verify_proof` accepts against the tree's
  -- root.
  pub proof_lem :
      (ls : List ℕ) (i x : ℕ)
      → get_elem? ls i ≡ some x
      → (nodes : List ProofNode) × (proof (new_tree sha256 ls) i ≡ some nodes)
        × (verify_proof sha256 x nodes (root (new_tree sha256 ls)) ≡ true)
  unfolding proof root new_tree
  proof_lem [] i x h = absurd (none-ne-some h)
  proof_lem (l ∷ ls) i x h =
      let (nodes, p, c) = build-Leads (length ls) (l ∷ ls) i x (omega arith) h in
      (
        nodes,
        ground (arith, p, leaf_count-new_tree (l ∷ ls), get_elem?-bound (l ∷ ls) i x h),
        verify_climb x nodes (top_hash (last (build sha256 (length ls) (l ∷ ls)))) c,
      )
