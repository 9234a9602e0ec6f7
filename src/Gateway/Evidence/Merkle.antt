-- ===== src/Gateway/Evidence/Merkle.antt =====
-- The Merkle tree over the entry hashes, gateway/src/evidence.rs.
use agentpay.Prelude.{
  ℕ, zero, suc, ◌+◌, ◌-◌, ◌/◌, ◌%◌, Bool, Option, none, some, List, [], ◌∷◌, ◌++◌, ltb, leb, ◌==◌,
  if◌then◌else◌, length, get_elem?,
}
use agentpay.Prelude.Bytes.{Bytes, le_bytes}
use agentpay.Gateway.Evidence.{empty_root}

pub data Side : Type 0 where
  left right : Side

pub record ProofNode : Type 0 where
  pub hash : ℕ
  pub side : Side

pub record MerkleTree : Type 0 where
  pub levels : List (List ℕ)

-- `last()`
abbrev pub last {ℓ} : {A : Type ℓ} → List A → Option A
last [] = none
last (x ∷ []) = some x
last (x ∷ y ∷ xs) = last (y ∷ xs)

-- The index of the other child of the same parent.
abbrev pub sibling_idx : ℕ → ℕ
sibling_idx idx = if idx % 2 == 0 then idx + 1 else idx - 1

abbrev pub unwrap_or {ℓ} : {A : Type ℓ} → Option A → A → A
unwrap_or none d = d
unwrap_or (some a) d = a

-- A step of the loop of `proof`; `none` where `level[idx]` is out of range, which panics.
unfoldable pub proof_node : List ℕ → ℕ → Option ProofNode
proof_node level idx = elim (get_elem? level idx) [
  | none ↦ none
  | some own ↦ some (record {
    hash = unwrap_or (get_elem? level (sibling_idx idx)) own;
    side = if idx % 2 == 0 then right else left;
  })
]

abbrev pub push_node : Option ProofNode → Option (List ProofNode) → Option (List ProofNode)
push_node (some node) (some nodes) = some (node ∷ nodes)
push_node none nodes = none
push_node (some node) none = none

-- The loop of `proof`: every level but the last.
unfoldable pub proof_nodes : List (List ℕ) → ℕ → Option (List ProofNode)
proof_nodes [] idx = some []
proof_nodes (level ∷ []) idx = some []
proof_nodes (level ∷ next ∷ levels) idx =
    push_node (proof_node level idx) (proof_nodes (next ∷ levels) (idx / 2))

abbrev pub leaves : MerkleTree → List ℕ
leaves t = elim t.levels [ [] ↦ [] | l ∷ ls ↦ l ]

abbrev pub leaf_count : MerkleTree → ℕ
leaf_count t = length (leaves t)

unfoldable pub proof : MerkleTree → ℕ → Option (List ProofNode)
proof t index = if leb (leaf_count t) index then none else proof_nodes t.levels index

abbrev pub top_hash : Option (List ℕ) → ℕ
top_hash none = empty_root
top_hash (some []) = empty_root
top_hash (some (h ∷ hs)) = h

unfoldable pub root : MerkleTree → ℕ
root t = top_hash (last t.levels)

module _ (sha256 : Bytes → ℕ) where
  unfoldable pub hash_pair : ℕ → ℕ → ℕ
  hash_pair a b = sha256 (le_bytes 32 a ++ le_bytes 32 b)

  -- The inner loop of `MerkleTree::new`.
  unfoldable pub next_level : List ℕ → List ℕ
  next_level [] = []
  next_level (a ∷ []) = hash_pair a a ∷ []
  next_level (a ∷ b ∷ hs) = hash_pair a b ∷ next_level hs

  -- The outer loop; each round halves the level, so its length is fuel enough.
  unfoldable pub build : ℕ → List ℕ → List (List ℕ)
  build zero level = level ∷ []
  build (suc fuel) level =
      let rest = build fuel (next_level level) in
      if ltb 1 (length level) then level ∷ rest else level ∷ []

  -- `MerkleTree::new`
  unfoldable pub new_tree : List ℕ → MerkleTree
  new_tree [] = record { levels = [] }
  new_tree (h ∷ hs) = record { levels = build (length hs) (h ∷ hs) }

  unfoldable pub parent : ℕ → ProofNode → ℕ
  parent current node = elim node.side [
    | right ↦ hash_pair current node.hash
    | left ↦ hash_pair node.hash current
  ]

  unfoldable pub climb : ℕ → List ProofNode → ℕ
  climb current [] = current
  climb current (node ∷ nodes) = climb (parent current node) nodes

  unfoldable pub verify_proof : ℕ → List ProofNode → ℕ → Bool
  verify_proof leaf nodes expected_root = climb leaf nodes == expected_root
