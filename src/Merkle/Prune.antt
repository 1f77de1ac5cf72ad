-- ===== src/Merkle/Prune.antt =====
-- What `prune` of saito-core/src/core/consensus/merkle.rs keeps of a tree.
use saito_rust_workspace.Prelude.{ℕ, ◌+◌, ◌≡◌, refl, Bool, true, false, ◌&&◌, arith, if◌then◌else◌}
use saito_rust_workspace.Prelude.{Option}
use saito_rust_workspace.Bytes.{Bytes}
use saito_rust_workspace.Merkle.{
  MerkleTreeNode, node, transaction, Child, absent, child, get_hash, get_count, child_count,
  calculate_child_count, prune_node, prune_child,
}

-- whether all transactions below are to go
unfoldable mutual
  pub all_go : (ℕ → Bool) → MerkleTreeNode → Bool
  all_go prune_func (node left right hash count is_spv) =
      child_goes prune_func left && child_goes prune_func right
  all_go prune_func (transaction index hash count is_spv) = prune_func index

  pub child_goes : (ℕ → Bool) → Child → Bool
  child_goes prune_func absent = true
  child_goes prune_func (child n) = all_go prune_func n

-- the number of nodes, and whether every count is the number of nodes there
unfoldable mutual
  pub nodes : MerkleTreeNode → ℕ
  nodes (node left right hash count is_spv) = 1 + child_nodes left + child_nodes right
  nodes (transaction index hash count is_spv) = 1

  pub child_nodes : Child → ℕ
  child_nodes absent = 0
  child_nodes (child n) = nodes n

unfoldable mutual
  unfolding nodes child_nodes

  pub IsCounted : MerkleTreeNode → Type 0
  IsCounted (node left right hash count is_spv) =
      (count ≡ 1 + child_nodes left + child_nodes right)
      × IsCountedChild left
      × IsCountedChild right
  IsCounted (transaction index hash count is_spv) = count ≡ 1

  pub IsCountedChild : Child → Type 0
  IsCountedChild absent = Unit
  IsCountedChild (child n) = IsCounted n

get_count-nodes : (n : MerkleTreeNode) → IsCounted n → get_count n ≡ nodes n
unfolding get_count nodes IsCounted
get_count-nodes (node left right hash count is_spv) c = c.0
get_count-nodes (transaction index hash count is_spv) c = c

child_count-child_nodes : (c : Child) → IsCountedChild c → child_count c ≡ child_nodes c
unfolding child_count child_nodes IsCountedChild
child_count-child_nodes absent c = refl
child_count-child_nodes (child n) c = get_count-nodes n c

mutual
  unfolding prune_node prune_child all_go child_goes

  prune_node-all_go : (f : ℕ → Bool) (n : MerkleTreeNode) → (prune_node f n).1 ≡ all_go f n
  prune_node-all_go f (node left right hash count is_spv) =
      ground (arith, prune_child-child_goes f left, prune_child-child_goes f right)
  prune_node-all_go f (transaction index hash count is_spv) = refl

  prune_child-child_goes : (f : ℕ → Bool) (c : Child) → (prune_child f c).1 ≡ child_goes f c
  prune_child-child_goes f absent = refl
  prune_child-child_goes f (child n) = prune_node-all_go f n

-- what becomes of a node, once its children are pruned
abbrev after : Bool → Child → Child → Option Bytes → Bool → MerkleTreeNode × Bool
unfolding calculate_child_count
after go left right hash is_spv =
    if go
    then (node absent absent hash 1 is_spv, true)
    else (node left right hash (calculate_child_count left right) is_spv, false)

kept :
    (go : Bool) (left right : Child) (hash : Option Bytes) (is_spv : Bool)
    → IsCountedChild left
    → IsCountedChild right
    → IsCounted (after go left right hash is_spv).0
unfolding after IsCounted calculate_child_count
kept true left right hash is_spv l r = (omega arith, tt, tt)
kept false left right hash is_spv l r =
    (omega (arith, child_count-child_nodes left l, child_count-child_nodes right r), l, r)

mutual
  unfolding after prune_node prune_child IsCounted IsCountedChild nodes child_nodes
      calculate_child_count

  prune_node-IsCounted :
      (f : ℕ → Bool) (n : MerkleTreeNode) → IsCounted n → IsCounted (prune_node f n).0
  prune_node-IsCounted f (node left right hash count is_spv) c =
      kept ((prune_child f left).1 && (prune_child f right).1) (prune_child f left).0
        (prune_child f right).0 hash is_spv (prune_child-IsCounted f left c.1)
        (prune_child-IsCounted f right c.2)
  prune_node-IsCounted f (transaction index hash count is_spv) c = c

  prune_child-IsCounted :
      (f : ℕ → Bool) (c : Child) → IsCountedChild c → IsCountedChild (prune_child f c).0
  prune_child-IsCounted f absent c = tt
  prune_child-IsCounted f (child n) c = prune_node-IsCounted f n c

pruned_hash :
    (go : Bool) (left right : Child) (hash : Option Bytes) (is_spv : Bool)
    → get_hash (after go left right hash is_spv).0 ≡ hash
unfolding after get_hash
pruned_hash true left right hash is_spv = refl
pruned_hash false left right hash is_spv = refl

prune_node-get_hash : (f : ℕ → Bool) (n : MerkleTreeNode) → get_hash (prune_node f n).0 ≡ get_hash n
unfolding after prune_node get_hash
prune_node-get_hash f (node left right hash count is_spv) =
    pruned_hash ((prune_child f left).1 && (prune_child f right).1) (prune_child f left).0
      (prune_child f right).0 hash is_spv
prune_node-get_hash f (transaction index hash count is_spv) = refl

-- Pruning a tree whose counts are right keeps its hash and leaves counts that are right; it answers
-- whether all transactions of the tree are to go.
pub prune_node_lem :
    (prune_func : ℕ → Bool) (n : MerkleTreeNode)
    → IsCounted n
    → let pruned = prune_node prune_func n in
      IsCounted pruned.0 × (get_hash pruned.0 ≡ get_hash n) × (pruned.1 ≡ all_go prune_func n)
prune_node_lem f n c = (prune_node-IsCounted f n c, prune_node-get_hash f n, prune_node-all_go f n)
