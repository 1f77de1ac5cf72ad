-- ===== src/Merkle/Tests.antt =====
-- An example of a Merkle tree.
use saito_rust_workspace.Prelude.{
  ◌==◌, true, false, arith, none, ℕ, ◌≡◌, refl, some, [], ◌∷◌, reverse, length, take, All,
}
use saito_rust_workspace.Bytes.{Bytes}
use saito_rust_workspace.Outcome.{ok}
use saito_rust_workspace.Transaction
use saito_rust_workspace.Transaction.{Transaction}
use saito_rust_workspace.Merkle.Prune.{IsCounted, prune_node_lem, all_go}
use saito_rust_workspace.Merkle.{
  node, transaction, child, prune_node, MerkleTreeNode, generate, get_hash,
}
use saito_rust_workspace.Merkle.Root.{root_hash, leaf_hashes, IsHashed, generate-root_hash}

abbrev signed : ℕ → Transaction
signed n = record Transaction.default { hash_for_signature = some (n ∷ []) }

-- a hash function for the example
abbrev last_byte : Bytes → Bytes
last_byte bytes = take 1 (reverse bytes)

three : All IsHashed (signed 1 ∷ signed 2 ∷ signed 3 ∷ [])
three = ((1 ∷ [], refl), ((2 ∷ [], refl), ((3 ∷ [], refl), tt)))

root_example :
    let hs = leaf_hashes (signed 1 ∷ signed 2 ∷ signed 3 ∷ []) in
    (root : MerkleTreeNode) × (generate last_byte (signed 1 ∷ signed 2 ∷ signed 3 ∷ [])
      ≡ ok (some (some root)))
    × (get_hash root ≡ some (root_hash last_byte (length hs) hs))
root_example = generate-root_hash last_byte (signed 1) (signed 2 ∷ signed 3 ∷ []) three

abbrev small : MerkleTreeNode
small =
    node (child (transaction 0 (some (1 ∷ [])) 1 false)) (child (transaction 1 none 1 true))
      (some (3 ∷ [])) 3 false

small-IsCounted : IsCounted small
unfolding IsCounted
small-IsCounted = (omega arith, refl, refl)

prune_example :
    let pruned = prune_node (λ i. i == 1) small in
    IsCounted pruned.0
    × (get_hash pruned.0 ≡ get_hash small)
    × (pruned.1 ≡ all_go (λ i. i == 1) small)
prune_example = prune_node_lem (λ i. i == 1) small small-IsCounted
