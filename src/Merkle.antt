-- ===== src/Merkle.antt =====
-- saito-core/src/core/consensus/merkle.rs: the Merkle tree over the transactions of a block. The
-- hash function is an argument.
pub mod Prune
pub mod Root
mod Tests
use saito_rust_workspace.Prelude.{
  ℕ, zero, suc, ◌+◌, ◌-◌, ◌*◌, ◌/◌, ◌%◌, ◌^◌, ◌≤◌, ◌<◌, min, max, ◌≡◌, ◌≢◌, ◌↔◌, ◌⊎◌, refl, sym, ap,
  ap₂, ◌∙◌, fun_ext, Bool, true, false, not, ◌&&◌, ◌||◌, Option, none, some, inl, inr, List, [],
  ◌∷◌, ◌++◌, map, reverse, append-nil, append_assoc, arith, dec_lt, ℕ_discrete, ltb, leb, ◌==◌,
  if◌then◌else◌, ltb→lt, lt→ltb, leb→le, ==_iff, tests, Bool-cases, Option-cases, length, get_elem?,
  set, get_or, take, drop, replicate, length-append, length-set, length-take, length-drop,
  length-map, take-append-drop, All, any, keep_if, All-append, All-append_left, All-append_right,
  get_elem?_in_range, lt_of_get_elem?, get_elem?-append_end, All-set, All-get, any-append_end,
  get_elem?-set_self, get_elem?-set_ne,
}
use saito_rust_workspace.Bytes.{
  Bytes, AreBytes, IsArray, to_be_bytes, from_be_bytes, slice, index, bytes_eq, concat, zeros,
}
use saito_rust_workspace.Bytes.Endian.{
  length-to_be_bytes, to_be_bytes-AreBytes, from_be_bytes-to_be_bytes, to_be_bytes-from_be_bytes,
  from_be_bytes-lt,
}
use saito_rust_workspace.Bytes.Slices.{
  slice-append_skip, slice-append_self, slice-eq-ok, index-append_skip, bytes_eq_iff, bytes_eq_refl,
  slice_split, index_split, slice_in_range, drop-length, slice-IsArray, index-lt, zeros-IsArray,
  index_in_range,
}
use saito_rust_workspace.Outcome.{
  Outcome, ok, err, panic, ◌>>=◌, ◌>>◌, check, assert, ok_or, unwrap, >>=-eq-ok, ErrorKind,
  invalid_input, invalid_data, not_found,
}
use saito_rust_workspace.Transaction.{Transaction}

-- `MerkleTreeNode`, with its two types of nodes, and an optional child
mutual
  pub data MerkleTreeNode : Type 0 where
    node : Child → Child → Option Bytes → ℕ → Bool → MerkleTreeNode
    transaction : ℕ → Option Bytes → ℕ → Bool → MerkleTreeNode

  pub data Child : Type 0 where
    absent : Child
    child : MerkleTreeNode → Child

unfoldable pub get_hash : MerkleTreeNode → Option Bytes
get_hash (node left right hash count is_spv) = hash
get_hash (transaction index hash count is_spv) = hash

unfoldable pub get_count : MerkleTreeNode → ℕ
get_count (node left right hash count is_spv) = count
get_count (transaction index hash count is_spv) = count

unfoldable pub child_count : Child → ℕ
unfolding get_count
child_count absent = 0
child_count (child n) = get_count n

-- `usize` counts nodes that are in memory.
unfoldable pub calculate_child_count : Child → Child → ℕ
unfolding child_count
calculate_child_count left right = 1 + child_count left + child_count right

-- `left.as_ref().unwrap().hash.unwrap()`
unfoldable pub child_hash : Child → Outcome Bytes
unfolding get_hash
child_hash absent = panic
child_hash (child n) = unwrap (get_hash n)

unfoldable pub generate_hash : (Bytes → Bytes) → MerkleTreeNode → Outcome MerkleTreeNode
unfolding child_hash
generate_hash hash (transaction index h count is_spv) = ok (transaction index h count is_spv)
generate_hash hash (node left right (some h) count is_spv) =
    ok (node left right (some h) count is_spv)
generate_hash hash (node left right none count is_spv) = do
  left_hash ← child_hash left
  right_hash ← child_hash right
  ok (node left right (some (hash (left_hash ++ right_hash))) count is_spv)

-- One round: a node per two leaves, with its hash; the last leaf alone keeps its hash.
unfoldable pub combine : (Bytes → Bytes) → List MerkleTreeNode → Outcome (List MerkleTreeNode)
unfolding generate_hash calculate_child_count get_hash
combine hash [] = ok []
combine hash (left ∷ []) =
    generate_hash hash
      (node (child left) absent (get_hash left) (calculate_child_count (child left) absent) false)
    >>= λ n. ok (n ∷ [])
combine hash (left ∷ right ∷ leaves) =
    generate_hash hash (
      node (child left) (child right) none (calculate_child_count (child left) (child right)) false)
    >>= λ n. combine hash leaves >>= λ nodes. ok (n ∷ nodes)

-- The rounds until one node is left, on fuel.
unfoldable pub combine_all :
    (Bytes → Bytes) → ℕ → List MerkleTreeNode → Outcome (Option MerkleTreeNode)
unfolding combine
combine_all hash fuel [] = panic
combine_all hash fuel (n ∷ []) = ok (some n)
combine_all hash zero (n ∷ m ∷ nodes) = ok none
combine_all hash (suc fuel) (n ∷ m ∷ nodes) =
    combine hash (n ∷ m ∷ nodes) >>= λ next. combine_all hash fuel next

-- `unwrap_or([0; 32])`
abbrev pub or_zeros : Option Bytes → Bytes
or_zeros none = zeros 32
or_zeros (some h) = h

-- the leaves of one transaction
unfoldable pub leaves_of : ℕ → Transaction → List MerkleTreeNode
leaves_of index tx =
    if ltb 1 tx.txs_replacements
    then replicate tx.txs_replacements
        (transaction index (some (or_zeros tx.hash_for_signature)) 1 true)
    else transaction index tx.hash_for_signature 1 false ∷ []

unfoldable pub create_leaves : ℕ → List Transaction → List MerkleTreeNode
unfolding leaves_of
create_leaves index [] = []
create_leaves index (tx ∷ txs) = leaves_of index tx ++ create_leaves (index + 1) txs

-- `none` for no transactions; the inner `none` means that the fuel ran out.
unfoldable pub generate :
    (Bytes → Bytes) → List Transaction → Outcome (Option (Option MerkleTreeNode))
unfolding create_leaves combine_all
generate hash [] = ok none
generate hash (tx ∷ txs) =
    combine_all hash (length (create_leaves 0 (tx ∷ txs))) (create_leaves 0 (tx ∷ txs)) >>= λ root.
    ok (some root)

-- `prune_node`: the node after it, and whether everything below it goes.
unfoldable mutual
  unfolding calculate_child_count

  pub prune_node : (ℕ → Bool) → MerkleTreeNode → MerkleTreeNode × Bool
  prune_node prune_func (node left right hash count is_spv) =
      let (left', prune_left) = prune_child prune_func left in
      let (right', prune_right) = prune_child prune_func right in
      if prune_left && prune_right
      then (node absent absent hash 1 is_spv, true)
      else (node left' right' hash (calculate_child_count left' right') is_spv, false)
  prune_node prune_func (transaction index hash count is_spv) =
      (transaction index hash count is_spv, prune_func index)

  pub prune_child : (ℕ → Bool) → Child → Child × Bool
  prune_child prune_func absent = (absent, true)
  prune_child prune_func (child n) = let (n', prune) = prune_node prune_func n in (child n', prune)
