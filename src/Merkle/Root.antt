-- ===== src/Merkle/Root.antt =====
-- The root of the tree of saito-core/src/core/consensus/merkle.rs.
use saito_rust_workspace.Prelude.{
  length-replicate, ℕ, zero, suc, ◌+◌, ◌≤◌, ◌<◌, ◌≡◌, refl, ap, ◌∙◌, Bool, true, false, some, List,
  [], ◌∷◌, ◌++◌, arith, ltb, if◌then◌else◌, length, replicate, length-append, All,
}
use saito_rust_workspace.Bytes.{Bytes, index}
use saito_rust_workspace.Outcome.{ok}
use saito_rust_workspace.Transaction.{Transaction}
use saito_rust_workspace.Merkle.{
  MerkleTreeNode, node, transaction, absent, child, get_hash, generate_hash, combine, combine_all,
  child_hash, calculate_child_count, create_leaves, leaves_of, or_zeros, generate,
}

-- the hashes after one round
pub pair_hashes : (Bytes → Bytes) → List Bytes → List Bytes
pair_hashes hash [] = []
pair_hashes hash (a ∷ []) = a ∷ []
pair_hashes hash (a ∷ b ∷ hs) = hash (a ++ b) ∷ pair_hashes hash hs

-- nodes with these hashes
abbrev HasHashes : List MerkleTreeNode → List Bytes → Type 0
HasHashes [] [] = Unit
HasHashes [] (h ∷ hs) = ⊥
HasHashes (n ∷ ns) [] = ⊥
HasHashes (n ∷ ns) (h ∷ hs) = (get_hash n ≡ some h) × HasHashes ns hs

combine-HasHashes :
    (hash : Bytes → Bytes) (ns : List MerkleTreeNode) (hs : List Bytes)
    → HasHashes ns hs
    → (next : List MerkleTreeNode) × (combine hash ns ≡ ok next)
      × HasHashes next (pair_hashes hash hs)
unfolding combine generate_hash child_hash get_hash pair_hashes
combine-HasHashes hash [] [] w = ([], refl, tt)
combine-HasHashes hash (n ∷ []) (h ∷ []) w = (
  node (child n) absent (some h) (calculate_child_count (child n) absent) false ∷ [],
  rw w.0,
  (refl, tt),
)
combine-HasHashes hash (n ∷ m ∷ ns) (a ∷ b ∷ hs) w =
    let (next, e, v) = combine-HasHashes hash ns hs w.1.1 in
    (
      node (child n) (child m) (some (hash (a ++ b))) (calculate_child_count (child n) (child m))
            false
          ∷ next,
      rw (w.0, w.1.0, e),
      (refl, v),
    )
combine-HasHashes hash [] (h ∷ hs) w = elim w [ ]
combine-HasHashes hash (n ∷ ns) [] w = elim w [ ]
combine-HasHashes hash (n ∷ []) (a ∷ b ∷ hs) w = elim w.1 [ ]
combine-HasHashes hash (n ∷ m ∷ ns) (a ∷ []) w = elim w.1 [ ]

length-pair_hashes :
    (hash : Bytes → Bytes) (hs : List Bytes) → length (pair_hashes hash hs) ≤ length hs
unfolding pair_hashes
length-pair_hashes hash [] = omega arith
length-pair_hashes hash (a ∷ []) = omega arith
length-pair_hashes hash (a ∷ b ∷ hs) = omega (arith, length-pair_hashes hash hs)

-- the hash that is left after the rounds, on fuel
pub root_hash : (Bytes → Bytes) → ℕ → List Bytes → Bytes
root_hash hash fuel [] = []
root_hash hash fuel (h ∷ []) = h
root_hash hash zero (a ∷ b ∷ hs) = []
root_hash hash (suc fuel) (a ∷ b ∷ hs) = root_hash hash fuel (pair_hashes hash (a ∷ b ∷ hs))

paired_some :
    (hash : Bytes → Bytes) (a b : Bytes) (hs : List Bytes)
    → 0 < length (pair_hashes hash (a ∷ b ∷ hs))
unfolding pair_hashes
paired_some hash a b hs = omega arith

paired_fewer :
    (hash : Bytes → Bytes) (a b : Bytes) (hs : List Bytes) (fuel : ℕ)
    → length (a ∷ b ∷ hs) ≤ suc fuel + 1
    → length (pair_hashes hash (a ∷ b ∷ hs)) ≤ fuel + 1
unfolding pair_hashes
paired_fewer hash a b hs fuel enough = omega (arith, enough, length-pair_hashes hash hs)

combine_all-root_hash :
    (hash : Bytes → Bytes) (fuel : ℕ) (ns : List MerkleTreeNode) (hs : List Bytes)
    → HasHashes ns hs
    → 0 < length hs
    → length hs ≤ fuel + 1
    → (root : MerkleTreeNode) × (combine_all hash fuel ns ≡ ok (some root))
      × (get_hash root ≡ some (root_hash hash fuel hs))
unfolding combine_all root_hash
combine_all-root_hash hash fuel ns [] w pos enough = absurd (omega (arith, pos))
combine_all-root_hash hash fuel [] (h ∷ hs) w pos enough = elim w [ ]
combine_all-root_hash hash fuel (n ∷ []) (h ∷ []) w pos enough = (n, refl, w.0)
combine_all-root_hash hash fuel (n ∷ []) (a ∷ b ∷ hs) w pos enough = elim w.1 [ ]
combine_all-root_hash hash fuel (n ∷ m ∷ ns) (a ∷ []) w pos enough = elim w.1 [ ]
combine_all-root_hash hash zero (n ∷ m ∷ ns) (a ∷ b ∷ hs) w pos enough =
    absurd (omega (arith, enough))
combine_all-root_hash hash (suc fuel) (n ∷ m ∷ ns) (a ∷ b ∷ hs) w pos enough =
    let (next, e, v) = combine-HasHashes hash (n ∷ m ∷ ns) (a ∷ b ∷ hs) w in
    let (root, e', r) =
      combine_all-root_hash hash fuel next (pair_hashes hash (a ∷ b ∷ hs)) v
        (paired_some hash a b hs) (paired_fewer hash a b hs fuel enough) in
    (root, rw e e', r)

-- the hashes of the leaves: a transaction that stands for several has a leaf for each
pub leaf_hashes : List Transaction → List Bytes
leaf_hashes [] = []
leaf_hashes (tx ∷ txs) =
    (if ltb 1 tx.txs_replacements
      then replicate tx.txs_replacements (or_zeros tx.hash_for_signature)
      else or_zeros tx.hash_for_signature ∷ [])
    ++ leaf_hashes txs

abbrev pub IsHashed : Transaction → Type 0
IsHashed tx = (h : Bytes) × (tx.hash_for_signature ≡ some h)

HasHashes-append :
    (ns ms : List MerkleTreeNode) (hs gs : List Bytes)
    → HasHashes ns hs
    → HasHashes ms gs
    → HasHashes (ns ++ ms) (hs ++ gs)
HasHashes-append [] ms [] gs w v = v
HasHashes-append [] ms (h ∷ hs) gs w v = elim w [ ]
HasHashes-append (n ∷ ns) ms [] gs w v = elim w [ ]
HasHashes-append (n ∷ ns) ms (h ∷ hs) gs w v = (w.0, HasHashes-append ns ms hs gs w.1 v)

HasHashes-replicate :
    (k : ℕ) (n : MerkleTreeNode) (h : Bytes)
    → get_hash n ≡ some h
    → HasHashes (replicate k n) (replicate k h)
HasHashes-replicate zero n h e = tt
HasHashes-replicate (suc k) n h e = (e, HasHashes-replicate k n h e)

leaves_of-HasHashes :
    (index : ℕ) (tx : Transaction)
    → IsHashed tx
    → HasHashes (leaves_of index tx) (
        if ltb 1 tx.txs_replacements
        then replicate tx.txs_replacements (or_zeros tx.hash_for_signature)
        else or_zeros tx.hash_for_signature ∷ [])
unfolding leaves_of get_hash
leaves_of-HasHashes index tx (h, e) = from (ltb 1 tx.txs_replacements)
  where
    from :
        (several : Bool)
        → HasHashes
            (if several
              then replicate tx.txs_replacements
                  (transaction index (some (or_zeros tx.hash_for_signature)) 1 true)
              else transaction index tx.hash_for_signature 1 false ∷ [])
            (if several
              then replicate tx.txs_replacements (or_zeros tx.hash_for_signature)
              else or_zeros tx.hash_for_signature ∷ [])
    from true = HasHashes-replicate tx.txs_replacements _ _ refl
    from false = (rw e, tt)

create_leaves-HasHashes :
    (index : ℕ) (txs : List Transaction)
    → All IsHashed txs
    → HasHashes (create_leaves index txs) (leaf_hashes txs)
unfolding create_leaves leaf_hashes
create_leaves-HasHashes index [] hashed = tt
create_leaves-HasHashes index (tx ∷ txs) hashed =
    HasHashes-append (leaves_of index tx) (create_leaves (index + 1) txs) _ (leaf_hashes txs)
      (leaves_of-HasHashes index tx hashed.0) (create_leaves-HasHashes (index + 1) txs hashed.1)

length-HasHashes :
    (ns : List MerkleTreeNode) (hs : List Bytes) → HasHashes ns hs → length ns ≡ length hs
length-HasHashes [] [] w = refl
length-HasHashes [] (h ∷ hs) w = elim w [ ]
length-HasHashes (n ∷ ns) [] w = elim w [ ]
length-HasHashes (n ∷ ns) (h ∷ hs) w = ap suc (length-HasHashes ns hs w.1)

some_leaf : (k : ℕ) (h : Bytes) → 0 < length (if ltb 1 k then replicate k h else h ∷ [])
some_leaf k h = ground (arith, length-replicate k h)

length-leaf_hashes :
    (tx : Transaction) (txs : List Transaction) → 0 < length (leaf_hashes (tx ∷ txs))
unfolding leaf_hashes
length-leaf_hashes tx txs =
    let h = or_zeros tx.hash_for_signature in
    rw length-append (omega (arith, some_leaf tx.txs_replacements h))

-- The tree over some transactions, each with its hash: the rounds end, no hash is missing, and the
-- root has the hash that is left when the hashes of the leaves are paired in rounds, where a last
-- one alone goes up as it is. A transaction that stands for several has a leaf for each.
pub generate-root_hash :
    (hash : Bytes → Bytes) (tx : Transaction) (txs : List Transaction)
    → All IsHashed (tx ∷ txs)
    → let hs = leaf_hashes (tx ∷ txs) in
      (root : MerkleTreeNode) × (generate hash (tx ∷ txs) ≡ ok (some (some root)))
      × (get_hash root ≡ some (root_hash hash (length hs) hs))
unfolding generate
generate-root_hash hash tx txs hashed =
    let hs = leaf_hashes (tx ∷ txs) in
    let leaves = create_leaves 0 (tx ∷ txs) in
    let w = create_leaves-HasHashes 0 (tx ∷ txs) hashed in
    let same : length leaves ≡ length hs = length-HasHashes leaves hs w in
    let (root, e, r) =
      combine_all-root_hash hash (length leaves) leaves hs w (length-leaf_hashes tx txs)
        (omega (arith, same)) in
    (root, rw e, r ∙ ap (λ rounds. some (root_hash hash rounds hs)) same)
