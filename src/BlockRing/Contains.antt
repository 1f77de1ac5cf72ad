-- ===== src/BlockRing/Contains.antt =====
-- Which blocks the ring of saito-core/src/core/consensus/blockring.rs holds after `add_block`.
use saito_rust_workspace.Prelude.{
  ℕ, ◌≡◌, ◌∙◌, ◌&&◌, ◌||◌, some, [], ◌∷◌, arith, ℕ_discrete, ◌==◌, get_elem?, length-append,
  All-get, any-append_end, get_elem?-set_self, get_elem?-set_ne,
}
use saito_rust_workspace.Bytes.{Bytes, bytes_eq}
use saito_rust_workspace.Outcome.{ok, ◌>>=◌}
use saito_rust_workspace.RingItem
use saito_rust_workspace.RingItem.{RingItem}
use saito_rust_workspace.BlockRing.{
  BlockRing, with_item, add_block, contains_block_hash_at_block_id,
}
use saito_rust_workspace.BlockRing.Slots.{
  IsValid, IsPaired, pos_of, insert_pos-eq, pos_of-lt, item_of, with_item-IsValid, slot-eq,
}

pub contains-eq :
    {r : BlockRing}
    → IsValid r
    → (id : ℕ) (hash : Bytes) {item : RingItem} → get_elem? r.ring (pos_of r id) ≡ some item
    → contains_block_hash_at_block_id r id hash ≡ ok (RingItem.contains_block_hash item hash)
unfolding contains_block_hash_at_block_id
contains-eq v id hash h = rw (slot-eq v id h)

add_block-IsPaired :
    (item : RingItem) (id : ℕ) (hash : Bytes)
    → IsPaired item
    → IsPaired (RingItem.add_block item id hash)
unfolding RingItem.add_block
add_block-IsPaired item id hash p =
    omega
      (arith, length-append item.block_ids (id ∷ []), length-append item.block_hashes (hash ∷ []))

-- the ring with the block added to its slot
abbrev pub extended : BlockRing → ℕ → Bytes → RingItem → BlockRing
extended r id hash item = with_item r (pos_of r id) (RingItem.add_block item id hash)

pub add_block-eq :
    {r : BlockRing}
    → IsValid r
    → (id : ℕ) (hash : Bytes) {item : RingItem} → get_elem? r.ring (pos_of r id) ≡ some item
    → add_block r id hash ≡ ok (extended r id hash item)
unfolding add_block
add_block-eq v id hash h = rw (insert_pos-eq v id, h)

pub extended-IsValid :
    {r : BlockRing}
    → IsValid r
    → (id : ℕ) (hash : Bytes) {item : RingItem} → get_elem? r.ring (pos_of r id) ≡ some item
    → IsValid (extended r id hash item)
extended-IsValid {r} v id hash {item} h =
    with_item-IsValid v (pos_of r id) (RingItem.add_block item id hash)
      (add_block-IsPaired item id hash (All-get IsPaired r.ring (pos_of r id) v.paired h))

contains-extended :
    {r : BlockRing} (v : IsValid r) (id : ℕ) (hash : Bytes) {item : RingItem}
    → get_elem? r.ring (pos_of r id) ≡ some item
    → (id' : ℕ) (hash' : Bytes)
    → contains_block_hash_at_block_id (extended r id hash item) id' hash' ≡ (
        contains_block_hash_at_block_id r id' hash' >>= λ old.
        ok (old || (pos_of r id == pos_of r id' && bytes_eq hash hash')))
unfolding RingItem.contains_block_hash RingItem.add_block
contains-extended {r} v id hash {item} h id' hash' =
    elim (ℕ_discrete (pos_of r id) (pos_of r id')) [
      | yes same ↦
          let here : get_elem? r.ring (pos_of r id') ≡ some item = rw (← same) h in
          let there : get_elem? (extended r id hash item).ring (pos_of r id')
              ≡ some (RingItem.add_block item id hash) =
            rw (← same) (get_elem?-set_self r.ring (pos_of r id) _ (pos_of-lt v id)) in
          ground (
            arith,
            contains-eq v id' hash' here,
            contains-eq (extended-IsValid v id hash h) id' hash' there,
            any-append_end (λ i. bytes_eq i hash') item.block_hashes hash,
          )
      | no differ ↦
          let (item', old) = item_of v id' in
          let there : get_elem? (extended r id hash item).ring (pos_of r id') ≡ some item' =
            get_elem?-set_ne r.ring _ differ ∙ old in
          ground (
            arith,
            contains-eq v id' hash' old,
            contains-eq (extended-IsValid v id hash h) id' hash' there,
          )
    ]

-- On a valid ring `add_block` succeeds, keeps the ring valid, and adds the hash to the slot of the
-- id: whether the ring then contains a hash at an id is as before, or the id has that slot and the
-- hash is the one added.
pub add_block_contains :
    {r : BlockRing}
    → IsValid r
    → (id : ℕ) (hash : Bytes)
    → (r' : BlockRing) × (add_block r id hash ≡ ok r')
      × IsValid r'
      × ((id' : ℕ) (hash' : Bytes)
          → contains_block_hash_at_block_id r' id' hash' ≡ (
              contains_block_hash_at_block_id r id' hash' >>= λ old.
              ok (old || (pos_of r id == pos_of r id' && bytes_eq hash hash'))))
add_block_contains {r} v id hash =
    let (item, h) = item_of v id in
    (
      extended r id hash item,
      add_block-eq v id hash h,
      extended-IsValid v id hash h,
      contains-extended v id hash h,
    )
