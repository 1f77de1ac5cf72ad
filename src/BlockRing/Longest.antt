-- ===== src/BlockRing/Longest.antt =====
-- The longest chain in the ring of saito-core/src/core/consensus/blockring.rs: the tip moves on
-- when a block joins, and back when it leaves.
use saito_rust_workspace.Prelude.{
  ℕ_discrete, ℕ, ◌+◌, ◌≡◌, ◌≢◌, sym, ◌∙◌, true, false, Option, none, some, List, [], ◌∷◌, ◌++◌,
  arith, ◌==◌, if◌then◌else◌, length, get_elem?, length-append, any, get_elem?-append_end, All-get,
  get_elem?-set_self, get_elem?-set_ne,
}
use saito_rust_workspace.Bytes.{Bytes, bytes_eq}
use saito_rust_workspace.Bytes.Slices.{bytes_eq_refl}
use saito_rust_workspace.Outcome.{ok}
use saito_rust_workspace.RingItem
use saito_rust_workspace.RingItem.{RingItem}
use saito_rust_workspace.BlockRing.{
  BlockRing, with_item, add_block, contains_block_hash_at_block_id, get_latest_block_hash,
  get_latest_block_id, get_longest_chain_block_hash_at_block_id, on_chain_reorganization,
}
use saito_rust_workspace.BlockRing.Slots.{
  IsValid, IsPaired, pos_of, insert_pos-eq, pos_of-lt, item_of, with_item-IsValid, slot-eq,
}
use saito_rust_workspace.BlockRing.Contains.{contains-eq, add_block-eq, extended, extended-IsValid}

-- what a slot says of the longest chain at an id
abbrev pub longest_in : RingItem → ℕ → Option Bytes
longest_in item id = elim item.lc_pos [
  | none ↦ none
  | some lc_pos ↦ elim (get_elem? item.block_ids lc_pos) [
    | none ↦ none
    | some item_id ↦ if item_id == id then get_elem? item.block_hashes lc_pos else none
  ]
]

pub longest-eq :
    {r : BlockRing}
    → IsValid r
    → (id : ℕ) {item : RingItem} → get_elem? r.ring (pos_of r id) ≡ some item
    → get_longest_chain_block_hash_at_block_id r id ≡ ok (longest_in item id)
unfolding get_longest_chain_block_hash_at_block_id
longest-eq v id h = rw (slot-eq v id h)

position_from_fresh :
    (i : ℕ) (xs : List Bytes) (hash : Bytes)
    → any (λ b. bytes_eq b hash) xs ≡ false
    → RingItem.position_from i (λ b. bytes_eq b hash) (xs ++ hash ∷ []) ≡ some (i + length xs)
unfolding RingItem.position_from
position_from_fresh i [] hash h = ground (arith, bytes_eq_refl hash)
position_from_fresh i (x ∷ xs) hash h = ground (arith, position_from_fresh (i + 1) xs hash)

-- the slot with the block added at its end and marked
abbrev marked : RingItem → ℕ → Bytes → RingItem
marked item id hash = record (RingItem.add_block item id hash) {
  lc_pos = some (length item.block_hashes);
}

reorganize-added :
    (item : RingItem) (id : ℕ) (hash : Bytes)
    → RingItem.contains_block_hash item hash ≡ false
    → RingItem.on_chain_reorganization (RingItem.add_block item id hash) hash true
      ≡ marked item id hash
unfolding RingItem.on_chain_reorganization RingItem.contains_block_hash RingItem.add_block
reorganize-added item id hash h =
    let zero_add : 0 + length item.block_hashes ≡ length item.block_hashes = omega arith in
    rw (position_from_fresh 0 item.block_hashes hash h, zero_add)

module _ {r : BlockRing} (v : IsValid r) (id : ℕ) (hash : Bytes) {item : RingItem}
    (here : get_elem? r.ring (pos_of r id) ≡ some item)
    (fresh : RingItem.contains_block_hash item hash ≡ false) where
  paired : IsPaired item
  paired = All-get IsPaired r.ring (pos_of r id) v.paired here

  -- the ring after `add_block` and `on_chain_reorganization`
  abbrev tip_ring : BlockRing
  tip_ring = record (with_item (extended r id hash item) (pos_of r id) (marked item id hash)) {
    lc_pos = some (pos_of r id);
  }

  tip_ring-eq : on_chain_reorganization (extended r id hash item) id hash true ≡ ok tip_ring
  unfolding on_chain_reorganization
  tip_ring-eq = rw (
    insert_pos-eq (extended-IsValid v id hash here) id,
    get_elem?-set_self r.ring (pos_of r id) (RingItem.add_block item id hash) (pos_of-lt v id),
    reorganize-added item id hash fresh,
  )

  marked-IsPaired : IsPaired (marked item id hash)
  unfolding RingItem.add_block
  marked-IsPaired = omega (
    arith,
    paired,
    length-append item.block_ids (id ∷ []),
    length-append item.block_hashes (hash ∷ []),
  )

  tip_ring-IsValid : IsValid tip_ring
  tip_ring-IsValid =
      let w = with_item-IsValid (extended-IsValid v id hash here) (pos_of r id) _ marked-IsPaired in
      record { sized = w.sized; some_slots = w.some_slots; paired = w.paired }

  tip_item : get_elem? tip_ring.ring (pos_of r id) ≡ some (marked item id hash)
  tip_item =
      get_elem?-set_self (extended r id hash item).ring (pos_of r id) (marked item id hash)
        (pos_of-lt (extended-IsValid v id hash here) id)

  hash_at : get_elem? (marked item id hash).block_hashes (length item.block_hashes) ≡ some hash
  unfolding RingItem.add_block
  hash_at = get_elem?-append_end item.block_hashes hash

  id_at : get_elem? (marked item id hash).block_ids (length item.block_hashes) ≡ some id
  unfolding RingItem.add_block
  id_at = rw (← paired) (get_elem?-append_end item.block_ids id)

  tip_hash : get_latest_block_hash tip_ring ≡ ok hash
  unfolding get_latest_block_hash
  tip_hash = rw (tip_item, hash_at)

  tip_id : get_latest_block_id tip_ring ≡ ok id
  unfolding get_latest_block_id
  tip_id = rw (tip_item, id_at)

  tip_elsewhere :
      (id' : ℕ)
      → pos_of r id ≢ pos_of r id'
      → get_longest_chain_block_hash_at_block_id tip_ring id'
        ≡ get_longest_chain_block_hash_at_block_id r id'
  tip_elsewhere id' differ =
      let (item', old) = item_of v id' in
      let there : get_elem? tip_ring.ring (pos_of r id') ≡ some item' =
        get_elem?-set_ne (extended r id hash item).ring _ differ
        ∙ get_elem?-set_ne r.ring _ differ
        ∙ old in
      longest-eq tip_ring-IsValid id' there ∙ sym (longest-eq v id' old)

  tip_anywhere :
      (id' : ℕ)
      → get_longest_chain_block_hash_at_block_id tip_ring id' ≡ (
          if pos_of r id == pos_of r id'
          then ok (if id == id' then some hash else none)
          else get_longest_chain_block_hash_at_block_id r id')
  tip_anywhere id' = elim (ℕ_discrete (pos_of r id) (pos_of r id')) [
    | yes same ↦
        let there : get_elem? tip_ring.ring (pos_of r id') ≡ some (marked item id hash) =
          rw (← same) tip_item in
        ground (arith, longest-eq tip_ring-IsValid id' there, id_at, hash_at)
    | no differ ↦ ground (arith, tip_elsewhere id' differ)
  ]

-- A block whose hash its slot does not hold is added to a valid ring and made the tip: both calls
-- succeed, the ring stays valid, and the latest hash and id are the block's. At the ids of its
-- slot the longest chain has the block at its id and none at another; at the ids of other slots it is
-- as before.
pub extend_longest_chain :
    {r : BlockRing}
    → IsValid r
    → (id : ℕ) (hash : Bytes) → contains_block_hash_at_block_id r id hash ≡ ok false
    → (added tip : BlockRing) × (add_block r id hash ≡ ok added)
      × (on_chain_reorganization added id hash true ≡ ok tip)
      × IsValid tip
      × (get_latest_block_hash tip ≡ ok hash)
      × (get_latest_block_id tip ≡ ok id)
      × ((id' : ℕ)
          → get_longest_chain_block_hash_at_block_id tip id' ≡ (
              if pos_of r id == pos_of r id'
              then ok (if id == id' then some hash else none)
              else get_longest_chain_block_hash_at_block_id r id'))
extend_longest_chain {r} v id hash h =
    let (item, here) = item_of v id in
    let fresh : RingItem.contains_block_hash item hash ≡ false =
      cc (h, contains-eq v id hash here) in
    (
      extended r id hash item,
      tip_ring v id hash here fresh,
      add_block-eq v id hash here,
      tip_ring-eq v id hash here fresh,
      tip_ring-IsValid v id hash here fresh,
      tip_hash v id hash here fresh,
      tip_id v id hash here fresh,
      tip_anywhere v id hash here fresh,
    )
