-- ===== src/BlockRing/Retreat.antt =====
-- The tip of the ring of saito-core/src/core/consensus/blockring.rs when its block leaves the
-- longest chain.
use saito_rust_workspace.Prelude.{
  ℕ, ◌+◌, ◌-◌, ◌%◌, ◌^◌, ◌<◌, ◌≡◌, refl, ap, ◌∙◌, true, false, Option, none, some, arith, ◌==◌,
  get_elem?, All-get, get_elem?-set_self, get_elem?-set_ne,
}
use saito_rust_workspace.Bytes.{Bytes}
use saito_rust_workspace.Outcome.{ok}
use saito_rust_workspace.RingItem
use saito_rust_workspace.RingItem.{RingItem}
use saito_rust_workspace.BlockRing.{
  BlockRing, with_item, get_latest_block_hash, get_latest_block_id,
  get_longest_chain_block_hash_at_block_id, on_chain_reorganization, fall_back, previous_index,
}
use saito_rust_workspace.BlockRing.Slots.{
  IsValid, IsPaired, pos_of, insert_pos-eq, pos_of-lt, item_of, with_item-IsValid,
  previous_index-pos_of, pos_of-pred_ne,
}
use saito_rust_workspace.BlockRing.Longest.{longest_in, longest-eq}

-- An entry of the longest chain is a position with that id and that hash.
longest_in-some :
    (item : RingItem) (id : ℕ) {hash : Bytes}
    → longest_in item id ≡ some hash
    → (i : ℕ) × (item.lc_pos ≡ some i)
      × (get_elem? item.block_ids i ≡ some id)
      × (get_elem? item.block_hashes i ≡ some hash)
longest_in-some item id {hash} h = from_pos item.lc_pos refl
  where
    from_pos :
        (lc : Option ℕ)
        → item.lc_pos ≡ lc
        → (i : ℕ) × (item.lc_pos ≡ some i)
          × (get_elem? item.block_ids i ≡ some id)
          × (get_elem? item.block_hashes i ≡ some hash)
    from_pos none e = ground arith
    from_pos (some i) e = (i, e, ground arith, ground arith)

module _ {r : BlockRing} (v : IsValid r) (id : ℕ) (hash : Bytes) {item previous : RingItem} {i : ℕ}
    {h : Bytes} (pos : 0 < id) (small : id < 2 ^ 64) (at_tip : r.lc_pos ≡ some (pos_of r id))
    (here : get_elem? r.ring (pos_of r id) ≡ some item)
    (before : get_elem? r.ring (pos_of r (id - 1)) ≡ some previous)
    (marked : previous.lc_pos ≡ some i) (its_id : get_elem? previous.block_ids i ≡ some (id - 1))
    (its_hash : get_elem? previous.block_hashes i ≡ some h) where
  abbrev cleared : BlockRing
  cleared = with_item r (pos_of r id) (record item { lc_pos = none })

  cleared-IsValid : IsValid cleared
  cleared-IsValid =
      with_item-IsValid v (pos_of r id) (record item { lc_pos = none })
        (All-get IsPaired r.ring (pos_of r id) v.paired here)

  before' : get_elem? cleared.ring (pos_of r (id - 1)) ≡ some previous
  before' = get_elem?-set_ne r.ring _ (pos_of-pred_ne v id pos) ∙ before

  abbrev retreated : BlockRing
  retreated = record cleared { lc_pos = some (pos_of r (id - 1)) }

  falls_back : fall_back cleared (pos_of r id) id ≡ ok (some (pos_of r (id - 1)))
  unfolding fall_back
  falls_back =
      let to : previous_index cleared (pos_of r id) ≡ pos_of r (id - 1) =
        previous_index-pos_of cleared-IsValid id pos in
      let same : (id - 1 == (id + (2 ^ 64 - 1)) % 2 ^ 64) ≡ true = ground arith in
      rw (to, before', marked, its_id, same) (ap (λ p. ok (some p)) to)

  retreated-eq : on_chain_reorganization r id hash false ≡ ok retreated
  unfolding on_chain_reorganization RingItem.on_chain_reorganization
  retreated-eq = rw (insert_pos-eq v id, here, at_tip) (ground (arith, falls_back))

  retreated-IsValid : IsValid retreated
  retreated-IsValid =
      let w = cleared-IsValid in
      record { sized = w.sized; some_slots = w.some_slots; paired = w.paired }

  retreated_hash : get_latest_block_hash retreated ≡ ok h
  unfolding get_latest_block_hash
  retreated_hash = rw (before', marked, its_hash)

  retreated_id : get_latest_block_id retreated ≡ ok (id - 1)
  unfolding get_latest_block_id
  retreated_id = rw (before', marked, its_id)

  retreated_gone : get_longest_chain_block_hash_at_block_id retreated id ≡ ok none
  retreated_gone =
      longest-eq retreated-IsValid id
        (get_elem?-set_self r.ring (pos_of r id) (record item { lc_pos = none }) (pos_of-lt v id))

-- When the block at the tip leaves the longest chain of a valid ring, and the longest chain has a
-- block at the id before, that block is the new tip, and the longest chain has none at the id.
pub retreat_longest_chain :
    {r : BlockRing}
    → IsValid r
    → (id : ℕ) (hash h : Bytes) → 0 < id
    → id < 2 ^ 64
    → r.lc_pos ≡ some (pos_of r id)
    → get_longest_chain_block_hash_at_block_id r (id - 1) ≡ ok (some h)
    → (r' : BlockRing) × (on_chain_reorganization r id hash false ≡ ok r')
      × IsValid r'
      × (get_latest_block_hash r' ≡ ok h)
      × (get_latest_block_id r' ≡ ok (id - 1))
      × (get_longest_chain_block_hash_at_block_id r' id ≡ ok none)
retreat_longest_chain {r} v id hash h pos small at_tip e =
    let (item, here) = item_of v id in
    let (previous, before) = item_of v (id - 1) in
    let found : longest_in previous (id - 1) ≡ some h = cc (e, longest-eq v (id - 1) before) in
    let (i, marked, its_id, its_hash) = longest_in-some previous (id - 1) found in
    (
      retreated v id hash pos small at_tip here before marked its_id its_hash,
      retreated-eq v id hash pos small at_tip here before marked its_id its_hash,
      retreated-IsValid v id hash pos small at_tip here before marked its_id its_hash,
      retreated_hash v id hash pos small at_tip here before marked its_id its_hash,
      retreated_id v id hash pos small at_tip here before marked its_id its_hash,
      retreated_gone v id hash pos small at_tip here before marked its_id its_hash,
    )
