-- ===== src/BlockRing/Tests.antt =====
-- Examples of rings and of their slots.
use saito_rust_workspace.Prelude.{
  ℕ, ◌≡◌, refl, true, false, ◌&&◌, ◌||◌, none, some, [], ◌∷◌, map, arith, ◌==◌, if◌then◌else◌,
  keep_if,
}
use saito_rust_workspace.Bytes.{Bytes, bytes_eq}
use saito_rust_workspace.Outcome.{ok, ◌>>=◌}
use saito_rust_workspace.RingItem
use saito_rust_workspace.RingItem.{RingItem}
use saito_rust_workspace.RingItem.Delete.{delete_block_lem, blocks_of, is_other, new_lc_pos}
use saito_rust_workspace.BlockRing.{
  BlockRing, add_block, contains_block_hash_at_block_id, on_chain_reorganization,
  get_latest_block_hash, get_latest_block_id, get_longest_chain_block_hash_at_block_id, slot,
  insert_pos, get_ring_buffer_size,
}
use saito_rust_workspace.BlockRing.Slots.{IsValid, pos_of}
use saito_rust_workspace.BlockRing.Contains.{add_block_contains}
use saito_rust_workspace.BlockRing.Longest.{extend_longest_chain}
use saito_rust_workspace.BlockRing.Retreat.{retreat_longest_chain}

abbrev item_of_id : ℕ → Bytes → RingItem
item_of_id id hash = record { block_hashes = hash ∷ []; block_ids = id ∷ []; lc_pos = some 0 }

abbrev nothing : RingItem
nothing = record { block_hashes = []; block_ids = []; lc_pos = none }

-- four slots, blocks 1 and 2 in the longest chain
abbrev ring : BlockRing
ring = record {
  ring = nothing ∷ item_of_id 1 (1 ∷ []) ∷ item_of_id 2 (2 ∷ []) ∷ nothing ∷ [];
  lc_pos = some 2;
  empty = false;
  genesis_period = 2;
}

ring-IsValid : IsValid ring
ring-IsValid = record {
  sized = refl;
  some_slots = omega arith;
  paired = (refl, (refl, (refl, (refl, tt))));
}

contains_example :
    (r' : BlockRing) × (add_block ring 3 (3 ∷ []) ≡ ok r')
    × IsValid r'
    × ((id' : ℕ) (hash' : Bytes)
        → contains_block_hash_at_block_id r' id' hash' ≡ (
            contains_block_hash_at_block_id ring id' hash' >>= λ old.
            ok (old || (pos_of ring 3 == pos_of ring id' && bytes_eq (3 ∷ []) hash'))))
contains_example = add_block_contains {r = ring} ring-IsValid 3 (3 ∷ [])

not_there : contains_block_hash_at_block_id ring 3 (3 ∷ []) ≡ ok false
unfolding contains_block_hash_at_block_id slot insert_pos get_ring_buffer_size
    RingItem.contains_block_hash
not_there = refl

extend_example :
    (added tip : BlockRing) × (add_block ring 3 (3 ∷ []) ≡ ok added)
    × (on_chain_reorganization added 3 (3 ∷ []) true ≡ ok tip)
    × IsValid tip
    × (get_latest_block_hash tip ≡ ok (3 ∷ []))
    × (get_latest_block_id tip ≡ ok 3)
    × ((id' : ℕ)
        → get_longest_chain_block_hash_at_block_id tip id' ≡ (
            if pos_of ring 3 == pos_of ring id'
            then ok (if 3 == id' then some (3 ∷ []) else none)
            else get_longest_chain_block_hash_at_block_id ring id'))
extend_example = extend_longest_chain {r = ring} ring-IsValid 3 (3 ∷ []) not_there

one_before : get_longest_chain_block_hash_at_block_id ring 1 ≡ ok (some (1 ∷ []))
unfolding get_longest_chain_block_hash_at_block_id slot insert_pos get_ring_buffer_size
one_before = refl

retreat_example :
    (r' : BlockRing) × (on_chain_reorganization ring 2 (2 ∷ []) false ≡ ok r')
    × IsValid r'
    × (get_latest_block_hash r' ≡ ok (1 ∷ []))
    × (get_latest_block_id r' ≡ ok 1)
    × (get_longest_chain_block_hash_at_block_id r' 2 ≡ ok none)
retreat_example =
    retreat_longest_chain {r = ring} ring-IsValid 2 (2 ∷ []) (1 ∷ []) (omega arith) (omega arith)
      refl one_before

delete_example :
    let item = item_of_id 1 (1 ∷ []) in
    let kept = keep_if (is_other 1 (1 ∷ [])) (blocks_of item) in
    RingItem.delete_block item 1 (1 ∷ [])
    ≡ ok (record {
      block_hashes = map (λ x. x.1) kept;
      block_ids = map (λ x. x.0) kept;
      lc_pos = new_lc_pos 1 (1 ∷ []) item;
    })
delete_example = delete_block_lem (item_of_id 1 (1 ∷ [])) 1 (1 ∷ []) refl
