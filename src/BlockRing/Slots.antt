-- ===== src/BlockRing/Slots.antt =====
-- Slots of the ring of saito-core/src/core/consensus/blockring.rs: reading and writing them.
use saito_rust_workspace.Prelude.{
  ℕ, ◌-◌, ◌*◌, ◌%◌, ◌<◌, ◌≡◌, ◌≢◌, ◌∙◌, some, List, arith, length, get_elem?, length-set, All,
  get_elem?_in_range, All-set,
}
use saito_rust_workspace.Outcome.{ok}
use native.Mathlib.Nat.{div-add-mod}
use saito_rust_workspace.RingItem.{RingItem}
use saito_rust_workspace.BlockRing.{
  BlockRing, get_ring_buffer_size, insert_pos, at, slot, with_item, previous_index,
}

-- a hash for each id
abbrev pub IsPaired : RingItem → Type 0
IsPaired item = length item.block_ids ≡ length item.block_hashes

pub record IsValid (r : BlockRing) : Type 0 where
  pub sized : length r.ring ≡ r.genesis_period * 2
  pub some_slots : 0 < r.genesis_period
  pub paired : All IsPaired r.ring

abbrev pub pos_of : BlockRing → ℕ → ℕ
pos_of r id = id % (r.genesis_period * 2)

-- In a valid ring every id has a slot.
pub insert_pos-eq : {r : BlockRing} → IsValid r → (id : ℕ) → insert_pos r id ≡ ok (pos_of r id)
unfolding insert_pos get_ring_buffer_size
insert_pos-eq v id = ground arith

pub pos_of-lt : {r : BlockRing} → IsValid r → (id : ℕ) → pos_of r id < length r.ring
pos_of-lt v id = omega arith

pub at-eq {ℓ} :
    {A : Type ℓ} (xs : List A) (i : ℕ) {x : A} → get_elem? xs i ≡ some x → at xs i ≡ ok x
at-eq xs i h = rw h

pub item_of :
    {r : BlockRing}
    → IsValid r
    → (id : ℕ) → (item : RingItem) × (get_elem? r.ring (pos_of r id) ≡ some item)
item_of {r} v id = get_elem?_in_range r.ring (pos_of r id) (pos_of-lt v id)

pub with_item-IsValid :
    {r : BlockRing}
    → IsValid r
    → (pos : ℕ) (item : RingItem) → IsPaired item
    → IsValid (with_item r pos item)
with_item-IsValid {r} v pos item p = record {
  sized = length-set r.ring pos item ∙ v.sized;
  some_slots = v.some_slots;
  paired = All-set IsPaired r.ring pos item v.paired p;
}

pub slot-eq :
    {r : BlockRing}
    → IsValid r
    → (id : ℕ) {item : RingItem} → get_elem? r.ring (pos_of r id) ≡ some item
    → slot r id ≡ ok item
unfolding slot
slot-eq v id h = rw (insert_pos-eq v id, h)

mod_pred_pos : (n id : ℕ) → 0 < id % n → (id - 1) % n ≡ id % n - 1
mod_pred_pos n id h = grind (arith, div-add-mod id n)

mod_pred_zero : (n id : ℕ) → 0 < n → 0 < id → id % n ≡ 0 → (id - 1) % n ≡ n - 1
mod_pred_zero n id p q h = grind (arith, div-add-mod id n)

-- The slot before the slot of an id is the slot of the id before.
pub previous_index-pos_of :
    {r : BlockRing}
    → IsValid r
    → (id : ℕ) → 0 < id
    → previous_index r (pos_of r id) ≡ pos_of r (id - 1)
unfolding previous_index get_ring_buffer_size
previous_index-pos_of {r} v id h =
    ground (arith, mod_pred_pos (r.genesis_period * 2) id, mod_pred_zero (r.genesis_period * 2) id)

-- With two slots or more, an id and the id before have different slots.
pub pos_of-pred_ne :
    {r : BlockRing} → IsValid r → (id : ℕ) → 0 < id → pos_of r id ≢ pos_of r (id - 1)
pos_of-pred_ne {r} v id h =
    ground (arith, mod_pred_pos (r.genesis_period * 2) id, mod_pred_zero (r.genesis_period * 2) id)
