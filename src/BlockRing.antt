-- ===== src/BlockRing.antt =====
-- saito-core/src/core/consensus/blockring.rs: the index of the blocks by their ids, a ring of
-- `2 * genesis_period` slots, and the tip of the longest chain. An access out of range, and a
-- remainder by zero, is a panic.
pub mod Contains
pub mod Longest
pub mod Retreat
pub mod Slots
mod Tests
use saito_rust_workspace.Prelude.{
  ℕ, zero, suc, ◌+◌, ◌-◌, ◌*◌, ◌/◌, ◌%◌, ◌^◌, ◌≤◌, ◌<◌, min, max, ◌≡◌, ◌≢◌, ◌↔◌, ◌⊎◌, refl, sym, ap,
  ap₂, ◌∙◌, fun_ext, Bool, true, false, not, ◌&&◌, ◌||◌, Option, none, some, inl, inr, List, [],
  ◌∷◌, ◌++◌, map, reverse, append-nil, append_assoc, arith, dec_lt, ℕ_discrete, ltb, leb, ◌==◌,
  if◌then◌else◌, ltb→lt, lt→ltb, leb→le, ==_iff, tests, Bool-cases, Option-cases, length, get_elem?,
  set, get_or, take, drop, replicate, length-append, length-set, length-take, length-drop,
  length-map, take-append-drop, All, any, keep_if, All-append, All-append_left, All-append_right,
}
use saito_rust_workspace.Bytes.{
  Bytes, AreBytes, IsArray, to_be_bytes, from_be_bytes, slice, index, bytes_eq, concat, zeros,
}
use saito_rust_workspace.Bytes.Endian.{
  length-to_be_bytes, to_be_bytes-AreBytes, from_be_bytes-to_be_bytes, to_be_bytes-from_be_bytes,
  from_be_bytes-lt,
}
use saito_rust_workspace.Bytes.Slices.{
  slice-append_skip, slice-append_self, slice-eq-ok, index-append_skip, bytes_eq_iff, bytes_eq_refl,
  slice_split, index_split, slice_in_range, drop-length, slice-IsArray, index-lt, index_in_range,
}
use saito_rust_workspace.Outcome.{
  Outcome, ok, err, panic, ◌>>=◌, ◌>>◌, check, assert, ok_or, unwrap, >>=-eq-ok, ErrorKind,
  invalid_input, invalid_data, not_found,
}
use saito_rust_workspace.RingItem
use saito_rust_workspace.RingItem.{RingItem}

pub record BlockRing : Type 0 where
  pub ring : List RingItem
  pub lc_pos : Option ℕ
  pub empty : Bool
  pub genesis_period : ℕ

unfoldable pub new : ℕ → BlockRing
new genesis_period = record {
  ring = replicate (genesis_period * 2) RingItem.default;
  lc_pos = none;
  empty = true;
  genesis_period = genesis_period;
}

-- No overflow: the ring has that many items in memory.
unfoldable pub get_ring_buffer_size : BlockRing → ℕ
get_ring_buffer_size r = r.genesis_period * 2

-- `id % self.get_ring_buffer_size()`
unfoldable pub insert_pos : BlockRing → ℕ → Outcome ℕ
unfolding get_ring_buffer_size
insert_pos r block_id =
    if get_ring_buffer_size r == 0 then panic else ok (block_id % get_ring_buffer_size r)

-- `list[i]`
abbrev pub at {ℓ} : {A : Type ℓ} → List A → ℕ → Outcome A
at xs i = unwrap (get_elem? xs i)

-- `self.ring[insert_pos]`
unfoldable pub slot : BlockRing → ℕ → Outcome RingItem
unfolding insert_pos
slot r block_id = insert_pos r block_id >>= λ pos. at r.ring pos

-- `self.ring[pos] = item`
abbrev pub with_item : BlockRing → ℕ → RingItem → BlockRing
with_item r pos item = record r { ring = set r.ring pos item }

unfoldable pub add_block : BlockRing → ℕ → Bytes → Outcome BlockRing
unfolding insert_pos
add_block r block_id hash = do
  pos ← insert_pos r block_id
  item ← at r.ring pos
  ok (with_item r pos (RingItem.add_block item block_id hash))

unfoldable pub contains_block_hash_at_block_id : BlockRing → ℕ → Bytes → Outcome Bool
unfolding slot
contains_block_hash_at_block_id r block_id block_hash = do
  item ← slot r block_id
  ok (RingItem.contains_block_hash item block_hash)

unfoldable pub get_latest_block_hash : BlockRing → Outcome Bytes
get_latest_block_hash r = elim r.lc_pos [
  | none ↦ ok (zeros 32)
  | some pos ↦ at r.ring pos >>= λ item. elim item.lc_pos [
    | none ↦ ok (zeros 32)
    | some i ↦ at item.block_hashes i
  ]
]

unfoldable pub get_latest_block_id : BlockRing → Outcome ℕ
get_latest_block_id r = elim r.lc_pos [
  | none ↦ ok 0
  | some pos ↦
      at r.ring pos >>= λ item. elim item.lc_pos [ none ↦ ok 0 | some i ↦ at item.block_ids i ]
]

-- The `?`s of the source read `none` out of range.
unfoldable pub get_longest_chain_block_hash_at_block_id : BlockRing → ℕ → Outcome (Option Bytes)
unfolding slot
get_longest_chain_block_hash_at_block_id r id = do
  item ← slot r id
  ok (elim item.lc_pos [
    | none ↦ none
    | some lc_pos ↦ elim (get_elem? item.block_ids lc_pos) [
      | none ↦ none
      | some item_id ↦ if item_id == id then get_elem? item.block_hashes lc_pos else none
    ]
  ])

-- The loop looks at one hash after the other.
unfoldable pub is_block_hash_at_block_id : BlockRing → ℕ → Bytes → Outcome Bool
unfolding slot
is_block_hash_at_block_id r block_id block_hash = do
  item ← slot r block_id
  ok (any (λ h. bytes_eq h block_hash) item.block_hashes)

unfoldable pub is_empty : BlockRing → Bool
is_empty r = r.empty

unfoldable pub delete_block : BlockRing → ℕ → Bytes → Outcome BlockRing
unfolding insert_pos
delete_block r block_id block_hash = do
  pos ← insert_pos r block_id
  item ← at r.ring pos
  item' ← RingItem.delete_block item block_id block_hash
  ok (with_item r pos item')

-- The hashes whose id is the one asked for; an id that is missing beside a hash is a panic.
unfoldable pub hashes_with_id : ℕ → List Bytes → List ℕ → Outcome (List Bytes)
hashes_with_id block_id [] ids = ok []
hashes_with_id block_id (h ∷ hs) [] = panic
hashes_with_id block_id (h ∷ hs) (b ∷ ids) =
    hashes_with_id block_id hs ids >>= λ rest. ok (if b == block_id then h ∷ rest else rest)

unfoldable pub get_block_hashes_at_block_id : BlockRing → ℕ → Outcome (List Bytes)
unfolding slot hashes_with_id
get_block_hashes_at_block_id r block_id =
    slot r block_id >>= λ item. hashes_with_id block_id item.block_hashes item.block_ids

-- The slot before a slot, around the ring.
unfoldable pub previous_index : BlockRing → ℕ → ℕ
previous_index r pos = if ltb 0 pos then pos - 1 else get_ring_buffer_size r - 1

-- Where the tip falls back to when the block of `block_id` at slot `lc_pos` leaves the chain.
unfoldable pub fall_back : BlockRing → ℕ → ℕ → Outcome (Option ℕ)
unfolding previous_index
fall_back r lc_pos block_id = do
  previous ← at r.ring (previous_index r lc_pos)
  ok (elim previous.lc_pos [
    | none ↦ none
    | some i ↦ elim (get_elem? previous.block_ids i) [
      | none ↦ none
      | some id ↦
          if id == (block_id + (2 ^ 64 - 1)) % 2 ^ 64 then some (previous_index r lc_pos) else none
    ]
  ])

-- The source returns `true` always.
unfoldable pub on_chain_reorganization : BlockRing → ℕ → Bytes → Bool → Outcome BlockRing
unfolding insert_pos fall_back
on_chain_reorganization r block_id hash lc = do
  pos ← insert_pos r block_id
  item ← at r.ring pos
  let r' = with_item r pos (RingItem.on_chain_reorganization item hash lc)
  elim lc [
    | true ↦ ok (record r' { lc_pos = some pos })
    | false ↦ elim r'.lc_pos [
      | none ↦ ok r'
      | some lc_pos ↦
          if lc_pos == pos
          then (fall_back r' lc_pos block_id >>= λ tip. ok (record r' { lc_pos = tip }))
          else ok r'
    ]
  ]

-- the position of an id, from `i` on
unfoldable pub id_position : ℕ → ℕ → List ℕ → Option ℕ
id_position i block_id [] = none
id_position i block_id (b ∷ ids) =
    if b == block_id then some i else id_position (i + 1) block_id ids

unfoldable pub get_block_hash_by_block_id : BlockRing → ℕ → Outcome (Option Bytes)
unfolding slot id_position
get_block_hash_by_block_id r block_id = do
  item ← slot r block_id
  elim (id_position 0 block_id item.block_ids) [
    | none ↦ ok none
    | some pos ↦ at item.block_hashes pos >>= λ hash. ok (some hash)
  ]
