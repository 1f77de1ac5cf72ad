-- ===== src/SyncState.antt =====
-- saito-core/src/core/consensus/blockchain_sync_state.rs: which blocks to fetch from which peer.
pub mod Counts
pub mod Queue
pub mod Quota
mod Tests
pub mod Valid
use saito_rust_workspace.Prelude.{
  ℕ, zero, suc, ◌+◌, ◌-◌, ◌*◌, ◌/◌, ◌%◌, ◌^◌, ◌≤◌, ◌<◌, min, max, ◌≡◌, ◌≢◌, ◌↔◌, ◌⊎◌, refl, sym, ap,
  ap₂, ◌∙◌, fun_ext, Bool, true, false, not, ◌&&◌, ◌||◌, Option, none, some, inl, inr, List, [],
  ◌∷◌, ◌++◌, map, reverse, append-nil, append_assoc, arith, dec_lt, ℕ_discrete, ltb, leb, ◌==◌,
  if◌then◌else◌, ltb→lt, lt→ltb, leb→le, ==_iff, tests, Bool-cases, Option-cases, length, get_elem?,
  set, get_or, take, drop, replicate, length-append, length-set, length-take, length-drop,
  length-map, take-append-drop, All, any, keep_if, All-append, All-append_left, All-append_right,
  get_elem?_in_range, lt_of_get_elem?, get_elem?-append_end, All-set, All-get, any-append_end,
  get_elem?-set_self, get_elem?-set_ne,
}
use saito_rust_workspace.Bytes.{
  Bytes, AreBytes, IsArray, to_be_bytes, from_be_bytes, slice, index, bytes_eq, concat, zeros,
}
use saito_rust_workspace.Bytes.Endian.{
  length-to_be_bytes, to_be_bytes-AreBytes, from_be_bytes-to_be_bytes, to_be_bytes-from_be_bytes,
  from_be_bytes-lt,
}
use saito_rust_workspace.Bytes.Slices.{
  slice-append_skip, slice-append_self, slice-eq-ok, index-append_skip, bytes_eq_iff, bytes_eq_refl,
  slice_split, index_split, slice_in_range, drop-length, slice-IsArray, index-lt, index_in_range,
}
use saito_rust_workspace.Outcome.{
  Outcome, ok, err, panic, ◌>>=◌, ◌>>◌, check, assert, ok_or, unwrap, >>=-eq-ok, ErrorKind,
  invalid_input, invalid_data, not_found,
}
use saito_rust_workspace.Eq.{nat_key, bytes_key}
use saito_rust_workspace.HashMap.{HashMap, get, insert, contains_key}
use saito_rust_workspace.Blockchain.{Block, Blocks}

pub data BlockStatus : Type 0 where
  queued fetching fetched failed : BlockStatus

pub record BlockData : Type 0 where
  pub block_hash : Bytes
  pub block_id : ℕ
  pub status : BlockStatus
  pub retry_count : ℕ

abbrev pub max_retries_per_block : ℕ
max_retries_per_block = 500

pub record BlockchainSyncState : Type 0 where
  pub received_block_picture : HashMap ℕ (List (ℕ × Bytes))
  pub blocks_to_fetch : HashMap ℕ (List BlockData)
  pub batch_size : ℕ

unfoldable pub new : ℕ → BlockchainSyncState
new batch_size = record {
  received_block_picture = [];
  blocks_to_fetch = [];
  batch_size = batch_size;
}

-- the order of two hashes, by their first byte that differs
unfoldable pub bytes_leb : Bytes → Bytes → Bool
bytes_leb [] bs = true
bytes_leb (a ∷ as') [] = false
bytes_leb (a ∷ as') (b ∷ bs) = elim (a == b) [ true ↦ bytes_leb as' bs | false ↦ ltb a b ]

-- by the id, and by the hash where the ids are equal
unfoldable pub is_sorted_pair : ℕ → Bytes → ℕ → Bytes → Bool
unfolding bytes_leb
is_sorted_pair id_a hash_a id_b hash_b = elim (id_a == id_b) [
  | true ↦ bytes_leb hash_a hash_b
  | false ↦ leb id_a id_b
]

-- `sort_by`, which is stable
unfoldable pub insert_sorted {ℓ} : {A : Type ℓ} → (A → A → Bool) → A → List A → List A
insert_sorted before x [] = x ∷ []
insert_sorted before x (y ∷ ys) = elim (before x y) [
  | true ↦ x ∷ y ∷ ys
  | false ↦ y ∷ insert_sorted before x ys
]

unfoldable pub sort_by {ℓ} : {A : Type ℓ} → (A → A → Bool) → List A → List A
unfolding insert_sorted
sort_by before [] = []
sort_by before (x ∷ xs) = insert_sorted before x (sort_by before xs)

unfoldable pub sort_blocks : List BlockData → List BlockData
unfolding sort_by is_sorted_pair
sort_blocks = sort_by (λ a b. is_sorted_pair a.block_id a.block_hash b.block_id b.block_hash)

-- The loop over one peer's picture: unknown blocks that are not in the queue join it.
unfoldable pub queue_picture : Blocks → List BlockData → List (ℕ × Bytes) → List BlockData
queue_picture blocks deq [] = deq
queue_picture blocks deq ((id, hash) ∷ picture) = elim (contains_key hash blocks) [
  | true ↦ queue_picture blocks deq picture
  | false ↦ elim (any (λ b. bytes_eq b.block_hash hash && b.block_id == id) deq) [
    | true ↦ queue_picture blocks deq picture
    | false ↦
        queue_picture blocks
          (deq
            ++ record { block_hash = hash; block_id = id; status = queued; retry_count = 0 } ∷ [])
          picture
  ]
]

abbrev pub is_empty {ℓ} : {A : Type ℓ} → List A → Bool
is_empty [] = true
is_empty (x ∷ xs) = false

-- `entry(peer_index).or_default()`
abbrev pub or_empty {ℓ} : {A : Type ℓ} → Option (List A) → List A
or_empty none = []
or_empty (some xs) = xs

-- `retain(|_, v| !v.is_empty())`
abbrev pub drop_empty {ℓ} : {A : Type ℓ} → HashMap ℕ (List A) → HashMap ℕ (List A)
drop_empty m = keep_if (λ e. not (is_empty e.1)) m

unfoldable pub queue_pictures :
    Blocks → HashMap ℕ (List (ℕ × Bytes)) → HashMap ℕ (List BlockData) → HashMap ℕ (List BlockData)
unfolding queue_picture sort_by is_sorted_pair
queue_pictures blocks [] to_fetch = to_fetch
queue_pictures blocks ((peer_index, picture) ∷ pictures) to_fetch = queue_pictures blocks pictures (
    insert peer_index
      (queue_picture blocks (or_empty (get peer_index to_fetch))
        (sort_by (λ a b. is_sorted_pair a.0 a.1 b.0 b.1) picture))
      to_fetch)

-- The loops take every picture whole, so that none is left.
unfoldable pub build_peer_block_picture : BlockchainSyncState → Blocks → BlockchainSyncState
unfolding queue_pictures
build_peer_block_picture s blocks = record s {
  received_block_picture = [];
  blocks_to_fetch = drop_empty (queue_pictures blocks s.received_block_picture s.blocks_to_fetch);
}

unfoldable pub get_fetching_block_count : HashMap ℕ (List BlockData) → ℕ
get_fetching_block_count [] = 0
get_fetching_block_count ((peer_index, deq) ∷ m) = length deq + get_fetching_block_count m

unfoldable pub fetching_count : List BlockData → ℕ
fetching_count [] = 0
fetching_count (b ∷ deq) = (elim b.status [ fetching ↦ 1 | _ ↦ 0 ]) + fetching_count deq

-- The loop that spends the quota on one queue: the queue after it, and the blocks to fetch.
unfoldable pub select_blocks : ℕ → List BlockData → List BlockData × List (Bytes × ℕ)
select_blocks zero deq = (deq, [])
select_blocks (suc quota) [] = ([], [])
select_blocks (suc quota) (b ∷ deq) = elim b.status [
  | queued ↦
      let (rest, selected) = select_blocks quota deq in
      (record b { status = fetching } ∷ rest, (b.block_hash, b.block_id) ∷ selected)
  | fetching ↦ let (rest, selected) = select_blocks (suc quota) deq in (b ∷ rest, selected)
  | fetched ↦ let (rest, selected) = select_blocks (suc quota) deq in (b ∷ rest, selected)
  | failed ↦ elim (ltb b.retry_count max_retries_per_block) [
    | true ↦
        let (rest, selected) = select_blocks quota deq in
        (record b { status = queued; retry_count = b.retry_count + 1 } ∷ rest, selected)
    | false ↦
        let (rest, selected) = select_blocks (suc quota) deq in
        (
          (if b.retry_count == max_retries_per_block
                then record b { retry_count = b.retry_count + 1 }
                else b)
              ∷ rest,
          selected,
        )
  ]
]

-- The loop over the peers. `batch_size - fetching_count` below 0 is an overflow, a panic here.
unfoldable pub fetch_from_peers :
    ℕ
    → HashMap ℕ (List BlockData)
    → Outcome (HashMap ℕ (List BlockData) × HashMap ℕ (List (Bytes × ℕ)))
unfolding sort_blocks fetching_count select_blocks
fetch_from_peers batch_size [] = ok ([], [])
fetch_from_peers batch_size ((peer_index, deq) ∷ m) = do
  assert (not (peer_index == 0))
  assert (leb (fetching_count (sort_blocks deq)) batch_size)
  let chosen = select_blocks (batch_size - fetching_count (sort_blocks deq)) (sort_blocks deq)
  rest ← fetch_from_peers batch_size m
  ok (
    (peer_index, chosen.0) ∷ rest.0,
    if is_empty chosen.1 then rest.1 else (peer_index, chosen.1) ∷ rest.1,
  )

unfoldable pub get_blocks_to_fetch_per_peer :
    BlockchainSyncState → Outcome (BlockchainSyncState × HashMap ℕ (List (Bytes × ℕ)))
unfolding fetch_from_peers
get_blocks_to_fetch_per_peer s = do
  result ← fetch_from_peers s.batch_size s.blocks_to_fetch
  ok (record s { blocks_to_fetch = result.0 }, result.1)

-- The first entry with the hash is marked.
unfoldable pub mark_hash : Bytes → List BlockData → List BlockData
mark_hash hash [] = []
mark_hash hash (b ∷ deq) = elim (bytes_eq hash b.block_hash) [
  | true ↦ record b { status = fetched } ∷ deq
  | false ↦ b ∷ mark_hash hash deq
]

-- each queue changed by a function, in place
abbrev pub on_queues :
    (List BlockData → List BlockData) → HashMap ℕ (List BlockData) → HashMap ℕ (List BlockData)
on_queues f m = map (λ e. (e.0, f e.1)) m

abbrev pub is_fetched : BlockData → Bool
is_fetched b = elim b.status [ fetched ↦ true | _ ↦ false ]

unfoldable pub remove_fetched_blocks : BlockchainSyncState → BlockchainSyncState
remove_fetched_blocks s = record s {
  blocks_to_fetch = drop_empty (on_queues (keep_if (λ b. not (is_fetched b))) s.blocks_to_fetch);
}

unfoldable pub mark_as_fetched : BlockchainSyncState → Bytes → BlockchainSyncState
unfolding mark_hash remove_fetched_blocks
mark_as_fetched s hash =
    remove_fetched_blocks
      (record s { blocks_to_fetch = on_queues (mark_hash hash) s.blocks_to_fetch })

-- `received_block_picture.entry(index).or_default().push_back((block_id, block_hash))`
abbrev pub push_picture :
    ℕ → ℕ × Bytes → HashMap ℕ (List (ℕ × Bytes)) → HashMap ℕ (List (ℕ × Bytes))
push_picture index entry m = insert index (or_empty (get index m) ++ entry ∷ []) m

-- The loop over the peers, which are given by their indices and block fetch urls.
unfoldable pub push_to_peers :
    ℕ × Bytes → HashMap ℕ Bytes → HashMap ℕ (List (ℕ × Bytes)) → HashMap ℕ (List (ℕ × Bytes))
push_to_peers entry [] m = m
push_to_peers entry ((index, block_fetch_url) ∷ peers) m =
    push_to_peers entry peers (if is_empty block_fetch_url then m else push_picture index entry m)

unfoldable pub add_entry :
    BlockchainSyncState → Bytes → ℕ → ℕ → HashMap ℕ Bytes → BlockchainSyncState
unfolding push_to_peers
add_entry s block_hash block_id peer_index peers = record s {
  received_block_picture = elim (peer_index == 0) [
    | true ↦ push_to_peers (block_id, block_hash) peers s.received_block_picture
    | false ↦ push_picture peer_index (block_id, block_hash) s.received_block_picture
  ];
}

unfoldable pub remove_entry : BlockchainSyncState → Bytes → BlockchainSyncState
remove_entry s block_hash = record s {
  blocks_to_fetch =
      drop_empty
        (on_queues (keep_if (λ b. not (bytes_eq b.block_hash block_hash))) s.blocks_to_fetch);
}

-- The first entry with the id and the hash is marked.
unfoldable pub fail_block : ℕ → Bytes → List BlockData → List BlockData
fail_block id hash [] = []
fail_block id hash (b ∷ deq) = elim (b.block_id == id && bytes_eq b.block_hash hash) [
  | true ↦ record b { status = failed } ∷ deq
  | false ↦ b ∷ fail_block id hash deq
]

unfoldable pub mark_as_failed : BlockchainSyncState → ℕ → Bytes → ℕ → BlockchainSyncState
unfolding fail_block
mark_as_failed s id hash peer_index = elim (get peer_index s.blocks_to_fetch) [
  | none ↦ s
  | some deq ↦ record s {
    blocks_to_fetch = insert peer_index (fail_block id hash deq) s.blocks_to_fetch;
  }
]
