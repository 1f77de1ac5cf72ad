-- ===== src/SyncState/Counts.antt =====
-- How many blocks of a queue are being fetched,
-- saito-core/src/core/consensus/blockchain_sync_state.rs.
use saito_rust_workspace.Prelude.{
  ℕ, zero, suc, ◌+◌, ◌≤◌, ◌≡◌, refl, ◌∙◌, Bool, List, [], ◌∷◌, ◌++◌, arith, length, keep_if,
}
use saito_rust_workspace.Bytes.{Bytes}
use saito_rust_workspace.Eq.{nat_key, bytes_key}
use saito_rust_workspace.Blockchain.{Blocks}
use saito_rust_workspace.SyncState.{
  BlockData, queued, fetching_count, select_blocks, sort_blocks, sort_by, insert_sorted, mark_hash,
  fail_block, queue_picture,
}

fetching_count-insert_sorted :
    (before : BlockData → BlockData → Bool) (b : BlockData) (deq : List BlockData)
    → fetching_count (insert_sorted before b deq) ≡ fetching_count (b ∷ deq)
unfolding insert_sorted fetching_count
fetching_count-insert_sorted before b [] = refl
fetching_count-insert_sorted before b (c ∷ deq) =
    ground (arith, fetching_count-insert_sorted before b deq)

fetching_count-sort_by :
    (before : BlockData → BlockData → Bool) (deq : List BlockData)
    → fetching_count (sort_by before deq) ≡ fetching_count deq
unfolding sort_by fetching_count
fetching_count-sort_by before [] = refl
fetching_count-sort_by before (b ∷ deq) =
    fetching_count-insert_sorted before b (sort_by before deq)
    ∙ ground (arith, fetching_count-sort_by before deq)

pub fetching_count-sort_blocks :
    (deq : List BlockData) → fetching_count (sort_blocks deq) ≡ fetching_count deq
unfolding sort_blocks
fetching_count-sort_blocks = fetching_count-sort_by _

pub fetching_count-append :
    (deq more : List BlockData)
    → fetching_count (deq ++ more) ≡ fetching_count deq + fetching_count more
unfolding fetching_count
fetching_count-append [] more = omega arith
fetching_count-append (b ∷ deq) more = ground (arith, fetching_count-append deq more)

pub fetching_count-keep_if :
    (keep : BlockData → Bool) (deq : List BlockData)
    → fetching_count (keep_if keep deq) ≤ fetching_count deq
unfolding fetching_count
fetching_count-keep_if keep [] = omega arith
fetching_count-keep_if keep (b ∷ deq) = ground (arith, fetching_count-keep_if keep deq)

pub fetching_count-mark_hash :
    (hash : Bytes) (deq : List BlockData) → fetching_count (mark_hash hash deq) ≤ fetching_count deq
unfolding fetching_count mark_hash
fetching_count-mark_hash hash [] = omega arith
fetching_count-mark_hash hash (b ∷ deq) = ground (arith, fetching_count-mark_hash hash deq)

pub fetching_count-fail_block :
    (id : ℕ) (hash : Bytes) (deq : List BlockData)
    → fetching_count (fail_block id hash deq) ≤ fetching_count deq
unfolding fetching_count fail_block
fetching_count-fail_block id hash [] = omega arith
fetching_count-fail_block id hash (b ∷ deq) = ground (arith, fetching_count-fail_block id hash deq)

pub fetching_count-queue_picture :
    (blocks : Blocks) (deq : List BlockData) (picture : List (ℕ × Bytes))
    → fetching_count (queue_picture blocks deq picture) ≡ fetching_count deq
unfolding fetching_count queue_picture
fetching_count-queue_picture blocks deq [] = refl
fetching_count-queue_picture blocks deq ((id, hash) ∷ picture) = ground (
  arith,
  fetching_count-queue_picture blocks deq picture,
  fetching_count-queue_picture blocks
      (deq ++ record { block_hash = hash; block_id = id; status = queued; retry_count = 0 } ∷ [])
      picture,
  fetching_count-append deq
      (record { block_hash = hash; block_id = id; status = queued; retry_count = 0 } ∷ []),
)

-- What is selected is what is being fetched besides, and the quota bounds it.
pub select_blocks-counts :
    (quota : ℕ) (deq : List BlockData)
    → (fetching_count (select_blocks quota deq).0
        ≡ fetching_count deq + length (select_blocks quota deq).1)
      × (length (select_blocks quota deq).1 ≤ quota)
unfolding fetching_count select_blocks
select_blocks-counts zero deq = omega arith
select_blocks-counts (suc quota) [] = omega arith
select_blocks-counts (suc quota) (b ∷ deq) =
    ground (arith, select_blocks-counts quota deq, select_blocks-counts (suc quota) deq)
