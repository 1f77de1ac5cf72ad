-- ===== src/SyncState/Tests.antt =====
-- Examples of the state of the synchronisation.
use saito_rust_workspace.Prelude.{
  max, if◌then◌else◌, ℕ, ◌+◌, ◌≤◌, ◌≡◌, List, [], ◌∷◌, arith, length, All,
}
use saito_rust_workspace.Bytes.{Bytes, zeros}
use saito_rust_workspace.Outcome.{ok}
use saito_rust_workspace.HashMap.{HashMap}
use saito_rust_workspace.SyncState.{
  queue_picture, BlockData, BlockchainSyncState, queued, fetching, get_blocks_to_fetch_per_peer,
  build_peer_block_picture, add_entry, remove_entry, mark_as_fetched, mark_as_failed,
  fetching_count,
}
use saito_rust_workspace.SyncState.Valid.{IsValid, operations-IsValid}
use saito_rust_workspace.SyncState.Queue.{occurrences-queue_picture, occurrences, is_wanted}
use saito_rust_workspace.SyncState.Quota.{
  get_blocks_to_fetch_per_peer_lem, all_fetching, all_selected,
}

abbrev waiting : BlockData
waiting = record { block_hash = zeros 32; block_id = 5; status = queued; retry_count = 0 }

abbrev asked : BlockData
asked = record { block_hash = 1 ∷ []; block_id = 4; status = fetching; retry_count = 2 }

abbrev state : BlockchainSyncState
state = record {
  received_block_picture = (1, (6, zeros 32) ∷ []) ∷ [];
  blocks_to_fetch = (1, waiting ∷ asked ∷ []) ∷ [];
  batch_size = 2;
}

state-IsValid : IsValid state
unfolding fetching_count
state-IsValid = record { pictures = (omega arith, tt); queues = ((omega arith, omega arith), tt) }

round_example :
    (next : BlockchainSyncState) × (selected : HashMap ℕ (List (Bytes × ℕ)))
    × (get_blocks_to_fetch_per_peer state ≡ ok (next, selected))
    × IsValid next
    × All (λ e. length e.1 ≤ 2) selected
    × (all_fetching next.blocks_to_fetch
        ≡ all_fetching state.blocks_to_fetch + all_selected selected)
round_example = get_blocks_to_fetch_per_peer_lem state state-IsValid

operations_example :
    IsValid (build_peer_block_picture state [])
    × IsValid (add_entry state (zeros 32) 7 0 ((3, 1 ∷ []) ∷ []))
    × IsValid (remove_entry state (zeros 32))
    × IsValid (mark_as_fetched state (zeros 32))
    × IsValid (mark_as_failed state 7 (zeros 32) 0)
operations_example =
    operations-IsValid state [] (zeros 32) 7 0 ((3, 1 ∷ []) ∷ []) (omega arith, tt) state-IsValid

abbrev picture : List (ℕ × Bytes)
picture = (6, zeros 32) ∷ (6, zeros 32) ∷ []

queue_example : occurrences 6 (zeros 32) (queue_picture [] (waiting ∷ []) picture) ≡ (
    if is_wanted [] 6 (zeros 32) picture
    then max 1 (occurrences 6 (zeros 32) (waiting ∷ []))
    else occurrences 6 (zeros 32) (waiting ∷ []))
queue_example = occurrences-queue_picture [] 6 (zeros 32) (waiting ∷ []) picture
