-- ===== src/SyncState/Quota.antt =====
-- A round of requests of saito-core/src/core/consensus/blockchain_sync_state.rs.
use saito_rust_workspace.Prelude.{
  ℕ, ◌+◌, ◌-◌, ◌≤◌, ◌≡◌, refl, true, not, List, [], ◌∷◌, arith, leb, ◌==◌, if◌then◌else◌, length,
  All,
}
use saito_rust_workspace.Bytes.{Bytes}
use saito_rust_workspace.Outcome.{Outcome, ok}
use saito_rust_workspace.Eq.{nat_key, bytes_key}
use saito_rust_workspace.HashMap.{HashMap}
use saito_rust_workspace.SyncState.{
  BlockData, BlockchainSyncState, fetching_count, select_blocks, sort_blocks, fetch_from_peers,
  get_blocks_to_fetch_per_peer, is_empty,
}
use saito_rust_workspace.SyncState.Counts.{fetching_count-sort_blocks, select_blocks-counts}
use saito_rust_workspace.SyncState.Valid.{IsQueue, IsValid}

-- the blocks that are being fetched, from all peers
pub all_fetching : HashMap ℕ (List BlockData) → ℕ
all_fetching [] = 0
all_fetching (e ∷ m) = fetching_count e.1 + all_fetching m

pub all_selected : HashMap ℕ (List (Bytes × ℕ)) → ℕ
all_selected [] = 0
all_selected (e ∷ m) = length e.1 + all_selected m

-- what one round of requests gives
pub record Round (batch_size : ℕ) (before : HashMap ℕ (List BlockData))
    (result : Outcome (HashMap ℕ (List BlockData) × HashMap ℕ (List (Bytes × ℕ)))) : Type 0 where
  pub queues : HashMap ℕ (List BlockData)
  pub selected : HashMap ℕ (List (Bytes × ℕ))
  pub result_is : result ≡ ok (queues, selected)
  pub bounded : All (IsQueue batch_size) queues
  pub few : All (λ e. length e.1 ≤ batch_size) selected
  pub fetched_too : all_fetching queues ≡ all_fetching before + all_selected selected

joined :
    (batch_size peer : ℕ) (chosen : List (Bytes × ℕ)) (rest : HashMap ℕ (List (Bytes × ℕ)))
    → length chosen ≤ batch_size
    → All (λ e. length e.1 ≤ batch_size) rest
    → let selected = if is_empty chosen then rest else (peer, chosen) ∷ rest in
      All (λ e. length e.1 ≤ batch_size) selected
      × (all_selected selected ≡ length chosen + all_selected rest)
unfolding all_selected
joined batch_size peer [] rest le ls = (ls, omega arith)
joined batch_size peer (c ∷ chosen) rest le ls = ((le, ls), refl)

fetch_from_peers-Round :
    (batch_size : ℕ) (m : HashMap ℕ (List BlockData))
    → All (IsQueue batch_size) m
    → Round batch_size m (fetch_from_peers batch_size m)
unfolding fetch_from_peers all_fetching all_selected
fetch_from_peers-Round batch_size [] qs = record {
  queues = [];
  selected = [];
  result_is = refl;
  bounded = tt;
  few = tt;
  fetched_too = omega arith;
}
fetch_from_peers-Round batch_size ((peer, deq) ∷ m) qs =
    let sorted = sort_blocks deq in
    let quota = batch_size - fetching_count sorted in
    let chosen = select_blocks quota sorted in
    let rest = fetch_from_peers-Round batch_size m qs.1 in
    let known : not (peer == 0) ≡ true = ground (arith, qs.0.0) in
    let same = fetching_count-sort_blocks deq in
    let room : leb (fetching_count sorted) batch_size ≡ true = ground (arith, same, qs.0.1) in
    let counts = select_blocks-counts quota sorted in
    let (few, total) =
      joined batch_size peer chosen.1 rest.selected (omega (arith, counts)) rest.few in
    record {
      queues = (peer, chosen.0) ∷ rest.queues;
      selected = if is_empty chosen.1 then rest.selected else (peer, chosen.1) ∷ rest.selected;
      result_is = rw (known, room, rest.result_is);
      bounded = ((qs.0.0, omega (arith, counts, same, qs.0.1)), rest.bounded);
      few = few;
      fetched_too = omega (arith, counts, same, total, rest.fetched_too);
    }

-- For a valid state the round of requests succeeds. Its state is valid; no peer gets more requests
-- than the batch; and what is being fetched grows by exactly the blocks that are requested.
pub get_blocks_to_fetch_per_peer_lem :
    (s : BlockchainSyncState)
    → IsValid s
    → (next : BlockchainSyncState) × (selected : HashMap ℕ (List (Bytes × ℕ)))
      × (get_blocks_to_fetch_per_peer s ≡ ok (next, selected))
      × IsValid next
      × All (λ e. length e.1 ≤ s.batch_size) selected
      × (all_fetching next.blocks_to_fetch ≡ all_fetching s.blocks_to_fetch + all_selected selected)
unfolding get_blocks_to_fetch_per_peer
get_blocks_to_fetch_per_peer_lem s v =
    let r = fetch_from_peers-Round s.batch_size s.blocks_to_fetch v.queues in
    (
      record s { blocks_to_fetch = r.queues },
      r.selected,
      rw r.result_is refl,
      record { pictures = v.pictures; queues = r.bounded },
      r.few,
      r.fetched_too,
    )
