-- ===== src/SyncState/Valid.antt =====
-- The states of saito-core/src/core/consensus/blockchain_sync_state.rs that its operations keep: at
-- most a batch of blocks is fetched from each peer at a time.
use saito_rust_workspace.Prelude.{
  ℕ, ◌≤◌, ◌<◌, ◌≡◌, ◌⊎◌, sym, ap, ◌∙◌, Bool, true, false, Option, some, inl, inr, List, [], ◌∷◌,
  arith, ◌==◌, if◌then◌else◌, Bool-cases, Option-cases, All, keep_if,
}
use saito_rust_workspace.Bytes.{Bytes, index}
use saito_rust_workspace.Eq.{nat_key, bytes_key}
use saito_rust_workspace.HashMap.{HashMap, get, insert}
use saito_rust_workspace.Blockchain.{Blocks}
use saito_rust_workspace.SyncState.{
  BlockData, BlockchainSyncState, fetching_count, fail_block, queue_pictures,
  build_peer_block_picture, or_empty, on_queues, push_to_peers, add_entry, remove_entry,
  remove_fetched_blocks, mark_as_fetched, mark_as_failed,
}
use saito_rust_workspace.SyncState.Counts.{
  fetching_count-keep_if, fetching_count-mark_hash, fetching_count-fail_block,
  fetching_count-queue_picture,
}

-- no peer 0, and no more blocks being fetched than the batch
abbrev pub IsQueue : ℕ → ℕ × List BlockData → Type 0
IsQueue batch_size e = (0 < e.0) × (fetching_count e.1 ≤ batch_size)

pub record IsValid (s : BlockchainSyncState) : Type 0 where
  pub pictures : All (λ e. 0 < e.0) s.received_block_picture
  pub queues : All (IsQueue s.batch_size) s.blocks_to_fetch

All-insert {ℓ} :
    {V : Type ℓ} (P : ℕ × V → Type 0) (k : ℕ) (v : V) (m : HashMap ℕ V)
    → P (k, v)
    → All P m
    → All P (insert k v m)
unfolding insert
All-insert P k v [] p ps = (p, ps)
All-insert P k v ((j, w) ∷ m) p ps = elim (Bool-cases (j == k)) [
  | inl same ↦ let e : j ≡ k = ground (arith, same) in rw (insert, same) (rw e p, ps.1)
  | inr differ ↦ rw (insert, differ) (ps.0, All-insert P k v m p ps.1)
]

All-keep_if {ℓ} :
    {A : Type ℓ} (P : A → Type 0) (keep : A → Bool) (xs : List A)
    → All P xs
    → All P (keep_if keep xs)
All-keep_if P keep [] ps = ps
All-keep_if P keep (x ∷ xs) ps = elim (Bool-cases (keep x)) [
  | inl kept ↦ rw (keep_if, kept) (ps.0, All-keep_if P keep xs ps.1)
  | inr dropped ↦ rw (keep_if, dropped) (All-keep_if P keep xs ps.1)
]

All-on_queues :
    (batch_size : ℕ) (f : List BlockData → List BlockData) (m : HashMap ℕ (List BlockData))
    → ((deq : List BlockData) → fetching_count (f deq) ≤ fetching_count deq)
    → All (IsQueue batch_size) m
    → All (IsQueue batch_size) (on_queues f m)
All-on_queues batch_size f [] less qs = qs
All-on_queues batch_size f (e ∷ m) less qs =
    ((qs.0.0, omega (arith, less e.1, qs.0.1)), All-on_queues batch_size f m less qs.1)

get-IsQueue :
    (batch_size : ℕ) (k : ℕ) (m : HashMap ℕ (List BlockData)) {deq : List BlockData}
    → All (IsQueue batch_size) m
    → get k m ≡ some deq
    → IsQueue batch_size (k, deq)
unfolding get
get-IsQueue batch_size k [] qs h = absurd (cc (h))
get-IsQueue batch_size k ((j, w) ∷ m) {deq = deq} qs h =
    found (get-IsQueue batch_size k m qs.1) (Bool-cases (j == k))
  where
    after : Bool → Option (List BlockData)
    after same = if same then some w else get k m

    found :
        (get k m ≡ some deq → IsQueue batch_size (k, deq))
        → ((j == k) ≡ true) ⊎ ((j == k) ≡ false)
        → IsQueue batch_size (k, deq)
    found rest (inl same) =
        let e : j ≡ k = ground (arith, same) in
        let e' : w ≡ deq = cc (sym (ap after same) ∙ h) in rw (← e, ← e') qs.0
    found rest (inr differ) = rest (sym (ap after differ) ∙ h)

mark_as_fetched-IsValid :
    (s : BlockchainSyncState) (hash : Bytes) → IsValid s → IsValid (mark_as_fetched s hash)
unfolding mark_as_fetched remove_fetched_blocks
mark_as_fetched-IsValid s hash v = record {
  pictures = v.pictures;
  queues = All-keep_if (IsQueue s.batch_size) _ _ (
      All-on_queues s.batch_size _ _ (λ deq. fetching_count-keep_if _ deq)
        (All-on_queues s.batch_size _ s.blocks_to_fetch (λ deq. fetching_count-mark_hash hash deq)
          v.queues));
}

remove_entry-IsValid :
    (s : BlockchainSyncState) (hash : Bytes) → IsValid s → IsValid (remove_entry s hash)
unfolding remove_entry
remove_entry-IsValid s hash v = record {
  pictures = v.pictures;
  queues =
      All-keep_if (IsQueue s.batch_size) _ _
        (All-on_queues s.batch_size _ _ (λ deq. fetching_count-keep_if _ deq) v.queues);
}

mark_as_failed-IsValid :
    (s : BlockchainSyncState) (id : ℕ) (hash : Bytes) (peer : ℕ)
    → IsValid s
    → IsValid (mark_as_failed s id hash peer)
unfolding mark_as_failed
mark_as_failed-IsValid s id hash peer v = elim (Option-cases (get peer s.blocks_to_fetch)) [
  | inl unknown ↦ rw (mark_as_failed, unknown) v
  | inr (deq, known) ↦
      let q = get-IsQueue s.batch_size peer s.blocks_to_fetch v.queues known in
      rw (mark_as_failed, known)
        (record {
          pictures = v.pictures;
          queues =
              All-insert (IsQueue s.batch_size) peer (fail_block id hash deq) s.blocks_to_fetch
                (q.0, omega (arith, q.1, fetching_count-fail_block id hash deq)) v.queues;
        })
]

or_empty-le :
    (batch_size peer : ℕ) (m : HashMap ℕ (List BlockData))
    → All (IsQueue batch_size) m
    → fetching_count (or_empty (get peer m)) ≤ batch_size
unfolding fetching_count
or_empty-le batch_size peer m qs = elim (Option-cases (get peer m)) [
  | inl unknown ↦ rw unknown (omega arith)
  | inr (deq, known) ↦ rw known (get-IsQueue batch_size peer m qs known).1
]

queue_pictures-IsQueue :
    (batch_size : ℕ) (blocks : Blocks) (pictures : HashMap ℕ (List (ℕ × Bytes)))
    (m : HashMap ℕ (List BlockData))
    → All (λ e. 0 < e.0) pictures
    → All (IsQueue batch_size) m
    → All (IsQueue batch_size) (queue_pictures blocks pictures m)
unfolding queue_pictures
queue_pictures-IsQueue batch_size blocks [] m ps qs = qs
queue_pictures-IsQueue batch_size blocks ((peer, picture) ∷ pictures) m ps qs =
    queue_pictures-IsQueue batch_size blocks pictures _ ps.1 (
      All-insert (IsQueue batch_size) peer _ m
        (
          ps.0,
          rw (fetching_count-queue_picture blocks (or_empty (get peer m)) _)
              (or_empty-le batch_size peer m qs),
        )
        qs)

build_peer_block_picture-IsValid :
    (s : BlockchainSyncState) (blocks : Blocks)
    → IsValid s
    → IsValid (build_peer_block_picture s blocks)
unfolding build_peer_block_picture
build_peer_block_picture-IsValid s blocks v = record {
  pictures = tt;
  queues = All-keep_if (IsQueue s.batch_size) _ _ (
      queue_pictures-IsQueue s.batch_size blocks s.received_block_picture s.blocks_to_fetch
        v.pictures v.queues);
}

push_to_peers-positive :
    (entry : ℕ × Bytes) (peers : HashMap ℕ Bytes) (m : HashMap ℕ (List (ℕ × Bytes)))
    → All (λ e. 0 < e.0) peers
    → All (λ e. 0 < e.0) m
    → All (λ e. 0 < e.0) (push_to_peers entry peers m)
unfolding push_to_peers
push_to_peers-positive entry [] m ps qs = qs
push_to_peers-positive entry ((index, []) ∷ peers) m ps qs =
    push_to_peers-positive entry peers m ps.1 qs
push_to_peers-positive entry ((index, c ∷ url) ∷ peers) m ps qs =
    push_to_peers-positive entry peers _ ps.1 (All-insert (λ e. 0 < e.0) index _ m ps.0 qs)

add_entry-IsValid :
    (s : BlockchainSyncState) (hash : Bytes) (id peer : ℕ) (peers : HashMap ℕ Bytes)
    → All (λ e. 0 < e.0) peers
    → IsValid s
    → IsValid (add_entry s hash id peer peers)
unfolding add_entry
add_entry-IsValid s hash id peer peers ps v = elim (Bool-cases (peer == 0)) [
  | inl zero_peer ↦
      rw (add_entry, zero_peer)
        (record {
          pictures = push_to_peers-positive (id, hash) peers s.received_block_picture ps v.pictures;
          queues = v.queues;
        })
  | inr a_peer ↦
      let p : 0 < peer = ground (arith, a_peer) in
      rw (add_entry, a_peer)
        (record {
          pictures = All-insert (λ e. 0 < e.0) peer _ s.received_block_picture p v.pictures;
          queues = v.queues;
        })
]

-- Each of the other operations keeps a state valid: no peer is 0 and at most a
-- batch of blocks is being fetched from each; the peers that an entry without a peer is pushed to
-- are not 0.
pub operations-IsValid :
    (s : BlockchainSyncState) (blocks : Blocks) (hash : Bytes) (id peer : ℕ)
    (peers : HashMap ℕ Bytes)
    → All (λ e. 0 < e.0) peers
    → IsValid s
    → IsValid (build_peer_block_picture s blocks)
      × IsValid (add_entry s hash id peer peers)
      × IsValid (remove_entry s hash)
      × IsValid (mark_as_fetched s hash)
      × IsValid (mark_as_failed s id hash peer)
operations-IsValid s blocks hash id peer peers ps v = (
  build_peer_block_picture-IsValid s blocks v,
  add_entry-IsValid s hash id peer peers ps v,
  remove_entry-IsValid s hash v,
  mark_as_fetched-IsValid s hash v,
  mark_as_failed-IsValid s id hash peer v,
)
