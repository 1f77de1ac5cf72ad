-- ===== src/SyncState/Queue.antt =====
-- Which blocks a picture adds to a queue, saito-core/src/core/consensus/blockchain_sync_state.rs.
use saito_rust_workspace.Prelude.{
  ℕ, ◌+◌, max, ◌≡◌, refl, Bool, false, not, ◌&&◌, ◌||◌, List, [], ◌∷◌, ◌++◌, arith, ltb, ◌==◌,
  if◌then◌else◌, any,
}
use saito_rust_workspace.Bytes.{Bytes, bytes_eq}
use saito_rust_workspace.Bytes.Slices.{bytes_eq_iff}
use saito_rust_workspace.Eq.{bytes_key}
use saito_rust_workspace.HashMap.{contains_key}
use saito_rust_workspace.Blockchain.{Blocks}
use saito_rust_workspace.SyncState.{BlockData, queue_picture, queued}

abbrev is_block : ℕ → Bytes → BlockData → Bool
is_block id hash b = bytes_eq b.block_hash hash && b.block_id == id

-- how often a queue has a block
pub occurrences : ℕ → Bytes → List BlockData → ℕ
occurrences id hash [] = 0
occurrences id hash (b ∷ deq) = (if is_block id hash b then 1 else 0) + occurrences id hash deq

-- whether a picture has a block that the chain does not
pub is_wanted : Blocks → ℕ → Bytes → List (ℕ × Bytes) → Bool
is_wanted blocks id hash [] = false
is_wanted blocks id hash ((i, h) ∷ picture) =
    (bytes_eq h hash && (i == id && not (contains_key hash blocks)))
    || is_wanted blocks id hash picture

any-occurrences :
    (id : ℕ) (hash : Bytes) (deq : List BlockData)
    → any (is_block id hash) deq ≡ ltb 0 (occurrences id hash deq)
unfolding occurrences
any-occurrences id hash [] = refl
any-occurrences id hash (b ∷ deq) = ground (arith, any-occurrences id hash deq)

abbrev fresh : ℕ → Bytes → BlockData
fresh id hash = record { block_hash = hash; block_id = id; status = queued; retry_count = 0 }

occurrences-append :
    (id : ℕ) (hash : Bytes) (i : ℕ) (h : Bytes) (deq : List BlockData)
    → occurrences id hash (deq ++ fresh i h ∷ [])
      ≡ occurrences id hash deq + (if bytes_eq h hash && i == id then 1 else 0)
unfolding occurrences
occurrences-append id hash i h [] = ground arith
occurrences-append id hash i h (b ∷ deq) = ground (arith, occurrences-append id hash i h deq)

-- A picture adds to a queue exactly its blocks that the chain does not have, each once, unless the
-- queue has it already.
pub occurrences-queue_picture :
    (blocks : Blocks) (id : ℕ) (hash : Bytes) (deq : List BlockData) (picture : List (ℕ × Bytes))
    → occurrences id hash (queue_picture blocks deq picture) ≡ (
        if is_wanted blocks id hash picture
        then max 1 (occurrences id hash deq)
        else occurrences id hash deq)
unfolding queue_picture is_wanted
occurrences-queue_picture blocks id hash deq [] = refl
occurrences-queue_picture blocks id hash deq ((i, h) ∷ picture) = ground (
  arith,
  bytes_eq_iff h hash,
  any-occurrences i h deq,
  occurrences-append id hash i h deq,
  occurrences-queue_picture blocks id hash deq picture,
  occurrences-queue_picture blocks id hash (deq ++ fresh i h ∷ []) picture,
)
