-- ===== src/Block/Upgrade.antt =====
-- `upgrade_block_to_block_type` and `update_block_to_block_type` of
-- saito-core/src/core/consensus/block.rs. What the disk holds for a block is an argument.
use saito_rust_workspace.Prelude.{Bool, true, false, not, ◌&&◌, Option, none, some, if◌then◌else◌}
use saito_rust_workspace.Bytes.{Bytes}
use saito_rust_workspace.Outcome.{Outcome, ok, ◌>>=◌}
use saito_rust_workspace.Block.{
  Block, BlockType, pruned, full, block_type_eq, downgrade_block_to_block_type,
}
use saito_rust_workspace.Block.Generate.{generate}

-- the transactions of the block on the disk, in a block that knows itself again
unfoldable pub load_transactions : (Bytes → Bytes) → Block → Option Block → Outcome (Block × Bool)
load_transactions hash b none = ok (b, false)
load_transactions hash b (some loaded) =
    generate hash (record b { transactions = loaded.transactions }) >>= λ generated.
    ok (
      if generated.1
      then (record generated.0 { block_type = full }, true)
      else (generated.0, false))

-- the block, and whether it has the type
unfoldable pub upgrade_block_to_block_type :
    (Bytes → Bytes) → (Block → Option Block) → Block → BlockType → Bool → Outcome (Block × Bool)
unfolding load_transactions
upgrade_block_to_block_type hash load b block_type is_spv =
    elim (block_type_eq b.block_type block_type) [
      | true ↦ ok (b, true)
      | false ↦ elim (block_type_eq block_type full && not is_spv) [
        | true ↦ load_transactions hash b (load b)
        | false ↦ ok (b, false)
      ]
    ]

unfoldable pub update_block_to_block_type :
    (Bytes → Bytes) → (Block → Option Block) → Block → BlockType → Bool → Outcome (Block × Bool)
unfolding upgrade_block_to_block_type
update_block_to_block_type hash load b block_type is_browser =
    elim (block_type_eq b.block_type block_type) [
      | true ↦ ok (b, true)
      | false ↦ elim block_type [
        | full ↦ upgrade_block_to_block_type hash load b full is_browser
        | pruned ↦ ok (downgrade_block_to_block_type b pruned)
        | _ ↦ ok (b, false)
      ]
    ]
