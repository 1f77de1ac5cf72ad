-- ===== src/Blockchain/AddBlock/Prune.antt =====
-- `prune_blocks_after_add_block` of saito-core/src/core/consensus/blockchain.rs, which asks
-- `upgrade_block_to_block_type` of saito-core/src/core/consensus/block.rs for a pruned block.
use saito_rust_workspace.Prelude.{ℕ, ◌-◌, ◌<◌, ◌≡◌, refl, Bool, true, Option, some, arith, ltb}
use saito_rust_workspace.Bytes.{Bytes}
use saito_rust_workspace.Bytes.Slices.{bytes_eq_iff}
use saito_rust_workspace.Outcome.{ok, ◌>>=◌}
use saito_rust_workspace.Eq.{bytes_key}
use saito_rust_workspace.HashMap.{get, insert, get-insert}
use saito_rust_workspace.BlockRing
use saito_rust_workspace.Block.{Block, pruned, block_type_eq}
use saito_rust_workspace.Block.Upgrade.{upgrade_block_to_block_type}
use saito_rust_workspace.Blockchain.{Blockchain, get_latest_block_id}
use saito_rust_workspace.Blockchain.Ledger.{WalletOps, Env, upgrade_at}
use saito_rust_workspace.Blockchain.AddBlock.{Setup}
use saito_rust_workspace.Blockchain.AddBlock.Run.{prune_blocks_after_add_block}

upgrade_to_pruned :
    (hash : Bytes → Bytes) (load : Block → Option Block) (b : Block) (is_spv : Bool)
    → upgrade_block_to_block_type hash load b pruned is_spv
      ≡ ok (b, block_type_eq b.block_type pruned)
unfolding upgrade_block_to_block_type block_type_eq
upgrade_to_pruned hash load b is_spv = ground arith

-- the blocks are the same at every hash
abbrev pub SameBlocks : Blockchain → Blockchain → Type 0
SameBlocks c d = (k : Bytes) → get k d.blocks ≡ get k c.blocks

module _ {W : Type 0} (ops : WalletOps W) (env : Env) (setup : Setup) where
  pruned_at :
      (c : Blockchain) (hash : Bytes) (block : Block)
      → get hash c.blocks ≡ some block
      → (d : Blockchain) × (upgrade_at ops env c hash pruned ≡ ok d) × SameBlocks c d
  unfolding upgrade_at
  pruned_at c hash block known = (
    record c { blocks = insert hash block c.blocks },
    rw (upgrade_at, known, upgrade_to_pruned env.hash env.load_block block env.is_spv_mode) refl,
    λ k. ground (arith, known, get-insert hash k block c.blocks, bytes_eq_iff hash k),
  )

  -- Where the latest block is past the genesis period, and the block of the longest chain that leaves
  -- the period is known, the blockchain is asked to prune that block: this succeeds, and leaves every
  -- block, this one too, as it was.
  pub prune_blocks_after_add_block-SameBlocks :
      (c : Blockchain) (latest : ℕ) (hash : Bytes) (block : Block)
      → get_latest_block_id c ≡ ok latest
      → env.genesis_period < latest
      → BlockRing.get_longest_chain_block_hash_at_block_id c.blockring (latest - env.genesis_period)
        ≡ ok (some hash)
      → get hash c.blocks ≡ some block
      → (d : Blockchain) × (prune_blocks_after_add_block ops env setup c ≡ ok d) × SameBlocks c d
  unfolding prune_blocks_after_add_block
  prune_blocks_after_add_block-SameBlocks c latest hash block latest_is past leaves known =
      let pruned_one = pruned_at c hash block known in
      let test : ltb env.genesis_period latest ≡ true = ground (arith, past) in
      (
        pruned_one.0,
        rw (prune_blocks_after_add_block, latest_is, ◌>>=◌, test, leaves) pruned_one.1,
        pruned_one.2,
      )
