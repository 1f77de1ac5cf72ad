-- ===== src/Blockchain/Ledger/Steps.antt =====
-- One block joins or leaves the longest chain: `on_chain_reorganization` and the bodies of
-- `wind_chain` and `unwind_chain` of saito-core/src/core/consensus/blockchain.rs, as the steps that the
-- loop of `validate` (Blockchain/Winding) takes.
use saito_rust_workspace.Prelude.{
  ℕ, Bool, true, false, ◌||◌, Option, none, some, leb, ◌==◌, if◌then◌else◌,
}
use saito_rust_workspace.Bytes.{Bytes, bytes_eq, zeros}
use saito_rust_workspace.Outcome.{Outcome, ok, ◌>>=◌, unwrap}
use saito_rust_workspace.Eq.{bytes_key}
use saito_rust_workspace.HashMap.{get, insert}
use saito_rust_workspace.BlockRing
use saito_rust_workspace.Block
use saito_rust_workspace.Block.{Block, BlockType, ghost, header, pruned, full}
use saito_rust_workspace.Block.Upgrade.{upgrade_block_to_block_type}
use saito_rust_workspace.Blockchain.{Blockchain, has_total_supply_loaded}
use saito_rust_workspace.Blockchain.ForkId.{generate_fork_id}
use saito_rust_workspace.Blockchain.Tickets.{is_golden_ticket_count_valid}
use saito_rust_workspace.Blockchain.Winding.{Attempt, checkpoint, refused, done, ChainOps}
use saito_rust_workspace.Blockchain.Ledger.{
  WalletOps, Env, Node, upgrade_blocks_for_wind_chain, update_genesis_period,
  downgrade_blockchain_data,
}

unfoldable pub set_fork_id : Blockchain → Bytes → Blockchain
set_fork_id c fork_id = record c { fork_id = some fork_id }

-- `if fork_id != [0; 32] { self.set_fork_id(fork_id) }`
unfoldable pub update_fork_id : Blockchain → ℕ → Outcome Blockchain
unfolding set_fork_id
update_fork_id c block_id = generate_fork_id c.blockring block_id >>= λ fork_id.
    ok (if bytes_eq fork_id (zeros 32) then c else set_fork_id c fork_id)

-- the blockchain's own notes about its tip
unfoldable pub note_tip : Blockchain → ℕ → Option Block → Blockchain
note_tip c block_id none = c
note_tip c block_id (some block) =
    let noted : Blockchain = record c {
      last_block_id = block_id;
      last_block_hash = block.hash;
      last_timestamp = block.timestamp;
      last_burnfee = block.burnfee;
    } in
    if c.lowest_acceptable_timestamp == 0
    then record noted {
      lowest_acceptable_block_id = block_id;
      lowest_acceptable_block_hash = block.hash;
      lowest_acceptable_timestamp = block.timestamp;
    }
    else noted

module _ {W : Type 0} (ops : WalletOps W) (env : Env) where
  -- the notes, the old blocks and the fork id, for a block that joins
  unfoldable pub reorganize_joined : Node W → ℕ → Bytes → Outcome (Node W × Bool)
  unfolding note_tip update_fork_id
  reorganize_joined node block_id block_hash = do
    let noted : Node W = record node {
      chain = note_tip node.chain block_id (get block_hash node.chain.blocks);
    }
    updated ← update_genesis_period ops env noted
    chain ← update_fork_id updated.0.chain block_id
    ok (record updated.0 { chain = chain }, updated.1)

  -- `if longest_chain { .. }`
  unfoldable pub reorganize_if : Bool → Node W → ℕ → Bytes → Outcome (Node W × Bool)
  unfolding reorganize_joined
  reorganize_if true node block_id block_hash = reorganize_joined node block_id block_hash
  reorganize_if false node block_id block_hash = ok (node, false)

  unfoldable pub on_chain_reorganization : Node W → ℕ → Bytes → Bool → Outcome (Node W × Bool)
  unfolding reorganize_if
  on_chain_reorganization node block_id block_hash longest_chain =
      elim (leb block_id node.chain.last_block_id) [
        | true ↦ downgrade_blockchain_data ops env node.chain >>= λ chain.
            ok (record node { chain = chain }, true)
        | false ↦ do
          joined ← reorganize_if longest_chain node block_id block_hash
          chain ← downgrade_blockchain_data ops env joined.0.chain
          ok (record joined.0 { chain = chain }, joined.1)
      ]

  -- a block that validates joins: the ring, the wallet, the UTXO set, and the notes
  unfoldable pub join_block : Node W → Bytes → Block → Outcome (Attempt (Node W))
  unfolding on_chain_reorganization
  join_block node block_hash block = do
    blockring ← BlockRing.on_chain_reorganization node.chain.blockring block.id block.hash true
    wallet ← ops.on_chain_reorganization node.wallet block true env.genesis_period
    let after = Block.on_chain_reorganization block node.chain.utxoset true
    let moved : Node W = record {
      chain = record node.chain {
        blockring = blockring;
        utxoset = after.1;
        blocks = insert block_hash after.0 node.chain.blocks;
      };
      wallet = wallet.0;
    }
    end ← on_chain_reorganization moved block.id block_hash true
    ok (done end.0 (wallet.1 || end.1))

  unfoldable pub wind_block : Node W → Bytes → Outcome (Attempt (Node W))
  unfolding join_block
  wind_block node block_hash = do
    chain ← upgrade_blocks_for_wind_chain ops env node.chain block_hash
    let upgraded : Node W = record node { chain = chain }
    block ← unwrap (get block_hash chain.blocks)
    elim block.has_checkpoint [
      | true ↦ ok (checkpoint upgraded)
      | false ↦ do
        validate_against_utxo ← has_total_supply_loaded chain env.genesis_period
        valid ← env.validate_block chain block validate_against_utxo
        elim valid [ true ↦ join_block upgraded block_hash block | false ↦ ok (refused upgraded) ]
    ]

  -- a block leaves: the UTXO set, the ring, the wallet, and the notes
  unfoldable pub leave_block : Node W → Bytes → Block → Outcome (Attempt (Node W))
  unfolding on_chain_reorganization
  leave_block node block_hash block = do
    let after = Block.on_chain_reorganization block node.chain.utxoset false
    blockring ← BlockRing.on_chain_reorganization node.chain.blockring block.id block.hash false
    wallet ← ops.on_chain_reorganization node.wallet after.0 false env.genesis_period
    let moved : Node W = record {
      chain = record node.chain {
        blockring = blockring;
        utxoset = after.1;
        blocks = insert block_hash after.0 node.chain.blocks;
      };
      wallet = wallet.0;
    }
    end ← on_chain_reorganization moved block.id block.hash false
    ok (done end.0 (wallet.1 || end.1))

  unfoldable pub unwind_block : Node W → Bytes → Outcome (Attempt (Node W))
  unfolding leave_block
  unwind_block node block_hash = do
    block ← unwrap (get block_hash node.chain.blocks)
    elim block.has_checkpoint [
      | true ↦ ok (checkpoint node)
      | false ↦ do
        upgraded ← upgrade_block_to_block_type env.hash env.load_block block full env.is_spv_mode
        leave_block node block_hash upgraded.0
    ]

  -- the check of `validate` before its loop
  unfoldable pub has_enough_tickets : Node W → Bytes → Outcome Bool
  has_enough_tickets node tip = unwrap (get tip node.chain.blocks) >>= λ block. ok (
      is_golden_ticket_count_valid block.previous_block_hash block.has_golden_ticket
        (env.is_browser || env.is_spv_mode) (λ hash. get hash node.chain.blocks))

  unfoldable pub chain_ops : ChainOps (Node W)
  unfolding has_enough_tickets wind_block unwind_block
  chain_ops = record {
    has_enough_tickets = has_enough_tickets;
    wind_block = wind_block;
    unwind_block = unwind_block;
  }
