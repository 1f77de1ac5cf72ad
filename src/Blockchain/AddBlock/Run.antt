-- ===== src/Blockchain/AddBlock/Run.antt =====
-- `add_block` of saito-core/src/core/consensus/blockchain.rs: the whole handler, and what it does
-- when the block is added and when it fails.
use saito_rust_workspace.Prelude.{
  ℕ, ◌+◌, ◌-◌, Bool, true, false, not, ◌&&◌, ◌||◌, Option, none, some, List, ltb, length,
}
use saito_rust_workspace.Bytes.{Bytes, bytes_eq, zeros}
use saito_rust_workspace.Outcome.{Outcome, ok, ◌>>=◌, unwrap}
use saito_rust_workspace.Eq.{bytes_key}
use saito_rust_workspace.HashMap.{get, insert, remove, contains_key}
use saito_rust_workspace.BlockRing
use saito_rust_workspace.BlockRing.{BlockRing}
use saito_rust_workspace.Block.{Block, pruned}
use saito_rust_workspace.Block.Generate as Gen
use saito_rust_workspace.Mempool
use saito_rust_workspace.Mempool.{Mempool}
use saito_rust_workspace.Blockchain.{Blockchain, get_latest_block_id}
use saito_rust_workspace.Blockchain.Chains.{
  new_chain_from, old_chain_from, calculate_old_chain_upto_length, is_new_chain_the_longest_chain,
}
use saito_rust_workspace.Blockchain.Supply.{check_total_supply}
use saito_rust_workspace.Blockchain.Winding.{validate}
use saito_rust_workspace.Blockchain.Ledger.{WalletOps, Env, Node, upgrade_at}
use saito_rust_workspace.Blockchain.Ledger.Steps.{chain_ops, update_fork_id}
use saito_rust_workspace.Blockchain.AddBlock.{
  AddBlockResult, block_added_successfully, block_already_exists, failed_not_valid, Setup, World,
  set_in_longest_chain, turn_away, lacks_parent, set_safe_to_prune_transaction, disconnect,
  note_issuance,
}

module _ {W : Type 0} (ops : WalletOps W) (env : Env) (setup : Setup) where
  -- the block that leaves the genesis period is to be pruned
  unfoldable pub prune_blocks_after_add_block : Blockchain → Outcome Blockchain
  prune_blocks_after_add_block c = do
    latest_block_id ← get_latest_block_id c
    elim (ltb env.genesis_period latest_block_id) [
      | false ↦ ok c
      | true ↦
          BlockRing.get_longest_chain_block_hash_at_block_id c.blockring
            (latest_block_id - env.genesis_period)
          >>= λ longest. elim longest [ none ↦ ok c | some hash ↦ upgrade_at ops env c hash pruned ]
    ]

  unfoldable pub add_block_success : World W → Bytes → Outcome (World W)
  unfolding prune_blocks_after_add_block
  add_block_success w block_hash = do
    block ← unwrap (get block_hash w.node.chain.blocks)
    forked ← update_fork_id (note_issuance env setup w.node.chain block) block.id
    safe ← set_safe_to_prune_transaction forked block.id
    added ← unwrap (get block_hash safe.blocks)
    mempool ← Mempool.remove_block_transactions w.mempool safe.utxoset added.transactions
    chain ← prune_blocks_after_add_block safe
    ok (record { node = record w.node { chain = chain }; mempool = mempool })

  unfoldable pub add_block_failure : World W → Bytes → Outcome (World W)
  add_block_failure w block_hash =
      let mempool : Mempool = Mempool.delete_block w.mempool block_hash in
      let c : Blockchain = w.node.chain in
      elim (get block_hash c.blocks) [
        | none ↦ ok (record w { mempool = mempool })
        | some block ↦ BlockRing.delete_block c.blockring block.id block.hash >>= λ blockring.
            let left : Blockchain = record c {
              blockring = blockring;
              blocks = remove block_hash c.blocks;
            } in
            ok (record {
              node = record w.node { chain = left };
              mempool =
                  Mempool.add_block_transactions_back (setup.validate_transaction left)
                    setup.public_key mempool block;
            })
      ]

  -- the ring and the map have the block
  unfoldable pub insert_block : Blockchain → Block → Outcome Blockchain
  insert_block c block = do
    known ← BlockRing.contains_block_hash_at_block_id c.blockring block.id block.hash
    blockring ← elim known [
      | true ↦ ok c.blockring
      | false ↦ BlockRing.add_block c.blockring block.id block.hash
    ]
    ok (record c { blockring = blockring; blocks = insert block.hash block c.blocks })

  -- a block without a parent, received after blocks that should follow it
  unfoldable pub disconnect_later : Blockchain → Bytes → ℕ → Outcome Blockchain
  disconnect_later c latest_block_hash block_id = elim (BlockRing.is_empty c.blockring) [
    | true ↦ ok c
    | false ↦ do
      current ← BlockRing.get_latest_block_hash c.blockring
      latest_block_id ← get_latest_block_id c
      elim (not (bytes_eq latest_block_hash (zeros 32))
          && bytes_eq latest_block_hash current
          && ltb (latest_block_id - c.genesis_period) block_id) [
            | true ↦ disconnect (latest_block_id - block_id) (block_id + 1) c
            | false ↦ ok c
          ]
  ]

  -- The chain after the search, the new chain and the old one.
  unfoldable pub find_chains :
      ℕ → Blockchain → Bytes → Block → Outcome (Option (Blockchain × List Bytes × List Bytes))
  unfolding disconnect_later
  find_chains fuel c latest_block_hash block = elim (new_chain_from c.blocks fuel block.hash) [
    | none ↦ ok none
    | some walked ↦ elim walked.0 [
      | true ↦ elim (old_chain_from c.blocks walked.1 fuel latest_block_hash) [
        | none ↦ ok none
        | some old_chain ↦ ok (some (c, walked.2, old_chain))
      ]
      | false ↦ disconnect_later c latest_block_hash block.id >>= λ after. ok (
          some (
            after,
            walked.2,
            calculate_old_chain_upto_length after.blocks latest_block_hash (length walked.2),
          ))
    ]
  ]

  unfoldable pub am_i_the_longest_chain : Blockchain → ℕ → List Bytes → List Bytes → Outcome Bool
  am_i_the_longest_chain c block_id new_chain old_chain = do
    latest_block_id ← get_latest_block_id c
    elim (ltb (latest_block_id - c.genesis_period) block_id) [
      | true ↦ is_new_chain_the_longest_chain c.blockring c.blocks new_chain old_chain
      | false ↦ ok false
    ]

  -- the end of the loop of `validate`
  unfoldable pub after_validate :
      Mempool → Bytes → Option (Node W × Bool × Bool) → Outcome (Option (World W × AddBlockResult))
  unfolding add_block_success add_block_failure
  after_validate mempool hash none = ok none
  after_validate mempool hash (some (node, valid, wallet_updated)) = elim valid [
    | true ↦ do
      chain ← check_total_supply node.chain env.genesis_period (env.is_browser || env.is_spv_mode)
      added ←
          add_block_success (record { node = record node { chain = chain }; mempool = mempool })
            hash
      ok (some (added, block_added_successfully hash true wallet_updated))
    | false ↦ do
      block ← unwrap (get hash node.chain.blocks)
      let chain : Blockchain = record node.chain {
        blocks = set_in_longest_chain false hash node.chain.blocks;
      }
      failed ←
          add_block_failure (record { node = record node { chain = chain }; mempool = mempool })
            hash
      ok (some (failed, failed_not_valid))
  ]

  -- the block joins the longest chain, or is kept beside it
  unfoldable pub settle :
      ℕ
      → World W
      → Block
      → Blockchain
      → List Bytes
      → List Bytes
      → Bool
      → Outcome (Option (World W × AddBlockResult))
  unfolding after_validate
  settle fuel w block c new_chain old_chain true =
      let tip : Blockchain = record c { blocks = set_in_longest_chain true block.hash c.blocks } in
      validate (chain_ops ops env) fuel (record w.node { chain = tip }) new_chain old_chain
      >>= λ validated. after_validate w.mempool block.hash validated
  settle fuel w block c new_chain old_chain false =
      add_block_success (record w { node = record w.node { chain = c } }) block.hash >>= λ added.
      ok (some (added, block_added_successfully block.hash false false))

  -- a block that knows itself and is not turned away
  unfoldable pub accept : ℕ → World W → Bytes → Block → Outcome (Option (World W × AddBlockResult))
  unfolding insert_block find_chains am_i_the_longest_chain settle
  accept fuel w latest_block_hash block = do
    inserted ← insert_block w.node.chain block
    chains ← find_chains fuel inserted latest_block_hash block
    elim chains [
      | none ↦ ok none
      | some (c, new_chain, old_chain) ↦ do
        longest ← am_i_the_longest_chain c block.id new_chain old_chain
        let ready : Blockchain = record c { blockring = record c.blockring { empty = false } }
        settle fuel w block ready new_chain old_chain longest
    ]

  -- everything after `block.generate()`
  unfoldable pub add_generated : ℕ → World W → Block → Outcome (Option (World W × AddBlockResult))
  unfolding accept
  add_generated fuel w block = do
    latest_block_hash ← BlockRing.get_latest_block_hash w.node.chain.blockring
    elim (contains_key block.hash w.node.chain.blocks) [
      | true ↦ ok (some (w, block_already_exists))
      | false ↦ elim (lacks_parent setup w.node.chain block) [
        | true ↦ get_latest_block_id w.node.chain >>= λ latest_block_id.
            ok (some (w, turn_away env w.mempool latest_block_id block))
        | false ↦ accept fuel w latest_block_hash block
      ]
    ]

  unfoldable pub add_block : ℕ → World W → Block → Outcome (Option (World W × AddBlockResult))
  unfolding add_generated
  add_block fuel w block = Gen.generate env.hash block >>= λ generated. elim generated.1 [
    | true ↦ add_generated fuel w generated.0
    | false ↦ ok (some (w, failed_not_valid))
  ]
