-- ===== src/Blockchain/Ledger.antt =====
-- saito-core/src/core/consensus/blockchain.rs: what a block that joins or leaves the longest chain
-- does to the blockchain and to the wallet, and the removal of old blocks. The wallet is an interface;
-- the hash, the disk and the validation of one block are arguments.
pub mod Steps
use saito_rust_workspace.Prelude.{
  ℕ, zero, suc, ◌+◌, ◌-◌, ◌*◌, ◌/◌, ◌%◌, ◌^◌, ◌≤◌, ◌<◌, min, max, ◌≡◌, ◌≢◌, ◌↔◌, ◌⊎◌, refl, sym, ap,
  ap₂, ◌∙◌, fun_ext, Bool, true, false, not, ◌&&◌, ◌||◌, Option, none, some, inl, inr, List, [],
  ◌∷◌, ◌++◌, map, reverse, append-nil, append_assoc, arith, dec_lt, ℕ_discrete, ltb, leb, ◌==◌,
  if◌then◌else◌, ltb→lt, lt→ltb, leb→le, ==_iff, tests, Bool-cases, Option-cases, length, get_elem?,
  set, get_or, take, drop, replicate, length-append, length-set, length-take, length-drop,
  length-map, take-append-drop, All, any, keep_if, All-append, All-append_left, All-append_right,
  get_elem?_in_range, lt_of_get_elem?, get_elem?-append_end, All-set, All-get, any-append_end,
  get_elem?-set_self, get_elem?-set_ne, length-replicate, length-reverse,
}
use saito_rust_workspace.Bytes.{
  Bytes, AreBytes, IsArray, to_be_bytes, from_be_bytes, slice, index, bytes_eq, concat, zeros,
}
use saito_rust_workspace.Bytes.Endian.{
  length-to_be_bytes, to_be_bytes-AreBytes, from_be_bytes-to_be_bytes, to_be_bytes-from_be_bytes,
  from_be_bytes-lt,
}
use saito_rust_workspace.Bytes.Slices.{
  slice-append_skip, slice-append_self, slice-eq-ok, index-append_skip, bytes_eq_iff, bytes_eq_refl,
  slice_split, index_split, slice_in_range, drop-length, slice-IsArray, index-lt, zeros-IsArray,
  index_in_range,
}
use saito_rust_workspace.Outcome.{
  Outcome, ok, err, panic, ◌>>=◌, ◌>>◌, check, assert, ok_or, unwrap, >>=-eq-ok, ErrorKind,
  invalid_input, invalid_data, not_found,
}
use saito_rust_workspace.Eq.{bytes_key}
use saito_rust_workspace.HashMap.{HashMap, get, insert, remove, contains_key}
use saito_rust_workspace.BlockRing
use saito_rust_workspace.Block
use saito_rust_workspace.Block.{Block, BlockType, ghost, header, pruned, full}
use saito_rust_workspace.Block.Upgrade.{upgrade_block_to_block_type}
use saito_rust_workspace.Blockchain.{
  Blockchain, get_latest_block_id, is_block_indexed, has_total_supply_loaded,
}
use saito_rust_workspace.Blockchain.ForkId.{generate_fork_id}
use saito_rust_workspace.Blockchain.Tickets.{is_golden_ticket_count_valid}
use saito_rust_workspace.Blockchain.Winding.{Attempt, checkpoint, refused, done, ChainOps}

-- what the chain asks of the wallet: the wallet after it, and whether it changed
pub record WalletOps (W : Type 0) : Type 0 where
  pub on_chain_reorganization : W → Block → Bool → ℕ → Outcome (W × Bool)
  pub delete_block : W → Block → Outcome (W × Bool)

-- the configuration, the cryptographic hash, the blocks on the disk, and `Block::validate`
pub record Env : Type 0 where
  pub genesis_period : ℕ
  pub prune_after_blocks : ℕ
  pub max_staker_recursions : ℕ
  pub is_browser : Bool
  pub is_spv_mode : Bool
  pub hash : Bytes → Bytes
  pub load_block : Block → Option Block
  pub validate_block : Blockchain → Block → Bool → Outcome Bool

pub record Node (W : Type 0) : Type 0 where
  pub chain : Blockchain
  pub wallet : W

module _ {W : Type 0} (ops : WalletOps W) (env : Env) where
  -- a block of the map at a type, where it can be brought there
  unfoldable pub upgrade_at : Blockchain → Bytes → BlockType → Outcome Blockchain
  upgrade_at c hash block_type = do
    block ← unwrap (get hash c.blocks)
    upgraded ← upgrade_block_to_block_type env.hash env.load_block block block_type env.is_spv_mode
    ok (record c { blocks = insert hash upgraded.0 c.blocks })

  -- the loop over the blocks of the longest chain below, `rounds` of them from `i` on
  unfoldable pub upgrade_below : ℕ → ℕ → ℕ → Blockchain → Outcome Blockchain
  unfolding upgrade_at
  upgrade_below zero i latest_block_id c = ok c
  upgrade_below (suc rounds) i latest_block_id c = elim (leb latest_block_id i) [
    | true ↦ ok c
    | false ↦ do
      previous ←
          BlockRing.get_longest_chain_block_hash_at_block_id c.blockring (latest_block_id - i)
      upgraded ← elim previous [
        | none ↦ ok c
        | some hash ↦ elim (is_block_indexed c hash) [
          | true ↦ upgrade_at c hash full
          | false ↦ ok c
        ]
      ]
      upgrade_below rounds (i + 1) latest_block_id upgraded
  ]

  unfoldable pub upgrade_blocks_for_wind_chain : Blockchain → Bytes → Outcome Blockchain
  unfolding upgrade_below
  upgrade_blocks_for_wind_chain c block_hash = do
    upgraded ← upgrade_at c block_hash full
    block ← unwrap (get block_hash upgraded.blocks)
    upgrade_below (env.max_staker_recursions - 1) 1 block.id upgraded

  -- The block leaves the wallet, the UTXO set, the ring and the map.
  unfoldable pub delete_block : Node W → ℕ → Bytes → Outcome (Node W × Bool)
  delete_block node delete_block_id delete_block_hash = do
    let c : Blockchain = node.chain
    block ← unwrap (get delete_block_hash c.blocks)
    wallet ← ops.delete_block node.wallet block
    blockring ← BlockRing.delete_block c.blockring delete_block_id delete_block_hash
    ok (
      record {
        chain = record c {
          utxoset = (Block.delete block c.utxoset).0;
          blockring = blockring;
          blocks = remove delete_block_hash c.blocks;
        };
        wallet = wallet.0;
      },
      wallet.1,
    )

  unfoldable pub delete_hashes : Node W → ℕ → List Bytes → Bool → Outcome (Node W × Bool)
  unfolding delete_block
  delete_hashes node delete_block_id [] status = ok (node, status)
  delete_hashes node delete_block_id (hash ∷ hashes) status = do
    deleted ← delete_block node delete_block_id hash
    delete_hashes deleted.0 delete_block_id hashes (status || deleted.1)

  unfoldable pub delete_blocks : Node W → ℕ → Outcome (Node W × Bool)
  unfolding delete_hashes
  delete_blocks node delete_block_id = do
    hashes ← BlockRing.get_block_hashes_at_block_id node.chain.blockring delete_block_id
    delete_hashes node delete_block_id hashes false

  -- `u64` arithmetic; the genesis period is far below `2 ^ 62`.
  unfoldable pub update_genesis_period : Node W → Outcome (Node W × Bool)
  unfolding delete_blocks
  update_genesis_period node = do
    latest_block_id ← get_latest_block_id node.chain
    let block_limit : ℕ = (env.genesis_period * 2 + 1) % 2 ^ 64
    let purge_bid : ℕ = latest_block_id - env.genesis_period * 2
    elim (leb block_limit latest_block_id) [
      | false ↦ ok (node, false)
      | true ↦
          let moved : Node W = record node {
            chain = record node.chain { genesis_block_id = latest_block_id - env.genesis_period };
          } in
          elim (ltb 0 purge_bid) [
            | true ↦ delete_blocks moved purge_bid
            | false ↦ ok (moved, false)
          ]
    ]

  -- the blocks of one id give up their transactions, where that is safe
  unfoldable pub downgrade_hashes : Blockchain → List Bytes → Blockchain
  downgrade_hashes c [] = c
  downgrade_hashes c (hash ∷ hashes) =
      downgrade_hashes
        (elim (get hash c.blocks) [
          | none ↦ c
          | some block ↦ elim block.safe_to_prune_transactions [
            | true ↦ record c {
              blocks = insert hash (Block.downgrade_block_to_block_type block pruned).0 c.blocks;
            }
            | false ↦ c
          ]
        ])
        hashes

  unfoldable pub downgrade_blockchain_data : Blockchain → Outcome Blockchain
  unfolding downgrade_hashes
  downgrade_blockchain_data c = do
    latest_block_id ← get_latest_block_id c
    elim (ltb latest_block_id env.prune_after_blocks) [
      | true ↦ ok c
      | false ↦ do
        hashes ←
            BlockRing.get_block_hashes_at_block_id c.blockring
              (latest_block_id - env.prune_after_blocks)
        ok (downgrade_hashes c hashes)
    ]
