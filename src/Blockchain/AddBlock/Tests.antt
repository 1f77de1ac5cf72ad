-- ===== src/Blockchain/AddBlock/Tests.antt =====
-- The theorems on `add_block` at small blockchains.
use saito_rust_workspace.Prelude.{ℕ, ◌≡◌, refl, true, false, none, some, [], ◌∷◌, arith}
use saito_rust_workspace.Bytes.{Bytes, bytes_eq, zeros}
use saito_rust_workspace.Outcome.{ok}
use saito_rust_workspace.Outcome.{Gives}
use saito_rust_workspace.Eq.{bytes_key}
use saito_rust_workspace.HashMap.{get}
use saito_rust_workspace.RingItem.{RingItem}
use saito_rust_workspace.BlockRing
use saito_rust_workspace.Block
use saito_rust_workspace.Block.{Block}
use saito_rust_workspace.Mempool
use saito_rust_workspace.Blockchain
use saito_rust_workspace.Blockchain.{Blockchain, get_latest_block_id}
use saito_rust_workspace.Blockchain.Ledger.{Env}
use saito_rust_workspace.Blockchain.AddBlock.{Setup, World}
use saito_rust_workspace.Blockchain.AddBlock.Run.{add_generated, prune_blocks_after_add_block}
use saito_rust_workspace.Blockchain.AddBlock.Results.{Says, add_generated-Says}
use saito_rust_workspace.Blockchain.AddBlock.Prune.{
  SameBlocks, prune_blocks_after_add_block-SameBlocks,
}
use saito_rust_workspace.Wallet.{Wallet}
use saito_rust_workspace.Wallet.Chain.{wallet_ops}

abbrev wallet : Wallet
wallet = record {
  public_key = zeros 33;
  slips = [];
  unspent_slips = [];
  staking_slips = [];
  available_balance = 0;
  pending_txs = [];
  nfts = [];
}

-- every block validates, every hash is zeros, and nothing is on the disk
abbrev env : Env
env = record {
  genesis_period = 10;
  prune_after_blocks = 8;
  max_staker_recursions = 3;
  is_browser = false;
  is_spv_mode = false;
  hash = λ bytes. zeros 32;
  load_block = λ b. none;
  validate_block = λ c b against. ok true;
}

abbrev setup : Setup
setup = record {
  initial_loading_completed = true;
  issuance_writing_block_interval = 0;
  public_key = zeros 33;
  validate_transaction = λ c tx. true;
}

abbrev chain : Blockchain
chain = Blockchain.new 10 0 0

abbrev world : World Wallet
world = record { node = record { chain = chain; wallet = wallet }; mempool = Mempool.new }

abbrev first : Block
first = record Block.new { id = 1; hash = 5 ∷ [] }

results_example : Gives (Says world first.hash) (add_generated wallet_ops env setup 9 world first)
results_example = add_generated-Says wallet_ops env setup 9 world first

abbrev short_env : Env
short_env = record env { genesis_period = 1 }

-- blocks 1 and 2 of the longest chain, the first of which leaves a genesis period of one block
abbrev second : Block
second = record Block.new { id = 2; hash = 6 ∷ [] }

abbrev item_of_id : ℕ → Bytes → RingItem
item_of_id id hash = record { block_hashes = hash ∷ []; block_ids = id ∷ []; lc_pos = some 0 }

abbrev aged : Blockchain
aged = record chain {
  genesis_period = 1;
  blocks = (5 ∷ [], first) ∷ (6 ∷ [], second) ∷ [];
  blockring = record {
    ring = item_of_id 2 (6 ∷ []) ∷ item_of_id 1 (5 ∷ []) ∷ [];
    lc_pos = some 0;
    empty = false;
    genesis_period = 1;
  };
}

aged_latest : get_latest_block_id aged ≡ ok 2
unfolding get_latest_block_id BlockRing.get_latest_block_id
aged_latest = refl

first_leaves :
    BlockRing.get_longest_chain_block_hash_at_block_id aged.blockring 1 ≡ ok (some (5 ∷ []))
unfolding BlockRing.get_longest_chain_block_hash_at_block_id BlockRing.slot BlockRing.insert_pos
    BlockRing.get_ring_buffer_size
first_leaves = refl

first_known : get (5 ∷ []) aged.blocks ≡ some first
unfolding get bytes_eq
first_known = refl

prune_blocks_example :
    (d : Blockchain) × (prune_blocks_after_add_block wallet_ops short_env setup aged ≡ ok d)
    × SameBlocks aged d
prune_blocks_example =
    prune_blocks_after_add_block-SameBlocks wallet_ops short_env setup aged 2 (5 ∷ []) first
      aged_latest (omega arith) first_leaves first_known
