-- ===== src/Blockchain/Winding/Tests.antt =====
-- The theorems on `validate` at concrete chains, with steps that keep the wound blocks on
-- a stack, and with the steps of a node.
use saito_rust_workspace.Prelude.{
  ℕ, ltb, ◌≡◌, refl, Bool, true, false, Option, none, some, inr, List, [], ◌∷◌, reverse, arith,
  ◌==◌, if◌then◌else◌,
}
use saito_rust_workspace.Bytes.{Bytes, zeros, bytes_eq}
use saito_rust_workspace.Outcome.{Outcome, ok, panic}
use saito_rust_workspace.Eq.{bytes_key}
use saito_rust_workspace.HashMap.{get, insert}
use saito_rust_workspace.RingItem
use saito_rust_workspace.RingItem.{RingItem}
use saito_rust_workspace.BlockRing
use saito_rust_workspace.Block
use saito_rust_workspace.Block.{Block}
use saito_rust_workspace.Block.Upgrade.{upgrade_block_to_block_type}
use saito_rust_workspace.Wallet.{Wallet}
use saito_rust_workspace.Wallet.Reorg
use saito_rust_workspace.Wallet.Chain.{wallet_ops}
use saito_rust_workspace.Blockchain
use saito_rust_workspace.Blockchain.{Blockchain}
use saito_rust_workspace.Blockchain.Ledger.{
  Env, Node, upgrade_blocks_for_wind_chain, downgrade_blockchain_data,
}
use saito_rust_workspace.Blockchain.Tickets.{is_golden_ticket_count_valid}
use saito_rust_workspace.Blockchain.Ledger.Steps.{
  chain_ops, has_enough_tickets, wind_block, unwind_block,
}
use saito_rust_workspace.Blockchain.Winding.{Attempt, refused, done, ChainOps, validate}
use saito_rust_workspace.Blockchain.Winding.Success.{
  Unwinds, nothing_left, leaves, Winds, nothing_new, joins,
}
use saito_rust_workspace.Blockchain.Winding.Validate.{validate-valid}
use saito_rust_workspace.Blockchain.Winding.Refused.{validate-refused}

abbrev pop : List Bytes → Outcome (Attempt (List Bytes))
pop [] = panic
pop (h ∷ s) = ok (done s true)

-- every block but those of a hash that starts with 2 validates
abbrev push : List Bytes → Bytes → Outcome (Attempt (List Bytes))
push s [] = ok (refused s)
push s (n ∷ h) = ok (if n == 2 then refused s else done ((n ∷ h) ∷ s) true)

abbrev stack_ops : ChainOps (List Bytes)
stack_ops = record {
  has_enough_tickets = λ s tip. ok true;
  wind_block = push;
  unwind_block = λ s h. pop s;
}

abbrev before : List Bytes
before = (9 ∷ []) ∷ (0 ∷ []) ∷ []

abbrev shared : List Bytes
shared = (0 ∷ []) ∷ []

old_leaves : Unwinds stack_ops before ((9 ∷ []) ∷ []) shared
old_leaves = leaves refl nothing_left

new_joins : Winds stack_ops shared ((1 ∷ []) ∷ (3 ∷ []) ∷ []) ((3 ∷ []) ∷ (1 ∷ []) ∷ (0 ∷ []) ∷ [])
new_joins = joins refl (joins refl nothing_new)

valid_example :
    (updated : Bool) × (validate stack_ops 3 before
        (reverse ((1 ∷ []) ∷ (3 ∷ []) ∷ []))
        ((9 ∷ []) ∷ [])
      ≡ ok (some ((3 ∷ []) ∷ (1 ∷ []) ∷ (0 ∷ []) ∷ [], true, updated)))
valid_example =
    validate-valid stack_ops before shared ((3 ∷ []) ∷ (1 ∷ []) ∷ (0 ∷ []) ∷ []) ((9 ∷ []) ∷ [])
      ((3 ∷ []) ∷ []) (1 ∷ []) (3 ∷ []) 3 refl refl old_leaves new_joins (inr (omega arith))
      (omega arith)

abbrev wallet : Wallet
wallet = record {
  public_key = zeros 33;
  slips = [];
  unspent_slips = [];
  staking_slips = [];
  available_balance = 0;
  pending_txs = [];
  nfts = [];
}

-- every block but the one of id 3 validates, every hash is zeros, and nothing is on the disk
abbrev env : Env
env = record {
  genesis_period = 10;
  prune_after_blocks = 8;
  max_staker_recursions = 1;
  is_browser = false;
  is_spv_mode = false;
  hash = λ bytes. zeros 32;
  load_block = λ b. none;
  validate_block = λ c b against. ok (ltb b.id 3);
}

abbrev block_of : ℕ → ℕ → ℕ → Bool → Block
block_of id hash parent in_longest_chain = record Block.new {
  id = id;
  hash = hash ∷ [];
  previous_block_hash = parent ∷ [];
  in_longest_chain = in_longest_chain;
}

abbrev one_block : Bytes → RingItem
one_block hash = record { block_hashes = hash ∷ []; block_ids = 1 ∷ []; lc_pos = some 0 }

abbrev nothing : RingItem
nothing = record { block_hashes = []; block_ids = []; lc_pos = none }

-- Block 1, two blocks of id 2 over it, of hashes 9 and 3, and block 4 of id 3 over the second of them:
-- which of the two is in the longest chain, the place of it in their slot, and the slot of the tip.
abbrev node_at : Bool → Bool → Option ℕ → ℕ → Node Wallet
node_at old_in base_in place tip_slot = record {
  chain = record (Blockchain.new 2 0 0) {
    blocks =
        (1 ∷ [], block_of 1 1 0 true)
        ∷ (9 ∷ [], block_of 2 9 1 old_in)
        ∷ (3 ∷ [], block_of 2 3 1 base_in)
        ∷ (4 ∷ [], block_of 3 4 3 false)
        ∷ [];
    last_block_id = 2;
    last_block_hash = 9 ∷ [];
    blockring = record {
      ring =
          nothing
          ∷ one_block (1 ∷ [])
          ∷ record {
            block_hashes = (9 ∷ []) ∷ (3 ∷ []) ∷ [];
            block_ids = 2 ∷ 2 ∷ [];
            lc_pos = place;
          }
          ∷ record { block_hashes = (4 ∷ []) ∷ []; block_ids = 3 ∷ []; lc_pos = none }
          ∷ [];
      lc_pos = some tip_slot;
      empty = false;
      genesis_period = 2;
    };
  };
  wallet = wallet;
}

abbrev node_ops : ChainOps (Node Wallet)
node_ops = chain_ops wallet_ops env

abbrev held : Node Wallet
held = node_at true false (some 0) 2

abbrev parted : Node Wallet
parted = node_at false false none 1

abbrev joined : Node Wallet
joined = node_at false true (some 1) 2

enough_tickets : node_ops.has_enough_tickets held (4 ∷ []) ≡ ok true
unfolding chain_ops has_enough_tickets get bytes_eq is_golden_ticket_count_valid
enough_tickets = refl

held_leaves : node_ops.unwind_block held (9 ∷ []) ≡ ok (done parted true)
unfolding chain_ops unwind_block get bytes_eq Block.new upgrade_block_to_block_type
    Block.block_type_eq BlockRing.on_chain_reorganization wallet_ops Reorg.on_chain_reorganization
    Block.on_chain_reorganization downgrade_blockchain_data Blockchain.get_latest_block_id
    BlockRing.get_latest_block_id RingItem.on_chain_reorganization insert
held_leaves = refl

base_joins : node_ops.wind_block parted (3 ∷ []) ≡ ok (done joined true)
unfolding chain_ops wind_block upgrade_blocks_for_wind_chain get bytes_eq
    upgrade_block_to_block_type Block.block_type_eq Block.new insert
    Blockchain.has_total_supply_loaded BlockRing.get_longest_chain_block_hash_at_block_id
    Blockchain.get_latest_block_id BlockRing.get_latest_block_id BlockRing.on_chain_reorganization
    wallet_ops Reorg.on_chain_reorganization Block.on_chain_reorganization downgrade_blockchain_data
    RingItem.on_chain_reorganization Blockchain.new
base_joins = refl

tip_refused : node_ops.wind_block joined (4 ∷ []) ≡ ok (refused joined)
unfolding chain_ops wind_block upgrade_blocks_for_wind_chain get bytes_eq
    upgrade_block_to_block_type Block.block_type_eq Block.new insert
    Blockchain.has_total_supply_loaded BlockRing.get_longest_chain_block_hash_at_block_id
    Blockchain.get_latest_block_id BlockRing.get_latest_block_id
tip_refused = refl

base_leaves : node_ops.unwind_block joined (3 ∷ []) ≡ ok (done parted true)
unfolding chain_ops unwind_block get bytes_eq Block.new upgrade_block_to_block_type
    Block.block_type_eq BlockRing.on_chain_reorganization wallet_ops Reorg.on_chain_reorganization
    Block.on_chain_reorganization downgrade_blockchain_data Blockchain.get_latest_block_id
    BlockRing.get_latest_block_id RingItem.on_chain_reorganization insert
base_leaves = refl

refused_example : validate node_ops 50 held ((4 ∷ []) ∷ (3 ∷ []) ∷ []) ((9 ∷ []) ∷ []) ≡ ok none
refused_example =
    validate-refused node_ops held parted joined (4 ∷ []) (3 ∷ []) ((9 ∷ []) ∷ []) true true
      enough_tickets (leaves held_leaves nothing_left) base_joins tip_refused base_leaves 50
