-- ===== src/Blockchain/AddBlock.antt =====
-- `add_block` of saito-core/src/core/consensus/blockchain.rs, with what follows a block that is added
-- or that fails. What is written to the disk is left out; the wallet is an interface, and the search
-- for the chains and the loop of `validate` run on fuel, where `none` means that it ran out.
mod Keeps
mod Tests
pub mod Prune
pub mod Results
pub mod Run
use saito_rust_workspace.Prelude.{
  ℕ, zero, suc, ◌+◌, ◌-◌, ◌*◌, ◌/◌, ◌%◌, ◌^◌, ◌≤◌, ◌<◌, min, max, ◌≡◌, ◌≢◌, ◌↔◌, ◌⊎◌, refl, sym, ap,
  ap₂, ◌∙◌, fun_ext, Bool, true, false, not, ◌&&◌, ◌||◌, Option, none, some, inl, inr, List, [],
  ◌∷◌, ◌++◌, map, reverse, append-nil, append_assoc, arith, dec_lt, ℕ_discrete, ltb, leb, ◌==◌,
  if◌then◌else◌, ltb→lt, lt→ltb, leb→le, ==_iff, tests, Bool-cases, Option-cases, length, get_elem?,
  set, get_or, take, drop, replicate, length-append, length-set, length-take, length-drop,
  length-map, take-append-drop, All, any, keep_if, All-append, All-append_left, All-append_right,
  get_elem?_in_range, lt_of_get_elem?, get_elem?-append_end, All-set, All-get, any-append_end,
  get_elem?-set_self, get_elem?-set_ne, length-replicate, length-reverse,
}
use saito_rust_workspace.Bytes.{
  Bytes, AreBytes, IsArray, to_be_bytes, from_be_bytes, slice, index, bytes_eq, concat, zeros,
}
use saito_rust_workspace.Bytes.Endian.{
  length-to_be_bytes, to_be_bytes-AreBytes, from_be_bytes-to_be_bytes, to_be_bytes-from_be_bytes,
  from_be_bytes-lt,
}
use saito_rust_workspace.Bytes.Slices.{
  slice-append_skip, slice-append_self, slice-eq-ok, index-append_skip, bytes_eq_iff, bytes_eq_refl,
  slice_split, index_split, slice_in_range, drop-length, slice-IsArray, index-lt, zeros-IsArray,
  index_in_range,
}
use saito_rust_workspace.Outcome.{
  Outcome, ok, err, panic, ◌>>=◌, ◌>>◌, check, assert, ok_or, unwrap, >>=-eq-ok, ErrorKind,
  invalid_input, invalid_data, not_found,
}
use saito_rust_workspace.Eq.{bytes_key}
use saito_rust_workspace.HashMap.{HashMap, get, insert, remove, contains_key}
use saito_rust_workspace.BlockRing
use saito_rust_workspace.BlockRing.{BlockRing}
use saito_rust_workspace.Transaction.{Transaction}
use saito_rust_workspace.Block
use saito_rust_workspace.Block.{Block, BlockType, ghost, header, pruned, full, block_type_eq}
use saito_rust_workspace.Block.Generate as Gen
use saito_rust_workspace.Block.Upgrade.{upgrade_block_to_block_type}
use saito_rust_workspace.Mempool
use saito_rust_workspace.Mempool.{Mempool}
use saito_rust_workspace.Blockchain.{Blockchain, Blocks, get_latest_block_id, get_latest_block}
use saito_rust_workspace.Blockchain.Chains.{
  new_chain_from, old_chain_from, calculate_old_chain_upto_length, is_new_chain_the_longest_chain,
}
use saito_rust_workspace.Blockchain.Supply.{check_total_supply}
use saito_rust_workspace.Blockchain.Winding.{validate}
use saito_rust_workspace.Blockchain.Ledger.{WalletOps, Env, Node, upgrade_at}
use saito_rust_workspace.Blockchain.Ledger.Steps.{chain_ops, update_fork_id}

pub data AddBlockResult : Type 0 where
  block_added_successfully : Bytes → Bool → Bool → AddBlockResult
  block_already_exists : AddBlockResult
  failed_but_retry : Block → Bool → Bool → AddBlockResult
  failed_not_valid : AddBlockResult

-- the rest of the configuration, the node's public key, and `Transaction::validate`
pub record Setup : Type 0 where
  pub initial_loading_completed : Bool
  pub issuance_writing_block_interval : ℕ
  pub public_key : Bytes
  pub validate_transaction : Blockchain → Transaction → Bool

-- what `add_block` changes
pub record World (W : Type 0) : Type 0 where
  pub node : Node W
  pub mempool : Mempool

abbrev pub abs_diff : ℕ → ℕ → ℕ
abs_diff a b = (a - b) + (b - a)

abbrev pub is_some {ℓ} : {A : Type ℓ} → Option A → Bool
is_some none = false
is_some (some x) = true

-- a field of a block of the map, where the block is there
unfoldable pub set_in_longest_chain : Bool → Bytes → Blocks → Blocks
set_in_longest_chain flag hash blocks = elim (get hash blocks) [
  | none ↦ blocks
  | some block ↦ insert hash (record block { in_longest_chain = flag }) blocks
]

-- A block whose parent is not there: how it is turned away.
unfoldable pub turn_away : Env → Mempool → ℕ → Block → AddBlockResult
turn_away env mempool latest_block_id block =
    if any (λ b. bytes_eq block.previous_block_hash b.hash) mempool.blocks_queue
    then failed_but_retry block false false
    else if ltb (max 1 (latest_block_id - env.genesis_period)) block.id
    then (if ltb (abs_diff block.id latest_block_id) (min 1000 env.genesis_period)
        then failed_but_retry block true false
        else failed_but_retry block false true)
    else failed_not_valid

-- whether the block is turned away for its parent
unfoldable pub lacks_parent : Setup → Blockchain → Block → Bool
lacks_parent setup c block =
    not (BlockRing.is_empty c.blockring)
    && not (contains_key block.previous_block_hash c.blocks)
    && not (bytes_eq block.previous_block_hash (zeros 32))
    && (setup.initial_loading_completed || c.checkpoint_found)

-- `set_safe_to_prune_transaction`
unfoldable pub set_safe_to_prune_transaction : Blockchain → ℕ → Outcome Blockchain
set_safe_to_prune_transaction c block_id =
    BlockRing.get_block_hash_by_block_id c.blockring block_id >>= λ found. elim found [
      | none ↦ ok c
      | some hash ↦ elim (get hash c.blocks) [
        | none ↦ ok c
        | some block ↦ ok (record c {
          blocks = insert hash (record block { safe_to_prune_transactions = true }) c.blocks;
        })
      ]
    ]

-- The blocks of the longest chain from an id on, `rounds` of them, leave it: received out of order.
unfoldable pub disconnect : ℕ → ℕ → Blockchain → Outcome Blockchain
unfolding set_in_longest_chain
disconnect zero id c = ok c
disconnect (suc rounds) id c = do
  longest ← BlockRing.get_longest_chain_block_hash_at_block_id c.blockring id
  next ← elim longest [
    | none ↦ ok c
    | some hash ↦ elim (bytes_eq hash (zeros 32)) [
      | true ↦ ok c
      | false ↦ BlockRing.on_chain_reorganization c.blockring id hash false >>= λ blockring.
          ok (record c { blockring = blockring; blocks = set_in_longest_chain false hash c.blocks })
    ]
  ]
  disconnect rounds (id + 1) next

-- the issuance is written every so many blocks
unfoldable pub note_issuance : Env → Setup → Blockchain → Block → Blockchain
note_issuance env setup c block =
    if not (block_type_eq block.block_type header)
      && not env.is_browser
      && not env.is_spv_mode
      && ltb 0 setup.issuance_writing_block_interval
      && leb (c.last_issuance_written_on + setup.issuance_writing_block_interval) block.id
    then record c { last_issuance_written_on = block.id }
    else c
