-- ===== src/Block.antt =====
-- saito-core/src/core/consensus/block.rs: the block, its part in the UTXO set, its hashes and the
-- loss of its transactions. The cached consensus values (`cv`) are not kept. The hash and the signature
-- of the cryptographic library are arguments.
mod Tests
pub mod Generate
pub mod Upgrade
pub mod Wire
pub mod Undo
pub mod DoubleSpend
use saito_rust_workspace.Prelude.{
  ℕ, zero, suc, ◌+◌, ◌-◌, ◌*◌, ◌/◌, ◌%◌, ◌^◌, ◌≤◌, ◌<◌, min, max, ◌≡◌, ◌≢◌, ◌↔◌, ◌⊎◌, refl, sym, ap,
  ap₂, ◌∙◌, fun_ext, Bool, true, false, not, ◌&&◌, ◌||◌, Option, none, some, inl, inr, List, [],
  ◌∷◌, ◌++◌, map, reverse, append-nil, append_assoc, arith, dec_lt, ℕ_discrete, ltb, leb, ◌==◌,
  if◌then◌else◌, ltb→lt, lt→ltb, leb→le, ==_iff, tests, Bool-cases, Option-cases, length, get_elem?,
  set, get_or, take, drop, replicate, length-append, length-set, length-take, length-drop,
  length-map, take-append-drop, All, any, keep_if, All-append, All-append_left, All-append_right,
  get_elem?_in_range, lt_of_get_elem?, get_elem?-append_end, All-set, All-get, any-append_end,
  get_elem?-set_self, get_elem?-set_ne, length-replicate, length-reverse,
}
use saito_rust_workspace.Bytes.{
  Bytes, AreBytes, IsArray, to_be_bytes, from_be_bytes, slice, index, bytes_eq, concat, zeros,
}
use saito_rust_workspace.Bytes.Endian.{
  length-to_be_bytes, to_be_bytes-AreBytes, from_be_bytes-to_be_bytes, to_be_bytes-from_be_bytes,
  from_be_bytes-lt,
}
use saito_rust_workspace.Bytes.Slices.{
  slice-append_skip, slice-append_self, slice-eq-ok, index-append_skip, bytes_eq_iff, bytes_eq_refl,
  slice_split, index_split, slice_in_range, drop-length, slice-IsArray, index-lt, zeros-IsArray,
  index_in_range,
}
use saito_rust_workspace.Outcome.{
  Outcome, ok, err, panic, ◌>>=◌, ◌>>◌, check, assert, ok_or, unwrap, >>=-eq-ok, ErrorKind,
  invalid_input, invalid_data, not_found,
}
use saito_rust_workspace.HashMap.{HashMap}
use saito_rust_workspace.Slip.{UtxoSet}
use saito_rust_workspace.Transaction.{Transaction}
use saito_rust_workspace.Transaction.Reorg

pub data BlockType : Type 0 where
  ghost header pruned full : BlockType

pub record Block : Type 0 where
  pub id : ℕ
  pub timestamp : ℕ
  pub previous_block_hash : Bytes
  pub creator : Bytes
  pub merkle_root : Bytes
  pub signature : Bytes
  pub graveyard : ℕ
  pub treasury : ℕ
  pub total_fees : ℕ
  pub total_fees_new : ℕ
  pub total_fees_atr : ℕ
  pub total_fees_cumulative : ℕ
  pub avg_total_fees : ℕ
  pub avg_total_fees_new : ℕ
  pub avg_total_fees_atr : ℕ
  pub total_payout_routing : ℕ
  pub total_payout_mining : ℕ
  pub total_payout_treasury : ℕ
  pub total_payout_graveyard : ℕ
  pub total_payout_atr : ℕ
  pub avg_payout_routing : ℕ
  pub avg_payout_mining : ℕ
  pub avg_payout_treasury : ℕ
  pub avg_payout_graveyard : ℕ
  pub avg_payout_atr : ℕ
  pub avg_fee_per_byte : ℕ
  pub fee_per_byte : ℕ
  pub avg_nolan_rebroadcast_per_block : ℕ
  pub burnfee : ℕ
  pub difficulty : ℕ
  pub previous_block_unpaid : ℕ
  pub transactions : List Transaction
  pub pre_hash : Bytes
  pub hash : Bytes
  pub total_work : ℕ
  pub in_longest_chain : Bool
  pub has_golden_ticket : Bool
  pub has_issuance_transaction : Bool
  pub issuance_transaction_index : ℕ
  pub has_fee_transaction : Bool
  pub has_staking_transaction : Bool
  pub golden_ticket_index : ℕ
  pub fee_transaction_index : ℕ
  pub total_rebroadcast_slips : ℕ
  pub total_rebroadcast_nolan : ℕ
  pub rebroadcast_hash : Bytes
  pub block_type : BlockType
  pub slips_spent_this_block : HashMap Bytes ℕ
  pub created_hashmap_of_slips_spent_this_block : Bool
  pub routed_from_peer : Option ℕ
  pub transaction_map : HashMap Bytes Bool
  pub force_loaded : Bool
  pub safe_to_prune_transactions : Bool
  pub has_checkpoint : Bool

unfoldable pub new : Block
new = record {
  id = 0;
  timestamp = 0;
  previous_block_hash = zeros 32;
  creator = zeros 33;
  merkle_root = zeros 32;
  signature = zeros 64;
  graveyard = 0;
  treasury = 0;
  total_fees = 0;
  total_fees_new = 0;
  total_fees_atr = 0;
  total_fees_cumulative = 0;
  avg_total_fees = 0;
  avg_total_fees_new = 0;
  avg_total_fees_atr = 0;
  total_payout_routing = 0;
  total_payout_mining = 0;
  total_payout_treasury = 0;
  total_payout_graveyard = 0;
  total_payout_atr = 0;
  avg_payout_routing = 0;
  avg_payout_mining = 0;
  avg_payout_treasury = 0;
  avg_payout_graveyard = 0;
  avg_payout_atr = 0;
  avg_fee_per_byte = 0;
  fee_per_byte = 0;
  avg_nolan_rebroadcast_per_block = 0;
  burnfee = 0;
  difficulty = 0;
  previous_block_unpaid = 0;
  transactions = [];
  pre_hash = zeros 32;
  hash = zeros 32;
  total_work = 0;
  in_longest_chain = false;
  has_golden_ticket = false;
  has_issuance_transaction = false;
  issuance_transaction_index = 0;
  has_fee_transaction = false;
  has_staking_transaction = false;
  golden_ticket_index = 0;
  fee_transaction_index = 0;
  total_rebroadcast_slips = 0;
  total_rebroadcast_nolan = 0;
  rebroadcast_hash = zeros 32;
  block_type = full;
  slips_spent_this_block = [];
  created_hashmap_of_slips_spent_this_block = false;
  routed_from_peer = none;
  transaction_map = [];
  force_loaded = false;
  safe_to_prune_transactions = false;
  has_checkpoint = false;
}

unfoldable pub add_transaction : Block → Transaction → Block
add_transaction b tx = record b { transactions = b.transactions ++ tx ∷ [] }

-- `for tx in &self.transactions { tx.on_chain_reorganization(utxoset, longest_chain) }`
unfoldable pub reorganize_transactions : List Transaction → UtxoSet → Bool → UtxoSet
reorganize_transactions [] utxoset longest_chain = utxoset
reorganize_transactions (tx ∷ txs) utxoset longest_chain =
    reorganize_transactions txs (Reorg.on_chain_reorganization tx utxoset longest_chain)
      longest_chain

-- the block, the UTXO set, and the `true` it returns
unfoldable pub on_chain_reorganization : Block → UtxoSet → Bool → Block × UtxoSet × Bool
unfolding reorganize_transactions
on_chain_reorganization b utxoset longest_chain = (
  record b { in_longest_chain = longest_chain },
  reorganize_transactions b.transactions utxoset longest_chain,
  true,
)

unfoldable pub delete_transactions : List Transaction → UtxoSet → UtxoSet
delete_transactions [] utxoset = utxoset
delete_transactions (tx ∷ txs) utxoset = delete_transactions txs (Reorg.delete tx utxoset).0

unfoldable pub delete : Block → UtxoSet → UtxoSet × Bool
unfolding delete_transactions
delete b utxoset = (delete_transactions b.transactions utxoset, true)

unfoldable pub block_type_eq : BlockType → BlockType → Bool
block_type_eq ghost ghost = true
block_type_eq header header = true
block_type_eq pruned pruned = true
block_type_eq full full = true
block_type_eq _ _ = false

unfoldable pub downgrade_block_to_block_type : Block → BlockType → Block × Bool
downgrade_block_to_block_type b block_type =
    if block_type_eq b.block_type block_type
    then (b, true)
    else if block_type_eq block_type pruned
    then (record b { transactions = []; block_type = pruned }, true)
    else (b, false)

unfoldable pub serialize_for_hash : Block → Bytes
serialize_for_hash b = concat (b.previous_block_hash ∷ b.pre_hash ∷ [])

unfoldable pub serialize_for_signature : Block → Bytes
serialize_for_signature b = concat (
    to_be_bytes 8 b.id
    ∷ to_be_bytes 8 b.timestamp
    ∷ b.previous_block_hash
    ∷ b.creator
    ∷ b.merkle_root
    ∷ to_be_bytes 8 b.graveyard
    ∷ to_be_bytes 8 b.treasury
    ∷ to_be_bytes 8 b.burnfee
    ∷ to_be_bytes 8 b.difficulty
    ∷ to_be_bytes 8 b.avg_fee_per_byte
    ∷ to_be_bytes 8 b.avg_nolan_rebroadcast_per_block
    ∷ to_be_bytes 8 b.previous_block_unpaid
    ∷ to_be_bytes 8 b.avg_total_fees
    ∷ to_be_bytes 8 b.avg_total_fees_new
    ∷ to_be_bytes 8 b.avg_total_fees_atr
    ∷ to_be_bytes 8 b.avg_payout_routing
    ∷ to_be_bytes 8 b.avg_payout_mining
    ∷ [])

unfoldable pub generate_pre_hash : (Bytes → Bytes) → Block → Block
generate_pre_hash hash b = record b { pre_hash = hash (serialize_for_signature b) }

unfoldable pub generate_hash : (Bytes → Bytes) → Block → Block
generate_hash hash b = record b { hash = hash (serialize_for_hash b) }

unfoldable pub sign : (Bytes → Bytes → Bytes) → Block → Bytes → Block
sign crypto_sign b private_key = record b {
  signature = crypto_sign (serialize_for_signature b) private_key;
}
