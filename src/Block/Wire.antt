-- ===== src/Block/Wire.antt =====
-- The wire format of a block: `serialize_for_net` and `deserialize_from_net` of
-- saito-core/src/core/consensus/block.rs. Sizes are `usize` of 64 bits.
pub mod Header
pub mod RoundTrip
use saito_rust_workspace.Prelude.{
  ℕ, zero, suc, ◌+◌, ◌-◌, ◌*◌, ◌/◌, ◌%◌, ◌^◌, ◌≤◌, ◌<◌, min, max, ◌≡◌, ◌≢◌, ◌↔◌, ◌⊎◌, refl, sym, ap,
  ap₂, ◌∙◌, fun_ext, Bool, true, false, not, ◌&&◌, ◌||◌, Option, none, some, inl, inr, List, [],
  ◌∷◌, ◌++◌, map, reverse, append-nil, append_assoc, arith, dec_lt, ℕ_discrete, ltb, leb, ◌==◌,
  if◌then◌else◌, ltb→lt, lt→ltb, leb→le, ==_iff, tests, Bool-cases, Option-cases, length, get_elem?,
  set, get_or, take, drop, replicate, length-append, length-set, length-take, length-drop,
  length-map, take-append-drop, All, any, keep_if, All-append, All-append_left, All-append_right,
  get_elem?_in_range, lt_of_get_elem?, get_elem?-append_end, All-set, All-get, any-append_end,
  get_elem?-set_self, get_elem?-set_ne, length-replicate, length-reverse,
}
use saito_rust_workspace.Bytes.{
  Bytes, AreBytes, IsArray, to_be_bytes, from_be_bytes, slice, index, bytes_eq, concat, zeros,
}
use saito_rust_workspace.Bytes.Endian.{
  length-to_be_bytes, to_be_bytes-AreBytes, from_be_bytes-to_be_bytes, to_be_bytes-from_be_bytes,
  from_be_bytes-lt,
}
use saito_rust_workspace.Bytes.Slices.{
  slice-append_skip, slice-append_self, slice-eq-ok, index-append_skip, bytes_eq_iff, bytes_eq_refl,
  slice_split, index_split, slice_in_range, drop-length, slice-IsArray, index-lt, zeros-IsArray,
  index_in_range,
}
use saito_rust_workspace.Outcome.{
  Outcome, ok, err, panic, ◌>>=◌, ◌>>◌, check, assert, ok_or, unwrap, >>=-eq-ok, ErrorKind,
  invalid_input, invalid_data, not_found,
}
use saito_rust_workspace.Slip.{slip_size}
use saito_rust_workspace.Hop.{hop_size}
use saito_rust_workspace.Transaction.{Transaction}
use saito_rust_workspace.Transaction.Wire
use saito_rust_workspace.Transaction.Wire.{transaction_size}
use saito_rust_workspace.Block.{Block, BlockType, ghost, header, pruned, full, new, block_type_eq}

abbrev pub block_header_size : ℕ
block_header_size = 389

-- The header's fields, after the number of transactions.
unfoldable pub header_fields : Block → List Bytes
header_fields b =
    to_be_bytes 8 b.id
    ∷ to_be_bytes 8 b.timestamp
    ∷ b.previous_block_hash
    ∷ b.creator
    ∷ b.merkle_root
    ∷ b.signature
    ∷ to_be_bytes 8 b.graveyard
    ∷ to_be_bytes 8 b.treasury
    ∷ to_be_bytes 8 b.burnfee
    ∷ to_be_bytes 8 b.difficulty
    ∷ to_be_bytes 8 b.avg_total_fees
    ∷ to_be_bytes 8 b.avg_fee_per_byte
    ∷ to_be_bytes 8 b.avg_nolan_rebroadcast_per_block
    ∷ to_be_bytes 8 b.previous_block_unpaid
    ∷ to_be_bytes 8 b.avg_total_fees
    ∷ to_be_bytes 8 b.avg_total_fees_new
    ∷ to_be_bytes 8 b.avg_total_fees_atr
    ∷ to_be_bytes 8 b.avg_payout_routing
    ∷ to_be_bytes 8 b.avg_payout_mining
    ∷ to_be_bytes 8 b.avg_payout_treasury
    ∷ to_be_bytes 8 b.avg_payout_graveyard
    ∷ to_be_bytes 8 b.avg_payout_atr
    ∷ to_be_bytes 8 b.total_payout_routing
    ∷ to_be_bytes 8 b.total_payout_mining
    ∷ to_be_bytes 8 b.total_payout_treasury
    ∷ to_be_bytes 8 b.total_payout_graveyard
    ∷ to_be_bytes 8 b.total_payout_atr
    ∷ to_be_bytes 8 b.total_fees
    ∷ to_be_bytes 8 b.total_fees_new
    ∷ to_be_bytes 8 b.total_fees_atr
    ∷ to_be_bytes 8 b.fee_per_byte
    ∷ to_be_bytes 8 b.total_fees_cumulative
    ∷ []

unfoldable pub serialize_for_net : Block → BlockType → Bytes
unfolding header_fields
serialize_for_net b block_type =
    let is_header : Bool = block_type_eq block_type header in
    let tx_len : ℕ = if is_header then 0 else length b.transactions % 2 ^ 32 in
    let tx_buf : Bytes =
      if is_header then [] else concat (map Wire.serialize_for_net b.transactions) in
    concat (to_be_bytes 4 tx_len ∷ header_fields b) ++ tx_buf

-- `u64::from_be_bytes(bytes[start..start + 8])`
unfoldable pub u64_at : Bytes → ℕ → Outcome ℕ
u64_at bytes start = slice bytes start (start + 8) >>= λ part. ok (from_be_bytes part)

-- `u32::from_be_bytes(bytes[start..start + 4])`
unfoldable pub u32_at : Bytes → ℕ → Outcome ℕ
u32_at bytes start = slice bytes start (start + 4) >>= λ part. ok (from_be_bytes part)

-- The fields of the header; `avg_total_fees` is there twice and the second one counts.
unfoldable pub read_header : Bytes → Outcome Block
unfolding u64_at
read_header bytes = do
  id ← u64_at bytes 4
  timestamp ← u64_at bytes 12
  previous_block_hash ← slice bytes 20 52
  creator ← slice bytes 52 85
  merkle_root ← slice bytes 85 117
  signature ← slice bytes 117 181
  graveyard ← u64_at bytes 181
  treasury ← u64_at bytes 189
  burnfee ← u64_at bytes 197
  difficulty ← u64_at bytes 205
  first_avg_total_fees ← u64_at bytes 213
  avg_fee_per_byte ← u64_at bytes 221
  avg_nolan_rebroadcast_per_block ← u64_at bytes 229
  previous_block_unpaid ← u64_at bytes 237
  avg_total_fees ← u64_at bytes 245
  avg_total_fees_new ← u64_at bytes 253
  avg_total_fees_atr ← u64_at bytes 261
  avg_payout_routing ← u64_at bytes 269
  avg_payout_mining ← u64_at bytes 277
  avg_payout_treasury ← u64_at bytes 285
  avg_payout_graveyard ← u64_at bytes 293
  avg_payout_atr ← u64_at bytes 301
  total_payout_routing ← u64_at bytes 309
  total_payout_mining ← u64_at bytes 317
  total_payout_treasury ← u64_at bytes 325
  total_payout_graveyard ← u64_at bytes 333
  total_payout_atr ← u64_at bytes 341
  total_fees ← u64_at bytes 349
  total_fees_new ← u64_at bytes 357
  total_fees_atr ← u64_at bytes 365
  fee_per_byte ← u64_at bytes 373
  total_fees_cumulative ← u64_at bytes 381
  ok (record new {
    id = id;
    timestamp = timestamp;
    previous_block_hash = previous_block_hash;
    creator = creator;
    merkle_root = merkle_root;
    signature = signature;
    graveyard = graveyard;
    treasury = treasury;
    burnfee = burnfee;
    difficulty = difficulty;
    avg_total_fees = avg_total_fees;
    avg_fee_per_byte = avg_fee_per_byte;
    avg_nolan_rebroadcast_per_block = avg_nolan_rebroadcast_per_block;
    previous_block_unpaid = previous_block_unpaid;
    avg_total_fees_new = avg_total_fees_new;
    avg_total_fees_atr = avg_total_fees_atr;
    avg_payout_routing = avg_payout_routing;
    avg_payout_mining = avg_payout_mining;
    avg_payout_treasury = avg_payout_treasury;
    avg_payout_graveyard = avg_payout_graveyard;
    avg_payout_atr = avg_payout_atr;
    total_payout_routing = total_payout_routing;
    total_payout_mining = total_payout_mining;
    total_payout_treasury = total_payout_treasury;
    total_payout_graveyard = total_payout_graveyard;
    total_payout_atr = total_payout_atr;
    total_fees = total_fees;
    total_fees_new = total_fees_new;
    total_fees_atr = total_fees_atr;
    fee_per_byte = fee_per_byte;
    total_fees_cumulative = total_fees_cumulative;
  })

-- The loop: `count` transactions from `start` on.
unfoldable pub read_transactions : Bytes → ℕ → ℕ → Outcome (List Transaction)
unfolding u32_at
read_transactions bytes start zero = ok []
read_transactions bytes start (suc count) = do
  check (not (ltb (length bytes) (start + 16))) invalid_data
  inputs_len ← u32_at bytes start
  outputs_len ← u32_at bytes (start + 4)
  message_len ← u32_at bytes (start + 8)
  path_len ← u32_at bytes (start + 12)
  check (ltb (inputs_len + outputs_len) (2 ^ 32)) invalid_data
  let end_of_transaction_data =
      start
      + transaction_size
      + (inputs_len + outputs_len) * slip_size
      + message_len
      + path_len * hop_size
  check (not (ltb (length bytes) end_of_transaction_data)) invalid_data
  part ← slice bytes start end_of_transaction_data
  transaction ← Wire.deserialize_from_net part
  transactions ← read_transactions bytes end_of_transaction_data count
  ok (transaction ∷ transactions)

unfoldable pub deserialize_from_net : Bytes → Outcome Block
unfolding u32_at read_header read_transactions
deserialize_from_net bytes = do
  check (not (ltb (length bytes) block_header_size)) invalid_data
  transactions_len ← u32_at bytes 0
  block ← read_header bytes
  transactions ← read_transactions bytes block_header_size transactions_len
  let is_first = block.id == 1 && bytes_eq block.previous_block_hash (zeros 32)
  ok (record block {
    transactions = transactions;
    block_type = if transactions_len == 0 && not is_first then header else full;
  })
