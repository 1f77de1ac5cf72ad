-- ===== src/Transaction/Wire.antt =====
-- The wire format of a transaction: `serialize_for_net`, `serialize_for_net_with_hop`,
-- `get_serialized_size` and `deserialize_from_net` of
-- saito-core/src/core/consensus/transaction.rs. Sizes are `usize` of 64 bits, in which the sums of
-- offsets cannot overflow: every count is a `u32`.
pub mod Loops
pub mod Parts
pub mod RoundTrip
pub mod Truncated
use saito_rust_workspace.Prelude.{
  ℕ, zero, suc, ◌+◌, ◌-◌, ◌*◌, ◌/◌, ◌%◌, ◌^◌, ◌≤◌, ◌<◌, min, max, ◌≡◌, ◌≢◌, ◌↔◌, ◌⊎◌, refl, sym, ap,
  ap₂, ◌∙◌, fun_ext, Bool, true, false, not, ◌&&◌, ◌||◌, Option, none, some, inl, inr, List, [],
  ◌∷◌, ◌++◌, map, reverse, append-nil, append_assoc, arith, dec_lt, ℕ_discrete, ltb, leb, ◌==◌,
  if◌then◌else◌, ltb→lt, lt→ltb, leb→le, ==_iff, tests, Bool-cases, Option-cases, length, get_elem?,
  set, get_or, take, drop, replicate, length-append, length-set, length-take, length-drop,
  length-map, take-append-drop, All, any, keep_if, All-append, All-append_left, All-append_right,
}
use saito_rust_workspace.Bytes.{
  Bytes, AreBytes, IsArray, to_be_bytes, from_be_bytes, slice, index, bytes_eq, concat, zeros,
}
use saito_rust_workspace.Bytes.Endian.{
  length-to_be_bytes, to_be_bytes-AreBytes, from_be_bytes-to_be_bytes, to_be_bytes-from_be_bytes,
  from_be_bytes-lt,
}
use saito_rust_workspace.Bytes.Slices.{
  slice-append_skip, slice-append_self, slice-eq-ok, index-append_skip, bytes_eq_iff, bytes_eq_refl,
  slice_split, index_split, slice_in_range, drop-length, slice-IsArray, index-lt, index_in_range,
}
use saito_rust_workspace.Outcome.{
  Outcome, ok, err, panic, ◌>>=◌, ◌>>◌, check, assert, ok_or, unwrap, >>=-eq-ok, ErrorKind,
  invalid_input, invalid_data, not_found,
}
use saito_rust_workspace.Slip
use saito_rust_workspace.Slip.{Slip, slip_size}
use saito_rust_workspace.Hop
use saito_rust_workspace.Hop.{Hop, hop_size}
use saito_rust_workspace.Transaction.{
  TransactionType, normal, fee, golden_ticket, atr, vip, spv, issuance, block_stake, bound,
  Transaction, default,
}

abbrev pub transaction_size : ℕ
transaction_size = 93

-- `self.transaction_type as u8`
unfoldable pub to_u8 : TransactionType → ℕ
to_u8 normal = 0
to_u8 fee = 1
to_u8 golden_ticket = 2
to_u8 atr = 3
to_u8 vip = 4
to_u8 spv = 5
to_u8 issuance = 6
to_u8 block_stake = 7
to_u8 bound = 8

unfoldable pub from_u8 : ℕ → Option TransactionType
from_u8 b =
    if b == 0
    then some normal
    else if b == 1
    then some fee
    else if b == 2
    then some golden_ticket
    else if b == 3
    then some atr
    else if b == 4
    then some vip
    else if b == 5
    then some spv
    else if b == 6
    then some issuance
    else if b == 7
    then some block_stake
    else if b == 8
    then some bound
    else none

unfoldable pub serialize_slips : List Slip → Bytes
serialize_slips slips = concat (map Slip.serialize_for_net slips)

unfoldable pub serialize_hops : List Hop → Bytes
serialize_hops hops = concat (map Hop.serialize_for_net hops)

-- The header and the parts, with the number of hops that the header states.
unfoldable pub serialize_parts : Transaction → ℕ → Bytes
serialize_parts tx path_len = concat (
    to_be_bytes 4 (length tx.from % 2 ^ 32)
    ∷ to_be_bytes 4 (length tx.to % 2 ^ 32)
    ∷ to_be_bytes 4 (length tx.message % 2 ^ 32)
    ∷ to_be_bytes 4 (path_len % 2 ^ 32)
    ∷ tx.signature
    ∷ to_be_bytes 8 tx.timestamp
    ∷ to_be_bytes 4 tx.txs_replacements
    ∷ (to_u8 tx.transaction_type ∷ [])
    ∷ serialize_slips tx.from
    ∷ serialize_slips tx.to
    ∷ tx.message
    ∷ serialize_hops tx.path
    ∷ [])

-- Too many slips give an empty buffer.
unfoldable pub serialize_for_net_with_hop : Transaction → Option Hop → Bytes
serialize_for_net_with_hop tx opt_hop =
    if ltb 255 (length tx.from) then [] else if ltb 255 (length tx.to) then [] else elim opt_hop [
      | none ↦ serialize_parts tx (length tx.path)
      | some hop ↦ serialize_parts tx (length tx.path + 1) ++ Hop.serialize_for_net hop
    ]

unfoldable pub serialize_for_net : Transaction → Bytes
serialize_for_net tx = serialize_for_net_with_hop tx none

unfoldable pub get_serialized_size : Transaction → ℕ
get_serialized_size tx =
    transaction_size
    + slip_size * length tx.from
    + slip_size * length tx.to
    + hop_size * length tx.path
    + length tx.message

-- The loops over the inputs and the outputs: `count` slips from `start` on.
unfoldable pub read_slips : Bytes → ℕ → ℕ → Outcome (List Slip)
read_slips bytes start zero = ok []
read_slips bytes start (suc count) = do
  part ← slice bytes start (start + slip_size)
  slip ← Slip.deserialize_from_net part
  slips ← read_slips bytes (start + slip_size) count
  ok (slip ∷ slips)

-- The loop over the path.
unfoldable pub read_hops : Bytes → ℕ → ℕ → Outcome (List Hop)
read_hops bytes start zero = ok []
read_hops bytes start (suc count) = do
  part ← slice bytes start (start + hop_size)
  hop ← Hop.deserialize_from_net part
  hops ← read_hops bytes (start + hop_size) count
  ok (hop ∷ hops)

unfoldable pub deserialize_from_net : Bytes → Outcome Transaction
deserialize_from_net bytes = do
  check (not (ltb (length bytes) transaction_size)) invalid_data
  inputs ← slice bytes 0 4
  let inputs_len = from_be_bytes inputs
  check (not (ltb 255 inputs_len)) invalid_data
  outputs ← slice bytes 4 8
  let outputs_len = from_be_bytes outputs
  check (not (ltb 255 outputs_len)) invalid_data
  message_part ← slice bytes 8 12
  let message_len = from_be_bytes message_part
  path_part ← slice bytes 12 16
  let path_len = from_be_bytes path_part
  signature ← slice bytes 16 80
  timestamp ← slice bytes 80 88
  replaces_txs ← slice bytes 88 92
  type_byte ← index bytes 92
  transaction_type ← ok_or (from_u8 type_byte) invalid_data
  let start_of_outputs = transaction_size + inputs_len * slip_size
  let start_of_message = start_of_outputs + outputs_len * slip_size
  let start_of_path = start_of_message + message_len
  from ← read_slips bytes transaction_size inputs_len
  to ← read_slips bytes start_of_outputs outputs_len
  message ← slice bytes start_of_message (start_of_message + message_len)
  path ← read_hops bytes start_of_path path_len
  ok (record default {
    timestamp = from_be_bytes timestamp;
    from = from;
    to = to;
    message = message;
    txs_replacements = from_be_bytes replaces_txs;
    transaction_type = transaction_type;
    signature = signature;
    path = path;
  })
