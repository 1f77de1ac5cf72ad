-- ===== src/Transaction.antt =====
-- saito-core/src/core/consensus/transaction.rs: the transaction and its simple operations. The
-- field that the source calls `data` is `message` here.
pub mod Wire
pub mod Fees
pub mod Work
pub mod Generate
pub mod Tests
pub mod Winner
pub mod Reorg
use saito_rust_workspace.Prelude.{
  ℕ, zero, suc, ◌+◌, ◌-◌, ◌*◌, ◌/◌, ◌%◌, ◌^◌, ◌≤◌, ◌<◌, min, max, ◌≡◌, ◌≢◌, ◌↔◌, ◌⊎◌, refl, sym, ap,
  ap₂, ◌∙◌, fun_ext, Bool, true, false, not, ◌&&◌, ◌||◌, Option, none, some, inl, inr, List, [],
  ◌∷◌, ◌++◌, map, reverse, append-nil, append_assoc, arith, dec_lt, ℕ_discrete, ltb, leb, ◌==◌,
  if◌then◌else◌, ltb→lt, lt→ltb, leb→le, ==_iff, tests, Bool-cases, Option-cases, length, get_elem?,
  set, get_or, take, drop, replicate, length-append, length-set, length-take, length-drop,
  length-map, take-append-drop, All, any, keep_if, All-append, All-append_left, All-append_right,
}
use saito_rust_workspace.Bytes.{
  Bytes, AreBytes, IsArray, to_be_bytes, from_be_bytes, slice, index, bytes_eq, concat, zeros,
}
use saito_rust_workspace.Bytes.Endian.{
  length-to_be_bytes, to_be_bytes-AreBytes, from_be_bytes-to_be_bytes, to_be_bytes-from_be_bytes,
  from_be_bytes-lt,
}
use saito_rust_workspace.Bytes.Slices.{
  slice-append_skip, slice-append_self, slice-eq-ok, index-append_skip, bytes_eq_iff, bytes_eq_refl,
  slice_split, index_split, slice_in_range, drop-length, slice-IsArray, index-lt, index_in_range,
}
use saito_rust_workspace.Outcome.{
  Outcome, ok, err, panic, ◌>>=◌, ◌>>◌, check, assert, ok_or, unwrap, >>=-eq-ok, ErrorKind,
  invalid_input, invalid_data, not_found,
}
use saito_rust_workspace.Slip
use saito_rust_workspace.Slip.{Slip}
use saito_rust_workspace.Hop
use saito_rust_workspace.Hop.{Hop}

pub data TransactionType : Type 0 where
  normal fee golden_ticket atr vip spv issuance block_stake bound : TransactionType

pub record Transaction : Type 0 where
  pub timestamp : ℕ
  pub from : List Slip
  pub to : List Slip
  pub message : Bytes
  pub transaction_type : TransactionType
  pub txs_replacements : ℕ
  pub signature : Bytes
  pub path : List Hop
  pub hash_for_signature : Option Bytes
  pub total_in : ℕ
  pub total_out : ℕ
  pub total_fees : ℕ
  pub total_work_for_me : ℕ
  pub cumulative_fees : ℕ

unfoldable pub default : Transaction
default = record {
  timestamp = 0;
  from = [];
  to = [];
  message = [];
  transaction_type = normal;
  txs_replacements = 1;
  signature = zeros 64;
  path = [];
  hash_for_signature = none;
  total_in = 0;
  total_out = 0;
  total_fees = 0;
  total_work_for_me = 0;
  cumulative_fees = 0;
}

-- A slip past the 255th is dropped with a warning.
unfoldable pub add_from_slip : Transaction → Slip → Transaction
add_from_slip tx input_slip =
    if ltb (length tx.from) 255 then record tx { from = tx.from ++ input_slip ∷ [] } else tx

unfoldable pub add_to_slip : Transaction → Slip → Transaction
add_to_slip tx output_slip =
    if ltb (length tx.to) 255 then record tx { to = tx.to ++ output_slip ∷ [] } else tx

-- `assert_ne!` makes a hop to oneself a panic.
unfoldable pub add_hop :
    (sign : Bytes → Bytes → Bytes) → Transaction → Bytes → Bytes → Bytes → Outcome Transaction
add_hop sign tx my_private_key my_public_key to_public_key = do
  assert (not (bytes_eq my_public_key to_public_key))
  let hop = Hop.generate sign my_private_key my_public_key to_public_key tx.signature
  ok (record tx { path = tx.path ++ hop ∷ [] })
