-- ===== src/Slip.antt =====
-- saito-core/src/core/consensus/slip.rs: a slip (an unspent or spent output), its wire format, its
-- key in the UTXO set, and its effect on that set when the chain is reorganised.
pub mod Codec
pub mod Key
pub mod Reader
pub mod Utxo
mod Tests
use saito_rust_workspace.Prelude.{
  ℕ, zero, suc, ◌+◌, ◌-◌, ◌*◌, ◌/◌, ◌%◌, ◌^◌, ◌≤◌, ◌<◌, min, max, ◌≡◌, ◌≢◌, ◌↔◌, ◌⊎◌, refl, sym, ap,
  ap₂, ◌∙◌, fun_ext, Bool, true, false, not, ◌&&◌, ◌||◌, Option, none, some, inl, inr, List, [],
  ◌∷◌, ◌++◌, map, reverse, append-nil, append_assoc, arith, dec_lt, ltb, leb, ◌==◌, if◌then◌else◌,
  ltb→lt, lt→ltb, leb→le, ==_iff, tests, Bool-cases, Option-cases, length, get_elem?, set, get_or,
  take, drop, replicate, length-append, length-set, length-take, length-drop, length-map,
  take-append-drop, All, any, keep_if, All-append, All-append_left, All-append_right,
}
use saito_rust_workspace.Bytes.{
  Bytes, AreBytes, IsArray, to_be_bytes, from_be_bytes, slice, index, bytes_eq, concat, zeros,
}
use saito_rust_workspace.Bytes.Endian.{
  length-to_be_bytes, to_be_bytes-AreBytes, from_be_bytes-to_be_bytes, to_be_bytes-from_be_bytes,
  from_be_bytes-lt,
}
use saito_rust_workspace.Bytes.Slices.{
  slice-append_skip, slice-append_self, slice-eq-ok, index-append_skip, bytes_eq_iff, bytes_eq_refl,
  slice_split, index_split, slice_in_range, drop-length, slice-IsArray, index-lt, index_in_range,
}
use saito_rust_workspace.Outcome.{
  Outcome, ok, err, panic, ◌>>=◌, ◌>>◌, check, assert, ok_or, unwrap, >>=-eq-ok, ErrorKind,
  invalid_input, invalid_data, not_found,
}
use saito_rust_workspace.Eq.{bytes_key}
use saito_rust_workspace.HashMap.{HashMap, get, insert, remove}

pub data SlipType : Type 0 where
  normal atr vip_input vip_output miner_input miner_output : SlipType
  router_input router_output block_stake bound : SlipType

-- the discriminants that `ToPrimitive` and `FromPrimitive` derive
unfoldable pub to_u8 : SlipType → ℕ
to_u8 normal = 0
to_u8 atr = 1
to_u8 vip_input = 2
to_u8 vip_output = 3
to_u8 miner_input = 4
to_u8 miner_output = 5
to_u8 router_input = 6
to_u8 router_output = 7
to_u8 block_stake = 8
to_u8 bound = 9

unfoldable pub from_u8 : ℕ → Option SlipType
from_u8 b =
    if b == 0
    then some normal
    else if b == 1
    then some atr
    else if b == 2
    then some vip_input
    else if b == 3
    then some vip_output
    else if b == 4
    then some miner_input
    else if b == 5
    then some miner_output
    else if b == 6
    then some router_input
    else if b == 7
    then some router_output
    else if b == 8
    then some block_stake
    else if b == 9
    then some bound
    else none

abbrev pub slip_size : ℕ
slip_size = 59

abbrev pub utxo_key_length : ℕ
utxo_key_length = 59

pub record Slip : Type 0 where
  pub public_key : Bytes
  pub amount : ℕ
  pub slip_index : ℕ
  pub block_id : ℕ
  pub tx_ordinal : ℕ
  pub slip_type : SlipType
  pub utxoset_key : Bytes
  pub is_utxoset_key_set : Bool

-- `Slip::default()`
unfoldable pub default : Slip
default = record {
  public_key = zeros 33;
  amount = 0;
  slip_index = 0;
  block_id = 0;
  tx_ordinal = 0;
  slip_type = normal;
  utxoset_key = zeros utxo_key_length;
  is_utxoset_key_set = false;
}

-- The ranges of the Rust field types.
pub record IsWellSized (s : Slip) : Type 0 where
  pub public_key_size : IsArray 33 s.public_key
  pub amount_fits : s.amount < 2 ^ 64
  pub slip_index_fits : s.slip_index < 256
  pub block_id_fits : s.block_id < 2 ^ 64
  pub tx_ordinal_fits : s.tx_ordinal < 2 ^ 64

unfoldable pub serialize_for_net : Slip → Bytes
serialize_for_net s = concat (
    s.public_key
    ∷ to_be_bytes 8 s.amount
    ∷ to_be_bytes 8 s.block_id
    ∷ to_be_bytes 8 s.tx_ordinal
    ∷ (s.slip_index ∷ [])
    ∷ (to_u8 s.slip_type ∷ [])
    ∷ [])

unfoldable pub deserialize_from_net : Bytes → Outcome Slip
deserialize_from_net bytes = do
  check (length bytes == slip_size) invalid_input
  public_key ← slice bytes 0 33
  amount ← slice bytes 33 41
  block_id ← slice bytes 41 49
  tx_ordinal ← slice bytes 49 57
  slip_index ← index bytes 57
  type_byte ← index bytes 58
  slip_type ← ok_or (from_u8 type_byte) invalid_data
  ok (record default {
    public_key = public_key;
    amount = from_be_bytes amount;
    block_id = from_be_bytes block_id;
    tx_ordinal = from_be_bytes tx_ordinal;
    slip_index = slip_index;
    slip_type = slip_type;
  })

unfoldable pub get_utxoset_key : Slip → Bytes
get_utxoset_key s = concat (
    s.public_key
    ∷ to_be_bytes 8 s.block_id
    ∷ to_be_bytes 8 s.tx_ordinal
    ∷ (s.slip_index ∷ [])
    ∷ to_be_bytes 8 s.amount
    ∷ (to_u8 s.slip_type ∷ [])
    ∷ [])

unfoldable pub generate_utxoset_key : Slip → Slip
generate_utxoset_key s = record s { utxoset_key = get_utxoset_key s; is_utxoset_key_set = true }

unfoldable pub parse_slip_from_utxokey : Bytes → Outcome Slip
parse_slip_from_utxokey key = do
  public_key ← slice key 0 33
  block_id ← slice key 33 41
  tx_ordinal ← slice key 41 49
  slip_index ← index key 49
  amount ← slice key 50 58
  type_byte ← index key 58
  slip_type ← ok_or (from_u8 type_byte) invalid_data
  ok (record {
    public_key = public_key;
    block_id = from_be_bytes block_id;
    tx_ordinal = from_be_bytes tx_ordinal;
    slip_index = slip_index;
    amount = from_be_bytes amount;
    slip_type = slip_type;
    utxoset_key = key;
    is_utxoset_key_set = true;
  })

unfoldable pub serialize_input_for_signature : Slip → Bytes
serialize_input_for_signature s =
    concat
      (s.public_key ∷ to_be_bytes 8 s.amount ∷ (s.slip_index ∷ []) ∷ (to_u8 s.slip_type ∷ []) ∷ [])

unfoldable pub serialize_output_for_signature : Slip → Bytes
serialize_output_for_signature s =
    concat
      (s.public_key ∷ to_be_bytes 8 s.amount ∷ (s.slip_index ∷ []) ∷ (to_u8 s.slip_type ∷ []) ∷ [])

-- `AHashMap<SaitoUTXOSetKey, bool>`
abbrev pub UtxoSet : Type 0
UtxoSet = HashMap Bytes Bool

-- The set after the call, and whether the slip was deleted.
unfoldable pub delete : Slip → UtxoSet → UtxoSet × Bool
delete s utxoset =
    if bytes_eq (get_utxoset_key s) (zeros utxo_key_length)
    then (utxoset, false)
    else (remove (get_utxoset_key s) utxoset, true)

unfoldable pub on_chain_reorganization : Slip → UtxoSet → Bool → UtxoSet
on_chain_reorganization s utxoset spendable =
    if ltb 0 s.amount
    then if spendable then insert s.utxoset_key spendable utxoset else remove s.utxoset_key utxoset
    else utxoset

unfoldable pub validate : Slip → UtxoSet → Bool
validate s utxoset =
    if ltb 0 s.amount
    then elim (get s.utxoset_key utxoset) [ some value ↦ value | none ↦ false ]
    else true
