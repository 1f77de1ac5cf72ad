-- ===== src/Slip/Codec.antt =====
-- The wire format of a slip: `serialize_for_net` and `deserialize_from_net` of
-- saito-core/src/core/consensus/slip.rs.
use saito_rust_workspace.Prelude.{
  ℕ, suc, ◌≡◌, refl, some, List, [], ◌∷◌, append-nil, arith, length, get_elem?,
}
use saito_rust_workspace.Bytes.{Bytes, to_be_bytes, slice, index, concat}
use saito_rust_workspace.Bytes.Endian.{length-to_be_bytes, from_be_bytes-to_be_bytes}
use saito_rust_workspace.Outcome.{ok}
use saito_rust_workspace.Bytes.Layout.{Sized, offset, length-concat, slice_part, index_part}
use saito_rust_workspace.Slip.{
  SlipType, normal, to_u8, from_u8, Slip, IsWellSized, serialize_for_net, deserialize_from_net,
  default, slip_size,
}

pub from_u8-to_u8 : (t : SlipType) → from_u8 (to_u8 t) ≡ some t
unfolding from_u8 to_u8
from_u8-to_u8 normal = refl
from_u8-to_u8 _ = refl

pub to_u8-from_u8 : (b : ℕ) {t : SlipType} → from_u8 b ≡ some t → to_u8 t ≡ b
unfolding from_u8 to_u8
to_u8-from_u8 b h = ground arith

-- what `deserialize_from_net` keeps of a slip: neither the cached key nor its flag travels
abbrev pub without_key : Slip → Slip
without_key s = record s {
  utxoset_key = default.utxoset_key;
  is_utxoset_key_set = default.is_utxoset_key_set;
}

abbrev layout : List ℕ
layout = 33 ∷ 8 ∷ 8 ∷ 8 ∷ 1 ∷ 1 ∷ []

abbrev parts : Slip → List Bytes
parts s =
    s.public_key
    ∷ to_be_bytes 8 s.amount
    ∷ to_be_bytes 8 s.block_id
    ∷ to_be_bytes 8 s.tx_ordinal
    ∷ (s.slip_index ∷ [])
    ∷ (to_u8 s.slip_type ∷ [])
    ∷ []

parts-Sized : (s : Slip) → length s.public_key ≡ 33 → Sized layout (parts s)
parts-Sized s h = omega (arith, length-to_be_bytes)

pub length-serialize_for_net :
    (s : Slip) → length s.public_key ≡ 33 → length (serialize_for_net s) ≡ slip_size
unfolding serialize_for_net
length-serialize_for_net s h = length-concat layout (parts s) (parts-Sized s h)

-- A slip whose fields are in the range of their Rust types is read back from its bytes, but for
-- the cached key.
pub deserialize_from_net-serialize_for_net :
    (s : Slip) → IsWellSized s → deserialize_from_net (serialize_for_net s) ≡ ok (without_key s)
unfolding deserialize_from_net serialize_for_net
deserialize_from_net-serialize_for_net s w = rw (
  length-concat layout (parts s) z,
  part 0 refl,
  part 1 refl,
  part 2 refl,
  part 3 refl,
  byte 4 refl,
  byte 5 refl,
  from_u8-to_u8,
  from_be_bytes-to_be_bytes 8 s.amount w.amount_fits,
  from_be_bytes-to_be_bytes 8 s.block_id w.block_id_fits,
  from_be_bytes-to_be_bytes 8 s.tx_ordinal w.tx_ordinal_fits,
)
  where
    z : Sized layout (parts s)
    z = parts-Sized s w.public_key_size.0

    part :
        (i : ℕ) {p : Bytes}
        → get_elem? (parts s) i ≡ some p
        → slice (concat (parts s)) (offset layout i) (offset layout (suc i)) ≡ ok p
    part i h = rw append-nil at (slice_part layout (parts s) z [] i h)

    byte :
        (i : ℕ) {v : ℕ}
        → get_elem? (parts s) i ≡ some (v ∷ [])
        → index (concat (parts s)) (offset layout i) ≡ ok v
    byte i h = rw append-nil at (index_part layout (parts s) z [] i h)
