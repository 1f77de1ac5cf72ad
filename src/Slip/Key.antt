-- ===== src/Slip/Key.antt =====
-- The key of a slip in the UTXO set: `get_utxoset_key` and `parse_slip_from_utxokey` of
-- saito-core/src/core/consensus/slip.rs.
use saito_rust_workspace.Prelude.{
  ℕ, suc, ◌≡◌, refl, ap, some, List, [], ◌∷◌, append-nil, arith, length, get_elem?,
}
use saito_rust_workspace.Bytes.{Bytes, to_be_bytes, slice, index, concat}
use saito_rust_workspace.Bytes.Endian.{length-to_be_bytes, from_be_bytes-to_be_bytes}
use saito_rust_workspace.Outcome.{ok}
use saito_rust_workspace.Bytes.Layout.{Sized, offset, length-concat, slice_part, index_part}
use saito_rust_workspace.Slip.{
  Slip, IsWellSized, to_u8, get_utxoset_key, parse_slip_from_utxokey, generate_utxoset_key,
  utxo_key_length,
}
use saito_rust_workspace.Slip.Codec.{from_u8-to_u8}

abbrev layout : List ℕ
layout = 33 ∷ 8 ∷ 8 ∷ 1 ∷ 8 ∷ 1 ∷ []

abbrev parts : Slip → List Bytes
parts s =
    s.public_key
    ∷ to_be_bytes 8 s.block_id
    ∷ to_be_bytes 8 s.tx_ordinal
    ∷ (s.slip_index ∷ [])
    ∷ to_be_bytes 8 s.amount
    ∷ (to_u8 s.slip_type ∷ [])
    ∷ []

parts-Sized : (s : Slip) → length s.public_key ≡ 33 → Sized layout (parts s)
parts-Sized s h = omega (arith, length-to_be_bytes)

-- The key fills its array.
pub length-get_utxoset_key :
    (s : Slip) → length s.public_key ≡ 33 → length (get_utxoset_key s) ≡ utxo_key_length
unfolding get_utxoset_key
length-get_utxoset_key s h = length-concat layout (parts s) (parts-Sized s h)

-- The key of a slip in range parses to that slip, its key set: the key holds the whole slip.
pub parse_slip_from_utxokey-get_utxoset_key :
    (s : Slip)
    → IsWellSized s
    → parse_slip_from_utxokey (get_utxoset_key s) ≡ ok (generate_utxoset_key s)
unfolding parse_slip_from_utxokey get_utxoset_key generate_utxoset_key
parse_slip_from_utxokey-get_utxoset_key s w = rw (
  part 0 refl,
  part 1 refl,
  part 2 refl,
  byte 3 refl,
  part 4 refl,
  byte 5 refl,
  from_u8-to_u8,
  from_be_bytes-to_be_bytes 8 s.amount w.amount_fits,
  from_be_bytes-to_be_bytes 8 s.block_id w.block_id_fits,
  from_be_bytes-to_be_bytes 8 s.tx_ordinal w.tx_ordinal_fits,
)
  where
    z : Sized layout (parts s)
    z = parts-Sized s w.public_key_size.0

    part :
        (i : ℕ) {p : Bytes}
        → get_elem? (parts s) i ≡ some p
        → slice (concat (parts s)) (offset layout i) (offset layout (suc i)) ≡ ok p
    part i h = rw append-nil at (slice_part layout (parts s) z [] i h)

    byte :
        (i : ℕ) {v : ℕ}
        → get_elem? (parts s) i ≡ some (v ∷ [])
        → index (concat (parts s)) (offset layout i) ≡ ok v
    byte i h = rw append-nil at (index_part layout (parts s) z [] i h)

-- Two slips in range with one key agree in every field but the cached key.
pub get_utxoset_key_injective :
    (s t : Slip)
    → IsWellSized s
    → IsWellSized t
    → get_utxoset_key s ≡ get_utxoset_key t
    → generate_utxoset_key s ≡ generate_utxoset_key t
get_utxoset_key_injective s t v w e = cc (
  parse_slip_from_utxokey-get_utxoset_key s v,
  parse_slip_from_utxokey-get_utxoset_key t w,
  ap parse_slip_from_utxokey e,
)
