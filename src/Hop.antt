-- ===== src/Hop.antt =====
-- saito-core/src/core/consensus/hop.rs: one hop of a transaction's routing path, and its wire
-- format. The signature scheme is not part of the repository: `sign` is a parameter.
pub mod Codec
use saito_rust_workspace.Prelude.{
  ℕ, zero, suc, ◌+◌, ◌-◌, ◌*◌, ◌/◌, ◌%◌, ◌^◌, ◌≤◌, ◌<◌, min, max, ◌≡◌, ◌≢◌, ◌↔◌, ◌⊎◌, refl, sym, ap,
  ap₂, ◌∙◌, fun_ext, Bool, true, false, not, ◌&&◌, ◌||◌, Option, none, some, inl, inr, List, [],
  ◌∷◌, ◌++◌, map, reverse, append-nil, append_assoc, arith, dec_lt, ℕ_discrete, ltb, leb, ◌==◌,
  if◌then◌else◌, ltb→lt, lt→ltb, leb→le, ==_iff, tests, Bool-cases, Option-cases, length, get_elem?,
  set, get_or, take, drop, replicate, length-append, length-set, length-take, length-drop,
  length-map, take-append-drop, All, any, keep_if, All-append, All-append_left, All-append_right,
}
use saito_rust_workspace.Bytes.{
  Bytes, AreBytes, IsArray, to_be_bytes, from_be_bytes, slice, index, bytes_eq, concat, zeros,
}
use saito_rust_workspace.Bytes.Endian.{
  length-to_be_bytes, to_be_bytes-AreBytes, from_be_bytes-to_be_bytes, to_be_bytes-from_be_bytes,
  from_be_bytes-lt,
}
use saito_rust_workspace.Bytes.Slices.{
  slice-append_skip, slice-append_self, slice-eq-ok, index-append_skip, bytes_eq_iff, bytes_eq_refl,
  slice_split, index_split, slice_in_range, drop-length, slice-IsArray, index-lt, index_in_range,
}
use saito_rust_workspace.Outcome.{
  Outcome, ok, err, panic, ◌>>=◌, ◌>>◌, check, assert, ok_or, unwrap, >>=-eq-ok, ErrorKind,
  invalid_input, invalid_data, not_found,
}

abbrev pub hop_size : ℕ
hop_size = 130

pub record Hop : Type 0 where
  pub from : Bytes
  pub to : Bytes
  pub sig : Bytes

unfoldable pub default : Hop
default = record { from = zeros 33; to = zeros 33; sig = zeros 64 }

-- The sizes of the Rust arrays.
pub record IsWellSized (h : Hop) : Type 0 where
  pub from_size : IsArray 33 h.from
  pub to_size : IsArray 33 h.to
  pub sig_size : IsArray 64 h.sig

-- Of the transaction only the signature is used.
unfoldable pub generate : (sign : Bytes → Bytes → Bytes) → Bytes → Bytes → Bytes → Bytes → Hop
generate sign my_private_key my_public_key to_public_key tx_signature = record {
  from = my_public_key;
  to = to_public_key;
  sig = sign (concat (tx_signature ∷ to_public_key ∷ [])) my_private_key;
}

unfoldable pub deserialize_from_net : Bytes → Outcome Hop
deserialize_from_net bytes = do
  check (length bytes == hop_size) invalid_input
  from ← slice bytes 0 33
  to ← slice bytes 33 66
  sig ← slice bytes 66 130
  ok (record { from = from; to = to; sig = sig })

unfoldable pub serialize_for_net : Hop → Bytes
serialize_for_net h = concat (h.from ∷ h.to ∷ h.sig ∷ [])
