-- ===== src/Message.antt =====
-- Bodies of messages between peers: saito-core/src/core/msg/block_request.rs and
-- saito-core/src/core/msg/api_message.rs.
mod Tests
pub mod Services
pub mod Ghost
pub mod Handshake
pub mod Envelope
pub mod Codec
use saito_rust_workspace.Prelude.{
  ℕ, zero, suc, ◌+◌, ◌-◌, ◌*◌, ◌/◌, ◌%◌, ◌^◌, ◌≤◌, ◌<◌, min, max, ◌≡◌, ◌≢◌, ◌↔◌, ◌⊎◌, refl, sym, ap,
  ap₂, ◌∙◌, fun_ext, Bool, true, false, not, ◌&&◌, ◌||◌, Option, none, some, inl, inr, List, [],
  ◌∷◌, ◌++◌, map, reverse, append-nil, append_assoc, arith, dec_lt, ℕ_discrete, ltb, leb, ◌==◌,
  if◌then◌else◌, ltb→lt, lt→ltb, leb→le, ==_iff, tests, Bool-cases, Option-cases, length, get_elem?,
  set, get_or, take, drop, replicate, length-append, length-set, length-take, length-drop,
  length-map, take-append-drop, All, any, keep_if, All-append, All-append_left, All-append_right,
  get_elem?_in_range, lt_of_get_elem?, get_elem?-append_end, All-set, All-get, any-append_end,
  get_elem?-set_self, get_elem?-set_ne,
}
use saito_rust_workspace.Bytes.{
  Bytes, AreBytes, IsArray, to_be_bytes, from_be_bytes, slice, index, bytes_eq, concat, zeros,
}
use saito_rust_workspace.Bytes.Endian.{
  length-to_be_bytes, to_be_bytes-AreBytes, from_be_bytes-to_be_bytes, to_be_bytes-from_be_bytes,
  from_be_bytes-lt,
}
use saito_rust_workspace.Bytes.Slices.{
  slice-append_skip, slice-append_self, slice-eq-ok, index-append_skip, bytes_eq_iff, bytes_eq_refl,
  slice_split, index_split, slice_in_range, drop-length, slice-IsArray, index-lt, index_in_range,
}
use saito_rust_workspace.Outcome.{
  Outcome, ok, err, panic, ◌>>=◌, ◌>>◌, check, assert, ok_or, unwrap, >>=-eq-ok, ErrorKind,
  invalid_input, invalid_data, not_found,
}

pub record BlockchainRequest : Type 0 where
  pub latest_block_id : ℕ
  pub latest_block_hash : Bytes
  pub fork_id : Bytes

unfoldable pub serialize_request : BlockchainRequest → Bytes
serialize_request r =
    concat (to_be_bytes 8 r.latest_block_id ∷ r.latest_block_hash ∷ r.fork_id ∷ [])

unfoldable pub deserialize_request : Bytes → Outcome BlockchainRequest
deserialize_request buffer = do
  check (length buffer == 72) invalid_data
  id_bytes ← slice buffer 0 8
  latest_block_hash ← slice buffer 8 40
  fork_id ← slice buffer 40 72
  ok (record {
    latest_block_id = from_be_bytes id_bytes;
    latest_block_hash = latest_block_hash;
    fork_id = fork_id;
  })

-- the field `data` is called `content` here
pub record ApiMessage : Type 0 where
  pub msg_index : ℕ
  pub content : Bytes

unfoldable pub serialize_api : ApiMessage → Bytes
serialize_api m = concat (to_be_bytes 4 m.msg_index ∷ m.content ∷ [])

-- `buffer[4..]` is the slice up to the end.
unfoldable pub deserialize_api : Bytes → Outcome ApiMessage
deserialize_api buffer = do
  index_bytes ← slice buffer 0 4
  content ← slice buffer 4 (length buffer)
  ok (record { msg_index = from_be_bytes index_bytes; content = content })
