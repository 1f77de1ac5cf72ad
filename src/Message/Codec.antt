-- ===== src/Message/Codec.antt =====
-- Messages are read back: saito-core/src/core/msg/block_request.rs and
-- saito-core/src/core/msg/api_message.rs.
use saito_rust_workspace.Prelude.{
  ℕ, suc, ◌^◌, ◌<◌, ◌≡◌, refl, some, List, [], ◌∷◌, append-nil, arith, length, get_elem?,
}
use saito_rust_workspace.Bytes.{Bytes, to_be_bytes, slice, concat}
use saito_rust_workspace.Bytes.Endian.{length-to_be_bytes, from_be_bytes-to_be_bytes}
use saito_rust_workspace.Outcome.{ok}
use saito_rust_workspace.Bytes.Layout.{Sized, offset, length-concat, slice_part}
use saito_rust_workspace.Message.{
  BlockchainRequest, ApiMessage, serialize_request, deserialize_request, serialize_api,
  deserialize_api,
}

abbrev layout : List ℕ
layout = 8 ∷ 32 ∷ 32 ∷ []

abbrev parts : BlockchainRequest → List Bytes
parts r = to_be_bytes 8 r.latest_block_id ∷ r.latest_block_hash ∷ r.fork_id ∷ []

-- A request with a `u64` id and hashes of 32 bytes is read back from its bytes.
pub deserialize_request-serialize_request :
    (r : BlockchainRequest)
    → r.latest_block_id < 2 ^ 64
    → length r.latest_block_hash ≡ 32
    → length r.fork_id ≡ 32
    → deserialize_request (serialize_request r) ≡ ok r
unfolding deserialize_request serialize_request
deserialize_request-serialize_request r a b c = rw (
  length-concat layout (parts r) z,
  part 0 refl,
  part 1 refl,
  part 2 refl,
  from_be_bytes-to_be_bytes 8 r.latest_block_id a,
)
  where
    z : Sized layout (parts r)
    z = omega (arith, length-to_be_bytes 8 r.latest_block_id)

    part :
        (i : ℕ) {p : Bytes}
        → get_elem? (parts r) i ≡ some p
        → slice (concat (parts r)) (offset layout i) (offset layout (suc i)) ≡ ok p
    part i e = rw append-nil at (slice_part layout (parts r) z [] i e)

-- An API message with a `u32` index is read back from its bytes.
pub deserialize_api-serialize_api :
    (m : ApiMessage) → m.msg_index < 2 ^ 32 → deserialize_api (serialize_api m) ≡ ok m
unfolding deserialize_api serialize_api
deserialize_api-serialize_api m a = rw (
  part 0 refl,
  length-concat (4 ∷ length m.content ∷ []) _ z,
  part 1 refl,
  from_be_bytes-to_be_bytes 4 m.msg_index a,
)
  where
    z : Sized (4 ∷ length m.content ∷ []) (to_be_bytes 4 m.msg_index ∷ m.content ∷ [])
    z = omega (arith, length-to_be_bytes 4 m.msg_index)

    part :
        (i : ℕ) {p : Bytes}
        → get_elem? (to_be_bytes 4 m.msg_index ∷ m.content ∷ []) i ≡ some p
        → slice
            (concat (to_be_bytes 4 m.msg_index ∷ m.content ∷ []))
            (offset (4 ∷ length m.content ∷ []) i)
            (offset (4 ∷ length m.content ∷ []) (suc i))
          ≡ ok p
    part i e = rw append-nil at (
        slice_part (4 ∷ length m.content ∷ []) (to_be_bytes 4 m.msg_index ∷ m.content ∷ []) z [] i
          e)
