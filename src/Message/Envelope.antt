-- ===== src/Message/Envelope.antt =====
-- saito-core/src/core/msg/message.rs: the messages of the network, a byte for the kind and a body.
pub mod RoundTrip
use saito_rust_workspace.Prelude.{
  ℕ, zero, suc, ◌+◌, ◌-◌, ◌*◌, ◌/◌, ◌%◌, ◌^◌, ◌≤◌, ◌<◌, min, max, ◌≡◌, ◌≢◌, ◌↔◌, ◌⊎◌, refl, sym, ap,
  ap₂, ◌∙◌, fun_ext, Bool, true, false, not, ◌&&◌, ◌||◌, Option, none, some, inl, inr, List, [],
  ◌∷◌, ◌++◌, map, reverse, append-nil, append_assoc, arith, dec_lt, ℕ_discrete, ltb, leb, ◌==◌,
  if◌then◌else◌, ltb→lt, lt→ltb, leb→le, ==_iff, tests, Bool-cases, Option-cases, length, get_elem?,
  set, get_or, take, drop, replicate, length-append, length-set, length-take, length-drop,
  length-map, take-append-drop, All, any, keep_if, All-append, All-append_left, All-append_right,
  get_elem?_in_range, lt_of_get_elem?, get_elem?-append_end, All-set, All-get, any-append_end,
  get_elem?-set_self, get_elem?-set_ne, length-replicate, length-reverse,
}
use saito_rust_workspace.Bytes.{
  Bytes, AreBytes, IsArray, to_be_bytes, from_be_bytes, slice, index, bytes_eq, concat, zeros,
}
use saito_rust_workspace.Bytes.Endian.{
  length-to_be_bytes, to_be_bytes-AreBytes, from_be_bytes-to_be_bytes, to_be_bytes-from_be_bytes,
  from_be_bytes-lt,
}
use saito_rust_workspace.Bytes.Slices.{
  slice-append_skip, slice-append_self, slice-eq-ok, index-append_skip, bytes_eq_iff, bytes_eq_refl,
  slice_split, index_split, slice_in_range, drop-length, slice-IsArray, index-lt, zeros-IsArray,
  index_in_range,
}
use saito_rust_workspace.Outcome.{
  Outcome, ok, err, panic, ◌>>=◌, ◌>>◌, check, assert, ok_or, unwrap, >>=-eq-ok, ErrorKind,
  invalid_input, invalid_data, not_found,
}
use saito_rust_workspace.Block.{Block, full}
use saito_rust_workspace.Block.Wire as BlockWire
use saito_rust_workspace.Transaction.{Transaction}
use saito_rust_workspace.Transaction.Wire as TxWire
use saito_rust_workspace.Message.{
  BlockchainRequest, ApiMessage, serialize_request, deserialize_request, serialize_api,
  deserialize_api,
}
use saito_rust_workspace.Message.Services.{PeerService, serialize_services, deserialize_services}
use saito_rust_workspace.Message.Ghost.{
  GhostChainSync, serialize_ghost, deserialize_ghost, read_parts,
}
use saito_rust_workspace.Message.Handshake.{
  HandshakeResponse, deserialize_challenge, serialize_response, deserialize_response,
}

pub data Message : Type 0 where
  handshake_challenge : Bytes → Message
  handshake_response : HandshakeResponse → Message
  block : Block → Message
  transaction : Transaction → Message
  blockchain_request : BlockchainRequest → Message
  block_header_hash : Bytes → ℕ → Message
  ping spv_chain : Message
  services : List PeerService → Message
  ghost_chain : GhostChainSync → Message
  ghost_chain_request : ℕ → Bytes → Bytes → Message
  application_message result error : ApiMessage → Message
  key_list_update : List Bytes → Message

unfoldable pub get_type_value : Message → ℕ
get_type_value (handshake_challenge _) = 1
get_type_value (handshake_response _) = 2
get_type_value (block _) = 3
get_type_value (transaction _) = 4
get_type_value (blockchain_request _) = 5
get_type_value (block_header_hash _ _) = 6
get_type_value ping = 7
get_type_value spv_chain = 8
get_type_value (services _) = 9
get_type_value (ghost_chain _) = 10
get_type_value (ghost_chain_request _ _ _) = 11
get_type_value (application_message _) = 12
get_type_value (result _) = 13
get_type_value (error _) = 14
get_type_value (key_list_update _) = 15

-- the body; an SPV chain has none
unfoldable pub serialize_body : Message → Bytes
serialize_body (handshake_challenge challenge) = concat (challenge ∷ [])
serialize_body (handshake_response response) = serialize_response response
serialize_body (block b) = BlockWire.serialize_for_net b full
serialize_body (transaction tx) = TxWire.serialize_for_net tx
serialize_body (blockchain_request request) = serialize_request request
serialize_body (block_header_hash block_hash block_id) =
    concat (block_hash ∷ to_be_bytes 8 block_id ∷ [])
serialize_body ping = []
serialize_body spv_chain = []
serialize_body (services list) = serialize_services list
serialize_body (ghost_chain chain) = serialize_ghost chain
serialize_body (ghost_chain_request block_id block_hash fork_id) =
    concat (to_be_bytes 8 block_id ∷ block_hash ∷ fork_id ∷ [])
serialize_body (application_message m) = serialize_api m
serialize_body (result m) = serialize_api m
serialize_body (error m) = serialize_api m
serialize_body (key_list_update keys) = concat keys

unfoldable pub serialize : Message → Bytes
unfolding get_type_value serialize_body
serialize m = get_type_value m ∷ serialize_body m

-- a body of at least 4 bytes
unfoldable pub read_api : (ApiMessage → Message) → Bytes → Outcome Message
read_api kind buffer = do
  check (not (ltb (length buffer) 4)) invalid_data
  m ← deserialize_api buffer
  ok (kind m)

unfoldable pub read_header_hash : Bytes → Outcome Message
read_header_hash buffer = do
  check (length buffer == 40) invalid_data
  block_hash ← slice buffer 0 32
  block_id ← slice buffer 32 40
  ok (block_header_hash block_hash (from_be_bytes block_id))

unfoldable pub read_ghost_request : Bytes → Outcome Message
read_ghost_request buffer = do
  check (length buffer == 72) invalid_data
  block_id ← slice buffer 0 8
  block_hash ← slice buffer 8 40
  fork_id ← slice buffer 40 72
  ok (ghost_chain_request (from_be_bytes block_id) block_hash fork_id)

unfoldable pub read_services_body : (Bytes → Bool) → Bytes → Outcome Message
read_services_body is_utf8 buffer = elim (deserialize_services is_utf8 buffer) [
  | ok list ↦ ok (services list)
  | err e ↦ err invalid_data
  | panic ↦ panic
]

unfoldable pub read_key_list : Bytes → Outcome Message
unfolding read_parts
read_key_list buffer = do
  check (length buffer % 33 == 0) invalid_data
  keys ← read_parts buffer 33 0 (length buffer / 33)
  ok (key_list_update keys)

unfoldable pub deserialize_body : (Bytes → Bool) → ℕ → Bytes → Outcome Message
unfolding read_api read_header_hash read_ghost_request read_services_body read_key_list
deserialize_body is_utf8 message_type buffer =
    if message_type == 1
    then (deserialize_challenge buffer >>= λ c. ok (handshake_challenge c))
    else if message_type == 2
    then (deserialize_response is_utf8 buffer >>= λ r. ok (handshake_response r))
    else if message_type == 3
    then (BlockWire.deserialize_from_net buffer >>= λ b. ok (block b))
    else if message_type == 4
    then (TxWire.deserialize_from_net buffer >>= λ tx. ok (transaction tx))
    else if message_type == 5
    then (deserialize_request buffer >>= λ r. ok (blockchain_request r))
    else if message_type == 6
    then read_header_hash buffer
    else if message_type == 7
    then ok ping
    else if message_type == 8
    then ok spv_chain
    else if message_type == 9
    then read_services_body is_utf8 buffer
    else if message_type == 10
    then (deserialize_ghost buffer >>= λ g. ok (ghost_chain g))
    else if message_type == 11
    then read_ghost_request buffer
    else if message_type == 12
    then read_api application_message buffer
    else if message_type == 13
    then read_api result buffer
    else if message_type == 14
    then read_api error buffer
    else if message_type == 15
    then read_key_list buffer
    else err invalid_data

unfoldable pub deserialize : (Bytes → Bool) → Bytes → Outcome Message
unfolding deserialize_body
deserialize is_utf8 [] = err invalid_data
deserialize is_utf8 (message_type ∷ buffer) = deserialize_body is_utf8 message_type buffer
