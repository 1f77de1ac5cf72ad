-- ===== src/Message/Envelope/RoundTrip.antt =====
-- Every message of the network is read back: saito-core/src/core/msg/message.rs.
use saito_rust_workspace.Prelude.{
  ℕ, ◌*◌, ◌/◌, ◌%◌, ◌^◌, ◌<◌, ◌≡◌, refl, sym, ap, ◌∙◌, Bool, true, not, none, List, [], ◌∷◌, ◌++◌,
  append-nil, arith, ltb, ◌==◌, length, length-append, All,
}
use saito_rust_workspace.Bytes.{Bytes, to_be_bytes, slice, concat}
use saito_rust_workspace.Bytes.Endian.{length-to_be_bytes, from_be_bytes-to_be_bytes}
use saito_rust_workspace.Bytes.Slices.{slice-append_self}
use saito_rust_workspace.Outcome.{ok}
use saito_rust_workspace.Bytes.Layout.{Sized, length-concat, slice_part}
use saito_rust_workspace.Block.{full, block_type_eq}
use saito_rust_workspace.Block.Wire.Header as BlockHeader
use saito_rust_workspace.Block.Wire.Header.{header_of}
use saito_rust_workspace.Block.Wire.RoundTrip.{
  received_all, type_read, deserialize_from_net-serialize_for_net_block, received_back,
}
use saito_rust_workspace.Transaction.Wire.Loops as TxLoops
use saito_rust_workspace.Transaction.Wire.Parts as TxParts
use saito_rust_workspace.Message.{ApiMessage, serialize_api}
use saito_rust_workspace.Message.Codec.{
  deserialize_request-serialize_request, deserialize_api-serialize_api,
}
use saito_rust_workspace.Message.Services.{PeerService, serialize_services}
use saito_rust_workspace.Message.Services.RoundTrip as ServicesTrip
use saito_rust_workspace.Message.Ghost.RoundTrip as GhostTrip
use saito_rust_workspace.Message.Ghost.RoundTrip.{read_parts-concat, length-concat_parts}
use saito_rust_workspace.Message.Handshake.{deserialize_challenge}
use saito_rust_workspace.Message.Handshake.RoundTrip as HandshakeTrip
use saito_rust_workspace.Message.Envelope.{
  Message, handshake_challenge, handshake_response, block, transaction, blockchain_request,
  block_header_hash, ping, spv_chain, services, ghost_chain, ghost_chain_request,
  application_message, result, error, key_list_update, get_type_value, serialize_body, serialize,
  read_api, read_header_hash, read_ghost_request, read_services_body, read_key_list,
  deserialize_body, deserialize,
}

-- the parts of a message fit their types, the texts are UTF-8, no field of a service has a separator,
-- and the lists of a ghost chain are of one length
abbrev pub IsSendable : (Bytes → Bool) → Message → Type 0
IsSendable is_utf8 (handshake_challenge challenge) = length challenge ≡ 32
IsSendable is_utf8 (handshake_response response) = HandshakeTrip.IsWellSized is_utf8 response
IsSendable is_utf8 (block b) =
    BlockHeader.IsWellSized b
    × All TxLoops.IsWellSized b.transactions
    × (length b.transactions < 2 ^ 32)
IsSendable is_utf8 (transaction tx) = TxLoops.IsWellSized tx
IsSendable is_utf8 (blockchain_request r) =
    (r.latest_block_id < 2 ^ 64) × (length r.latest_block_hash ≡ 32) × (length r.fork_id ≡ 32)
IsSendable is_utf8 (block_header_hash block_hash block_id) =
    (length block_hash ≡ 32) × (block_id < 2 ^ 64)
IsSendable is_utf8 ping = Unit {0}
IsSendable is_utf8 spv_chain = Unit {0}
IsSendable is_utf8 (services list) =
    (is_utf8 (serialize_services list) ≡ true) × All ServicesTrip.IsClean list
IsSendable is_utf8 (ghost_chain chain) = GhostTrip.IsWellSized chain
IsSendable is_utf8 (ghost_chain_request block_id block_hash fork_id) =
    (block_id < 2 ^ 64) × (length block_hash ≡ 32) × (length fork_id ≡ 32)
IsSendable is_utf8 (application_message m) = m.msg_index < 2 ^ 32
IsSendable is_utf8 (result m) = m.msg_index < 2 ^ 32
IsSendable is_utf8 (error m) = m.msg_index < 2 ^ 32
IsSendable is_utf8 (key_list_update keys) = All (λ k. length k ≡ 33) keys

-- What arrives: a block and a transaction without what does not travel, anything else as it is.
abbrev pub arrived : Message → Message
arrived (block b) = block (record (header_of b) {
  transactions = received_all b.transactions;
  block_type = type_read b b.transactions;
})
arrived (transaction tx) = transaction (TxParts.received tx none)
arrived m = m

api-back :
    (kind : ApiMessage → Message) (m : ApiMessage)
    → m.msg_index < 2 ^ 32
    → read_api kind (serialize_api m) ≡ ok (kind m)
unfolding read_api serialize_api concat
api-back kind m fits =
    let long : not (ltb (length (serialize_api m)) 4) ≡ true = ground (
      arith,
      length-to_be_bytes 4 m.msg_index,
      length-append (to_be_bytes 4 m.msg_index) (m.content ++ []),
    ) in
    rw (read_api, long, deserialize_api-serialize_api m fits) refl

challenge-back : (c : Bytes) → length c ≡ 32 → deserialize_challenge (concat (c ∷ [])) ≡ ok c
unfolding deserialize_challenge concat
challenge-back c size =
    let long : not (ltb (length (c ++ [])) 32) ≡ true = ground (arith, size, length-append c []) in
    rw (deserialize_challenge, long) (slice-append_self c [] 32 size)

header_hash-back :
    (h : Bytes) (id : ℕ)
    → length h ≡ 32
    → id < 2 ^ 64
    → read_header_hash (concat (h ∷ to_be_bytes 8 id ∷ [])) ≡ ok (block_header_hash h id)
unfolding read_header_hash
header_hash-back h id size fits =
    let parts : List Bytes = h ∷ to_be_bytes 8 id ∷ [] in
    let sized : Sized (32 ∷ 8 ∷ []) parts = (size, (length-to_be_bytes 8 id, tt)) in
    let same : concat parts ≡ concat parts ++ [] = sym (append-nil (concat parts)) in
    let long : (length (concat parts) == 40) ≡ true =
      ground (arith, length-concat (32 ∷ 8 ∷ []) parts sized) in
    let first : slice (concat parts) 0 32 ≡ ok h =
      ap (λ b. slice b 0 32) same ∙ slice_part (32 ∷ 8 ∷ []) parts sized [] 0 refl in
    let second : slice (concat parts) 32 40 ≡ ok (to_be_bytes 8 id) =
      ap (λ b. slice b 32 40) same ∙ slice_part (32 ∷ 8 ∷ []) parts sized [] 1 refl in
    rw (read_header_hash, long, first, second, from_be_bytes-to_be_bytes 8 id fits) refl

ghost_request-back :
    (id : ℕ) (h f : Bytes)
    → id < 2 ^ 64
    → length h ≡ 32
    → length f ≡ 32
    → read_ghost_request (concat (to_be_bytes 8 id ∷ h ∷ f ∷ [])) ≡ ok (ghost_chain_request id h f)
unfolding read_ghost_request
ghost_request-back id h f fits size size' =
    let ks : List ℕ = 8 ∷ 32 ∷ 32 ∷ [] in
    let parts : List Bytes = to_be_bytes 8 id ∷ h ∷ f ∷ [] in
    let sized : Sized ks parts = (length-to_be_bytes 8 id, (size, (size', tt))) in
    let same : concat parts ≡ concat parts ++ [] = sym (append-nil (concat parts)) in
    let long : (length (concat parts) == 72) ≡ true =
      ground (arith, length-concat ks parts sized) in
    let first : slice (concat parts) 0 8 ≡ ok (to_be_bytes 8 id) =
      ap (λ b. slice b 0 8) same ∙ slice_part ks parts sized [] 0 refl in
    let second : slice (concat parts) 8 40 ≡ ok h =
      ap (λ b. slice b 8 40) same ∙ slice_part ks parts sized [] 1 refl in
    let third : slice (concat parts) 40 72 ≡ ok f =
      ap (λ b. slice b 40 72) same ∙ slice_part ks parts sized [] 2 refl in
    rw (read_ghost_request, long, first, second, third, from_be_bytes-to_be_bytes 8 id fits) refl

keys-back :
    (keys : List Bytes)
    → All (λ k. length k ≡ 33) keys
    → read_key_list (concat keys) ≡ ok (key_list_update keys)
unfolding read_key_list
keys-back keys sized =
    let size : length (concat keys) ≡ length keys * 33 = length-concat_parts 33 keys sized in
    let whole : (length (concat keys) % 33 == 0) ≡ true = ground (arith, size) in
    let count : length (concat keys) / 33 ≡ length keys = omega (arith, size) in
    rw (read_key_list, whole, count, read_parts-concat 33 keys sized [] 0 refl) refl

services-back :
    (is_utf8 : Bytes → Bool) (list : List PeerService)
    → is_utf8 (serialize_services list) ≡ true
    → All ServicesTrip.IsClean list
    → read_services_body is_utf8 (serialize_services list) ≡ ok (services list)
unfolding read_services_body
services-back is_utf8 list valid clean =
    rw
      (
        read_services_body,
        ServicesTrip.deserialize_services-serialize_services is_utf8 list valid clean,
      )
      refl

-- A message of any kind is read back from its bytes, a block and a transaction with the fields that
-- travel, any other message as it was. Its parts must fit their types; of the services, also those in
-- a handshake, no field may have a `|` or a `;`, and their text is UTF-8, as is the URL of a handshake;
-- and the lists of a ghost chain must all be of the same length.
pub deserialize-serialize_message :
    (is_utf8 : Bytes → Bool) (m : Message)
    → IsSendable is_utf8 m
    → deserialize is_utf8 (serialize m) ≡ ok (arrived m)
unfolding deserialize serialize deserialize_body serialize_body get_type_value block_type_eq
deserialize-serialize_message is_utf8 (handshake_challenge c) w = rw (challenge-back c w) refl
deserialize-serialize_message is_utf8 (handshake_response r) w =
    rw (HandshakeTrip.deserialize_response-serialize_response is_utf8 r w) refl
deserialize-serialize_message is_utf8 (block b) w =
    rw (deserialize_from_net-serialize_for_net_block b full w.0 w.1 w.2) refl
deserialize-serialize_message is_utf8 (transaction tx) w = rw (received_back tx w) refl
deserialize-serialize_message is_utf8 (blockchain_request r) w =
    rw (deserialize_request-serialize_request r w.0 w.1 w.2) refl
deserialize-serialize_message is_utf8 (block_header_hash h id) w = header_hash-back h id w.0 w.1
deserialize-serialize_message is_utf8 ping w = refl
deserialize-serialize_message is_utf8 spv_chain w = refl
deserialize-serialize_message is_utf8 (services list) w = services-back is_utf8 list w.0 w.1
deserialize-serialize_message is_utf8 (ghost_chain g) w =
    rw (GhostTrip.deserialize_ghost-serialize_ghost g w) refl
deserialize-serialize_message is_utf8 (ghost_chain_request id h f) w =
    ghost_request-back id h f w.0 w.1 w.2
deserialize-serialize_message is_utf8 (application_message m) w = api-back application_message m w
deserialize-serialize_message is_utf8 (result m) w = api-back result m w
deserialize-serialize_message is_utf8 (error m) w = api-back error m w
deserialize-serialize_message is_utf8 (key_list_update keys) w = keys-back keys w
