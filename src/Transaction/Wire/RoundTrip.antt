-- ===== src/Transaction/Wire/RoundTrip.antt =====
-- A transaction is read back from its bytes: saito-core/src/core/consensus/transaction.rs,
-- `serialize_for_net_with_hop` and `deserialize_from_net`.
use saito_rust_workspace.Prelude.{
  ℕ, suc, ◌+◌, ◌*◌, ◌%◌, ◌^◌, ◌<◌, ◌≡◌, refl, sym, ap, ◌∙◌, true, not, Option, none, some, List, [],
  ◌∷◌, ◌++◌, map, append_assoc, arith, ltb, length, get_elem?, length-append, All, All-append,
}
use saito_rust_workspace.Bytes.{Bytes, to_be_bytes, from_be_bytes, slice, index, concat}
use saito_rust_workspace.Bytes.Endian.{from_be_bytes-to_be_bytes}
use saito_rust_workspace.Outcome.{ok}
use native.Mathlib.Nat.{mod-eq_of_lt}
use saito_rust_workspace.Bytes.Layout.{Sized, offset, length-concat, slice_part, index_part}
use saito_rust_workspace.Slip.{slip_size}
use saito_rust_workspace.Slip.Codec.{without_key}
use saito_rust_workspace.Hop
use saito_rust_workspace.Hop.{Hop, hop_size}
use saito_rust_workspace.Transaction.{Transaction, default}
use saito_rust_workspace.Transaction.Wire.{
  to_u8, transaction_size, serialize_slips, serialize_hops, serialize_for_net_with_hop,
  serialize_for_net, get_serialized_size, read_slips, read_hops, deserialize_from_net,
}
use saito_rust_workspace.Transaction.Wire.Loops.{
  from_u8-to_u8, IsWellSized, length-serialize_slips, length-serialize_hops, slice_middle,
  read_slips-serialize_slips, read_hops-serialize_hops,
}
use saito_rust_workspace.Transaction.Wire.Parts.{
  path_with, received, layout, header, header-Sized, flat, body, serialize-eq-flat,
}

module _ (tx : Transaction) (hops : List Hop) (w : IsWellSized tx) (hs : All Hop.IsWellSized hops)
    (few : length hops < 2 ^ 32) where
  sized : Sized layout (header tx (length hops))
  sized = header-Sized tx (length hops) w.signature_size.0

  length-header : length (concat (header tx (length hops))) ≡ 93
  length-header = length-concat layout (header tx (length hops)) sized

  part :
      (i : ℕ) {p : Bytes}
      → get_elem? (header tx (length hops)) i ≡ some p
      → slice (flat tx hops) (offset layout i) (offset layout (suc i)) ≡ ok p
  part i h = slice_part layout (header tx (length hops)) sized (body tx hops) i h

  type_byte : index (flat tx hops) 92 ≡ ok (to_u8 tx.transaction_type)
  type_byte = index_part layout (header tx (length hops)) sized (body tx hops) 7 refl

  -- what stands before the outputs, the message and the hops
  before_to : Bytes
  before_to = concat (header tx (length hops)) ++ serialize_slips tx.from

  before_message : Bytes
  before_message = before_to ++ serialize_slips tx.to

  before_path : Bytes
  before_path = before_message ++ tx.message

  abbrev to_start : ℕ
  to_start = transaction_size + length tx.from * slip_size

  abbrev message_start : ℕ
  message_start = to_start + length tx.to * slip_size

  length-before_to : length before_to ≡ to_start
  unfolding before_to
  length-before_to = omega (
    arith,
    length-append (concat (header tx (length hops))) (serialize_slips tx.from),
    length-header,
    length-serialize_slips tx.from w.from_sized,
  )

  length-before_message : length before_message ≡ message_start
  unfolding before_message
  length-before_message = omega (
    arith,
    length-append before_to (serialize_slips tx.to),
    length-before_to,
    length-serialize_slips tx.to w.to_sized,
  )

  length-before_path : length before_path ≡ message_start + length tx.message
  unfolding before_path
  length-before_path = omega (arith, length-append before_message tx.message, length-before_message)

  flat_at_to :
      flat tx hops
      ≡ before_to ++ (serialize_slips tx.to ++ (tx.message ++ (serialize_hops hops ++ [])))
  unfolding before_to
  flat_at_to = sym (append_assoc (concat (header tx (length hops))) (serialize_slips tx.from) _)

  flat_at_message : flat tx hops ≡ before_message ++ (tx.message ++ (serialize_hops hops ++ []))
  unfolding before_message
  flat_at_message = flat_at_to ∙ sym (append_assoc before_to (serialize_slips tx.to) _)

  flat_at_path : flat tx hops ≡ before_path ++ (serialize_hops hops ++ [])
  unfolding before_path
  flat_at_path = flat_at_message ∙ sym (append_assoc before_message tx.message _)

  ins : read_slips (flat tx hops) transaction_size (length tx.from) ≡ ok (map without_key tx.from)
  ins =
      read_slips-serialize_slips (concat (header tx (length hops))) tx.from _ 93 length-header
        w.from_sized

  outs : read_slips (flat tx hops) to_start (length tx.to) ≡ ok (map without_key tx.to)
  outs =
      ap (λ b. read_slips b to_start (length tx.to)) flat_at_to
      ∙ read_slips-serialize_slips before_to tx.to _ to_start length-before_to w.to_sized

  message : slice (flat tx hops) message_start (message_start + length tx.message) ≡ ok tx.message
  message =
      ap (λ b. slice b message_start (message_start + length tx.message)) flat_at_message
      ∙ slice_middle before_message tx.message (serialize_hops hops ++ []) message_start
          (message_start + length tx.message) length-before_message refl

  path : read_hops (flat tx hops) (message_start + length tx.message) (length hops) ≡ ok hops
  path =
      ap (λ b. read_hops b (message_start + length tx.message) (length hops)) flat_at_path
      ∙ read_hops-serialize_hops before_path hops [] (message_start + length tx.message)
          length-before_path hs

  count_back : (n : ℕ) → n < 2 ^ 32 → from_be_bytes (to_be_bytes 4 (n % 2 ^ 32)) ≡ n
  count_back n h = from_be_bytes-to_be_bytes 4 (n % 2 ^ 32) (omega arith) ∙ mod-eq_of_lt h

  deserialize-flat :
      deserialize_from_net (flat tx hops)
      ≡ ok (record default {
        timestamp = tx.timestamp;
        from = map without_key tx.from;
        to = map without_key tx.to;
        message = tx.message;
        txs_replacements = tx.txs_replacements;
        transaction_type = tx.transaction_type;
        signature = tx.signature;
        path = hops;
      })
  unfolding deserialize_from_net
  deserialize-flat = rw (
    long,
    part 0 refl,
    count_back (length tx.from) (omega (arith, w.from_count)),
    few_from,
    part 1 refl,
    count_back (length tx.to) (omega (arith, w.to_count)),
    few_to,
    part 2 refl,
    count_back (length tx.message) w.message_fits,
    part 3 refl,
    count_back (length hops) few,
    part 4 refl,
    part 5 refl,
    part 6 refl,
    type_byte,
    from_u8-to_u8,
    from_be_bytes-to_be_bytes 8 tx.timestamp w.timestamp_fits,
    from_be_bytes-to_be_bytes 4 tx.txs_replacements w.replacements_fit,
    ins,
    outs,
    message,
    path,
  )
    where
      long : not (ltb (length (flat tx hops)) 93) ≡ true
      long =
          ground
            (arith, length-append (concat (header tx (length hops))) (body tx hops), length-header)

      few_from : not (ltb 255 (length tx.from)) ≡ true
      few_from = ground (arith, w.from_count)

      few_to : not (ltb 255 (length tx.to)) ≡ true
      few_to = ground (arith, w.to_count)

path_with-IsWellSized :
    (tx : Transaction) (opt_hop : Option Hop)
    → IsWellSized tx
    → ((hop : Hop) → opt_hop ≡ some hop → Hop.IsWellSized hop)
    → All Hop.IsWellSized (path_with tx opt_hop)
path_with-IsWellSized tx none w h = w.path_sized
path_with-IsWellSized tx (some hop) w h =
    All-append Hop.IsWellSized tx.path (hop ∷ []) w.path_sized (h hop refl, tt)

path_with_fits :
    (tx : Transaction) (opt_hop : Option Hop)
    → IsWellSized tx
    → length (path_with tx opt_hop) < 2 ^ 32
path_with_fits tx none w = omega (arith, w.path_fits)
path_with_fits tx (some hop) w = omega (arith, w.path_fits, length-append tx.path (hop ∷ []))

-- A transaction in range, with or without a hop added to its path, is read back from its bytes:
-- every field that travels is restored, the added hop at the end of the path, and the others have
-- their default values.
pub deserialize_from_net-serialize_for_net_with_hop :
    (tx : Transaction) (opt_hop : Option Hop)
    → IsWellSized tx
    → ((hop : Hop) → opt_hop ≡ some hop → Hop.IsWellSized hop)
    → deserialize_from_net (serialize_for_net_with_hop tx opt_hop) ≡ ok (received tx opt_hop)
deserialize_from_net-serialize_for_net_with_hop tx opt_hop w h =
    ap deserialize_from_net (serialize-eq-flat tx opt_hop w)
    ∙ deserialize-flat tx (path_with tx opt_hop) w (path_with-IsWellSized tx opt_hop w h)
        (path_with_fits tx opt_hop w)

-- `get_serialized_size` is the length of what `serialize_for_net` writes, for a transaction in
-- range.
pub get_serialized_size_lem :
    (tx : Transaction) → IsWellSized tx → length (serialize_for_net tx) ≡ get_serialized_size tx
unfolding serialize_for_net get_serialized_size
get_serialized_size_lem tx w =
    ap length (serialize-eq-flat tx none w ∙ flat_at_path tx tx.path w w.path_sized few)
    ∙ omega (
      arith,
      length-append (before_path tx tx.path w w.path_sized few) (serialize_hops tx.path ++ []),
      length-append (serialize_hops tx.path) [],
      length-before_path tx tx.path w w.path_sized few,
      length-serialize_hops tx.path w.path_sized,
    )
  where
    few : length tx.path < 2 ^ 32
    few = omega (arith, w.path_fits)
