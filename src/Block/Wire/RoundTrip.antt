-- ===== src/Block/Wire/RoundTrip.antt =====
-- A block is read back from its bytes: saito-core/src/core/consensus/block.rs.
use saito_rust_workspace.Prelude.{
  ℕ, suc, ◌+◌, ◌*◌, ◌%◌, ◌^◌, ◌<◌, ◌≡◌, refl, sym, ap, ap₂, ◌∙◌, true, not, ◌&&◌, none, some, List,
  [], ◌∷◌, ◌++◌, map, append_assoc, arith, ltb, ◌==◌, if◌then◌else◌, length, get_elem?,
  length-append, All,
}
use saito_rust_workspace.Bytes.{Bytes, to_be_bytes, from_be_bytes, slice, bytes_eq, concat, zeros}
use saito_rust_workspace.Bytes.Endian.{from_be_bytes-to_be_bytes}
use saito_rust_workspace.Bytes.Slices.{slice-append_skip}
use saito_rust_workspace.Outcome.{ok, ◌>>=◌}
use native.Mathlib.Nat.{mod-eq_of_lt}
use saito_rust_workspace.Bytes.Layout.{offset, length-concat, slice_part}
use saito_rust_workspace.Slip.{slip_size}
use saito_rust_workspace.Hop.{hop_size}
use saito_rust_workspace.Transaction.{Transaction}
use saito_rust_workspace.Transaction.Wire as Tx
use saito_rust_workspace.Transaction.Wire.Loops as TxLoops
use saito_rust_workspace.Transaction.Wire.Loops.{slice_middle}
use saito_rust_workspace.Transaction.Wire.Parts as TxParts
use saito_rust_workspace.Transaction.Wire.Parts.{received, body, serialize-eq-flat}
use saito_rust_workspace.Transaction.Wire.RoundTrip.{
  deserialize_from_net-serialize_for_net_with_hop, get_serialized_size_lem,
}
use saito_rust_workspace.Block.{Block, BlockType, header, full, block_type_eq}
use saito_rust_workspace.Block.Wire.{
  u32_at, read_transactions, serialize_for_net, deserialize_from_net,
}
use saito_rust_workspace.Block.Wire.Header.{
  IsWellSized, header_of, layout, parts, parts-Sized, read_header-parts,
}

pub received_back :
    (tx : Transaction)
    → TxLoops.IsWellSized tx
    → Tx.deserialize_from_net (Tx.serialize_for_net tx) ≡ ok (received tx none)
unfolding Tx.serialize_for_net
received_back tx w = deserialize_from_net-serialize_for_net_with_hop tx none w (λ hop e. cc (e))

module _ (tx : Transaction) (w : TxLoops.IsWellSized tx) (pre rest : Bytes) (start : ℕ)
    (here : length pre ≡ start) where
  split :
      Tx.serialize_for_net tx ++ rest
      ≡ concat (TxParts.header tx (length tx.path)) ++ (body tx tx.path ++ rest)
  unfolding Tx.serialize_for_net
  split =
      ap (λ b. b ++ rest) (serialize-eq-flat tx none w)
      ∙ append_assoc (concat (TxParts.header tx (length tx.path))) (body tx tx.path) rest

  -- a count in the header of the transaction
  count_at :
      (i off value at : ℕ)
      → get_elem? (TxParts.header tx (length tx.path)) i ≡ some (to_be_bytes 4 (value % 2 ^ 32))
      → value < 2 ^ 32
      → offset TxParts.layout i ≡ off
      → offset TxParts.layout (suc i) ≡ off + 4
      → at ≡ start + off
      → u32_at (pre ++ (Tx.serialize_for_net tx ++ rest)) at ≡ ok value
  unfolding u32_at
  count_at i off value at h fits e e' place =
      let taken : slice (pre ++ (Tx.serialize_for_net tx ++ rest)) at (at + 4)
          ≡ ok (to_be_bytes 4 (value % 2 ^ 32)) =
        slice-append_skip pre (Tx.serialize_for_net tx ++ rest) at (at + 4) start here
          (omega (arith, place)) (omega arith)
        ∙ ap₂ (slice (Tx.serialize_for_net tx ++ rest)) (omega (arith, place, e))
            (omega (arith, place, e'))
        ∙ ap (λ b. slice b (offset TxParts.layout i) (offset TxParts.layout (suc i))) split
        ∙ slice_part TxParts.layout (TxParts.header tx (length tx.path))
            (TxParts.header-Sized tx (length tx.path) w.signature_size.0) (body tx tx.path ++ rest)
            i h in
      ap (λ m. m >>= λ p. ok (from_be_bytes p)) taken
      ∙ ap ok (from_be_bytes-to_be_bytes 4 (value % 2 ^ 32) (omega arith) ∙ mod-eq_of_lt fits)

  size_end :
      start
        + 93
        + (length tx.from + length tx.to) * slip_size
        + length tx.message
        + length tx.path * hop_size
      ≡ start + length (Tx.serialize_for_net tx)
  unfolding Tx.get_serialized_size
  size_end = omega (arith, get_serialized_size_lem tx w)

  -- one round of the loop over the transactions
  read_one :
      (count : ℕ)
      → let bytes = pre ++ (Tx.serialize_for_net tx ++ rest) in
        let next = start + length (Tx.serialize_for_net tx) in
        read_transactions bytes start (suc count)
        ≡ (read_transactions bytes next count >>= λ txs. ok (received tx none ∷ txs))
  unfolding read_transactions
  read_one count =
      let bytes : Bytes = pre ++ (Tx.serialize_for_net tx ++ rest) in
      let size : length bytes ≡ start + (length (Tx.serialize_for_net tx) + length rest) = omega (
        arith,
        here,
        length-append pre (Tx.serialize_for_net tx ++ rest),
        length-append (Tx.serialize_for_net tx) rest,
      ) in
      let long : not (ltb (length bytes) (start + 16)) ≡ true = ground (arith, size, size_end) in
      let long_end : not (ltb (length bytes) (start + length (Tx.serialize_for_net tx))) ≡ true =
        ground (arith, size) in
      let few : ltb (length tx.from + length tx.to) (2 ^ 32) ≡ true =
        ground (arith, w.from_count, w.to_count) in
      let part : slice bytes start (start + length (Tx.serialize_for_net tx))
          ≡ ok (Tx.serialize_for_net tx) =
        slice_middle pre (Tx.serialize_for_net tx) rest start _ here refl in
      let back : Tx.deserialize_from_net (Tx.serialize_for_net tx) ≡ ok (received tx none) =
        received_back tx w in
      rw (
        long,
        count_at 0 0 (length tx.from) start refl (omega (arith, w.from_count)) refl refl
            (omega arith),
        count_at 1 4 (length tx.to) (start + 4) refl (omega (arith, w.to_count)) refl refl refl,
        count_at 2 8 (length tx.message) (start + 8) refl w.message_fits refl refl refl,
        count_at 3 12 (length tx.path) (start + 12) refl (omega (arith, w.path_fits)) refl refl
            refl,
        few,
        size_end,
        long_end,
        part,
        back,
      )

abbrev pub received_all : List Transaction → List Transaction
received_all txs = map (λ tx. received tx none) txs

read_all :
    (txs : List Transaction)
    → All TxLoops.IsWellSized txs
    → (pre : Bytes) (start : ℕ) → length pre ≡ start
    → read_transactions (pre ++ concat (map Tx.serialize_for_net txs)) start (length txs)
      ≡ ok (received_all txs)
unfolding read_transactions concat
read_all [] w pre start here = refl
read_all (tx ∷ txs) w pre start here =
    let rest : Bytes = concat (map Tx.serialize_for_net txs) in
    let next : ℕ = start + length (Tx.serialize_for_net tx) in
    let end : length (pre ++ Tx.serialize_for_net tx) ≡ next =
      omega (arith, here, length-append pre (Tx.serialize_for_net tx)) in
    let below : read_transactions (pre ++ (Tx.serialize_for_net tx ++ rest)) next (length txs)
        ≡ ok (received_all txs) =
      ap (λ b. read_transactions b next (length txs))
        (sym (append_assoc pre (Tx.serialize_for_net tx) rest))
      ∙ read_all txs w.1 (pre ++ Tx.serialize_for_net tx) next end in
    read_one tx w.0 pre rest start here (length txs)
    ∙ ap (λ m. m >>= λ r. ok (received tx none ∷ r)) below

-- what is written of the transactions
abbrev pub sent : BlockType → List Transaction → List Transaction
sent block_type txs = if block_type_eq block_type header then [] else txs

-- A block without transactions is read as a header, unless it is the first of a chain.
abbrev pub type_read : Block → List Transaction → BlockType
type_read b [] =
    if not (b.id == 1 && bytes_eq b.previous_block_hash (zeros 32)) then header else full
type_read b (tx ∷ txs) = full

sent_bytes :
    (b : Block) (block_type : BlockType)
    → length b.transactions < 2 ^ 32
    → serialize_for_net b block_type
      ≡ concat (parts (length (sent block_type b.transactions)) b)
        ++ concat (map Tx.serialize_for_net (sent block_type b.transactions))
unfolding serialize_for_net block_type_eq concat
sent_bytes b header fits = refl
sent_bytes b _ fits =
    ap (λ n. concat (parts n b) ++ concat (map Tx.serialize_for_net b.transactions))
      (mod-eq_of_lt fits)

sent_fits :
    (block_type : BlockType) (txs : List Transaction)
    → length txs < 2 ^ 32
    → length (sent block_type txs) < 2 ^ 32
unfolding block_type_eq
sent_fits header txs fits = omega arith
sent_fits _ txs fits = fits

sent_sized :
    (block_type : BlockType) (txs : List Transaction)
    → All TxLoops.IsWellSized txs
    → All TxLoops.IsWellSized (sent block_type txs)
unfolding block_type_eq
sent_sized header txs w = tt
sent_sized _ txs w = w

type_lem :
    (b : Block) (txs : List Transaction)
    → (if length txs == 0 && not (b.id == 1 && bytes_eq b.previous_block_hash (zeros 32))
        then header
        else full)
      ≡ type_read b txs
type_lem b [] = refl
type_lem b (tx ∷ txs) = ground arith

-- A block in range is read back from its bytes: the fields of the header as they are, the transactions
-- as a transaction is read back, and none of them where only the header is sent. The type of the block
-- that is read is full, or header where no transaction came and the block is not the first of a chain.
pub deserialize_from_net-serialize_for_net_block :
    (b : Block) (block_type : BlockType)
    → IsWellSized b
    → All TxLoops.IsWellSized b.transactions
    → length b.transactions < 2 ^ 32
    → let txs = sent block_type b.transactions in
      deserialize_from_net (serialize_for_net b block_type)
      ≡ ok (record (header_of b) { transactions = received_all txs; block_type = type_read b txs })
unfolding deserialize_from_net u32_at
deserialize_from_net-serialize_for_net_block b block_type w ws fits =
    let txs : List Transaction = sent block_type b.transactions in
    let n : ℕ = length txs in
    let pre : Bytes = concat (parts n b) in
    let rest : Bytes = concat (map Tx.serialize_for_net txs) in
    let here : length pre ≡ 389 = length-concat layout (parts n b) (parts-Sized n b w) in
    let long : not (ltb (length (pre ++ rest)) 389) ≡ true =
      ground (arith, here, length-append pre rest) in
    let few : n < 2 ^ 32 = sent_fits block_type b.transactions fits in
    let count : (slice (pre ++ rest) 0 (0 + 4) >>= λ part. ok (from_be_bytes part)) ≡ ok n =
      ap (λ m. m >>= λ part. ok (from_be_bytes part))
        (slice_part layout (parts n b) (parts-Sized n b w) rest 0 refl)
      ∙ ap ok (from_be_bytes-to_be_bytes 4 n few) in
    let read : read_transactions (pre ++ rest) 389 n ≡ ok (received_all txs) =
      read_all txs (sent_sized block_type b.transactions ws) pre 389 here in
    let kind = type_lem b txs in
    rw (sent_bytes b block_type fits, long, count, read_header-parts b w n rest, read, kind)
