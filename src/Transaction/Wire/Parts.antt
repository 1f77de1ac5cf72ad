-- ===== src/Transaction/Wire/Parts.antt =====
-- The parts that `serialize_for_net_with_hop` of saito-core/src/core/consensus/transaction.rs
-- writes.
use saito_rust_workspace.Prelude.{
  ℕ, ◌+◌, ◌%◌, ◌^◌, ◌≡◌, refl, ap, Option, none, some, List, [], ◌∷◌, ◌++◌, map, append-nil,
  append_assoc, arith, length, length-append,
}
use saito_rust_workspace.Bytes.{Bytes, to_be_bytes, concat}
use saito_rust_workspace.Bytes.Endian.{length-to_be_bytes}
use saito_rust_workspace.Bytes.Layout.{Sized}
use saito_rust_workspace.Slip.Codec.{without_key}
use saito_rust_workspace.Hop
use saito_rust_workspace.Hop.{Hop, hop_size}
use saito_rust_workspace.Transaction.{Transaction, default}
use saito_rust_workspace.Transaction.Wire.{
  to_u8, serialize_slips, serialize_hops, serialize_parts, serialize_for_net_with_hop,
}
use saito_rust_workspace.Transaction.Wire.Loops.{IsWellSized}

-- the path with the hop that the writer adds
abbrev pub path_with : Transaction → Option Hop → List Hop
path_with tx none = tx.path
path_with tx (some hop) = tx.path ++ hop ∷ []

-- what the reader restores: the fields that travel; the rest as in `Transaction::default()`
abbrev pub received : Transaction → Option Hop → Transaction
received tx opt_hop = record default {
  timestamp = tx.timestamp;
  from = map without_key tx.from;
  to = map without_key tx.to;
  message = tx.message;
  txs_replacements = tx.txs_replacements;
  transaction_type = tx.transaction_type;
  signature = tx.signature;
  path = path_with tx opt_hop;
}

abbrev pub layout : List ℕ
layout = 4 ∷ 4 ∷ 4 ∷ 4 ∷ 64 ∷ 8 ∷ 4 ∷ 1 ∷ []

abbrev pub header : Transaction → ℕ → List Bytes
header tx path_len =
    to_be_bytes 4 (length tx.from % 2 ^ 32)
    ∷ to_be_bytes 4 (length tx.to % 2 ^ 32)
    ∷ to_be_bytes 4 (length tx.message % 2 ^ 32)
    ∷ to_be_bytes 4 (path_len % 2 ^ 32)
    ∷ tx.signature
    ∷ to_be_bytes 8 tx.timestamp
    ∷ to_be_bytes 4 tx.txs_replacements
    ∷ (to_u8 tx.transaction_type ∷ [])
    ∷ []

pub header-Sized :
    (tx : Transaction) (n : ℕ) → length tx.signature ≡ 64 → Sized layout (header tx n)
header-Sized tx n h = omega (arith, length-to_be_bytes)

-- header, inputs, outputs, message and hops, nested to the right
abbrev pub flat : Transaction → List Hop → Bytes
flat tx hops =
    concat (header tx (length hops))
    ++ (serialize_slips tx.from
        ++ (serialize_slips tx.to ++ (tx.message ++ (serialize_hops hops ++ []))))

concat-append : (ps qs : List Bytes) → concat (ps ++ qs) ≡ concat ps ++ concat qs
unfolding concat
concat-append [] qs = refl
concat-append (p ∷ ps) qs = rw (concat-append ps qs, append_assoc)

serialize_hops-append :
    (hs : List Hop) (h : Hop)
    → serialize_hops (hs ++ h ∷ []) ≡ serialize_hops hs ++ Hop.serialize_for_net h
unfolding serialize_hops concat
serialize_hops-append [] h = append-nil _
serialize_hops-append (g ∷ hs) h =
    rw (append_assoc) (ap (λ r. Hop.serialize_for_net g ++ r) (serialize_hops-append hs h))

abbrev pub body : Transaction → List Hop → Bytes
body tx hops =
    serialize_slips tx.from
    ++ (serialize_slips tx.to ++ (tx.message ++ (serialize_hops hops ++ [])))

serialize_parts-eq :
    (tx : Transaction) (n : ℕ) → serialize_parts tx n ≡ concat (header tx n) ++ body tx tx.path
unfolding serialize_parts concat
serialize_parts-eq tx n =
    concat-append (header tx n)
      (serialize_slips tx.from ∷ serialize_slips tx.to ∷ tx.message ∷ serialize_hops tx.path ∷ [])

body-append :
    (tx : Transaction) (hop : Hop)
    → body tx tx.path ++ Hop.serialize_for_net hop ≡ body tx (tx.path ++ hop ∷ [])
body-append tx hop = simp (append_assoc, append-nil, serialize_hops-append)

pub serialize-eq-flat :
    (tx : Transaction) (opt_hop : Option Hop)
    → IsWellSized tx
    → serialize_for_net_with_hop tx opt_hop ≡ flat tx (path_with tx opt_hop)
unfolding serialize_for_net_with_hop
serialize-eq-flat tx none w =
    ground (arith, serialize_parts-eq tx (length tx.path), w.from_count, w.to_count)
serialize-eq-flat tx (some hop) w = ground (arith, joined, w.from_count, w.to_count)
  where
    count : length (tx.path ++ hop ∷ []) ≡ length tx.path + 1
    count = omega (arith, length-append tx.path (hop ∷ []))

    joined :
        serialize_parts tx (length tx.path + 1) ++ Hop.serialize_for_net hop
        ≡ flat tx (tx.path ++ hop ∷ [])
    joined =
        rw (serialize_parts-eq tx (length tx.path + 1), append_assoc, body-append tx hop, count)
