-- ===== src/Transaction/Generate.antt =====
-- What a transaction signs, and `sign` and `generate` of
-- saito-core/src/core/consensus/transaction.rs. The hash and the signature of the cryptographic
-- library are arguments.
use saito_rust_workspace.Prelude.{ℕ, ◌+◌, ◌%◌, Bool, true, false, some, List, [], ◌∷◌, map, ◌==◌}
use saito_rust_workspace.Bytes.{Bytes, to_be_bytes, slice, concat}
use saito_rust_workspace.Outcome.{Outcome, ok, ◌>>=◌}
use saito_rust_workspace.Slip
use saito_rust_workspace.Slip.{Slip}
use saito_rust_workspace.Transaction.{TransactionType, spv, Transaction}
use saito_rust_workspace.Transaction.Wire.{to_u8}
use saito_rust_workspace.Transaction.Fees.{generate_total_fees}
use saito_rust_workspace.Transaction.Work.{generate_total_work}

-- the derived `PartialEq` of the types
unfoldable pub type_eq : TransactionType → TransactionType → Bool
type_eq a b = to_u8 a == to_u8 b

unfoldable pub serialize_for_signature : Transaction → Bytes
serialize_for_signature tx = concat (
    to_be_bytes 8 tx.timestamp
    ∷ concat (map Slip.serialize_input_for_signature tx.from)
    ∷ concat (map Slip.serialize_output_for_signature tx.to)
    ∷ to_be_bytes 4 tx.txs_replacements
    ∷ to_be_bytes 4 (to_u8 tx.transaction_type)
    ∷ tx.message
    ∷ [])

-- `for (i, output) in self.to.iter_mut().enumerate() { output.slip_index = i as u8 }`
unfoldable pub number_outputs : ℕ → List Slip → List Slip
number_outputs i [] = []
number_outputs i (s ∷ ss) = record s { slip_index = i % 256 } ∷ number_outputs (i + 1) ss

unfoldable pub sign : (Bytes → Bytes) → (Bytes → Bytes → Bytes) → Transaction → Bytes → Transaction
unfolding number_outputs
sign hash crypto_sign tx private_key =
    let numbered : Transaction = record tx { to = number_outputs 0 tx.to } in
    let buffer : Bytes = serialize_for_signature numbered in
    record numbered {
      hash_for_signature = some (hash buffer);
      signature = crypto_sign buffer private_key;
    }

unfoldable pub generate_hash_for_signature : (Bytes → Bytes) → Transaction → Outcome Transaction
unfolding type_eq
generate_hash_for_signature hash tx = elim (type_eq tx.transaction_type spv) [
  | true ↦ do start ← slice tx.signature 0 32; ok (record tx { hash_for_signature = some start })
  | false ↦ ok (record tx { hash_for_signature = some (hash (serialize_for_signature tx)) })
]

unfoldable pub generate : (Bytes → Bytes) → Transaction → Bytes → ℕ → ℕ → Outcome Transaction
unfolding generate_hash_for_signature
generate hash tx public_key tx_index block_id = do
  hashed ← generate_hash_for_signature hash tx
  ok (generate_total_work (generate_total_fees hashed tx_index block_id) public_key)
