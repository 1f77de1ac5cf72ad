-- ===== src/Block/Tests.antt =====
-- The theorems on blocks at concrete blocks.
use saito_rust_workspace.Prelude.{
  ◌≡◌, refl, true, false, ◌||◌, none, some, [], ◌∷◌, arith, if◌then◌else◌,
}
use saito_rust_workspace.Bytes.{Bytes, bytes_eq, zeros}
use saito_rust_workspace.Bytes.Slices.{bytes_eq_iff, zeros-IsArray}
use saito_rust_workspace.Outcome.{Outcome, ok}
use saito_rust_workspace.Eq.{bytes_key}
use saito_rust_workspace.HashMap.{get}
use saito_rust_workspace.Transaction
use saito_rust_workspace.Transaction.{Transaction}
use saito_rust_workspace.Transaction.Tests.{payment, payment-IsWellSized, utxos}
use saito_rust_workspace.Block.{Block, full, new, on_chain_reorganization}
use saito_rust_workspace.Block.Generate.{generate_header, generate}
use saito_rust_workspace.Block.DoubleSpend.{first_spender, spends_once, generate-first_spender}
use saito_rust_workspace.Block.Undo.{makes, spends, IsApplicable, on_chain_reorganization-undo}
use saito_rust_workspace.Block.Wire.{serialize_for_net, deserialize_from_net}
use saito_rust_workspace.Block.Wire.Header.{IsWellSized, header_of}
use saito_rust_workspace.Block.Wire.RoundTrip.{
  sent, received_all, type_read, deserialize_from_net-serialize_for_net_block,
}

abbrev paying : Block
paying = record new { id = 8; transactions = payment ∷ [] }

paying-IsApplicable : IsApplicable paying utxos
unfolding get bytes_eq makes spends
paying-IsApplicable = record {
  inputs_spendable =
      λ k h. let e : 1 ∷ [] ≡ k = (bytes_eq_iff (1 ∷ []) k).0 (ground (arith, h)) in rw (← e) refl;
  outputs_fresh =
      λ k h. let e : 2 ∷ [] ≡ k = (bytes_eq_iff (2 ∷ []) k).0 (ground (arith, h)) in rw (← e) refl;
}

block_undo_example :
    let joined = on_chain_reorganization paying utxos true in
    let left = on_chain_reorganization joined.0 joined.1 false in
    (get (1 ∷ []) joined.1 ≡ (
      if makes (1 ∷ []) paying.transactions
      then some true
      else (if spends (1 ∷ []) paying.transactions then none else get (1 ∷ []) utxos)))
    × (get (1 ∷ []) left.1 ≡ get (1 ∷ []) utxos)
    × (left.0.in_longest_chain ≡ false)
block_undo_example = on_chain_reorganization-undo paying utxos paying-IsApplicable (1 ∷ [])

paying-IsWellSized : IsWellSized paying
unfolding new
paying-IsWellSized = record {
  id_fits = omega arith;
  timestamp_fits = omega arith;
  graveyard_fits = omega arith;
  treasury_fits = omega arith;
  burnfee_fits = omega arith;
  difficulty_fits = omega arith;
  avg_total_fees_fits = omega arith;
  avg_fee_per_byte_fits = omega arith;
  avg_nolan_rebroadcast_per_block_fits = omega arith;
  previous_block_unpaid_fits = omega arith;
  avg_total_fees_new_fits = omega arith;
  avg_total_fees_atr_fits = omega arith;
  avg_payout_routing_fits = omega arith;
  avg_payout_mining_fits = omega arith;
  avg_payout_treasury_fits = omega arith;
  avg_payout_graveyard_fits = omega arith;
  avg_payout_atr_fits = omega arith;
  total_payout_routing_fits = omega arith;
  total_payout_mining_fits = omega arith;
  total_payout_treasury_fits = omega arith;
  total_payout_graveyard_fits = omega arith;
  total_payout_atr_fits = omega arith;
  total_fees_fits = omega arith;
  total_fees_new_fits = omega arith;
  total_fees_atr_fits = omega arith;
  fee_per_byte_fits = omega arith;
  total_fees_cumulative_fits = omega arith;
  previous_block_hash_size = (zeros-IsArray 32).0;
  creator_size = (zeros-IsArray 33).0;
  merkle_root_size = (zeros-IsArray 32).0;
  signature_size = (zeros-IsArray 64).0;
}

block_round_trip_example :
    let txs = sent full paying.transactions in
    deserialize_from_net (serialize_for_net paying full)
    ≡ ok (record (header_of paying) {
      transactions = received_all txs;
      block_type = type_read paying txs;
    })
block_round_trip_example =
    deserialize_from_net-serialize_for_net_block paying full paying-IsWellSized
      (payment-IsWellSized, tt) (omega arith)

-- two payments that spend one coin, in a block with a Merkle root; every hash is zeros
abbrev twice : Block
twice = record new {
  id = 8;
  merkle_root = 1 ∷ [];
  transactions = payment ∷ record payment { message = [] } ∷ [];
}

abbrev zero_hash : Bytes → Bytes
zero_hash bytes = zeros 32

abbrev block_of : Outcome Block → Block
block_of (ok b) = b
block_of _ = new

abbrev twice_header : Block
twice_header = block_of (generate_header zero_hash twice)

twice_known : generate_header zero_hash twice ≡ ok twice_header
unfolding generate_header saito_rust_workspace.Transaction.Generate.generate
    saito_rust_workspace.Transaction.Wire.to_u8 Transaction.default bytes_eq new zeros
twice_known = refl

spender_example :
    (r : Block) × (generate zero_hash twice
      ≡ ok (
        r,
        twice_header.created_hashmap_of_slips_spent_this_block
            || spends_once
                (first_spender twice_header.transactions)
                twice_header.slips_spent_this_block,
      ))
spender_example = generate-first_spender zero_hash twice twice_header twice_known
