-- ===== src/Blockchain/Supply.antt =====
-- The supply of tokens: `calculate_current_supply` and `check_total_supply` of
-- saito-core/src/core/consensus/blockchain.rs.
use saito_rust_workspace.Prelude.{
  ℕ, ◌+◌, ◌-◌, ◌%◌, ◌^◌, Bool, true, false, not, ◌||◌, none, some, [], ◌∷◌, ltb, ◌==◌,
  if◌then◌else◌,
}
use saito_rust_workspace.Bytes.{Bytes}
use saito_rust_workspace.Outcome.{Outcome, ok, panic, ◌>>=◌, ◌>>◌, assert, unwrap}
use saito_rust_workspace.Slip
use saito_rust_workspace.Slip.{Slip, UtxoSet}
use saito_rust_workspace.Transaction.Fees.{slip_type_eq}
use saito_rust_workspace.Block.{Block}
use saito_rust_workspace.Blockchain.{Blockchain, get_latest_block, has_total_supply_loaded}

-- The sum of the spendable slips; a key that does not parse is an `unwrap` of an error.
unfoldable pub sum_slips : UtxoSet → ℕ → Outcome ℕ
sum_slips [] supply = ok supply
sum_slips ((key, false) ∷ utxos) supply = sum_slips utxos supply
sum_slips ((key, true) ∷ utxos) supply = elim (Slip.parse_slip_from_utxokey key) [
  | ok slip ↦ sum_slips utxos ((supply + slip.amount) % 2 ^ 64)
  | _ ↦ panic
]

-- what a block holds beside the slips
unfoldable pub held_by : Block → ℕ
held_by b = b.graveyard + b.treasury + b.previous_block_unpaid + b.total_fees

unfoldable pub calculate_current_supply : Blockchain → Outcome ℕ
unfolding sum_slips held_by
calculate_current_supply c = do
  supply ← sum_slips c.utxoset 0
  latest ← get_latest_block c
  elim latest [ none ↦ ok 0 | some block ↦ ok ((supply + held_by block) % 2 ^ 64) ]

-- what a spendable entry counts for: nothing if its key does not parse, if it is bound, or if it is old
unfoldable pub counted : ℕ → Bytes → ℕ
unfolding slip_type_eq
counted oldest key = elim (Slip.parse_slip_from_utxokey key) [
  | ok slip ↦
      if slip_type_eq slip.slip_type Slip.bound || ltb slip.block_id oldest then 0 else slip.amount
  | _ ↦ 0
]

unfoldable pub sum_counted : ℕ → UtxoSet → ℕ
unfolding counted
sum_counted oldest [] = 0
sum_counted oldest ((key, spendable) ∷ utxos) =
    ((if spendable then counted oldest key else 0) + sum_counted oldest utxos) % 2 ^ 64

-- The first supply is noted; another one later is a panic.
unfoldable pub compare_supply : Blockchain → ℕ → Outcome Blockchain
compare_supply c current_supply = elim (c.initial_token_supply == 0) [
  | true ↦ ok (record c { initial_token_supply = current_supply })
  | false ↦ assert (current_supply == c.initial_token_supply) >> ok c
]

unfoldable pub check_total_supply : Blockchain → ℕ → Bool → Outcome Blockchain
unfolding sum_counted compare_supply held_by
check_total_supply c genesis_period is_light = do
  loaded ← has_total_supply_loaded c genesis_period
  elim (not loaded || is_light) [
    | true ↦ ok c
    | false ↦ do
      latest ← get_latest_block c
      block ← unwrap latest
      compare_supply c
          ((sum_counted (block.id - genesis_period) c.utxoset + held_by block) % 2 ^ 64)
  ]
