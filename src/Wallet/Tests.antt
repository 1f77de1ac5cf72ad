-- ===== src/Wallet/Tests.antt =====
-- The theorems on the wallet at a payment and its block.
use saito_rust_workspace.Prelude.{ℕ, ◌≡◌, ◌↔◌, refl, Bool, true, false, some, [], ◌∷◌, arith}
use saito_rust_workspace.Bytes.{bytes_eq, zeros}
use saito_rust_workspace.Bytes.Slices.{zeros-IsArray}
use saito_rust_workspace.Outcome.{Outcome, ok}
use saito_rust_workspace.Eq.{bytes_key}
use saito_rust_workspace.HashMap.{get, contains_key}
use saito_rust_workspace.Slip
use saito_rust_workspace.Slip.{Slip, get_utxoset_key}
use saito_rust_workspace.Transaction.Tests.{payment, coin, coin-IsWellSized}
use saito_rust_workspace.Block.{Block, new}
use saito_rust_workspace.Wallet.{Wallet, WalletSlip, has_key, add_slip}
use saito_rust_workspace.Wallet.Spend.{input_of}
use saito_rust_workspace.Wallet.Reorg.{on_chain_reorganization, delete_block}
use saito_rust_workspace.Wallet.Balance.{HasBalance, IsDistinct, total}
use saito_rust_workspace.Wallet.Balance.Blocks.{on_chain_reorganization-HasBalance}
use saito_rust_workspace.Wallet.Unwind.{entry_of, add_slip-input_of}

abbrev empty : Wallet
empty = record {
  public_key = zeros 33;
  slips = [];
  unspent_slips = [];
  staking_slips = [];
  available_balance = 0;
  pending_txs = [];
  nfts = [];
}

empty-HasBalance : HasBalance empty
unfolding has_key IsDistinct total
empty-HasBalance = record {
  balance_sum = omega arith;
  unspent_known = λ k h. cc (h);
  distinct = tt;
}

abbrev paying : Block
paying = record new {
  id = 8;
  transactions = record payment { hash_for_signature = some (3 ∷ []) } ∷ [];
}

abbrev wallet_of : Outcome (Wallet × Bool) → Wallet × Bool
wallet_of (ok r) = r
wallet_of _ = (empty, false)

abbrev paid : Wallet × Bool
paid = wallet_of (on_chain_reorganization empty paying true 100)

pays : on_chain_reorganization empty paying true 100 ≡ ok (paid.0, paid.1)
unfolding on_chain_reorganization saito_rust_workspace.Wallet.Reorg.is_mine bytes_eq zeros add_slip
    contains_key saito_rust_workspace.Wallet.delete_pending_transaction
pays = refl

balance_example : HasBalance paid.0 × HasBalance (delete_block paid.0 paying).0
balance_example =
    on_chain_reorganization-HasBalance empty paid.0 paying true paid.1 100 empty-HasBalance pays

coin_input-IsWellSized : Slip.IsWellSized (input_of coin.public_key (entry_of 9 0 coin true))
unfolding input_of
coin_input-IsWellSized = record {
  public_key_size = zeros-IsArray 33;
  amount_fits = omega arith;
  slip_index_fits = omega arith;
  block_id_fits = omega arith;
  tx_ordinal_fits = omega arith;
}

unwound_example :
    let block_id : ℕ = 9 in
    (v : Wallet) × (entry : WalletSlip) × (add_slip empty block_id 0 coin true ≡ ok v)
    × (get (get_utxoset_key coin) v.slips ≡ some entry)
    × ((get_utxoset_key (input_of coin.public_key entry) ≡ get_utxoset_key coin)
        ↔ ((coin.block_id ≡ block_id) × (coin.tx_ordinal ≡ 0)))
unfolding contains_key
unwound_example =
    add_slip-input_of empty 9 0 coin coin-IsWellSized coin_input-IsWellSized refl (omega arith)
