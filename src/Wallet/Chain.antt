-- ===== src/Wallet/Chain.antt =====
-- The wallet of saito-core/src/core/consensus/wallet.rs as the blockchain uses it.
use saito_rust_workspace.Outcome.{ok}
use saito_rust_workspace.Wallet.{Wallet}
use saito_rust_workspace.Wallet.Reorg.{on_chain_reorganization, delete_block}
use saito_rust_workspace.Blockchain.Ledger.{WalletOps}

unfoldable pub wallet_ops : WalletOps Wallet
wallet_ops = record {
  on_chain_reorganization = on_chain_reorganization;
  delete_block = λ w block. ok (delete_block w block);
}
