-- ===== src/Wallet/Balance/Blocks.antt =====
-- A block that joins, leaves or is deleted keeps the balance of the wallet of
-- saito-core/src/core/consensus/wallet.rs.
use saito_rust_workspace.Prelude.{
  ℕ, ◌≡◌, Bool, true, false, ◌||◌, List, [], ◌∷◌, ltb, if◌then◌else◌,
}
use saito_rust_workspace.Bytes.{bytes_eq}
use saito_rust_workspace.Outcome.{ok}
use saito_rust_workspace.Eq.{bytes_key}
use saito_rust_workspace.Outcome.{given}
use saito_rust_workspace.Slip.{Slip}
use saito_rust_workspace.Transaction.{Transaction}
use saito_rust_workspace.Block.{Block}
use saito_rust_workspace.Wallet.{Wallet, delete_slip}
use saito_rust_workspace.Wallet.Reorg.{
  on_chain_reorganization, delete_inputs, delete_outputs, delete_transactions, delete_block,
}
use saito_rust_workspace.Wallet.Balance.{HasBalance}
use saito_rust_workspace.Wallet.Balance.Moves.{Fine, delete_slip-HasBalance}
use saito_rust_workspace.Wallet.Balance.Loops.{join_transactions-Gives, leave_transactions-Gives}

delete_inputs-HasBalance :
    (ss : List Slip) (w : Wallet) (changed : Bool)
    → HasBalance w
    → Fine (delete_inputs ss w changed)
unfolding delete_inputs
delete_inputs-HasBalance [] w changed h = h
delete_inputs-HasBalance (s ∷ ss) w changed h =
    delete_inputs-HasBalance ss (delete_slip w s) (bytes_eq s.public_key w.public_key || changed)
      (delete_slip-HasBalance w s h)

delete_outputs-HasBalance :
    (ss : List Slip) (w : Wallet) → HasBalance w → HasBalance (delete_outputs ss w)
unfolding delete_outputs
delete_outputs-HasBalance [] w h = h
delete_outputs-HasBalance (s ∷ ss) w h =
    delete_outputs-HasBalance ss (if ltb 0 s.amount then delete_slip w s else w)
      (elim (ltb 0 s.amount) as (λ b. HasBalance (if b then delete_slip w s else w)) [
        | true ↦ delete_slip-HasBalance w s h
        | false ↦ h
      ])

delete_transactions-HasBalance :
    (txs : List Transaction) (w : Wallet) (changed : Bool)
    → HasBalance w
    → Fine (delete_transactions txs w changed)
unfolding delete_transactions
delete_transactions-HasBalance [] w changed h = h
delete_transactions-HasBalance (tx ∷ txs) w changed h =
    let inputs = delete_inputs tx.from w changed in
    delete_transactions-HasBalance txs (delete_outputs tx.to inputs.0) inputs.1
      (delete_outputs-HasBalance tx.to inputs.0 (delete_inputs-HasBalance tx.from w changed h))

-- While a block joins or leaves the longest chain, or is deleted, the balance of a wallet stays what
-- its unspent slips add up to, modulo `2 ^ 64`; the unspent slips stay slips of the wallet, none twice.
pub on_chain_reorganization-HasBalance :
    (w v : Wallet) (block : Block) (longest_chain changed : Bool) (genesis_period : ℕ)
    → HasBalance w
    → on_chain_reorganization w block longest_chain genesis_period ≡ ok (v, changed)
    → HasBalance v × HasBalance (delete_block v block).0
unfolding on_chain_reorganization delete_block
on_chain_reorganization-HasBalance w v block true changed genesis_period h e =
    let kept : HasBalance v =
      given Fine _ e
        (join_transactions-Gives block.id genesis_period 0 block.transactions w false h) in
    (kept, delete_transactions-HasBalance block.transactions v false kept)
on_chain_reorganization-HasBalance w v block false changed genesis_period h e =
    let kept : HasBalance v =
      given Fine _ e (leave_transactions-Gives block.id 0 block.transactions w false h) in
    (kept, delete_transactions-HasBalance block.transactions v false kept)
