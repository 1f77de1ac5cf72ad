-- ===== src/Wallet/Reorg.antt =====
-- A block joins or leaves the longest chain, or is deleted: `on_chain_reorganization` and
-- `delete_block` of saito-core/src/core/consensus/wallet.rs, and `is_nft` of
-- saito-core/src/core/consensus/transaction.rs. Each gives the wallet, and whether it changed.
use saito_rust_workspace.Prelude.{
  ℕ, ◌+◌, ◌-◌, ◌%◌, ◌^◌, Bool, true, false, not, ◌&&◌, ◌||◌, List, [], ◌∷◌, ◌++◌, ltb,
  if◌then◌else◌,
}
use saito_rust_workspace.Bytes.{Bytes, bytes_eq}
use saito_rust_workspace.Outcome.{Outcome, ok, ◌>>=◌}
use saito_rust_workspace.Slip
use saito_rust_workspace.Slip.{Slip}
use saito_rust_workspace.Transaction.{Transaction, spv}
use saito_rust_workspace.Transaction.Fees.{slip_type_eq}
use saito_rust_workspace.Transaction.Generate.{type_eq}
use saito_rust_workspace.Block.{Block}
use saito_rust_workspace.Wallet.{
  Wallet, Nft, add_slip, delete_slip, remove_old_slips, delete_pending_transaction,
}

-- `is_nft` at the slips `a`, `b`, `c`
unfoldable pub is_nft : Slip → Slip → Slip → Bool
unfolding slip_type_eq
is_nft a b c =
    slip_type_eq a.slip_type Slip.bound
    && slip_type_eq c.slip_type Slip.bound
    && not (slip_type_eq b.slip_type Slip.bound)

unfoldable pub nft_of : Transaction → Slip → Slip → Slip → Nft
nft_of tx slip1 slip2 slip3 = record {
  slip1 = slip1.utxoset_key;
  slip2 = slip2.utxoset_key;
  slip3 = slip3.utxoset_key;
  id = slip2.utxoset_key;
  tx_sig = tx.signature;
}

-- the first NFT with the id goes
unfoldable pub remove_nft : Bytes → List Nft → List Nft
remove_nft id [] = []
remove_nft id (n ∷ ns) = if bytes_eq n.id id then ns else n ∷ remove_nft id ns

-- of value, and ours
unfoldable pub is_mine : Wallet → Slip → Bool
is_mine w slip = ltb 0 slip.amount && bytes_eq slip.public_key w.public_key

unfoldable pub add_mine : Wallet → ℕ → ℕ → Slip → Outcome (Wallet × Bool)
add_mine w block_id tx_index slip = elim (is_mine w slip) [
  | true ↦ add_slip w block_id tx_index slip true >>= λ added. ok (added, true)
  | false ↦ ok (w, false)
]

unfoldable pub delete_mine : Wallet → Slip → Wallet × Bool
delete_mine w slip = if is_mine w slip then (delete_slip w slip, true) else (w, false)

-- The loop over the outputs of a transaction whose block joins: an NFT takes three of them.
unfoldable pub join_outputs :
    Transaction → ℕ → ℕ → List Slip → Wallet → Bool → Outcome (Wallet × Bool)
unfolding add_mine is_nft nft_of
join_outputs tx block_id tx_index [] w changed = ok (w, changed)
join_outputs tx block_id tx_index (a ∷ b ∷ c ∷ rest) w changed = elim (is_nft a b c) [
  | true ↦
      join_outputs tx block_id tx_index rest (record w { nfts = w.nfts ++ nft_of tx a b c ∷ [] })
        changed
  | false ↦ add_mine w block_id tx_index a >>= λ added.
      join_outputs tx block_id tx_index (b ∷ c ∷ rest) added.0 (changed || added.1)
]
join_outputs tx block_id tx_index (a ∷ rest) w changed = add_mine w block_id tx_index a >>= λ added.
    join_outputs tx block_id tx_index rest added.0 (changed || added.1)

-- an input that is no NFT, whose block joins
unfoldable pub spend_input : Transaction → Slip → Wallet → Outcome (Wallet × Bool)
spend_input tx input w = elim (bytes_eq input.public_key w.public_key) [
  | false ↦ ok (w, false)
  | true ↦
      let spent : Wallet = if ltb 0 input.amount then delete_slip w input else w in
      delete_pending_transaction spent tx >>= λ pending.
      ok (pending.0, ltb 0 input.amount || pending.1)
]

-- The loop over the inputs; `first` at index 0, where an NFT is looked up by the key of the third slip.
unfoldable pub join_inputs :
    Transaction → Bool → List Slip → Wallet → Bool → Outcome (Wallet × Bool)
unfolding spend_input is_nft remove_nft
join_inputs tx first [] w changed = ok (w, changed)
join_inputs tx first (a ∷ b ∷ c ∷ rest) w changed = elim (is_nft a b c) [
  | true ↦
      join_inputs tx false rest
        (if first then record w { nfts = remove_nft c.utxoset_key w.nfts } else w) changed
  | false ↦ spend_input tx a w >>= λ spent.
      join_inputs tx false (b ∷ c ∷ rest) spent.0 (changed || spent.1)
]
join_inputs tx first (a ∷ rest) w changed =
    spend_input tx a w >>= λ spent. join_inputs tx false rest spent.0 (changed || spent.1)

unfoldable pub leave_outputs : List Slip → Wallet → Bool → Wallet × Bool
unfolding delete_mine is_nft remove_nft
leave_outputs [] w changed = (w, changed)
leave_outputs (a ∷ b ∷ c ∷ rest) w changed = elim (is_nft a b c) [
  | true ↦ leave_outputs rest (record w { nfts = remove_nft b.utxoset_key w.nfts }) changed
  | false ↦ leave_outputs (b ∷ c ∷ rest) (delete_mine w a).0 (changed || (delete_mine w a).1)
]
leave_outputs (a ∷ rest) w changed =
    leave_outputs rest (delete_mine w a).0 (changed || (delete_mine w a).1)

-- what one transaction adds to the index
unfoldable pub index_step : Transaction → ℕ
unfolding type_eq
index_step tx = if type_eq tx.transaction_type spv then tx.txs_replacements else 1

-- the slips that fell out of the genesis period
unfoldable pub forget_old : Wallet → ℕ → ℕ → Outcome Wallet
forget_old w block_id genesis_period = elim (ltb genesis_period block_id) [
  | true ↦ remove_old_slips w (block_id - genesis_period)
  | false ↦ ok w
]

unfoldable pub join_transactions :
    ℕ → ℕ → ℕ → List Transaction → Wallet → Bool → Outcome (Wallet × Bool)
unfolding join_outputs join_inputs index_step forget_old
join_transactions block_id genesis_period tx_index [] w changed = ok (w, changed)
join_transactions block_id genesis_period tx_index (tx ∷ txs) w changed = do
  outputs ← join_outputs tx block_id tx_index tx.to w changed
  inputs ← join_inputs tx true tx.from outputs.0 outputs.1
  kept ← forget_old inputs.0 block_id genesis_period
  join_transactions block_id genesis_period ((tx_index + index_step tx) % 2 ^ 64) txs kept inputs.1

-- The inputs come back as an output of a joining block comes.
unfoldable pub leave_inputs :
    Transaction → ℕ → ℕ → List Slip → Wallet → Bool → Outcome (Wallet × Bool)
unfolding join_outputs
leave_inputs tx block_id tx_index inputs w changed =
    join_outputs tx block_id tx_index inputs w changed

unfoldable pub leave_transactions :
    ℕ → ℕ → List Transaction → Wallet → Bool → Outcome (Wallet × Bool)
unfolding leave_outputs leave_inputs index_step
leave_transactions block_id tx_index [] w changed = ok (w, changed)
leave_transactions block_id tx_index (tx ∷ txs) w changed = do
  let outputs : Wallet × Bool = leave_outputs tx.to w changed
  inputs ← leave_inputs tx block_id tx_index tx.from outputs.0 outputs.1
  leave_transactions block_id ((tx_index + index_step tx) % 2 ^ 64) txs inputs.0 inputs.1

unfoldable pub on_chain_reorganization : Wallet → Block → Bool → ℕ → Outcome (Wallet × Bool)
unfolding join_transactions leave_transactions
on_chain_reorganization w block true genesis_period =
    join_transactions block.id genesis_period 0 block.transactions w false
on_chain_reorganization w block false genesis_period =
    leave_transactions block.id 0 block.transactions w false

unfoldable pub delete_inputs : List Slip → Wallet → Bool → Wallet × Bool
delete_inputs [] w changed = (w, changed)
delete_inputs (s ∷ ss) w changed =
    delete_inputs ss (delete_slip w s) (bytes_eq s.public_key w.public_key || changed)

unfoldable pub delete_outputs : List Slip → Wallet → Wallet
delete_outputs [] w = w
delete_outputs (s ∷ ss) w = delete_outputs ss (if ltb 0 s.amount then delete_slip w s else w)

unfoldable pub delete_transactions : List Transaction → Wallet → Bool → Wallet × Bool
unfolding delete_inputs delete_outputs
delete_transactions [] w changed = (w, changed)
delete_transactions (tx ∷ txs) w changed =
    let inputs = delete_inputs tx.from w changed in
    delete_transactions txs (delete_outputs tx.to inputs.0) inputs.1

unfoldable pub delete_block : Wallet → Block → Wallet × Bool
unfolding delete_transactions
delete_block w block = delete_transactions block.transactions w false
