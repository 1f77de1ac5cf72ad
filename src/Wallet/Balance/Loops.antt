-- ===== src/Wallet/Balance/Loops.antt =====
-- The loops over the transactions of a block in saito-core/src/core/consensus/wallet.rs keep the balance.
use saito_rust_workspace.Prelude.{
  ℕ, ◌+◌, ◌-◌, ◌%◌, ◌^◌, Bool, true, false, ◌||◌, List, [], ◌∷◌, ltb, if◌then◌else◌,
}
use saito_rust_workspace.Bytes.{bytes_eq}
use saito_rust_workspace.Outcome.{ok, ◌>>=◌}
use saito_rust_workspace.Eq.{bytes_key}
use saito_rust_workspace.Outcome.{Gives, Gives-bind}
use saito_rust_workspace.Slip.{Slip}
use saito_rust_workspace.Transaction.{Transaction}
use saito_rust_workspace.Wallet.{
  Wallet, delete_slip, remove_old_slips, old_keys, delete_pending_transaction,
}
use saito_rust_workspace.Wallet.Reorg.{
  is_nft, remove_nft, delete_mine, join_outputs, spend_input, join_inputs, leave_outputs,
  leave_inputs, index_step, forget_old, join_transactions, leave_transactions,
}
use saito_rust_workspace.Wallet.Balance.{HasBalance}
use saito_rust_workspace.Wallet.Balance.Moves.{
  Fine, delete_slip-HasBalance, delete_keys-Gives, delete_mine-HasBalance, join_outputs-Gives,
  delete_pending-Gives,
}

spend_input-Gives :
    (tx : Transaction) (s : Slip) (w : Wallet) → HasBalance w → Gives Fine (spend_input tx s w)
unfolding spend_input
spend_input-Gives tx s w h =
    let spent : Wallet = if ltb 0 s.amount then delete_slip w s else w in
    let kept : HasBalance spent =
      elim (ltb 0 s.amount) as (λ b. HasBalance (if b then delete_slip w s else w)) [
        | true ↦ delete_slip-HasBalance w s h
        | false ↦ h
      ] in
    elim (bytes_eq s.public_key w.public_key)
      as (λ b. Gives Fine (elim b [
        | false ↦ ok (w, false)
        | true ↦ delete_pending_transaction spent tx >>= λ pending.
            ok (pending.0, ltb 0 s.amount || pending.1)
      ])) [
        | false ↦ h
        | true ↦
            Gives-bind Fine Fine (delete_pending_transaction spent tx) _
              (delete_pending-Gives spent tx kept) (λ r p. p)
      ]

join_inputs-Gives :
    (tx : Transaction) (first : Bool) (ss : List Slip) (w : Wallet) (changed : Bool)
    → HasBalance w
    → Gives Fine (join_inputs tx first ss w changed)
unfolding join_inputs
join_inputs-Gives tx first [] w changed h = h
join_inputs-Gives tx first (a ∷ []) w changed h =
    Gives-bind Fine Fine (spend_input tx a w) _ (spend_input-Gives tx a w h) (λ r p. p)
join_inputs-Gives tx first (a ∷ b ∷ []) w changed h =
    Gives-bind Fine Fine (spend_input tx a w) _ (spend_input-Gives tx a w h)
      (λ r p. join_inputs-Gives tx false (b ∷ []) r.0 (changed || r.1) p)
join_inputs-Gives tx first (a ∷ b ∷ c ∷ rest) w changed h =
    let without : Wallet =
      if first then record w { nfts = remove_nft c.utxoset_key w.nfts } else w in
    let kept : HasBalance without =
      elim first
        as (λ f.
          HasBalance (if f then record w { nfts = remove_nft c.utxoset_key w.nfts } else w)) [
            | true ↦ h
            | false ↦ h
          ] in
    elim (is_nft a b c)
      as (λ nft. Gives Fine (elim nft [
        | true ↦ join_inputs tx false rest without changed
        | false ↦ spend_input tx a w >>= λ spent.
            join_inputs tx false (b ∷ c ∷ rest) spent.0 (changed || spent.1)
      ])) [
        | true ↦ join_inputs-Gives tx false rest without changed kept
        | false ↦
            Gives-bind Fine Fine (spend_input tx a w) _ (spend_input-Gives tx a w h)
              (λ r p. join_inputs-Gives tx false (b ∷ c ∷ rest) r.0 (changed || r.1) p)
      ]

leave_outputs-HasBalance :
    (ss : List Slip) (w : Wallet) (changed : Bool)
    → HasBalance w
    → Fine (leave_outputs ss w changed)
unfolding leave_outputs
leave_outputs-HasBalance [] w changed h = h
leave_outputs-HasBalance (a ∷ []) w changed h = delete_mine-HasBalance w a h
leave_outputs-HasBalance (a ∷ b ∷ []) w changed h =
    leave_outputs-HasBalance (b ∷ []) (delete_mine w a).0 (changed || (delete_mine w a).1)
      (delete_mine-HasBalance w a h)
leave_outputs-HasBalance (a ∷ b ∷ c ∷ rest) w changed h =
    elim (is_nft a b c)
      as (λ nft. Fine (elim nft [
        | true ↦ leave_outputs rest (record w { nfts = remove_nft b.utxoset_key w.nfts }) changed
        | false ↦ leave_outputs (b ∷ c ∷ rest) (delete_mine w a).0 (changed || (delete_mine w a).1)
      ])) [
        | true ↦
            leave_outputs-HasBalance rest (record w { nfts = remove_nft b.utxoset_key w.nfts })
              changed h
        | false ↦
            leave_outputs-HasBalance (b ∷ c ∷ rest) (delete_mine w a).0
              (changed || (delete_mine w a).1) (delete_mine-HasBalance w a h)
      ]

forget_old-Gives :
    (w : Wallet) (block_id genesis_period : ℕ)
    → HasBalance w
    → Gives HasBalance (forget_old w block_id genesis_period)
unfolding forget_old remove_old_slips
forget_old-Gives w block_id genesis_period h =
    let oldest : ℕ = block_id - genesis_period in
    elim (ltb genesis_period block_id)
      as (λ b. Gives HasBalance (elim b [ true ↦ remove_old_slips w oldest | false ↦ ok w ])) [
        | true ↦ delete_keys-Gives w (old_keys w.slips oldest) h
        | false ↦ h
      ]

pub join_transactions-Gives :
    (block_id genesis_period tx_index : ℕ) (txs : List Transaction) (w : Wallet) (changed : Bool)
    → HasBalance w
    → Gives Fine (join_transactions block_id genesis_period tx_index txs w changed)
unfolding join_transactions
join_transactions-Gives block_id genesis_period tx_index [] w changed h = h
join_transactions-Gives block_id genesis_period tx_index (tx ∷ txs) w changed h =
    Gives-bind Fine Fine (join_outputs tx block_id tx_index tx.to w changed) _
      (join_outputs-Gives tx block_id tx_index tx.to w changed h)
      (λ outputs p.
        Gives-bind Fine Fine (join_inputs tx true tx.from outputs.0 outputs.1) _
          (join_inputs-Gives tx true tx.from outputs.0 outputs.1 p)
          (λ inputs q.
            Gives-bind HasBalance Fine (forget_old inputs.0 block_id genesis_period) _
              (forget_old-Gives inputs.0 block_id genesis_period q)
              (λ kept r.
                join_transactions-Gives block_id genesis_period
                  ((tx_index + index_step tx) % 2 ^ 64) txs kept inputs.1 r)))

pub leave_transactions-Gives :
    (block_id tx_index : ℕ) (txs : List Transaction) (w : Wallet) (changed : Bool)
    → HasBalance w
    → Gives Fine (leave_transactions block_id tx_index txs w changed)
unfolding leave_transactions leave_inputs
leave_transactions-Gives block_id tx_index [] w changed h = h
leave_transactions-Gives block_id tx_index (tx ∷ txs) w changed h =
    let outputs : Wallet × Bool = leave_outputs tx.to w changed in
    Gives-bind Fine Fine (join_outputs tx block_id tx_index tx.from outputs.0 outputs.1) _
      (join_outputs-Gives tx block_id tx_index tx.from outputs.0 outputs.1
        (leave_outputs-HasBalance tx.to w changed h))
      (λ inputs q.
        leave_transactions-Gives block_id ((tx_index + index_step tx) % 2 ^ 64) txs inputs.0
          inputs.1 q)
