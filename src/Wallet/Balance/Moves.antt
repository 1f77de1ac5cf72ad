-- ===== src/Wallet/Balance/Moves.antt =====
-- The operations of saito-core/src/core/consensus/wallet.rs that change the slips keep the balance.
use saito_rust_workspace.Prelude.{
  ℕ, ◌≡◌, Bool, true, false, ◌||◌, inl, inr, List, [], ◌∷◌, ◌++◌, ◌==◌, if◌then◌else◌, Bool-cases,
}
use saito_rust_workspace.Bytes.{Bytes}
use saito_rust_workspace.Outcome.{ok, err, panic, ◌>>=◌, unwrap}
use saito_rust_workspace.Eq.{bytes_key}
use saito_rust_workspace.HashMap.{insert, contains_key}
use saito_rust_workspace.Outcome.{Gives, Gives-bind, Gives-unit}
use saito_rust_workspace.Slip
use saito_rust_workspace.Slip.{Slip, SlipType}
use saito_rust_workspace.Transaction.{Transaction}
use saito_rust_workspace.Wallet.{
  Wallet, WalletSlip, file_slip, add_slip, delete_slip, delete_keys, delete_pending_transaction,
}
use saito_rust_workspace.Wallet.Reorg.{is_nft, nft_of, is_mine, add_mine, delete_mine, join_outputs}
use saito_rust_workspace.Wallet.Balance.{HasBalance, delete_key-HasBalance, added}

-- a wallet with its balance, beside something else
abbrev pub Fine : Wallet × Bool → Type 0
Fine r = HasBalance r.0

pub delete_slip-HasBalance : (w : Wallet) (s : Slip) → HasBalance w → HasBalance (delete_slip w s)
unfolding delete_slip
delete_slip-HasBalance w s h = delete_key-HasBalance w s.utxoset_key h

filed :
    (w : Wallet) (type : SlipType) (k : Bytes) (s : WalletSlip)
    → HasBalance w
    → contains_key k w.slips ≡ false
    → HasBalance (record (file_slip type k s.amount w) { slips = insert k s w.slips })
unfolding file_slip
filed w type k s h fresh =
    let both = added w.available_balance w.slips w.unspent_slips k s h fresh in
    elim type
      as (λ t. HasBalance (record (file_slip t k s.amount w) { slips = insert k s w.slips })) [
        | Slip.block_stake ↦ both.1
        | Slip.bound ↦ both.1
        | _ ↦ both.0
      ]

add_slip-Gives :
    (w : Wallet) (block_id tx_index : ℕ) (s : Slip) (lc : Bool)
    → HasBalance w
    → Gives HasBalance (add_slip w block_id tx_index s lc)
unfolding add_slip
add_slip-Gives w block_id tx_index s lc h =
    elim (Bool-cases (contains_key (Slip.get_utxoset_key s) w.slips)) [
      | inl known ↦ rw (add_slip, known) h
      | inr fresh ↦ elim (Bool-cases (block_id == 0)) [
        | inl none_yet ↦ rw (add_slip, fresh, none_yet) tt
        | inr some_block ↦
            rw (add_slip, fresh, some_block)
              (filed w s.slip_type (Slip.get_utxoset_key s) _ h fresh)
      ]
    ]

pub delete_keys-Gives :
    (w : Wallet) (ks : List Bytes) → HasBalance w → Gives HasBalance (delete_keys w ks)
unfolding delete_keys
delete_keys-Gives w [] h = h
delete_keys-Gives w (k ∷ ks) h =
    elim (Slip.parse_slip_from_utxokey k)
      as (λ r.
        Gives HasBalance (elim r [ ok slip ↦ delete_keys (delete_slip w slip) ks | _ ↦ panic ])) [
          | ok slip ↦ delete_keys-Gives (delete_slip w slip) ks (delete_slip-HasBalance w slip h)
          | err e ↦ tt
          | panic ↦ tt
        ]

add_mine-Gives :
    (w : Wallet) (block_id tx_index : ℕ) (s : Slip)
    → HasBalance w
    → Gives Fine (add_mine w block_id tx_index s)
unfolding add_mine
add_mine-Gives w block_id tx_index s h =
    elim (is_mine w s)
      as (λ mine. Gives Fine (elim mine [
        | true ↦ add_slip w block_id tx_index s true >>= λ added. ok (added, true)
        | false ↦ ok (w, false)
      ])) [
        | true ↦
            Gives-bind HasBalance Fine (add_slip w block_id tx_index s true) _
              (add_slip-Gives w block_id tx_index s true h) (λ a p. p)
        | false ↦ h
      ]

pub delete_mine-HasBalance : (w : Wallet) (s : Slip) → HasBalance w → Fine (delete_mine w s)
unfolding delete_mine
delete_mine-HasBalance w s h =
    elim (is_mine w s) as (λ mine. Fine (if mine then (delete_slip w s, true) else (w, false))) [
      | true ↦ delete_slip-HasBalance w s h
      | false ↦ h
    ]

pub join_outputs-Gives :
    (tx : Transaction) (block_id tx_index : ℕ) (ss : List Slip) (w : Wallet) (changed : Bool)
    → HasBalance w
    → Gives Fine (join_outputs tx block_id tx_index ss w changed)
unfolding join_outputs
join_outputs-Gives tx block_id tx_index [] w changed h = h
join_outputs-Gives tx block_id tx_index (a ∷ []) w changed h =
    Gives-bind Fine Fine (add_mine w block_id tx_index a) _ (add_mine-Gives w block_id tx_index a h)
      (λ r p. p)
join_outputs-Gives tx block_id tx_index (a ∷ b ∷ []) w changed h =
    Gives-bind Fine Fine (add_mine w block_id tx_index a) _ (add_mine-Gives w block_id tx_index a h)
      (λ r p. join_outputs-Gives tx block_id tx_index (b ∷ []) r.0 (changed || r.1) p)
join_outputs-Gives tx block_id tx_index (a ∷ b ∷ c ∷ rest) w changed h =
    elim (is_nft a b c)
      as (λ nft. Gives Fine (elim nft [
        | true ↦
            join_outputs tx block_id tx_index rest
              (record w { nfts = w.nfts ++ nft_of tx a b c ∷ [] }) changed
        | false ↦ add_mine w block_id tx_index a >>= λ added.
            join_outputs tx block_id tx_index (b ∷ c ∷ rest) added.0 (changed || added.1)
      ])) [
        | true ↦
            join_outputs-Gives tx block_id tx_index rest
              (record w { nfts = w.nfts ++ nft_of tx a b c ∷ [] }) changed h
        | false ↦
            Gives-bind Fine Fine (add_mine w block_id tx_index a) _
              (add_mine-Gives w block_id tx_index a h)
              (λ r p. join_outputs-Gives tx block_id tx_index (b ∷ c ∷ rest) r.0 (changed || r.1) p)
      ]

pub delete_pending-Gives :
    (w : Wallet) (tx : Transaction) → HasBalance w → Gives Fine (delete_pending_transaction w tx)
unfolding delete_pending_transaction
delete_pending-Gives w tx h =
    Gives-bind (λ hash. Unit {0}) Fine (unwrap tx.hash_for_signature) _
      (Gives-unit (unwrap tx.hash_for_signature)) (λ hash p. h)
