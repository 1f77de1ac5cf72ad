-- ===== src/Wallet/Unwind.antt =====
-- What a slip becomes that the wallet of saito-core/src/core/consensus/wallet.rs takes back from a block
-- that leaves the longest chain.
use saito_rust_workspace.Prelude.{
  ℕ, ◌≡◌, ◌≢◌, ◌↔◌, refl, sym, ap, ◌∙◌, Bool, true, false, some, arith, ◌==◌,
}
use saito_rust_workspace.Bytes.{Bytes}
use saito_rust_workspace.Bytes.Slices.{bytes_eq_refl}
use saito_rust_workspace.Outcome.{ok}
use saito_rust_workspace.Eq.{bytes_key}
use saito_rust_workspace.HashMap.{get, insert, contains_key, get-insert}
use saito_rust_workspace.Slip
use saito_rust_workspace.Slip.{Slip, get_utxoset_key}
use saito_rust_workspace.Slip.Key.{get_utxoset_key_injective}
use saito_rust_workspace.Wallet.{Wallet, WalletSlip, file_slip, add_slip}
use saito_rust_workspace.Wallet.Spend.{input_of}

-- the entry that `add_slip` makes
abbrev pub entry_of : ℕ → ℕ → Slip → Bool → WalletSlip
entry_of block_id tx_index slip lc = record {
  utxokey = get_utxoset_key slip;
  amount = slip.amount;
  block_id = block_id;
  tx_ordinal = tx_index;
  lc = lc;
  slip_index = slip.slip_index;
  spent = false;
  slip_type = slip.slip_type;
}

add_slip-entry :
    (w : Wallet) (block_id tx_index : ℕ) (slip : Slip) (lc : Bool)
    → contains_key (get_utxoset_key slip) w.slips ≡ false
    → block_id ≢ 0
    → (v : Wallet) × (add_slip w block_id tx_index slip lc ≡ ok v)
      × (get (get_utxoset_key slip) v.slips ≡ some (entry_of block_id tx_index slip lc))
unfolding add_slip
add_slip-entry w block_id tx_index slip lc fresh some_block =
    let key : Bytes = get_utxoset_key slip in
    let entry : WalletSlip = entry_of block_id tx_index slip lc in
    let test : (block_id == 0) ≡ false = ground (arith, some_block) in
    (
      record (file_slip slip.slip_type key slip.amount w) { slips = insert key entry w.slips },
      rw (add_slip, fresh, test) refl,
      get-insert key key entry w.slips ∙ rw (bytes_eq_refl key) refl,
    )

-- A slip that is ours and not in the wallet is taken back under its own key; but the input that the
-- wallet would spend it with has that key only if the block that spent it, and the place of the
-- transaction in it, were those in which the slip was made.
pub add_slip-input_of :
    (w : Wallet) (block_id tx_index : ℕ) (slip : Slip)
    → Slip.IsWellSized slip
    → Slip.IsWellSized (input_of slip.public_key (entry_of block_id tx_index slip true))
    → contains_key (get_utxoset_key slip) w.slips ≡ false
    → block_id ≢ 0
    → (v : Wallet) × (entry : WalletSlip) × (add_slip w block_id tx_index slip true ≡ ok v)
      × (get (get_utxoset_key slip) v.slips ≡ some entry)
      × ((get_utxoset_key (input_of slip.public_key entry) ≡ get_utxoset_key slip)
          ↔ ((slip.block_id ≡ block_id) × (slip.tx_ordinal ≡ tx_index)))
unfolding input_of get_utxoset_key Slip.generate_utxoset_key
add_slip-input_of w block_id tx_index slip sized input_sized fresh some_block =
    let entry : WalletSlip = entry_of block_id tx_index slip true in
    let made = add_slip-entry w block_id tx_index slip true fresh some_block in
    let back : get_utxoset_key (input_of slip.public_key entry) ≡ get_utxoset_key slip
        → (slip.block_id ≡ block_id) × (slip.tx_ordinal ≡ tx_index) =
      λ e.
        let same =
          get_utxoset_key_injective (input_of slip.public_key entry) slip input_sized sized e in
        (sym (ap (λ s. s.block_id) same), sym (ap (λ s. s.tx_ordinal) same)) in
    (made.0, entry, made.1, made.2, (back, λ e. rw (e.0, e.1) refl))
