-- ===== src/Wallet/Spend.antt =====
-- `generate_slips` of saito-core/src/core/consensus/wallet.rs: the choice of the inputs of a payment.
use saito_rust_workspace.Prelude.{ℕ, ◌+◌, ◌-◌, ◌%◌, ◌^◌, true, false, List, [], ◌∷◌, ◌++◌, ltb, leb}
use saito_rust_workspace.Bytes.{Bytes}
use saito_rust_workspace.Outcome.{Outcome, ok, ◌>>=◌, ◌>>◌, assert, unwrap}
use saito_rust_workspace.Eq.{bytes_key}
use saito_rust_workspace.HashMap.{get, insert}
use saito_rust_workspace.Slip
use saito_rust_workspace.Slip.{Slip}
use saito_rust_workspace.Wallet.{Wallet, WalletSlip, remove_key}

-- the slip that spends a slip of the wallet
unfoldable pub input_of : Bytes → WalletSlip → Slip
input_of public_key slip = record Slip.default {
  public_key = public_key;
  amount = slip.amount;
  block_id = slip.block_id;
  tx_ordinal = slip.tx_ordinal;
  slip_index = slip.slip_index;
  slip_type = slip.slip_type;
}

-- What the loop keeps: the wallet, the inputs, what they are worth, and the keys to remove.
pub record Chosen : Type 0 where
  pub wallet : Wallet
  pub inputs : List Slip
  pub nolan_in : ℕ
  pub used_keys : List Bytes

-- a slip that the payment uses
unfoldable pub use_slip : Bytes → WalletSlip → Chosen → Chosen
unfolding input_of
use_slip key slip c = record {
  wallet = record c.wallet {
    slips = insert key (record slip { spent = true }) c.wallet.slips;
    available_balance = (c.wallet.available_balance + (2 ^ 64 - slip.amount % 2 ^ 64)) % 2 ^ 64;
  };
  inputs = c.inputs ++ input_of c.wallet.public_key slip ∷ [];
  nolan_in = (c.nolan_in + slip.amount) % 2 ^ 64;
  used_keys = c.used_keys ++ slip.utxokey ∷ [];
}

-- The loop over the unspent keys: a slip that is about to be rebroadcast is passed over, and the loop
-- ends when the inputs are worth enough.
unfoldable pub choose_slips : ℕ → ℕ → List Bytes → Chosen → Outcome Chosen
unfolding use_slip
choose_slips nolan_requested oldest [] c = ok c
choose_slips nolan_requested oldest (key ∷ keys) c = do
  slip ← unwrap (get key c.wallet.slips)
  elim (leb slip.block_id oldest) [
    | true ↦ choose_slips nolan_requested oldest keys c
    | false ↦ elim (leb nolan_requested c.nolan_in) [
      | true ↦ ok c
      | false ↦ choose_slips nolan_requested oldest keys (use_slip key slip c)
    ]
  ]

unfoldable pub remove_keys : List Bytes → List Bytes → List Bytes
remove_keys [] unspent = unspent
remove_keys (k ∷ ks) unspent = remove_keys ks (remove_key k unspent)

-- `if inputs.is_empty()`, a slip of no value
unfoldable pub or_empty_slip : Bytes → List Slip → List Slip
or_empty_slip public_key [] = record Slip.default { public_key = public_key } ∷ []
or_empty_slip public_key (s ∷ ss) = s ∷ ss

-- `genesis_period - 1` is an overflow for no genesis period.
unfoldable pub generate_slips : Wallet → ℕ → ℕ → ℕ → Outcome (Wallet × List Slip × List Slip)
unfolding choose_slips remove_keys or_empty_slip
generate_slips w nolan_requested latest_block_id genesis_period = do
  assert (ltb 0 genesis_period)
  let start : Chosen = record { wallet = w; inputs = []; nolan_in = 0; used_keys = [] }
  end ← choose_slips nolan_requested (latest_block_id - (genesis_period - 1)) w.unspent_slips start
  let spent : Wallet = record end.wallet {
    unspent_slips = remove_keys end.used_keys end.wallet.unspent_slips;
  }
  let change : Slip = record Slip.default {
    public_key = w.public_key;
    amount = end.nolan_in - nolan_requested;
  }
  ok (spent, or_empty_slip w.public_key end.inputs, change ∷ [])
