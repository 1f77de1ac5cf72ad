-- ===== src/Wallet.antt =====
-- saito-core/src/core/consensus/wallet.rs: the slips of the wallet and its balance. The sets and maps
-- are lists in some order of iteration. The NFTs keep the fields that tell them apart; the keys, the
-- file and the versions of the wallet are left out, but for the public key.
pub mod Chain
mod Tests
pub mod Unwind
pub mod Reorg
pub mod Spend
pub mod Balance
use saito_rust_workspace.Prelude.{
  ℕ, zero, suc, ◌+◌, ◌-◌, ◌*◌, ◌/◌, ◌%◌, ◌^◌, ◌≤◌, ◌<◌, min, max, ◌≡◌, ◌≢◌, ◌↔◌, ◌⊎◌, refl, sym, ap,
  ap₂, ◌∙◌, fun_ext, Bool, true, false, not, ◌&&◌, ◌||◌, Option, none, some, inl, inr, List, [],
  ◌∷◌, ◌++◌, map, reverse, append-nil, append_assoc, arith, dec_lt, ℕ_discrete, ltb, leb, ◌==◌,
  if◌then◌else◌, ltb→lt, lt→ltb, leb→le, ==_iff, tests, Bool-cases, Option-cases, length, get_elem?,
  set, get_or, take, drop, replicate, length-append, length-set, length-take, length-drop,
  length-map, take-append-drop, All, any, keep_if, All-append, All-append_left, All-append_right,
  get_elem?_in_range, lt_of_get_elem?, get_elem?-append_end, All-set, All-get, any-append_end,
  get_elem?-set_self, get_elem?-set_ne, length-replicate, length-reverse,
}
use saito_rust_workspace.Bytes.{
  Bytes, AreBytes, IsArray, to_be_bytes, from_be_bytes, slice, index, bytes_eq, concat, zeros,
}
use saito_rust_workspace.Bytes.Endian.{
  length-to_be_bytes, to_be_bytes-AreBytes, from_be_bytes-to_be_bytes, to_be_bytes-from_be_bytes,
  from_be_bytes-lt,
}
use saito_rust_workspace.Bytes.Slices.{
  slice-append_skip, slice-append_self, slice-eq-ok, index-append_skip, bytes_eq_iff, bytes_eq_refl,
  slice_split, index_split, slice_in_range, drop-length, slice-IsArray, index-lt, zeros-IsArray,
  index_in_range,
}
use saito_rust_workspace.Outcome.{
  Outcome, ok, err, panic, ◌>>=◌, ◌>>◌, check, assert, ok_or, unwrap, >>=-eq-ok, ErrorKind,
  invalid_input, invalid_data, not_found,
}
use saito_rust_workspace.Eq.{bytes_key}
use saito_rust_workspace.HashMap.{HashMap, get, insert, remove, contains_key}
use saito_rust_workspace.Slip
use saito_rust_workspace.Slip.{Slip, SlipType}
use saito_rust_workspace.Transaction.{Transaction, golden_ticket}
use saito_rust_workspace.Transaction.Generate.{type_eq}

pub record WalletSlip : Type 0 where
  pub utxokey : Bytes
  pub amount : ℕ
  pub block_id : ℕ
  pub tx_ordinal : ℕ
  pub lc : Bool
  pub slip_index : ℕ
  pub spent : Bool
  pub slip_type : SlipType

pub record Nft : Type 0 where
  pub slip1 : Bytes
  pub slip2 : Bytes
  pub slip3 : Bytes
  pub id : Bytes
  pub tx_sig : Bytes

pub record Wallet : Type 0 where
  pub public_key : Bytes
  pub slips : HashMap Bytes WalletSlip
  pub unspent_slips : List Bytes
  pub staking_slips : List Bytes
  pub available_balance : ℕ
  pub pending_txs : HashMap Bytes Transaction
  pub nfts : List Nft

-- `contains` of a set of keys
unfoldable pub has_key : Bytes → List Bytes → Bool
has_key k [] = false
has_key k (j ∷ ks) = bytes_eq j k || has_key k ks

-- `insert` into a set
unfoldable pub insert_key : Bytes → List Bytes → List Bytes
unfolding has_key
insert_key k ks = if has_key k ks then ks else k ∷ ks

-- `remove` from a set
unfoldable pub remove_key : Bytes → List Bytes → List Bytes
remove_key k [] = []
remove_key k (j ∷ ks) = if bytes_eq j k then remove_key k ks else j ∷ remove_key k ks

-- where a slip is kept, by its type
unfoldable pub file_slip : SlipType → Bytes → ℕ → Wallet → Wallet
unfolding insert_key
file_slip Slip.block_stake key amount w = record w {
  staking_slips = insert_key key w.staking_slips;
}
file_slip Slip.bound key amount w = w
file_slip _ key amount w = record w {
  available_balance = (w.available_balance + amount) % 2 ^ 64;
  unspent_slips = insert_key key w.unspent_slips;
}

-- `assert_ne!(block_id, 0)`
unfoldable pub add_slip : Wallet → ℕ → ℕ → Slip → Bool → Outcome Wallet
unfolding file_slip
add_slip w block_id tx_index slip lc =
    let key : Bytes = Slip.get_utxoset_key slip in
    elim (contains_key key w.slips) [
      | true ↦ ok w
      | false ↦ do
        assert (not (block_id == 0))
        let filed : Wallet = file_slip slip.slip_type key slip.amount w
        ok (record filed {
          slips =
              insert key
                (record {
                  utxokey = key;
                  amount = slip.amount;
                  block_id = block_id;
                  tx_ordinal = tx_index;
                  lc = lc;
                  slip_index = slip.slip_index;
                  spent = false;
                  slip_type = slip.slip_type;
                })
                w.slips;
        })
    ]

-- The slip leaves the map; and the balance, where it was unspent.
unfoldable pub delete_key : Wallet → Bytes → Wallet
unfolding has_key remove_key
delete_key w key = elim (get key w.slips) [
  | none ↦ w
  | some removed_slip ↦
      if has_key key w.unspent_slips
      then record w {
        slips = remove key w.slips;
        unspent_slips = remove_key key w.unspent_slips;
        available_balance =
            (w.available_balance + (2 ^ 64 - removed_slip.amount % 2 ^ 64)) % 2 ^ 64;
      }
      else record w { slips = remove key w.slips; staking_slips = remove_key key w.staking_slips }
]

unfoldable pub delete_slip : Wallet → Slip → Wallet
unfolding delete_key
delete_slip w slip = delete_key w slip.utxoset_key

unfoldable pub get_available_balance : Wallet → ℕ
get_available_balance w = w.available_balance

unfoldable pub get_unspent_slip_count : Wallet → ℕ
get_unspent_slip_count w = length w.unspent_slips

-- the keys of the slips that are older than the block
unfoldable pub old_keys : HashMap Bytes WalletSlip → ℕ → List Bytes
old_keys [] block_id = []
old_keys ((key, slip) ∷ slips) block_id =
    let rest = old_keys slips block_id in if ltb slip.block_id block_id then key ∷ rest else rest

-- `parse_slip_from_utxokey(&key).unwrap()`, then `delete_slip`
unfoldable pub delete_keys : Wallet → List Bytes → Outcome Wallet
unfolding delete_slip
delete_keys w [] = ok w
delete_keys w (key ∷ keys) = elim (Slip.parse_slip_from_utxokey key) [
  | ok slip ↦ delete_keys (delete_slip w slip) keys
  | _ ↦ panic
]

unfoldable pub remove_old_slips : Wallet → ℕ → Outcome Wallet
unfolding old_keys delete_keys
remove_old_slips w block_id = delete_keys w (old_keys w.slips block_id)

-- three assertions, the first of them on the first input
unfoldable pub add_to_pending : Wallet → Transaction → Outcome Wallet
add_to_pending w tx = do
  first ← unwrap (get_elem? tx.from 0)
  assert (bytes_eq first.public_key w.public_key)
  assert (not (type_eq tx.transaction_type golden_ticket))
  hash ← unwrap tx.hash_for_signature
  ok (record w { pending_txs = insert hash tx w.pending_txs })

unfoldable pub delete_pending_transaction : Wallet → Transaction → Outcome (Wallet × Bool)
delete_pending_transaction w tx = unwrap tx.hash_for_signature >>= λ hash.
    ok (record w { pending_txs = remove hash w.pending_txs }, contains_key hash w.pending_txs)
