-- ===== src/Block/Generate.antt =====
-- `generate` of saito-core/src/core/consensus/block.rs: what a block works out about itself from its
-- transactions, and the search for a slip that it spends twice. The hash is an argument.
use saito_rust_workspace.Prelude.{
  ℕ, ◌+◌, ◌%◌, ◌^◌, Bool, true, false, not, ◌&&◌, ◌||◌, Option, none, some, List, [], ◌∷◌, ◌++◌,
  ltb, ◌==◌, if◌then◌else◌, length, any, keep_if,
}
use saito_rust_workspace.Bytes.{Bytes, bytes_eq, zeros}
use saito_rust_workspace.Outcome.{Outcome, ok, panic, ◌>>=◌, unwrap}
use saito_rust_workspace.Eq.{bytes_key}
use saito_rust_workspace.HashMap.{HashMap, get, insert, contains_key}
use saito_rust_workspace.Slip
use saito_rust_workspace.Slip.{Slip}
use saito_rust_workspace.Transaction.{
  fee, golden_ticket, atr, spv, issuance, block_stake, Transaction,
}
use saito_rust_workspace.Transaction.Fees.{generate_cumulative_fees, slip_type_eq}
use saito_rust_workspace.Transaction.Generate as Tx
use saito_rust_workspace.Transaction.Generate.{type_eq}
use saito_rust_workspace.Merkle
use saito_rust_workspace.Block.{Block, generate_pre_hash, generate_hash}

-- the first loop: the transactions know their hash, their fees and their work
unfoldable pub generate_transactions :
    (Bytes → Bytes) → Bytes → ℕ → ℕ → List Transaction → Outcome (List Transaction)
generate_transactions hash creator block_id tx_index [] = ok []
generate_transactions hash creator block_id tx_index (tx ∷ txs) = do
  generated ← Tx.generate hash tx creator tx_index block_id
  let step : ℕ = if type_eq generated.transaction_type spv then generated.txs_replacements else 1
  rest ← generate_transactions hash creator block_id ((tx_index + step) % 2 ^ 64) txs
  ok (generated ∷ rest)

unfoldable pub add_keys : List Slip → HashMap Bytes Bool → HashMap Bytes Bool
add_keys [] known = known
add_keys (s ∷ ss) known = add_keys ss (insert s.public_key true known)

unfoldable pub transaction_keys : List Transaction → HashMap Bytes Bool → HashMap Bytes Bool
unfolding add_keys
transaction_keys [] known = known
transaction_keys (tx ∷ txs) known = transaction_keys txs (add_keys tx.to (add_keys tx.from known))

unfoldable pub generate_transaction_hashmap : Block → Block
unfolding transaction_keys
generate_transaction_hashmap b = elim b.transaction_map [
  | [] ↦ record b { transaction_map = transaction_keys b.transactions [] }
  | (known ∷ more) ↦ b
]

unfoldable pub has_keylist_txs : Block → List Bytes → Bool
has_keylist_txs b keylist = any (λ key. contains_key key b.transaction_map) keylist

abbrev is_nil {ℓ} : {A : Type ℓ} → List A → Bool
is_nil [] = true
is_nil (x ∷ xs) = false

-- the hash at the root, or zeros where there is no transaction
unfoldable pub root_of : Option (Option Merkle.MerkleTreeNode) → Outcome Bytes
root_of none = ok (zeros 32)
root_of (some none) = panic
root_of (some (some root)) = unwrap (Merkle.get_hash root)

unfoldable pub generate_merkle_root : (Bytes → Bytes) → Block → Bool → Bool → Outcome Bytes
unfolding root_of
generate_merkle_root hash b is_browser is_spv =
    elim (is_nil b.transactions && (is_browser || is_spv)) [
      | true ↦ ok b.merkle_root
      | false ↦ Merkle.generate hash b.transactions >>= λ tree. root_of tree
    ]

-- The loop over the inputs of one transaction: the count of each slip of value, and whether the loop
-- reached the end. It stops at a slip that was counted before.
unfoldable pub count_spent : List Slip → HashMap Bytes ℕ → HashMap Bytes ℕ × Bool
count_spent [] spent = (spent, true)
count_spent (s ∷ ss) spent = elim (s.amount == 0) [
  | true ↦ count_spent ss spent
  | false ↦ elim (get (Slip.get_utxoset_key s) spent) [
    | none ↦ count_spent ss (insert (Slip.get_utxoset_key s) 1 spent)
    | some seen ↦ elim (ltb 1 (seen + 1)) [
      | true ↦ (insert (Slip.get_utxoset_key s) (seen + 1) spent, false)
      | false ↦ count_spent ss (insert (Slip.get_utxoset_key s) (seen + 1) spent)
    ]
  ]
]

-- what the sweep over the transactions keeps
pub record Sweep : Type 0 where
  pub cumulative_fees : ℕ
  pub total_work : ℕ
  pub has_golden_ticket : Bool
  pub has_fee_transaction : Bool
  pub has_issuance_transaction : Bool
  pub issuance_transaction_index : ℕ
  pub golden_ticket_index : ℕ
  pub fee_transaction_index : ℕ
  pub spent : HashMap Bytes ℕ
  pub created_hashmap : Bool
  pub rebroadcast_hash : Bytes
  pub total_rebroadcast_slips : ℕ
  pub has_staking_transaction : Bool

-- the `match` on the type of the transaction at index `i`
unfoldable pub note_type : (Bytes → Bytes) → ℕ → Transaction → Sweep → Sweep
unfolding slip_type_eq
note_type hash i tx s = elim tx.transaction_type [
  | issuance ↦ record s { has_issuance_transaction = true; issuance_transaction_index = i }
  | fee ↦ record s { has_fee_transaction = true; fee_transaction_index = i }
  | golden_ticket ↦ record s { has_golden_ticket = true; golden_ticket_index = i }
  | atr ↦ record s {
    rebroadcast_hash = hash (s.rebroadcast_hash ++ Tx.serialize_for_signature tx);
    total_rebroadcast_slips =
        s.total_rebroadcast_slips
        + length (keep_if (λ slip. slip_type_eq slip.slip_type Slip.atr) tx.to);
  }
  | block_stake ↦ record s { has_staking_transaction = true }
  | _ ↦ s
]

-- The sweep from index `i` on: the transactions after it, what it keeps, and whether it ended with no
-- slip spent twice.
unfoldable pub sweep :
    (Bytes → Bytes) → ℕ → List Transaction → Sweep → List Transaction × Sweep × Bool
unfolding note_type count_spent
sweep hash i [] s = ([], s, true)
sweep hash i (tx ∷ txs) s =
    let counted = generate_cumulative_fees tx s.cumulative_fees in
    let work : ℕ = (s.total_work + tx.total_work_for_me) % 2 ^ 64 in
    let checks : Bool = not s.created_hashmap && not (type_eq tx.transaction_type fee) in
    let spends : HashMap Bytes ℕ × Bool =
      if checks then count_spent tx.from s.spent else (s.spent, true) in
    let counting : Sweep = record s {
      cumulative_fees = counted.1;
      total_work = work;
      spent = spends.0;
    } in
    let noted : Sweep =
      note_type hash i counted.0
        (record counting { created_hashmap = s.created_hashmap || checks }) in
    let rest = sweep hash (i + 1) txs noted in
    if spends.1 then (counted.0 ∷ rest.0, rest.1, rest.2) else (counted.0 ∷ txs, counting, false)

-- what the sweep leaves in the block, on either end
abbrev pub swept : Block → List Transaction × Sweep × Bool → Block
swept b (txs, s, success) = record b {
  transactions = txs;
  slips_spent_this_block = s.spent;
  created_hashmap_of_slips_spent_this_block = s.created_hashmap;
  rebroadcast_hash = s.rebroadcast_hash;
  total_rebroadcast_slips = s.total_rebroadcast_slips;
  has_staking_transaction = s.has_staking_transaction;
  has_fee_transaction = if success then s.has_fee_transaction else b.has_fee_transaction;
  has_golden_ticket = if success then s.has_golden_ticket else b.has_golden_ticket;
  has_issuance_transaction =
      if success then s.has_issuance_transaction else b.has_issuance_transaction;
  fee_transaction_index = if success then s.fee_transaction_index else b.fee_transaction_index;
  golden_ticket_index = if success then s.golden_ticket_index else b.golden_ticket_index;
  issuance_transaction_index =
      if success then s.issuance_transaction_index else b.issuance_transaction_index;
  total_work = if success then s.total_work else b.total_work;
}

-- where the sweep starts
abbrev pub sweep_start : Block → Sweep
sweep_start b = record {
  cumulative_fees = 0;
  total_work = 0;
  has_golden_ticket = false;
  has_fee_transaction = false;
  has_issuance_transaction = false;
  issuance_transaction_index = 0;
  golden_ticket_index = 0;
  fee_transaction_index = 0;
  spent = b.slips_spent_this_block;
  created_hashmap = b.created_hashmap_of_slips_spent_this_block;
  rebroadcast_hash = b.rebroadcast_hash;
  total_rebroadcast_slips = b.total_rebroadcast_slips;
  has_staking_transaction = b.has_staking_transaction;
}

-- everything before the sweep
unfoldable pub generate_header : (Bytes → Bytes) → Block → Outcome Block
unfolding generate_transactions generate_transaction_hashmap generate_merkle_root
generate_header hash b = do
  txs ← generate_transactions hash b.creator b.id 0 b.transactions
  let generated : Block =
      generate_transaction_hashmap
        (record b { total_rebroadcast_slips = 0; rebroadcast_hash = zeros 32; transactions = txs })
  root ← elim (bytes_eq generated.merkle_root (zeros 32)) [
    | true ↦ generate_merkle_root hash generated false false
    | false ↦ ok generated.merkle_root
  ]
  ok (generate_hash hash (generate_pre_hash hash (record generated { merkle_root = root })))

-- the block, and whether it has no error
unfoldable pub generate : (Bytes → Bytes) → Block → Outcome (Block × Bool)
unfolding generate_header sweep
generate hash b = do
  generated ← generate_header hash b
  let end = sweep hash 0 generated.transactions (sweep_start generated)
  ok (swept generated end, end.2)
