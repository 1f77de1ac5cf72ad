-- ===== src/Mempool.antt =====
-- saito-core/src/core/consensus/mempool.rs: the queue of blocks, the transactions that wait for a block
-- and the routing work they bring. The maps are lists in some order of iteration. The validation of a
-- transaction, the burn fee and the hash are arguments.
mod Tests
pub mod Work
use saito_rust_workspace.Prelude.{
  ℕ, zero, suc, ◌+◌, ◌-◌, ◌*◌, ◌/◌, ◌%◌, ◌^◌, ◌≤◌, ◌<◌, min, max, ◌≡◌, ◌≢◌, ◌↔◌, ◌⊎◌, refl, sym, ap,
  ap₂, ◌∙◌, fun_ext, Bool, true, false, not, ◌&&◌, ◌||◌, Option, none, some, inl, inr, List, [],
  ◌∷◌, ◌++◌, map, reverse, append-nil, append_assoc, arith, dec_lt, ℕ_discrete, ltb, leb, ◌==◌,
  if◌then◌else◌, ltb→lt, lt→ltb, leb→le, ==_iff, tests, Bool-cases, Option-cases, length, get_elem?,
  set, get_or, take, drop, replicate, length-append, length-set, length-take, length-drop,
  length-map, take-append-drop, All, any, keep_if, All-append, All-append_left, All-append_right,
  get_elem?_in_range, lt_of_get_elem?, get_elem?-append_end, All-set, All-get, any-append_end,
  get_elem?-set_self, get_elem?-set_ne, length-replicate, length-reverse,
}
use saito_rust_workspace.Bytes.{
  Bytes, AreBytes, IsArray, to_be_bytes, from_be_bytes, slice, index, bytes_eq, concat, zeros,
}
use saito_rust_workspace.Bytes.Endian.{
  length-to_be_bytes, to_be_bytes-AreBytes, from_be_bytes-to_be_bytes, to_be_bytes-from_be_bytes,
  from_be_bytes-lt,
}
use saito_rust_workspace.Bytes.Slices.{
  slice-append_skip, slice-append_self, slice-eq-ok, index-append_skip, bytes_eq_iff, bytes_eq_refl,
  slice_split, index_split, slice_in_range, drop-length, slice-IsArray, index-lt, zeros-IsArray,
  index_in_range,
}
use saito_rust_workspace.Outcome.{
  Outcome, ok, err, panic, ◌>>=◌, ◌>>◌, check, assert, ok_or, unwrap, >>=-eq-ok, ErrorKind,
  invalid_input, invalid_data, not_found,
}
use saito_rust_workspace.Eq.{bytes_key}
use saito_rust_workspace.HashMap.{HashMap, get, insert, remove, contains_key}
use saito_rust_workspace.GoldenTicket
use saito_rust_workspace.Slip
use saito_rust_workspace.Slip.{Slip, UtxoSet}
use saito_rust_workspace.Transaction.{Transaction, fee, golden_ticket, normal}
use saito_rust_workspace.Transaction.Generate as Tx
use saito_rust_workspace.Transaction.Generate.{type_eq}
use saito_rust_workspace.Block.{Block}

pub record Mempool : Type 0 where
  pub blocks_queue : List Block
  pub transactions : HashMap Bytes Transaction
  pub golden_tickets : HashMap Bytes (Transaction × Bool)
  pub routing_work_in_mempool : ℕ
  pub new_tx_added : Bool
  pub utxo_map : HashMap Bytes ℕ

unfoldable pub new : Mempool
new = record {
  blocks_queue = [];
  transactions = [];
  golden_tickets = [];
  routing_work_in_mempool = 0;
  new_tx_added = false;
  utxo_map = [];
}

unfoldable pub add_block : Mempool → Block → Mempool
add_block m block =
    if any (λ b. bytes_eq b.hash block.hash) m.blocks_queue
    then m
    else record m { blocks_queue = m.blocks_queue ++ block ∷ [] }

unfoldable pub add_golden_ticket : Mempool → Transaction → Outcome Mempool
add_golden_ticket m ticket = GoldenTicket.deserialize_from_net ticket.message >>= λ gt. ok (
    if contains_key gt.target m.golden_tickets
    then m
    else record m { golden_tickets = insert gt.target (ticket, false) m.golden_tickets })

-- an input of value that a waiting transaction is known to spend
unfoldable pub spends_known : List Slip → HashMap Bytes ℕ → Bool
spends_known inputs utxo_map =
    any (λ input. contains_key input.utxoset_key utxo_map && ltb 0 input.amount) inputs

unfoldable pub note_inputs : List Slip → HashMap Bytes ℕ → HashMap Bytes ℕ
note_inputs [] utxo_map = utxo_map
note_inputs (s ∷ ss) utxo_map = note_inputs ss (insert s.utxoset_key 1 utxo_map)

-- A golden ticket here is a panic.
unfoldable pub add_transaction : Mempool → Transaction → Outcome Mempool
unfolding spends_known note_inputs
add_transaction m tx =
    elim (spends_known tx.from m.utxo_map || contains_key tx.signature m.transactions) [
      | true ↦ ok m
      | false ↦ elim (type_eq tx.transaction_type golden_ticket) [
        | true ↦ panic
        | false ↦ ok (record m {
          routing_work_in_mempool = (m.routing_work_in_mempool + tx.total_work_for_me) % 2 ^ 64;
          transactions = insert tx.signature tx m.transactions;
          new_tx_added = true;
          utxo_map = note_inputs tx.from m.utxo_map;
        })
      ]
    ]

unfoldable pub add_transaction_if_validates :
    (Bytes → Bytes) → (Transaction → Bool) → Mempool → Bytes → Transaction → Outcome Mempool
unfolding add_transaction
add_transaction_if_validates hash validate m public_key tx = do
  generated ← Tx.generate hash tx public_key 0 0
  elim (validate generated) [ true ↦ add_transaction m generated | false ↦ ok m ]

unfoldable pub get_routing_work_available : Mempool → ℕ
get_routing_work_available m = m.routing_work_in_mempool

unfoldable pub delete_block : Mempool → Bytes → Mempool
delete_block m block_hash = record m { golden_tickets = remove block_hash m.golden_tickets }

unfoldable pub delete_each : List Transaction → Mempool → Outcome Mempool
delete_each [] m = ok m
delete_each (tx ∷ txs) m = elim (type_eq tx.transaction_type golden_ticket) [
  | true ↦ GoldenTicket.deserialize_from_net tx.message >>= λ gt.
      delete_each txs (record m { golden_tickets = remove gt.target m.golden_tickets })
  | false ↦ delete_each txs (record m { transactions = remove tx.signature m.transactions })
]

-- the loop over the transactions that stay
unfoldable pub sum_work : HashMap Bytes Transaction → ℕ → ℕ
sum_work [] work = work
sum_work ((k, tx) ∷ txs) work = sum_work txs ((work + tx.total_work_for_me) % 2 ^ 64)

unfoldable pub delete_transactions : Mempool → List Transaction → Outcome Mempool
unfolding delete_each sum_work
delete_transactions m txs = delete_each txs m >>= λ left.
    ok (record left { routing_work_in_mempool = sum_work left.transactions 0 })

-- `validate_against_utxoset` of a transaction
unfoldable pub validate_against_utxoset : Transaction → UtxoSet → Bool
validate_against_utxoset tx utxoset =
    if type_eq tx.transaction_type fee
    then true
    else not (any (λ input. not (Slip.validate input utxoset)) tx.from)

-- `self.transactions.retain(..)` and then `delete_transactions`, as the blockchain calls them
unfoldable pub remove_block_transactions : Mempool → UtxoSet → List Transaction → Outcome Mempool
unfolding delete_transactions validate_against_utxoset
remove_block_transactions m utxoset txs =
    delete_transactions
      (record m {
        transactions = keep_if (λ e. validate_against_utxoset e.1 utxoset) m.transactions;
      })
      txs

-- the transactions of a block that failed and that is ours
unfoldable pub add_back : (Transaction → Bool) → Mempool → List Transaction → Mempool
add_back validate m [] = m
add_back validate m (tx ∷ txs) =
    add_back validate
      (if type_eq tx.transaction_type normal && validate tx
        then record m { transactions = insert tx.signature tx m.transactions }
        else m)
      txs

unfoldable pub add_block_transactions_back :
    (Transaction → Bool) → Bytes → Mempool → Block → Mempool
unfolding add_back
add_block_transactions_back validate public_key m block =
    if bytes_eq block.creator public_key
    then record (add_back validate m block.transactions) { new_tx_added = true }
    else m
