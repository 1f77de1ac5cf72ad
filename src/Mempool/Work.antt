-- ===== src/Mempool/Work.antt =====
-- The routing work and the known inputs of saito-core/src/core/consensus/mempool.rs.
use saito_rust_workspace.Prelude.{
  ℕ, ◌+◌, ◌%◌, ◌^◌, ◌<◌, ◌≡◌, refl, ap, ◌∙◌, true, false, ◌&&◌, ◌||◌, inl, inr, List, [], ◌∷◌,
  arith, ltb, Bool-cases, any,
}
use saito_rust_workspace.Bytes.{Bytes, bytes_eq}
use saito_rust_workspace.Bytes.Slices.{bytes_eq_iff}
use saito_rust_workspace.Outcome.{ok}
use saito_rust_workspace.Eq.{bytes_key}
use saito_rust_workspace.HashMap.{HashMap, get, insert, remove, contains_key, get-insert}
use saito_rust_workspace.Outcome.{Gives, Gives-bind, Gives-unit, given}
use saito_rust_workspace.GoldenTicket
use saito_rust_workspace.Slip.{Slip}
use saito_rust_workspace.Transaction.{Transaction, golden_ticket}
use saito_rust_workspace.Transaction.Generate.{type_eq}
use saito_rust_workspace.Mempool.{
  Mempool, spends_known, note_inputs, add_transaction, delete_each, sum_work, delete_transactions,
}

-- what the waiting transactions bring, with no wrap
unfoldable pub work_of : HashMap Bytes Transaction → ℕ
work_of [] = 0
work_of ((k, tx) ∷ txs) = tx.total_work_for_me + work_of txs

sum_work-eq :
    (txs : HashMap Bytes Transaction) (work : ℕ)
    → work < 2 ^ 64
    → sum_work txs work ≡ (work + work_of txs) % 2 ^ 64
unfolding sum_work work_of
sum_work-eq [] work fits = omega (arith, fits)
sum_work-eq ((k, tx) ∷ txs) work fits =
    sum_work-eq txs ((work + tx.total_work_for_me) % 2 ^ 64) (omega arith) ∙ (omega arith)

work_of-insert :
    (k : Bytes) (tx : Transaction) (txs : HashMap Bytes Transaction)
    → contains_key k txs ≡ false
    → work_of (insert k tx txs) ≡ work_of txs + tx.total_work_for_me
unfolding work_of insert contains_key get
work_of-insert k tx [] fresh = omega arith
work_of-insert k tx ((j, u) ∷ txs) fresh =
    let other : bytes_eq j k ≡ false = ground (arith, fresh) in
    let below : contains_key k txs ≡ false = ground (arith, fresh, other) in
    rw (other) (omega (arith, work_of-insert k tx txs below))

-- The counter is what the waiting transactions bring, as a `u64`.
abbrev pub HasWork : Mempool → Type 0
HasWork m = m.routing_work_in_mempool ≡ work_of m.transactions % 2 ^ 64

add_transaction-HasWork :
    (m : Mempool) (tx : Transaction) → HasWork m → Gives HasWork (add_transaction m tx)
unfolding add_transaction
add_transaction-HasWork m tx h =
    elim (Bool-cases
      (spends_known tx.from m.utxo_map || contains_key tx.signature m.transactions)) [
        | inl known ↦ rw (add_transaction, known) h
        | inr fresh ↦ elim (Bool-cases (type_eq tx.transaction_type golden_ticket)) [
          | inl ticket ↦ rw (add_transaction, fresh, ticket) tt
          | inr other ↦
              let absent : contains_key tx.signature m.transactions ≡ false =
                ground (arith, fresh) in
              rw (add_transaction, fresh, other)
                (omega (arith, h, work_of-insert tx.signature tx m.transactions absent))
        ]
      ]

-- Whatever the counter was, it is right after some transactions are deleted, and it stays right when a
-- transaction is added.
pub delete_transactions-HasWork :
    (m n : Mempool) (txs : List Transaction)
    → delete_transactions m txs ≡ ok n
    → HasWork n × ((tx : Transaction) → Gives HasWork (add_transaction n tx))
unfolding delete_transactions
delete_transactions-HasWork m n txs e =
    let all : Gives HasWork (delete_transactions m txs) =
      Gives-bind (λ left. Unit {0}) HasWork (delete_each txs m) _ (Gives-unit (delete_each txs m))
        (λ left p. sum_work-eq left.transactions 0 (omega arith) ∙ (omega arith)) in
    let right : HasWork n = given HasWork (delete_transactions m txs) e all in
    (right, λ tx. add_transaction-HasWork n tx right)

note_inputs-keeps :
    (ss : List Slip) (known : HashMap Bytes ℕ) (k : Bytes)
    → contains_key k known ≡ true
    → contains_key k (note_inputs ss known) ≡ true
unfolding note_inputs contains_key
note_inputs-keeps [] known k h = h
note_inputs-keeps (s ∷ ss) known k h =
    note_inputs-keeps ss (insert s.utxoset_key 1 known) k
      (ground (arith, h, get-insert s.utxoset_key k 1 known))

note_inputs-has :
    (ss : List Slip) (known : HashMap Bytes ℕ) (k : Bytes)
    → any (λ s. bytes_eq s.utxoset_key k) ss ≡ true
    → contains_key k (note_inputs ss known) ≡ true
unfolding note_inputs contains_key
note_inputs-has [] known k h = cc (h)
note_inputs-has (s ∷ ss) known k h = elim (Bool-cases (bytes_eq s.utxoset_key k)) [
  | inl same ↦
      note_inputs-keeps ss (insert s.utxoset_key 1 known) k
        (ground (arith, same, get-insert s.utxoset_key k 1 known))
  | inr other ↦ note_inputs-has ss (insert s.utxoset_key 1 known) k (ground (arith, other, h))
]

-- a slip of value under a key of the list
spends_known-shared :
    (ss : List Slip) (known : HashMap Bytes ℕ) (k : Bytes)
    → contains_key k known ≡ true
    → any (λ s. bytes_eq s.utxoset_key k && ltb 0 s.amount) ss ≡ true
    → spends_known ss known ≡ true
unfolding spends_known contains_key
spends_known-shared [] known k h here = cc (here)
spends_known-shared (s ∷ ss) known k h here =
    ground (arith, h, here, bytes_eq_iff s.utxoset_key k, spends_known-shared ss known k h)

delete_each-utxo_map :
    (txs : List Transaction) (m : Mempool)
    → Gives (λ n. n.utxo_map ≡ m.utxo_map) (delete_each txs m)
unfolding delete_each
delete_each-utxo_map [] m = refl
delete_each-utxo_map (tx ∷ txs) m = elim (Bool-cases (type_eq tx.transaction_type golden_ticket)) [
  | inl ticket ↦
      rw (delete_each, ticket)
        (Gives-bind (λ gt. Unit {0}) (λ n. n.utxo_map ≡ m.utxo_map)
          (GoldenTicket.deserialize_from_net tx.message) _
          (Gives-unit (GoldenTicket.deserialize_from_net tx.message))
          (λ gt p.
            delete_each-utxo_map txs
              (record m { golden_tickets = remove gt.target m.golden_tickets })))
  | inr other ↦
      rw (delete_each, other)
        (delete_each-utxo_map txs (record m { transactions = remove tx.signature m.transactions }))
]

-- Once a transaction that spends the slip under `k` was added, and whatever transactions are deleted
-- after it, itself among them, no transaction with an input of value under `k` is added any more: the
-- mempool stays as it is.
pub delete_transactions-blocked :
    (m n p : Mempool) (tx again : Transaction) (txs : List Transaction) (k : Bytes)
    → spends_known tx.from m.utxo_map || contains_key tx.signature m.transactions ≡ false
    → any (λ s. bytes_eq s.utxoset_key k) tx.from ≡ true
    → add_transaction m tx ≡ ok n
    → delete_transactions n txs ≡ ok p
    → any (λ s. bytes_eq s.utxoset_key k && ltb 0 s.amount) again.from ≡ true
    → add_transaction p again ≡ ok p
unfolding add_transaction delete_transactions
delete_transactions-blocked m n p tx again txs k fresh spends added deleted spends_too =
    let Noted : Mempool → Type 0 = λ q. contains_key k q.utxo_map ≡ true in
    let first : Gives Noted (add_transaction m tx) =
      elim (Bool-cases (type_eq tx.transaction_type golden_ticket)) [
        | inl ticket ↦ rw (add_transaction, fresh, ticket) tt
        | inr other ↦
            rw (add_transaction, fresh, other) (note_inputs-has tx.from m.utxo_map k spends)
      ] in
    let second : Gives (λ q. q.utxo_map ≡ n.utxo_map) (delete_transactions n txs) =
      Gives-bind (λ q. q.utxo_map ≡ n.utxo_map) (λ q. q.utxo_map ≡ n.utxo_map) (delete_each txs n) _
        (delete_each-utxo_map txs n) (λ q same. same) in
    let noted : contains_key k p.utxo_map ≡ true =
      ap (contains_key k) (given _ (delete_transactions n txs) deleted second)
      ∙ given Noted (add_transaction m tx) added first in
    let known : spends_known again.from p.utxo_map ≡ true =
      spends_known-shared again.from p.utxo_map k noted spends_too in
    rw (add_transaction, known) refl
