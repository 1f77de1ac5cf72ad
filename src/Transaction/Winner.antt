-- ===== src/Transaction/Winner.antt =====
-- `get_winning_routing_node` of saito-core/src/core/consensus/transaction.rs: the hop that wins the
-- payout of a transaction. A 256-bit number is read from the random hash, which `U256` does.
use saito_rust_workspace.Prelude.{
  ℕ, ◌+◌, ◌/◌, ◌%◌, ◌^◌, ◌≤◌, ◌<◌, ◌≡◌, ◌⊎◌, refl, false, inl, inr, List, [], ◌∷◌, arith, leb, ◌==◌,
  if◌then◌else◌, Bool-cases,
}
use saito_rust_workspace.Bytes.{Bytes, from_be_bytes, zeros}
use saito_rust_workspace.Outcome.{Outcome, ok, panic}
use saito_rust_workspace.Hop.{Hop}
use saito_rust_workspace.Transaction.{Transaction}

-- The loop that fills `work_by_hop` from the second hop on: the sums, and the last of them.
unfoldable pub aggregate_work : List Hop → ℕ → ℕ → List ℕ × ℕ
aggregate_work [] aggregate this_hop = ([], aggregate)
aggregate_work (h ∷ hs) aggregate this_hop =
    let new = this_hop / 2 in
    let sum = (aggregate + new) % 2 ^ 64 in
    let (rest, last) = aggregate_work hs sum new in (sum ∷ rest, last)

-- The search for the first hop whose sum reaches the winning number; `unreachable!` at the end, and
-- a panic where the path is shorter than the sums.
unfoldable pub find_winner : List ℕ → List Hop → ℕ → Outcome Bytes
find_winner [] path winning = panic
find_winner (w ∷ ws) [] winning = if leb winning w then panic else find_winner ws [] winning
find_winner (w ∷ ws) (h ∷ hs) winning = if leb winning w then ok h.to else find_winner ws hs winning

unfoldable pub get_winning_routing_node : Transaction → Bytes → Outcome Bytes
get_winning_routing_node tx random_hash = elim tx.path [
  | [] ↦ elim tx.from [ [] ↦ ok (zeros 33) | s ∷ ss ↦ ok s.public_key ]
  | h ∷ hs ↦
      if tx.total_fees == 0
      then ok (zeros 33)
      else let (rest, aggregate) = aggregate_work hs tx.total_fees tx.total_fees in
        let winning = from_be_bytes random_hash % aggregate % 2 ^ 64 in
        find_winner (tx.total_fees ∷ rest) (h ∷ hs) winning
]

-- some hop of the path ends at the key
abbrev pub EndsHop : Bytes → List Hop → Type 0
EndsHop key [] = ⊥
EndsHop key (h ∷ hs) = (h.to ≡ key) ⊎ EndsHop key hs

-- The last sum is the aggregate, and a number that does not exceed it finds a hop.
find_winner-found :
    (h : Hop) (hs : List Hop) (aggregate this_hop winning : ℕ)
    → winning ≤ (aggregate_work hs aggregate this_hop).1
    → (key : Bytes) × (find_winner
          (aggregate ∷ (aggregate_work hs aggregate this_hop).0)
          (h ∷ hs)
          winning
        ≡ ok key)
      × EndsHop key (h ∷ hs)
unfolding find_winner aggregate_work
find_winner-found h [] aggregate this_hop winning le = (h.to, ground arith, inl refl)
find_winner-found h (g ∷ gs) aggregate this_hop winning le =
    elim (Bool-cases (leb winning aggregate)) [
      | inl here ↦ (h.to, rw here, inl refl)
      | inr later ↦
          let (key, found, on_path) =
            find_winner-found g gs ((aggregate + this_hop / 2) % 2 ^ 64) (this_hop / 2) winning
              le in
          (key, rw later found, inr on_path)
    ]

aggregate_work-pos :
    (hs : List Hop) (aggregate this_hop : ℕ)
    → 0 < aggregate
    → aggregate + this_hop < 2 ^ 64
    → 0 < (aggregate_work hs aggregate this_hop).1
unfolding aggregate_work
aggregate_work-pos [] aggregate this_hop p q = p
aggregate_work-pos (h ∷ hs) aggregate this_hop p q =
    aggregate_work-pos hs ((aggregate + this_hop / 2) % 2 ^ 64) (this_hop / 2) (omega arith)
      (omega arith)

-- A transaction with a path and with fees, twice which fit 64 bits, always has a winner: whatever
-- the random hash, the search ends at a hop of the path, and `unreachable!` is not reached.
pub get_winning_routing_node_total :
    (tx : Transaction) (random_hash : Bytes) (h : Hop) (hs : List Hop)
    → tx.path ≡ h ∷ hs
    → 0 < tx.total_fees
    → tx.total_fees + tx.total_fees < 2 ^ 64
    → (key : Bytes) × (get_winning_routing_node tx random_hash ≡ ok key) × EndsHop key tx.path
unfolding get_winning_routing_node
get_winning_routing_node_total tx random_hash h hs e p q =
    let aggregate = (aggregate_work hs tx.total_fees tx.total_fees).1 in
    let pos : 0 < aggregate = aggregate_work-pos hs tx.total_fees tx.total_fees p q in
    let (key, found, on_path) =
      find_winner-found h hs tx.total_fees tx.total_fees
        (from_be_bytes random_hash % aggregate % 2 ^ 64) (omega arith) in
    let nonzero : (tx.total_fees == 0) ≡ false = ground arith in
    (key, rw (e, nonzero) found, rw e on_path)
