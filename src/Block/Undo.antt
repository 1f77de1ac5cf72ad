-- ===== src/Block/Undo.antt =====
-- A block joins and leaves the longest chain: `on_chain_reorganization` of
-- saito-core/src/core/consensus/block.rs and the UTXO set.
use saito_rust_workspace.Prelude.{
  ◌≡◌, refl, Bool, true, false, ◌&&◌, ◌||◌, none, some, List, [], ◌∷◌, arith, if◌then◌else◌,
}
use saito_rust_workspace.Bytes.{Bytes}
use saito_rust_workspace.Eq.{bytes_key}
use saito_rust_workspace.HashMap.{get}
use saito_rust_workspace.Slip.{UtxoSet}
use saito_rust_workspace.Transaction.{Transaction}
use saito_rust_workspace.Transaction.Reorg
use saito_rust_workspace.Transaction.Reorg.{
  holds, reorganize_slips, get-reorganize_slips, delete_slips,
}
use saito_rust_workspace.Block.{Block, reorganize_transactions, on_chain_reorganization}

-- an output of value of some transaction is cached under the key
unfoldable pub makes : Bytes → List Transaction → Bool
makes k [] = false
makes k (tx ∷ txs) = holds k tx.to || makes k txs

-- an input of value of some transaction is cached under the key
unfoldable pub spends : Bytes → List Transaction → Bool
spends k [] = false
spends k (tx ∷ txs) = holds k tx.from || spends k txs

get-reorganize_transactions :
    (txs : List Transaction) (u : UtxoSet) (longest_chain : Bool) (k : Bytes)
    → makes k txs && spends k txs ≡ false
    → get k (reorganize_transactions txs u longest_chain) ≡ (
        if makes k txs
        then (if longest_chain then some true else none)
        else (if spends k txs then (if longest_chain then none else some true) else get k u))
unfolding reorganize_transactions makes spends Reorg.on_chain_reorganization
get-reorganize_transactions [] u longest_chain k apart = refl
get-reorganize_transactions (tx ∷ txs) u true k apart = ground (
  arith,
  get-reorganize_slips tx.from u false k,
  get-reorganize_slips tx.to (reorganize_slips tx.from u false) true k,
  get-reorganize_transactions txs (Reorg.on_chain_reorganization tx u true) true k
      (ground (arith, apart)),
)
get-reorganize_transactions (tx ∷ txs) u false k apart = ground (
  arith,
  get-reorganize_slips tx.from u true k,
  get-reorganize_slips tx.to (reorganize_slips tx.from u true) false k,
  get-reorganize_transactions txs (Reorg.on_chain_reorganization tx u false) false k
      (ground (arith, apart)),
)

-- A block can be applied to a UTXO set: it spends what is there before the block, and makes what is
-- not.
pub record IsApplicable (b : Block) (u : UtxoSet) : Type 0 where
  pub inputs_spendable : (k : Bytes) → spends k b.transactions ≡ true → get k u ≡ some true
  pub outputs_fresh : (k : Bytes) → makes k b.transactions ≡ true → get k u ≡ none

-- A block that can be applied to a UTXO set and joins the longest chain makes its outputs of value
-- spendable and takes its inputs of value away; and leaving the longest chain it gives back the UTXO
-- set, at every key, although its transactions are undone in the order in which they were done.
pub on_chain_reorganization-undo :
    (b : Block) (u : UtxoSet)
    → IsApplicable b u
    → (k : Bytes)
    → let joined = on_chain_reorganization b u true in
      let left = on_chain_reorganization joined.0 joined.1 false in
      (get k joined.1 ≡ (
        if makes k b.transactions
        then some true
        else (if spends k b.transactions then none else get k u)))
      × (get k left.1 ≡ get k u)
      × (left.0.in_longest_chain ≡ false)
unfolding on_chain_reorganization
on_chain_reorganization-undo b u a k =
    let apart : makes k b.transactions && spends k b.transactions ≡ false =
      ground (arith, a.inputs_spendable k, a.outputs_fresh k) in
    let joined = reorganize_transactions b.transactions u true in
    (
      get-reorganize_transactions b.transactions u true k apart,
      ground (
        arith,
        get-reorganize_transactions b.transactions u true k apart,
        get-reorganize_transactions b.transactions joined false k apart,
        a.inputs_spendable k,
        a.outputs_fresh k,
      ),
      refl,
    )
