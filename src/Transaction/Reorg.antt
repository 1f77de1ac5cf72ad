-- ===== src/Transaction/Reorg.antt =====
-- `on_chain_reorganization` and `delete` of saito-core/src/core/consensus/transaction.rs: what a
-- transaction does to the UTXO set when its block joins or leaves the longest chain.
use saito_rust_workspace.Prelude.{
  ◌≡◌, refl, Bool, true, false, ◌&&◌, none, some, List, [], ◌∷◌, arith, ltb, if◌then◌else◌, any,
}
use saito_rust_workspace.Bytes.{Bytes, bytes_eq}
use saito_rust_workspace.Eq.{bytes_key}
use saito_rust_workspace.HashMap.{get}
use saito_rust_workspace.Slip
use saito_rust_workspace.Slip.{Slip, UtxoSet}
use saito_rust_workspace.Slip.Utxo.{get-on_chain_reorganization}
use saito_rust_workspace.Transaction.{Transaction}

-- `slips.iter().for_each(|slip| slip.on_chain_reorganization(utxoset, spendable))`
unfoldable pub reorganize_slips : List Slip → UtxoSet → Bool → UtxoSet
reorganize_slips [] utxoset spendable = utxoset
reorganize_slips (s ∷ ss) utxoset spendable =
    reorganize_slips ss (Slip.on_chain_reorganization s utxoset spendable) spendable

unfoldable pub on_chain_reorganization : Transaction → UtxoSet → Bool → UtxoSet
on_chain_reorganization tx utxoset longest_chain =
    let input_slip_spendable = if longest_chain then false else true in
    let output_slip_spendable = if longest_chain then true else false in
    reorganize_slips tx.to (reorganize_slips tx.from utxoset input_slip_spendable)
      output_slip_spendable

unfoldable pub delete_slips : List Slip → UtxoSet → UtxoSet
delete_slips [] utxoset = utxoset
delete_slips (s ∷ ss) utxoset = delete_slips ss (Slip.delete s utxoset).0

unfoldable pub delete : Transaction → UtxoSet → UtxoSet × Bool
unfolding delete_slips
delete tx utxoset = (delete_slips tx.to (delete_slips tx.from utxoset), true)

-- one of the slips has a value and is cached under the key
abbrev pub holds : Bytes → List Slip → Bool
holds k ss = any (λ s. ltb 0 s.amount && bytes_eq s.utxoset_key k) ss

-- What a list of slips leaves at a key.
pub get-reorganize_slips :
    (ss : List Slip) (u : UtxoSet) (spendable : Bool) (k : Bytes)
    → get k (reorganize_slips ss u spendable)
      ≡ (if holds k ss then (if spendable then some true else none) else get k u)
unfolding reorganize_slips
get-reorganize_slips [] u spendable k = refl
get-reorganize_slips (s ∷ ss) u spendable k = ground (
  arith,
  get-reorganize_slips ss (Slip.on_chain_reorganization s u spendable) spendable k,
  get-on_chain_reorganization s u spendable k,
)

-- A transaction can be applied to a UTXO set: it spends what is there, and makes what is not.
pub record IsApplicable (tx : Transaction) (u : UtxoSet) : Type 0 where
  pub inputs_spendable : (k : Bytes) → holds k tx.from ≡ true → get k u ≡ some true
  pub outputs_fresh : (k : Bytes) → holds k tx.to ≡ true → get k u ≡ none

-- When its block joins the longest chain the outputs of value are spendable, the inputs of value
-- are gone, and nothing else changes.
pub get-on_chain_reorganization_wind :
    (tx : Transaction) (u : UtxoSet) (k : Bytes)
    → get k (on_chain_reorganization tx u true)
      ≡ (if holds k tx.to then some true else (if holds k tx.from then none else get k u))
unfolding on_chain_reorganization
get-on_chain_reorganization_wind tx u k = ground (
  arith,
  get-reorganize_slips tx.from u false k,
  get-reorganize_slips tx.to (reorganize_slips tx.from u false) true k,
)

-- Winding an applicable transaction and unwinding it gives back the UTXO set, at every key.
pub on_chain_reorganization_undo :
    (tx : Transaction) (u : UtxoSet)
    → IsApplicable tx u
    → (k : Bytes)
    → get k (on_chain_reorganization tx (on_chain_reorganization tx u true) false) ≡ get k u
unfolding on_chain_reorganization
on_chain_reorganization_undo tx u a k = ground (
  arith,
  get-on_chain_reorganization_wind tx u k,
  get-reorganize_slips tx.from (on_chain_reorganization tx u true) true k,
  get-reorganize_slips tx.to (reorganize_slips tx.from (on_chain_reorganization tx u true) true)
      false k,
  a.inputs_spendable k,
  a.outputs_fresh k,
)
