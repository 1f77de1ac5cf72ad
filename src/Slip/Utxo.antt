-- ===== src/Slip/Utxo.antt =====
-- A slip and the UTXO set: `on_chain_reorganization`, `validate` and `delete` of
-- saito-core/src/core/consensus/slip.rs.
use saito_rust_workspace.Prelude.{
  ◌≡◌, Bool, true, false, not, ◌&&◌, ◌||◌, none, some, arith, ltb, if◌then◌else◌,
}
use saito_rust_workspace.Bytes.{Bytes, bytes_eq}
use saito_rust_workspace.Bytes.Slices.{bytes_eq_refl}
use saito_rust_workspace.Eq.{bytes_key}
use saito_rust_workspace.HashMap.{get, get-insert, get-remove}
use saito_rust_workspace.Slip.{
  Slip, UtxoSet, on_chain_reorganization, validate, delete, get_utxoset_key,
}

-- What a reorganisation leaves at a key: at the slip's own key, if the slip has a value, `true`
-- when it becomes spendable and nothing when it is spent; elsewhere what was there.
pub get-on_chain_reorganization :
    (s : Slip) (u : UtxoSet) (spendable : Bool) (k : Bytes)
    → get k (on_chain_reorganization s u spendable) ≡ (
        if ltb 0 s.amount && bytes_eq s.utxoset_key k
        then (if spendable then some true else none)
        else get k u)
unfolding on_chain_reorganization
get-on_chain_reorganization s u true k = ground (arith, get-insert s.utxoset_key k true u)
get-on_chain_reorganization s u false k = ground (arith, get-remove s.utxoset_key k u)

-- A slip is valid just after it became spendable; just after it was spent it is valid only if it
-- has no value.
pub validate-on_chain_reorganization :
    (s : Slip) (u : UtxoSet) (spendable : Bool)
    → validate s (on_chain_reorganization s u spendable) ≡ (spendable || not (ltb 0 s.amount))
unfolding validate
validate-on_chain_reorganization s u spendable =
    ground
      (arith, get-on_chain_reorganization s u spendable s.utxoset_key, bytes_eq_refl s.utxoset_key)

-- `delete` refuses a slip whose key is all zeros; it clears the entry of any other, and no more.
pub get-delete :
    (s : Slip) (u : UtxoSet) (k : Bytes)
    → get k (delete s u).0
      ≡ (if (delete s u).1 && bytes_eq (get_utxoset_key s) k then none else get k u)
unfolding delete
get-delete s u k = ground (arith, get-remove (get_utxoset_key s) k u)
